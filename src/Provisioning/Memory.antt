-- ===== src/Provisioning/Memory.antt =====
-- Pointers to strings, and `free`, as rootpa/Code/Common/provisioningengine.c uses them. No block
-- changes between `malloc` and `free`, so its text stands with its address.
use tee_mobicore_driver_daem.Base.{
  ℕ, Bool, true, false, ◌||◌, List, [], ◌∷◌, Option, none, some, if◌then◌else◌, ◌==◌,
}
use tee_mobicore_driver_daem.SeClient.Text.{◌>>=◌}

-- NULL, RELATION_INITIAL_POST, RELATION_INITIAL_DELETE, and a block from `malloc`.
pub data Pointer : Type 0 where
  null initial_post initial_delete : Pointer
  block : ℕ → List ℕ → Pointer

-- The address of the next block, and the addresses that were freed.
pub record Memory : Type 0 where
  pub next : ℕ
  pub freed : List ℕ

abbrev pub elem : ℕ → List ℕ → Bool
elem a [] = false
elem a (b ∷ bs) = (a == b) || elem a bs

-- "initial_post" and "initial_delete"
unfoldable pub initial_post_text : List ℕ
initial_post_text = 105 ∷ 110 ∷ 105 ∷ 116 ∷ 105 ∷ 97 ∷ 108 ∷ 95 ∷ 112 ∷ 111 ∷ 115 ∷ 116 ∷ []

unfoldable pub initial_delete_text : List ℕ
initial_delete_text =
    105 ∷ 110 ∷ 105 ∷ 116 ∷ 105 ∷ 97 ∷ 108 ∷ 95 ∷ 100 ∷ 101 ∷ 108 ∷ 101 ∷ 116 ∷ 101 ∷ []

-- The text, `none` inside for NULL.
abbrev pub load : Pointer → Memory → Option (Option (List ℕ))
load null mem = some none
load initial_post mem = some (some initial_post_text)
load initial_delete mem = some (some initial_delete_text)
load (block a text) mem = if elem a mem.freed then none else some (some text)

abbrev pub free : Pointer → Memory → Option Memory
free null mem = some mem
free initial_post mem = none
free initial_delete mem = none
free (block a text) mem =
    if elem a mem.freed then none else some (record mem { freed = a ∷ mem.freed })

-- A copy in memory, or NULL for no text.
abbrev pub allocate : Option (List ℕ) → ℕ → Pointer
allocate none a = null
allocate (some text) a = block a text

-- `p == q`
abbrev pub same : Pointer → Pointer → Bool
same null null = true
same initial_post initial_post = true
same initial_delete initial_delete = true
same (block a text) (block b text') = a == b
same _ _ = false

abbrev pub is_null : Pointer → Bool
is_null null = true
is_null _ = false

-- `free` of a rel, which may be one of the two constants.
abbrev pub free_rel : Pointer → Memory → Option Memory
free_rel initial_post mem = some mem
free_rel initial_delete mem = some mem
free_rel null mem = some mem
free_rel (block a text) mem = free (block a text) mem

-- The caller's three pointers are NULL after it.
unfoldable pub cleanup : Pointer → Pointer → Pointer → Memory → Option Memory
cleanup link rel command mem = do
  mem' ← free command mem
  mem'' ← free_rel rel mem'
  free link mem''
