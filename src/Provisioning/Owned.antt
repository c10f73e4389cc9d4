-- ===== src/Provisioning/Owned.antt =====
-- Which blocks are the loop's own, rootpa/Code/Common/provisioningengine.c: not freed, and all of
-- them different.
use tee_mobicore_driver_daem.Base.{
  ℕ, ◌+◌, ◌≤◌, ◌<◌, ◌≡◌, refl, Bool, true, false, ◌&&◌, not, List, [], ◌∷◌, ◌++◌, Option, none,
  some, ◌==◌, ltb, arith,
}
use tee_mobicore_driver_daem.Provisioning.Memory.{
  Pointer, Memory, null, initial_post, initial_delete, block, elem, free, free_rel, allocate,
  cleanup,
}

abbrev all_below : ℕ → List ℕ → Bool
all_below n [] = true
all_below n (f ∷ fs) = ltb f n && all_below n fs

-- The address of a block; NULL and the constants are no blocks.
abbrev pub address : Pointer → Option ℕ
address null = none
address initial_post = none
address initial_delete = none
address (block a text) = some a

abbrev pub live : Option ℕ → Memory → Bool
live none mem = true
live (some a) mem = ltb a mem.next && not (elem a mem.freed)

abbrev pub apart : Option ℕ → Option ℕ → Bool
apart none o = true
apart (some a) none = true
apart (some a) (some b) = not (a == b)

abbrev pub away : Option ℕ → List Pointer → Bool
away o [] = true
away o (p ∷ ps) = apart o (address p) && away o ps

-- The blocks that the pointers of the list are to are live, and no two of them are the same.
abbrev pub owned : List Pointer → Memory → Bool
owned [] mem = all_below mem.next mem.freed
owned (p ∷ ps) mem = live (address p) mem && (away (address p) ps && owned ps mem)

-- No constant of the program.
abbrev pub mallocated : Pointer → Bool
mallocated null = true
mallocated (block a text) = true
mallocated initial_post = false
mallocated initial_delete = false

-- The call is defined, and the blocks of these pointers are left.
pub data Freed (ps : List Pointer) (r : Option Memory) : Type 0 where
  freed : (mem : Memory) → r ≡ some mem → owned ps mem ≡ true → Freed ps r

pub owned-tail :
    (p : Pointer) (ps : List Pointer) (mem : Memory)
    → owned (p ∷ ps) mem ≡ true
    → owned ps mem ≡ true
owned-tail p ps mem o = ground arith

all_below-raise : (fs : List ℕ) (n m : ℕ) → n ≤ m → all_below n fs ≡ true → all_below m fs ≡ true
all_below-raise [] n m h o = refl
all_below-raise (f ∷ fs) n m h o = let rest = all_below-raise fs n m h in ground (arith, rest)

live-raise :
    (o : Option ℕ) (n m : ℕ) (fs : List ℕ)
    → n ≤ m
    → live o (record { next = n; freed = fs }) ≡ true
    → live o (record { next = m; freed = fs }) ≡ true
live-raise none n m fs h l = refl
live-raise (some a) n m fs h l = ground arith

owned-raise :
    (ps : List Pointer) (n m : ℕ) (fs : List ℕ)
    → n ≤ m
    → owned ps (record { next = n; freed = fs }) ≡ true
    → owned ps (record { next = m; freed = fs }) ≡ true
owned-raise [] n m fs h o = all_below-raise fs n m h o
owned-raise (p ∷ ps) n m fs h o =
    let here = live-raise (address p) n m fs h in
    let rest = owned-raise ps n m fs h in ground (arith, here, rest)

-- A new address is neither freed nor in use.
apart-new :
    (a : ℕ) (o : Option ℕ) (n : ℕ) (fs : List ℕ)
    → n ≤ a
    → live o (record { next = n; freed = fs }) ≡ true
    → apart (some a) o ≡ true
apart-new a none n fs h l = refl
apart-new a (some b) n fs h l = ground arith

away-new :
    (a : ℕ) (ps : List Pointer) (n : ℕ) (fs : List ℕ)
    → n ≤ a
    → owned ps (record { next = n; freed = fs }) ≡ true
    → away (some a) ps ≡ true
away-new a [] n fs h o = refl
away-new a (p ∷ ps) n fs h o =
    let here = apart-new a (address p) n fs h in
    let rest = away-new a ps n fs h in ground (arith, here, rest)

elem-new : (a n : ℕ) (fs : List ℕ) → n ≤ a → all_below n fs ≡ true → elem a fs ≡ false
elem-new a n [] h o = refl
elem-new a n (f ∷ fs) h o = let rest = elem-new a n fs h in ground (arith, rest)

owned-below :
    (ps : List Pointer) (mem : Memory) → owned ps mem ≡ true → all_below mem.next mem.freed ≡ true
owned-below [] mem o = o
owned-below (p ∷ ps) mem o = owned-below ps mem (owned-tail p ps mem o)

pub away-none : (ps : List Pointer) → away none ps ≡ true
away-none [] = refl
away-none (p ∷ ps) = away-none ps

pub owned-allocate :
    (text : Option (List ℕ)) (n : ℕ) (fs : List ℕ) (ps : List Pointer)
    → owned ps (record { next = n; freed = fs }) ≡ true
    → owned (allocate text n ∷ ps) (record { next = n + 1; freed = fs }) ≡ true
owned-allocate none n fs ps o =
    let rest = owned-raise ps n (n + 1) fs (omega arith) o in
    let alone : away none ps ≡ true = away-none ps in ground (arith, rest, alone)
owned-allocate (some text) n fs ps o =
    let rest = owned-raise ps n (n + 1) fs (omega arith) o in
    let new = elem-new n n fs (omega arith) (owned-below ps (record { next = n; freed = fs }) o) in
    let alone = away-new n ps n fs (omega arith) o in ground (arith, rest, new, alone)

-- What was freed goes from the list.
live-free :
    (a : ℕ) (o : Option ℕ) (mem : Memory)
    → apart (some a) o ≡ true
    → live o mem ≡ true
    → live o (record mem { freed = a ∷ mem.freed }) ≡ true
live-free a none mem w l = refl
live-free a (some b) mem w l = ground arith

owned-free :
    (a : ℕ) (ps : List Pointer) (mem : Memory)
    → a < mem.next
    → away (some a) ps ≡ true
    → owned ps mem ≡ true
    → owned ps (record mem { freed = a ∷ mem.freed }) ≡ true
owned-free a [] mem l w o = ground arith
owned-free a (p ∷ ps) mem l w o =
    let here = live-free a (address p) mem in
    let rest = owned-free a ps mem l in ground (arith, here, rest)

free_rel-Freed :
    (p : Pointer) (ps : List Pointer) (mem : Memory)
    → owned (p ∷ ps) mem ≡ true
    → Freed ps (free_rel p mem)
free_rel-Freed null ps mem o = freed mem refl (owned-tail null ps mem o)
free_rel-Freed initial_post ps mem o = freed mem refl (owned-tail initial_post ps mem o)
free_rel-Freed initial_delete ps mem o = freed mem refl (owned-tail initial_delete ps mem o)
free_rel-Freed (block a text) ps mem o =
    let unfreed : elem a mem.freed ≡ false = ground arith in
    freed (record mem { freed = a ∷ mem.freed }) (rw (unfreed) refl)
      (owned-free a ps mem (ground arith) (ground arith) (ground arith))

pub free-Freed :
    (p : Pointer) (ps : List Pointer) (mem : Memory)
    → mallocated p ≡ true
    → owned (p ∷ ps) mem ≡ true
    → Freed ps (free p mem)
free-Freed null ps mem m o = freed mem refl (owned-tail null ps mem o)
free-Freed initial_post ps mem m o = cc
free-Freed initial_delete ps mem m o = cc
free-Freed (block a text) ps mem m o = free_rel-Freed (block a text) ps mem o

pub cleanup-Freed :
    (link rel command : Pointer) (ps : List Pointer) (mem : Memory)
    → mallocated link ≡ true
    → mallocated command ≡ true
    → owned (command ∷ rel ∷ link ∷ ps) mem ≡ true
    → Freed ps (cleanup link rel command mem)
unfolding cleanup
cleanup-Freed link rel command ps mem ml mc o =
    elim (free-Freed command (rel ∷ link ∷ ps) mem mc o) [
      | freed mem₁ e₁ o₁ ↦ elim (free_rel-Freed rel (link ∷ ps) mem₁ o₁) [
        | freed mem₂ e₂ o₂ ↦ elim (free-Freed link ps mem₂ ml o₂) [
          | freed mem₃ e₃ o₃ ↦ freed mem₃ (rw (e₁, e₂, e₃) refl) o₃
        ]
      ]
    ]

-- A pointer of the list comes to its front.
apart-sym : (o o' : Option ℕ) → apart o o' ≡ apart o' o
apart-sym none none = refl
apart-sym none (some b) = refl
apart-sym (some a) none = refl
apart-sym (some a) (some b) = ground arith

away-middle :
    (o : Option ℕ) (qs : List Pointer) (p : Pointer) (ps : List Pointer)
    → away o (qs ++ p ∷ ps) ≡ away o (p ∷ (qs ++ ps))
away-middle o [] p ps = refl
away-middle o (q ∷ qs) p ps = let rest = away-middle o qs p ps in ground (arith, rest)

pub owned-pull :
    (qs : List Pointer) (p : Pointer) (ps : List Pointer) (mem : Memory)
    → owned (qs ++ p ∷ ps) mem ≡ true
    → owned (p ∷ (qs ++ ps)) mem ≡ true
owned-pull [] p ps mem o = o
owned-pull (q ∷ qs) p ps mem o =
    let rest = owned-pull qs p ps mem in
    let middle = away-middle (address q) qs p ps in
    let symmetric = apart-sym (address q) (address p) in ground (arith, rest, middle, symmetric)
