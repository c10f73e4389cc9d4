-- ===== src/SeClient/Text.antt =====
-- Strings in memory, as string.h reads them. A pointer is the memory from where it points to; NULL
-- is `none`, and so is, one level further out, a read past the end of the memory.
use tee_mobicore_driver_daem.Base.{
  ℕ, zero, suc, ◌+◌, Bool, true, false, ◌&&◌, List, [], ◌∷◌, Option, none, some, if◌then◌else◌,
  ◌==◌, leb,
}

infixl 5 ◌>>=◌
abbrev pub ◌>>=◌ : {A B : Type 0} → Option A → (A → Option B) → Option B
none >>= f = none
some a >>= f = f a

-- `tolower`
abbrev pub to_lower : ℕ → ℕ
to_lower c = if leb 65 c && leb c 90 then c + 32 else c

abbrev pub as_is : ℕ → ℕ
as_is c = c

-- Does the string begin with the word? The end of the string is a zero, which no word holds.
abbrev pub begins : (ℕ → ℕ) → List ℕ → List ℕ → Option Bool
begins fold [] text = some true
begins fold (w ∷ word) [] = none
begins fold (w ∷ word) (c ∷ text) =
    let rest = begins fold word text in if fold c == w then rest else some false

-- `strstr` with `as_is`, `strcasestr` with `to_lower` and a word in small letters.
unfoldable pub str_str : (ℕ → ℕ) → List ℕ → List ℕ → Option (Option (List ℕ))
str_str fold word [] = none
str_str fold word (zero ∷ text) = some none
str_str fold word (suc c ∷ text) =
    let later = str_str fold word text in
    do here ← begins fold word (suc c ∷ text); if here then some (some (suc c ∷ text)) else later
