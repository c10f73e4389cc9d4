-- ===== src/Uri/Text.antt =====
-- Writing behind a string in a buffer (rootpa/Code/Common/provisioningengine.c), step by step.
use tee_mobicore_driver_daem.Base.{
  ℕ, zero, suc, ◌+◌, ◌/◌, ◌%◌, ◌≤◌, ◌<◌, ◌≡◌, ◌≢◌, refl, sym, ◌∙◌, ap, List, [], ◌∷◌, ◌++◌, Bool,
  ◌&&◌, none, some, arith, length, replicate, set, length-append, length-replicate, inl, inr,
  Bool-cases, Option-cases, if◌then◌else◌, append_nil,
}
use tee_mobicore_driver_daem.Uri.{
  str_len, put_char, put_chars, hex_digit, dash_behind, add_byte, add_bytes_from,
}

-- No character is a zero.
abbrev pub NonZero : List ℕ → Type 0
NonZero [] = Unit {0}
NonZero (c ∷ cs) = (c ≢ 0) × NonZero cs

-- A text, and room for as many characters more.
abbrev pub buffer : List ℕ → ℕ → List ℕ
buffer text room = text ++ replicate room 0

pub str_len-buffer :
    (text : List ℕ) (room : ℕ)
    → NonZero text
    → str_len (buffer text (suc room)) ≡ some (length text)
str_len-buffer [] room n = refl
str_len-buffer (zero ∷ text) room n = absurd (n.0 refl)
str_len-buffer (suc c ∷ text) room n = ground (arith, str_len-buffer text room n.1)

set-buffer :
    (text : List ℕ) (room c : ℕ)
    → set (buffer text (suc room)) (length text) c ≡ buffer (text ++ c ∷ []) room
set-buffer [] room c = refl
set-buffer (t ∷ text) room c = ap (◌∷◌ t) (set-buffer text room c)

pub length-buffer : (text : List ℕ) (room : ℕ) → length (buffer text room) ≡ length text + room
length-buffer text room =
    omega (arith, length-append {0} text (replicate room 0), length-replicate {A = ℕ} room 0)

pub put_char-buffer :
    (text : List ℕ) (room at c : ℕ)
    → at ≡ length text
    → put_char at c (buffer text (suc room)) ≡ some (buffer (text ++ c ∷ []) room)
unfolding put_char
put_char-buffer text room at c e =
    ground (arith, length-buffer text (suc room), set-buffer text room c)

pub put_char-full :
    (text : List ℕ) (at c : ℕ) → length text ≤ at → put_char at c (buffer text 0) ≡ none
unfolding put_char
put_char-full text at c e = ground (arith, length-buffer text 0)

pub append_assoc : (xs ys zs : List ℕ) → (xs ++ ys) ++ zs ≡ xs ++ (ys ++ zs)
append_assoc [] ys zs = refl
append_assoc (x ∷ xs) ys zs = ap (◌∷◌ x) (append_assoc xs ys zs)

-- Characters that fit are written behind the text.
pub put_chars-buffer :
    (cs text : List ℕ) (room at left : ℕ)
    → at ≡ length text
    → room ≡ length cs + left
    → put_chars at cs (buffer text room) ≡ some (buffer (text ++ cs) left)
put_chars-buffer [] text room at left e r =
    ap some
      (ap (λ t. buffer t room) (sym (append_nil {0} text)) ∙ ap (buffer (text ++ [])) (omega arith))
put_chars-buffer (c ∷ cs) text zero at left e r = absurd (omega arith)
put_chars-buffer (c ∷ cs) text (suc room) at left e r = rw (put_char-buffer text room at c e) (
    put_chars-buffer cs (text ++ c ∷ []) room (suc at) left
      (omega (arith, length-append {0} text (c ∷ []))) (omega arith)
    ∙ ap (λ t. some (buffer t left)) (append_assoc text (c ∷ []) cs))

-- Characters that do not fit are written past the end.
pub put_chars-full :
    (cs text : List ℕ) (room at : ℕ)
    → at ≡ length text
    → room < length cs
    → put_chars at cs (buffer text room) ≡ none
put_chars-full [] text room at e r = absurd (omega arith)
put_chars-full (c ∷ cs) text zero at e r = rw (put_char-full text at c (omega arith)) refl
put_chars-full (c ∷ cs) text (suc room) at e r = rw (put_char-buffer text room at c e) (
    put_chars-full cs (text ++ c ∷ []) room (suc at)
      (omega (arith, length-append {0} text (c ∷ []))) (omega arith))

-- The characters of bytes, from byte `i` on.
abbrev byte_chars : Bool → ℕ → ℕ → List ℕ
byte_chars uuid i byte =
    hex_digit (byte / 16) ∷ hex_digit (byte % 16) ∷ (if uuid && dash_behind i then 45 ∷ [] else [])

abbrev pub chars_of : Bool → ℕ → List ℕ → List ℕ
chars_of uuid i [] = []
chars_of uuid i (byte ∷ bytes) = byte_chars uuid i byte ++ chars_of uuid (suc i) bytes

-- The loop writes these characters.
pub add_bytes_from-eq :
    (uuid : Bool) (i at : ℕ) (bytes uri : List ℕ)
    → add_bytes_from uuid i at bytes uri ≡ put_chars at (chars_of uuid i bytes) uri
unfolding add_bytes_from add_byte
add_bytes_from-eq uuid i at [] uri = refl
add_bytes_from-eq uuid i at (byte ∷ bytes) uri =
    elim (Option-cases (put_char at (hex_digit (byte / 16)) uri)) [
      | inl e ↦ rw e refl
      | inr (u, e) ↦ elim (Option-cases (put_char (suc at) (hex_digit (byte % 16)) u)) [
        | inl e' ↦ rw (e, e') refl
        | inr (u', e') ↦ elim (Bool-cases (uuid && dash_behind i)) [
          | inr plain ↦ rw (e, e', plain) (add_bytes_from-eq uuid (suc i) (suc (suc at)) bytes u')
          | inl dash ↦ elim (Option-cases (put_char (suc (suc at)) 45 u')) [
            | inl e'' ↦ rw (e, e', dash, e'') refl
            | inr (u'', e'') ↦
                rw (e, e', dash, e'')
                  (add_bytes_from-eq uuid (suc i) (suc (suc (suc at))) bytes u'')
          ]
        ]
      ]
    ]
