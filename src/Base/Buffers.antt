-- ===== src/Base/Buffers.antt =====
-- Copies into a buffer: what is read back where it was written, and elsewhere.
use Prim.Native.Nat.{ℕ, zero, suc, ◌+◌, ◌≤◌}
use mathlib.Core.Path.{◌≡◌, refl, ap, ◌∙◌}
use mathlib.Core.List.{List, [], ◌∷◌, ◌++◌}
use native.Mathlib.Omega.{arith}
use tee_mobicore_driver_daem.Base.Lists.{
  length, take, drop, slice, copy_to, replicate, length-append, length-take, length-drop,
  length-replicate, take-append,
}

module _ {ℓ} {A : Type ℓ} where
  take-take : (n m : ℕ) (xs : List A) → n ≤ m → take n (take m xs) ≡ take n xs
  take-take zero m xs h = refl
  take-take (suc n) zero xs h = absurd (omega arith)
  take-take (suc n) (suc m) [] h = refl
  take-take (suc n) (suc m) (x ∷ xs) h = ap (◌∷◌ x) (take-take n m xs (omega arith))

  take-append_left : (n : ℕ) (xs ys : List A) → n ≤ length xs → take n (xs ++ ys) ≡ take n xs
  take-append_left zero xs ys h = refl
  take-append_left (suc n) [] ys h = absurd (omega arith)
  take-append_left (suc n) (x ∷ xs) ys h = ap (◌∷◌ x) (take-append_left n xs ys (omega arith))

  -- A slice depends on the bytes before its end only.
  slice-take :
      (offset size n : ℕ) (xs : List A)
      → offset + size ≤ n
      → slice offset size (take n xs) ≡ slice offset size xs
  slice-take zero size n xs h = take-take size n xs (omega arith)
  slice-take (suc offset) size zero xs h = absurd (omega arith)
  slice-take (suc offset) size (suc n) [] h = refl
  slice-take (suc offset) size (suc n) (x ∷ xs) h = slice-take offset size n xs (omega arith)

  pub slice-append_left :
      (offset size : ℕ) (xs ys : List A)
      → offset + size ≤ length xs
      → slice offset size (xs ++ ys) ≡ slice offset size xs
  slice-append_left zero size xs ys h = take-append_left size xs ys (omega arith)
  slice-append_left (suc offset) size [] ys h = absurd (omega arith)
  slice-append_left (suc offset) size (x ∷ xs) ys h =
      slice-append_left offset size xs ys (omega arith)

  slice-append_right :
      (offset size : ℕ) (xs ys : List A)
      → length xs ≡ offset
      → slice offset size (xs ++ ys) ≡ take size ys
  slice-append_right zero size [] ys h = refl
  slice-append_right zero size (x ∷ xs) ys h = absurd (omega arith)
  slice-append_right (suc offset) size [] ys h = absurd (omega arith)
  slice-append_right (suc offset) size (x ∷ xs) ys h =
      slice-append_right offset size xs ys (omega arith)

  -- What is written is read back.
  pub slice-copy_to :
      (offset : ℕ) (bytes buffer : List A)
      → offset ≤ length buffer
      → slice offset (length bytes) (copy_to offset bytes buffer) ≡ bytes
  slice-copy_to offset bytes buffer h =
      slice-append_right offset (length bytes) (take offset buffer) _
        (omega (arith, length-take {ℓ} offset buffer))
      ∙ take-append bytes _

  -- What ends before the copy is read as before.
  pub slice-copy_to_before :
      (offset size at : ℕ) (bytes buffer : List A)
      → offset + size ≤ at
      → at ≤ length buffer
      → slice offset size (copy_to at bytes buffer) ≡ slice offset size buffer
  slice-copy_to_before offset size at bytes buffer h k =
      slice-append_left offset size (take at buffer) _ (omega (arith, length-take {ℓ} at buffer))
      ∙ slice-take offset size at buffer h

  pub length-copy_to :
      (at : ℕ) (bytes buffer : List A)
      → at + length bytes ≤ length buffer
      → length (copy_to at bytes buffer) ≡ length buffer
  length-copy_to at bytes buffer h = omega (
    arith,
    length-append {ℓ} (take at buffer) (bytes ++ drop (at + length bytes) buffer),
    length-append {ℓ} bytes (drop (at + length bytes) buffer),
    length-take {ℓ} at buffer,
    length-drop {ℓ} (at + length bytes) buffer,
  )

  pub slice-resize :
      (offset size n : ℕ) (a : A) (xs : List A)
      → offset + size ≤ length xs
      → offset + size ≤ n
      → slice offset size (take n (xs ++ replicate n a)) ≡ slice offset size xs
  slice-resize offset size n a xs h k =
      slice-take offset size n _ k ∙ slice-append_left offset size xs _ h

  pub length-resize : (n : ℕ) (a : A) (xs : List A) → length (take n (xs ++ replicate n a)) ≡ n
  length-resize n a xs = omega (
    arith,
    length-take {ℓ} n (xs ++ replicate n a),
    length-append {ℓ} xs (replicate n a),
    length-replicate {ℓ} n a,
  )
