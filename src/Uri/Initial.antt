-- ===== src/Uri/Initial.antt =====
-- Which initial addresses `setInitialAddress` (rootpa/Code/Common/provisioningengine.c) takes.
use tee_mobicore_driver_daem.Base.{
  ℕ, ◌+◌, ◌-◌, ◌≤◌, ◌<◌, ◌≡◌, ◌≢◌, ◌⊎◌, refl, List, [], some, arith, length, take, length-take,
  add32, u32_mod, ltb, ◌==◌, false, inl, inr, Bool-cases,
}
use tee_mobicore_driver_daem.Cmp.{rootpa_ok, rootpa_error_illegal_argument}
use tee_mobicore_driver_daem.Uri.{set_initial_address, initial_url_buffer_length}
use tee_mobicore_driver_daem.Uri.Text.{buffer, put_chars-buffer}

-- An initial address of a length other than 0 and below 2^32 - 1, with that many bytes behind
-- its pointer, is either shorter than 255 bytes and stored with zeros behind it, at least one,
-- or refused with ROOTPA_ERROR_ILLEGAL_ARGUMENT and the old one kept.
pub set_initial_address-cases :
    (addr old : List ℕ) (n : ℕ)
    → n ≢ 0
    → n + 1 < u32_mod
    → n ≤ length addr
    → ((n < 255)
        × (set_initial_address (some addr) n old
            ≡ some (rootpa_ok, buffer (take n addr) (255 - n))))
      ⊎ ((255 ≤ n)
          × (set_initial_address (some addr) n old ≡ some (rootpa_error_illegal_argument, old)))
unfolding set_initial_address
set_initial_address-cases addr old n some_bytes small there =
    let full : (n == 0) ≡ false = ground arith in
    elim (Bool-cases (ltb initial_url_buffer_length (add32 n 1))) [
      | inl long ↦ inr (ground arith, rw (full, long) refl)
      | inr short ↦
          let fits : n < 255 = ground arith in
          inl (
            fits,
            rw
                (
                  full,
                  short,
                  put_chars-buffer (take n addr) [] 255 0 (255 - n) refl
                      (omega (arith, length-take {0} n addr)),
                )
                refl,
          )
    ]
