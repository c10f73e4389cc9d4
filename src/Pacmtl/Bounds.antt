-- ===== src/Pacmtl/Bounds.antt =====
-- Which elements of a response `getRspElementInfo` (rootpa/Code/Common/pacmtl.c) accepts, and which
-- responses `isValidResponseTo` does.
use tee_mobicore_driver_daem.Base.{
  ℕ, ◌+◌, ◌≤◌, ◌<◌, ◌≡◌, ◌≢◌, ◌↔◌, ◌⊎◌, inl, inr, List, true, arith, u32_mod, is_some, Bool-cases,
  false, add32, ltb,
}
use tee_mobicore_driver_daem.State.{Cmt}
use tee_mobicore_driver_daem.Cmp.{cmp_version, rsp_id, is_rsp, rsp_id_mask}
use tee_mobicore_driver_daem.Pacmtl.{
  get_rsp_element_info, rsp_offset, rsp_length, get_rsp_cmp_version, get_rsp_cmp_id,
  is_valid_response, is_valid_response_to,
}

abbrev InRange : ℕ → ℕ → Type 0
InRange end size = (end ≤ size) ⊎ ((u32_mod ≤ end) × (end ≤ u32_mod + size))

accepts-InRange :
    (offset len size : ℕ)
    → offset < u32_mod
    → len < u32_mod
    → size < u32_mod
    → ltb size (add32 offset len) ≡ false
    → InRange (offset + len) size
accepts-InRange offset len size o l m e = elim (Bool-cases (ltb (offset + len) u32_mod)) [
  | inl small ↦ inl (ground arith)
  | inr large ↦ inr (ground arith, ground arith)
]

InRange-accepts :
    (offset len size : ℕ)
    → offset < u32_mod
    → len < u32_mod
    → size < u32_mod
    → InRange (offset + len) size
    → ltb size (add32 offset len) ≡ false
InRange-accepts offset len size o l m (inl e) = ground arith
InRange-accepts offset len size o l m (inr (e, f)) = ground arith

-- For words below 2^32, an element of a response is accepted if and only if it ends within the
-- mapped buffer, or its end is at least 2^32 and, less 2^32, within the mapped buffer.
pub get_rsp_element_info-accepts :
    (nbr : ℕ) (h : Cmt)
    → nbr ≢ 0
    → rsp_offset h.wsm nbr < u32_mod
    → rsp_length h.wsm nbr < u32_mod
    → h.mapped_size < u32_mod
    → let end = rsp_offset h.wsm nbr + rsp_length h.wsm nbr in
      (is_some (get_rsp_element_info nbr h) ≡ true) ↔ InRange end h.mapped_size
unfolding get_rsp_element_info
get_rsp_element_info-accepts nbr h n o l m = (
  λ e.
      ground
        (arith, accepts-InRange (rsp_offset h.wsm nbr) (rsp_length h.wsm nbr) h.mapped_size o l m),
  λ e.
      ground (
        arith,
        InRange-accepts (rsp_offset h.wsm nbr) (rsp_length h.wsm nbr) h.mapped_size o l m e,
      ),
)

-- For a command id below the response bit, a response is a valid one to the command if and only
-- if its version is that of the protocol and its id is that of the command with the response
-- bit.
pub is_valid_response_to-eq :
    (id : ℕ) (wsm : List ℕ)
    → id < rsp_id_mask
    → (is_valid_response_to id wsm ≡ true)
      ↔ ((get_rsp_cmp_version wsm ≡ cmp_version) × (get_rsp_cmp_id wsm ≡ id + rsp_id_mask))
unfolding is_valid_response_to is_valid_response rsp_id is_rsp
is_valid_response_to-eq id wsm small = (λ v. ground arith, λ v. ground arith)
