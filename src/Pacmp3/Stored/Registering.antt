-- ===== src/Pacmp3/Stored/Registering.antt =====
-- How `storeContainers` (rootpa/Code/Common/pacmp3.c) ends when a container is registered.
use tee_mobicore_driver_daem.Base.{ℕ, ◌≡◌, ◌∷◌, inl, inr, arith, Option-cases, Bool-cases, ◌==◌}
use tee_mobicore_driver_daem.Cmp.{mc_drv_ok}
use tee_mobicore_driver_daem.World.{Platform}
use tee_mobicore_driver_daem.State.{Event, Sys, Cmt}
use tee_mobicore_driver_daem.State
use tee_mobicore_driver_daem.Registry.{
  container_buffer_size, reg_read_auth_token, reg_write_auth_token, reg_delete_auth_token,
  reg_write_root, reg_cleanup_root, reg_write_sp, reg_write_tlt, reg_cleanup_tlt,
}
use tee_mobicore_driver_daem.Pacmtl.{get_rsp_element_info}
use tee_mobicore_driver_daem.Pacmp3.Store.{
  element_bytes, store_root_element, store_tlt_element, store_sp_of_tlt, store_registered_tlt,
  recover_auth_token, retire_auth_token, store_registered_root, store_registered_sp,
  store_sp_element,
}
use tee_mobicore_driver_daem.Pacmp3.Stored.Outcomes.{
  Retired, deleted, kept, taken_back, not_taken_back, RootRegistered, TltRegistered, SpRegistered,
  rejected, not_written, written,
}

-- The authentication token is to go, which the root container replaces.
module _ {W : Type 0} (p : Platform W) where
  retire_auth_token-Retired :
      (s : Sys W) → Retired s.log (retire_auth_token p s).0 (retire_auth_token p s).1.log
  unfolding retire_auth_token recover_auth_token reg_read_auth_token reg_write_auth_token
      reg_delete_auth_token reg_cleanup_root
  retire_auth_token-Retired s =
      let (memory, w₀) = p.alloc container_buffer_size s.world in
      elim (Bool-cases memory) [
        | inr lacking ↦
            let (d, w₂) = p.delete_auth_token w₀ in
            elim (Bool-cases (d == mc_drv_ok)) [
              | inl gone ↦ deleted (ground arith) (inl (ground arith))
              | inr stays ↦ kept (ground arith) (ground arith)
            ]
        | inl there ↦
            let ((r, token), w₁) = p.read_auth_token w₀ in
            let (d, w₂) = p.delete_auth_token w₁ in
            let (w, w₃) = p.store_auth_token token w₂ in
            let (c, w₄) = p.cleanup_root w₃ in
            elim (Bool-cases (d == mc_drv_ok)) [
              | inl gone ↦ deleted (ground arith) (inr (token, r, ground arith))
              | inr stays ↦ elim (Bool-cases (w == mc_drv_ok)) [
                | inl again ↦ taken_back token d r c (ground arith) (ground arith) (ground arith)
                | inr failed ↦ not_taken_back token d r (ground arith) (ground arith) (ground arith)
              ]
            ]
      ]

-- `MC_CMP_CMD_ROOT_CONT_REGISTER_ACTIVATE`, from the number of the element on.
-- `MC_CMP_CMD_TLT_CONT_REGISTER` and `..._ACTIVATE`: what is in the registry is both containers, or
-- what was there before, as far as the registry does what it is told.
-- `MC_CMP_CMD_SP_CONT_REGISTER` and `..._ACTIVATE`: a service provider container stays where the
-- root container behind it could not be written.
module _ {W : Type 0} (p : Platform W) (element : ℕ) (h : Cmt) where
  -- Storing a new root container ends in one of these ways: no element was accepted and nothing
  -- is done; writing the container failed; it was written and the authentication token deleted;
  -- it was written, the token could not be deleted and had not been read for want of memory, and
  -- the error is returned; it was written, the token could not be deleted and was written again,
  -- after which the root container is removed and the result is a success; or writing the token
  -- again failed, and that error is returned.
  pub store_registered_root-RootRegistered :
      (s : Sys W)
      → let (ret, s') = store_registered_root p element h s in
        RootRegistered element h s.log ret s'.log
  unfolding store_registered_root store_root_element reg_write_root
  store_registered_root-RootRegistered s = elim (Option-cases (get_rsp_element_info element h)) [
    | inl e ↦ rejected e (ground arith) (ground arith)
    | inr (x, e) ↦
        let (r, w) = p.store_root (element_bytes x h) s.world in
        elim (Bool-cases (r == mc_drv_ok)) [
          | inr failed ↦ not_written x e (ground arith) (ground arith)
          | inl good ↦
              let s' : Sys W = record s {
                world = w;
                log = State.write_root (element_bytes x h) mc_drv_ok ∷ s.log;
              } in
              let same : store_registered_root p element h s ≡ retire_auth_token p s' =
                ground arith in
              rw same (written x e (retire_auth_token-Retired p s'))
        ]
  ]

  -- Storing a new trustlet container ends in one of these ways: an element was not accepted and
  -- nothing is done; writing the trustlet container failed and nothing else is done; the service
  -- provider container could not be written behind it, the trustlet container is removed again
  -- and the error is returned; or both were written, the trustlet container first, and the
  -- result is a success.
  pub store_registered_tlt-TltRegistered :
      (s : Sys W)
      → let (ret, s') = store_registered_tlt p element h s in TltRegistered element h s ret s'.log
  unfolding store_registered_tlt store_tlt_element store_sp_of_tlt reg_write_tlt reg_write_sp
      reg_cleanup_tlt
  store_registered_tlt-TltRegistered s = elim (Option-cases (get_rsp_element_info element h)) [
    | inl e ↦ rejected (inl e) (ground arith) (ground arith)
    | inr (x, e) ↦ elim (Option-cases (get_rsp_element_info x.next_nbr h)) [
      | inl e' ↦ rejected (inr (x, (e, e'))) (ground arith) (ground arith)
      | inr (y, e') ↦
          let (r, w) = p.store_tlt s.tlt_uuid s.spid (element_bytes y h) s.world in
          let (r', w') = p.store_sp s.spid (element_bytes x h) w in
          elim (Bool-cases (r == mc_drv_ok)) [
            | inr failed ↦ not_written x y e e' (ground arith) (ground arith)
            | inl good ↦ elim (Bool-cases (r' == mc_drv_ok)) [
              | inr failed ↦
                  taken_back x y (p.cleanup_tlt s.tlt_uuid s.spid w').0 e e' (ground arith)
                    (ground arith)
              | inl fine ↦ written x y e e' (ground arith) (ground arith)
            ]
          ]
    ]
  ]

  -- Storing a new service provider container ends in one of these ways: an element was not
  -- accepted and nothing is done; writing the service provider container failed and nothing else
  -- is done; or it was written, and the result is that of writing the root container behind it,
  -- with nothing done after that.
  pub store_registered_sp-SpRegistered :
      (s : Sys W)
      → let (ret, s') = store_registered_sp p element h s in SpRegistered element h s ret s'.log
  unfolding store_registered_sp store_sp_element reg_write_sp reg_write_root
  store_registered_sp-SpRegistered s = elim (Option-cases (get_rsp_element_info element h)) [
    | inl e ↦ rejected (inl e) (ground arith) (ground arith)
    | inr (x, e) ↦ elim (Option-cases (get_rsp_element_info x.next_nbr h)) [
      | inl e' ↦ rejected (inr (x, (e, e'))) (ground arith) (ground arith)
      | inr (y, e') ↦
          let (r, w) = p.store_sp s.spid (element_bytes y h) s.world in
          elim (Bool-cases (r == mc_drv_ok)) [
            | inr failed ↦ not_written x y e e' (ground arith) (ground arith)
            | inl good ↦ written x y e e' (ground arith)
          ]
    ]
  ]
