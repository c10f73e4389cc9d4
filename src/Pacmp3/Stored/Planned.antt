-- ===== src/Pacmp3/Stored/Planned.antt =====
-- A success of `storeContainers` (rootpa/Code/Common/pacmp3.c) means that the containers of the
-- response are in the registry.
use tee_mobicore_driver_daem.Base.{ℕ, ◌≡◌, ◌≢◌, refl, inl, inr, arith, Option-cases}
use tee_mobicore_driver_daem.Cmp.{Command, mc_drv_ok}
use tee_mobicore_driver_daem.Cmp
use tee_mobicore_driver_daem.World.{Platform}
use tee_mobicore_driver_daem.State.{Sys, Cmt}
use tee_mobicore_driver_daem.Registry.{
  reg_write_auth_token, reg_write_root, reg_cleanup_root, reg_write_sp, reg_cleanup_sp,
  reg_write_tlt, reg_cleanup_tlt,
}
use tee_mobicore_driver_daem.Pacmtl.{get_rsp_element_info}
use tee_mobicore_driver_daem.Pacmp3.Store.{
  store_auth_token_element, store_root_element, store_sp_element, store_tlt_element,
  store_registered_sp, store_unregistered_sp, store_registered_tlt, store_unregistered_tlt,
  store_sp_of_tlt, store_containers,
}
use tee_mobicore_driver_daem.Pacmp3.Stored.{one, two, root, sp, tlt, auth_token, Written, plan}

module _ {W : Type 0} (p : Platform W) (element : ℕ) (h : Cmt) where
  store_auth_token_element-Written :
      (s : Sys W)
      → (store_auth_token_element p element h s).0 ≡ mc_drv_ok
      → Written (one auth_token) element h s (store_auth_token_element p element h s).1
  unfolding store_auth_token_element reg_write_auth_token
  store_auth_token_element-Written s ok = elim (Option-cases (get_rsp_element_info element h)) [
    | inl e ↦ ground arith
    | inr (x, e) ↦ (x, e, ground arith)
  ]

  store_root_element-Written :
      (s : Sys W)
      → (store_root_element p element h s).0 ≡ mc_drv_ok
      → Written (one root) element h s (store_root_element p element h s).1
  unfolding store_root_element reg_write_root
  store_root_element-Written s ok = elim (Option-cases (get_rsp_element_info element h)) [
    | inl e ↦ ground arith
    | inr (x, e) ↦ (x, e, ground arith)
  ]

  store_sp_element-Written :
      (s : Sys W)
      → (store_sp_element p element h s).0 ≡ mc_drv_ok
      → Written (one sp) element h s (store_sp_element p element h s).1
  unfolding store_sp_element reg_write_sp
  store_sp_element-Written s ok = elim (Option-cases (get_rsp_element_info element h)) [
    | inl e ↦ ground arith
    | inr (x, e) ↦ (x, e, ground arith)
  ]

  store_tlt_element-Written :
      (s : Sys W)
      → (store_tlt_element p element h s).0 ≡ mc_drv_ok
      → Written (one tlt) element h s (store_tlt_element p element h s).1
  unfolding store_tlt_element reg_write_tlt
  store_tlt_element-Written s ok = elim (Option-cases (get_rsp_element_info element h)) [
    | inl e ↦ ground arith
    | inr (x, e) ↦ (x, e, ground arith)
  ]

  store_registered_sp-Written :
      (s : Sys W)
      → (store_registered_sp p element h s).0 ≡ mc_drv_ok
      → Written (two root sp) element h s (store_registered_sp p element h s).1
  unfolding store_registered_sp store_sp_element reg_write_sp reg_write_root
  store_registered_sp-Written s ok = elim (Option-cases (get_rsp_element_info element h)) [
    | inl e ↦ ground arith
    | inr (x, e) ↦ elim (Option-cases (get_rsp_element_info x.next_nbr h)) [
      | inl e' ↦ ground arith
      | inr (y, e') ↦ (x, y, e, e', ground arith)
    ]
  ]

  store_registered_tlt-Written :
      (s : Sys W)
      → (store_registered_tlt p element h s).0 ≡ mc_drv_ok
      → Written (two sp tlt) element h s (store_registered_tlt p element h s).1
  unfolding store_registered_tlt store_sp_of_tlt store_tlt_element reg_write_tlt reg_write_sp
      reg_cleanup_tlt
  store_registered_tlt-Written s ok = elim (Option-cases (get_rsp_element_info element h)) [
    | inl e ↦ ground arith
    | inr (x, e) ↦ elim (Option-cases (get_rsp_element_info x.next_nbr h)) [
      | inl e' ↦ ground arith
      | inr (y, e') ↦ (x, y, e, e', ground arith)
    ]
  ]

  store_unregistered_sp-Written :
      (s : Sys W)
      → (store_unregistered_sp p element h s).0 ≡ mc_drv_ok
      → Written (one root) element h s (store_unregistered_sp p element h s).1
  unfolding store_unregistered_sp reg_cleanup_sp
  store_unregistered_sp-Written s ok = store_root_element-Written _ ok

  store_unregistered_tlt-Written :
      (s : Sys W)
      → (store_unregistered_tlt p element h s).0 ≡ mc_drv_ok
      → Written (one sp) element h s (store_unregistered_tlt p element h s).1
  unfolding store_unregistered_tlt reg_cleanup_tlt
  store_unregistered_tlt-Written s ok = store_sp_element-Written _ ok

  -- If storing the containers of a response succeeds, and the command is not
  -- MC_CMP_CMD_ROOT_CONT_REGISTER_ACTIVATE, then what was written to the registry is exactly
  -- what the command plans: nothing, or the container of one element, or those of two elements,
  -- the second first, each with the bytes of its element in the mapped buffer, for the service
  -- provider and trustlet of the last command, and each write succeeded.
  pub store_containers-Written :
      (c : Command) (s : Sys W)
      → c ≢ Cmp.root_cont_register_activate
      → (store_containers p c h element s).0 ≡ mc_drv_ok
      → Written (plan c) element h s (store_containers p c h element s).1
  unfolding store_containers reg_cleanup_root
  store_containers-Written Cmp.generate_auth_token s n ok = store_auth_token_element-Written s ok
  store_containers-Written Cmp.root_cont_register_activate s n ok = absurd (n refl)
  store_containers-Written Cmp.root_cont_lock_by_root s n ok = store_root_element-Written s ok
  store_containers-Written Cmp.root_cont_unlock_by_root s n ok = store_root_element-Written s ok
  store_containers-Written Cmp.sp_cont_unlock_by_root s n ok = store_sp_element-Written s ok
  store_containers-Written Cmp.sp_cont_unlock_by_sp s n ok = store_sp_element-Written s ok
  store_containers-Written Cmp.sp_cont_activate s n ok = store_sp_element-Written s ok
  store_containers-Written Cmp.sp_cont_lock_by_root s n ok = store_sp_element-Written s ok
  store_containers-Written Cmp.sp_cont_lock_by_sp s n ok = store_sp_element-Written s ok
  store_containers-Written Cmp.sp_cont_register s n ok = store_registered_sp-Written s ok
  store_containers-Written Cmp.sp_cont_register_activate s n ok = store_registered_sp-Written s ok
  store_containers-Written Cmp.sp_cont_unregister s n ok = store_unregistered_sp-Written s ok
  store_containers-Written Cmp.tlt_cont_register s n ok = store_registered_tlt-Written s ok
  store_containers-Written Cmp.tlt_cont_register_activate s n ok = store_registered_tlt-Written s ok
  store_containers-Written Cmp.tlt_cont_activate s n ok = store_tlt_element-Written s ok
  store_containers-Written Cmp.tlt_cont_lock_by_sp s n ok = store_tlt_element-Written s ok
  store_containers-Written Cmp.tlt_cont_unlock_by_sp s n ok = store_tlt_element-Written s ok
  store_containers-Written Cmp.tlt_cont_unregister s n ok = store_unregistered_tlt-Written s ok
  store_containers-Written _ s n ok = refl
