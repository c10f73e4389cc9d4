-- ===== src/Tests/Responses.antt =====
-- The theorems about responses and their containers at concrete inputs.
use tee_mobicore_driver_daem.Base.{
  ◌+◌, ◌≡◌, ◌≢◌, ◌↔◌, ◌≤◌, ◌⊎◌, refl, [], ◌∷◌, true, arith, u32_mod, is_some,
}
use tee_mobicore_driver_daem.Cmp.{
  Command, CmpMessage, cmp_version, rsp_id_mask, command_of, rsp_id, is_rsp, rootpa_ok, mc_drv_ok,
  successful,
}
use tee_mobicore_driver_daem.Cmp
use tee_mobicore_driver_daem.State.{Cmt}
use tee_mobicore_driver_daem.Registry.{reg_write_tlt, reg_write_sp}
use tee_mobicore_driver_daem.Pacmtl.{
  get_rsp_element_info, get_rsp_cmp_version, get_rsp_cmp_id, is_valid_response,
  is_valid_response_to,
}
use tee_mobicore_driver_daem.Pacmtl.Bounds.{get_rsp_element_info-accepts, is_valid_response_to-eq}
use tee_mobicore_driver_daem.Pacmp3.Store.{
  store_containers, store_registered_root, store_registered_sp, store_registered_tlt,
  store_tlt_element, store_sp_of_tlt,
}
use tee_mobicore_driver_daem.Pacmp3.Stored.{Written, plan}
use tee_mobicore_driver_daem.Pacmp3.Stored.Planned.{store_containers-Written}
use tee_mobicore_driver_daem.Pacmp3.Stored.Outcomes.{RootRegistered, SpRegistered, TltRegistered}
use tee_mobicore_driver_daem.Pacmp3.Stored.Registering.{
  store_registered_root-RootRegistered, store_registered_sp-SpRegistered,
  store_registered_tlt-TltRegistered,
}
use tee_mobicore_driver_daem.Pacmp3.Response.{
  get_cmp_return_code, conclude, allocate_response_buffer, accept_response, handle_response,
}
use tee_mobicore_driver_daem.Pacmp3.Accepted.{
  Accepted, handle_response-Accepted, handle_response-log,
}
use tee_mobicore_driver_daem.Tests.Platforms.{platform, working, idle, handle_of, no_response}

-- The response to `MC_CMP_CMD_TLT_CONT_REGISTER`: 24 bytes, and two containers behind them.
abbrev tlt_registered : Cmt
tlt_registered = record (handle_of 64) {
  wsm = cmp_version ∷ (23 + rsp_id_mask) ∷ 0 ∷ 0 ∷ 24 ∷ 24 ∷ 2 ∷ 26 ∷ 3 ∷ 0 ∷ [];
}

-- An element whose end wraps around.
abbrev wrapping : Cmt
wrapping = record (handle_of 64) {
  wsm = cmp_version ∷ (23 + rsp_id_mask) ∷ 0 ∷ 4294967280 ∷ 32 ∷ 0 ∷ 0 ∷ 0 ∷ 0 ∷ 0 ∷ [];
}

get_rsp_element_info-accepts_example :
    (is_some (get_rsp_element_info 1 wrapping) ≡ true)
    ↔ ((4294967312 ≤ 64) ⊎ ((u32_mod ≤ 4294967312) × (4294967312 ≤ u32_mod + 64)))
get_rsp_element_info-accepts_example =
    get_rsp_element_info-accepts 1 wrapping (omega arith) (omega arith) (omega arith) (omega arith)

is_valid_response_to-eq_example : (is_valid_response_to 23 tlt_registered.wsm ≡ true) ↔ (
    (get_rsp_cmp_version tlt_registered.wsm ≡ cmp_version)
    × (get_rsp_cmp_id tlt_registered.wsm ≡ 23 + rsp_id_mask))
is_valid_response_to-eq_example = is_valid_response_to-eq 23 tlt_registered.wsm (omega arith)

tlt_stored : (store_containers working Cmp.tlt_cont_register tlt_registered 2 idle).0 ≡ mc_drv_ok
unfolding store_containers store_registered_tlt store_tlt_element store_sp_of_tlt
    get_rsp_element_info reg_write_tlt reg_write_sp
tlt_stored = refl

store_containers-Written_example :
    Written
      (plan Cmp.tlt_cont_register)
      2
      tlt_registered
      idle
      (store_containers working Cmp.tlt_cont_register tlt_registered 2 idle).1
store_containers-Written_example =
    store_containers-Written working 2 tlt_registered Cmp.tlt_cont_register idle (λ e. cc)
      tlt_stored

-- The authentication token cannot be deleted.
store_registered_root-RootRegistered_example :
    let (ret, s') = store_registered_root (platform true 5) 2 tlt_registered idle in
    RootRegistered 2 tlt_registered [] ret s'.log
store_registered_root-RootRegistered_example =
    store_registered_root-RootRegistered (platform true 5) 2 tlt_registered idle

store_registered_tlt-TltRegistered_example :
    let (ret, s') = store_registered_tlt working 2 tlt_registered idle in
    TltRegistered 2 tlt_registered idle ret s'.log
store_registered_tlt-TltRegistered_example =
    store_registered_tlt-TltRegistered working 2 tlt_registered idle

store_registered_sp-SpRegistered_example :
    let (ret, s') = store_registered_sp working 2 tlt_registered idle in
    SpRegistered 2 tlt_registered idle ret s'.log
store_registered_sp-SpRegistered_example =
    store_registered_sp-SpRegistered working 2 tlt_registered idle

tlt_accepted : (handle_response working 23 no_response tlt_registered idle).0.ret ≡ rootpa_ok
unfolding handle_response allocate_response_buffer accept_response conclude command_of
    get_rsp_element_info is_valid_response_to is_valid_response rsp_id is_rsp store_containers
    store_registered_tlt store_tlt_element store_sp_of_tlt reg_write_tlt reg_write_sp
tlt_accepted = refl

tlt_logged : (handle_response working 23 no_response tlt_registered idle).1.log ≢ []
unfolding handle_response allocate_response_buffer accept_response conclude command_of
    get_rsp_element_info is_valid_response_to is_valid_response rsp_id is_rsp store_containers
    store_registered_tlt store_tlt_element store_sp_of_tlt reg_write_tlt reg_write_sp
tlt_logged e = cc

handle_response-Accepted_example :
    let (a, s') = handle_response working 23 no_response tlt_registered idle in
    Accepted working 23 tlt_registered a.response idle s'
handle_response-Accepted_example =
    handle_response-Accepted working 23 no_response tlt_registered idle tlt_accepted

handle_response-log_example :
    (is_valid_response_to 23 tlt_registered.wsm ≡ true)
    × (get_cmp_return_code tlt_registered.mapped ≡ successful)
handle_response-log_example =
    handle_response-log working 23 no_response tlt_registered idle tlt_logged
