-- ===== src/Channel/Quiet.antt =====
-- What does not call the driver: the functions of rootpa/Code/Common/pacmp3.c, which call the
-- registry.
use tee_mobicore_driver_daem.Base.{ℕ, copy_to, ◌≡◌, List, [], ◌∷◌, arith, inl, inr, Option-cases}
use tee_mobicore_driver_daem.Cmp.{Command, CmpMessage, command_of}
use tee_mobicore_driver_daem.Cmp
use tee_mobicore_driver_daem.World.{Platform}
use tee_mobicore_driver_daem.State.{Event, Sys, Cmt}
use tee_mobicore_driver_daem.State
use tee_mobicore_driver_daem.Registry.{
  Read, reg_read_auth_token, reg_write_auth_token, reg_delete_auth_token, reg_read_root,
  reg_write_root, reg_cleanup_root, reg_read_sp, reg_write_sp, reg_cleanup_sp, reg_read_tlt,
  reg_write_tlt, reg_cleanup_tlt,
}
use tee_mobicore_driver_daem.Pacmtl.{Build, get_rsp_element_info}
use tee_mobicore_driver_daem.Pacmp3.Prepare.{
  ensure_mapped_buffer_size, add_container, add_auth_token_container, add_root_container,
  add_sp_container, add_tlt_container, add_root_and_sp_containers, prepare_case, out_command,
  prepare_command, spid_of, uuid_of, begin_command, command_bytes,
}
use tee_mobicore_driver_daem.Pacmp3.Store.{
  store_auth_token_element, store_root_element, store_sp_element, store_tlt_element,
  recover_auth_token, retire_auth_token, store_registered_root, store_registered_sp,
  store_unregistered_sp, store_registered_tlt, store_unregistered_tlt, store_sp_of_tlt,
  store_containers,
}
use tee_mobicore_driver_daem.Pacmp3.Response.{
  allocate_response_buffer, accept_response, handle_response,
}

-- The calls of the driver.
abbrev pub driver_events : List Event → List Event
driver_events [] = []
driver_events (State.open_device r ∷ log) = State.open_device r ∷ driver_events log
driver_events (State.close_device r ∷ log) = State.close_device r ∷ driver_events log
driver_events (State.malloc_wsm r ∷ log) = State.malloc_wsm r ∷ driver_events log
driver_events (State.free_wsm r ∷ log) = State.free_wsm r ∷ driver_events log
driver_events (State.open_session r ∷ log) = State.open_session r ∷ driver_events log
driver_events (State.close_session r ∷ log) = State.close_session r ∷ driver_events log
driver_events (State.map_buffer r ∷ log) = State.map_buffer r ∷ driver_events log
driver_events (State.unmap_buffer r ∷ log) = State.unmap_buffer r ∷ driver_events log
driver_events (State.notify r ∷ log) = State.notify r ∷ driver_events log
driver_events (State.wait r ∷ log) = State.wait r ∷ driver_events log
driver_events (_ ∷ log) = driver_events log

module _ {W : Type 0} where
  -- From a state to the next the driver was not called, and `handle_` is the same.
  pub record Quiet (s s' : Sys W) : Type 0 where
    pub events : driver_events s'.log ≡ driver_events s.log
    pub same_handle : s'.handle ≡ s.handle

module _ {W : Type 0} (p : Platform W) where
  add_container-Quiet : (r : Read) (b : Build) (s : Sys W) → Quiet s (add_container p r b s).1
  unfolding add_container ensure_mapped_buffer_size
  add_container-Quiet r b s = ground arith

  add_auth_token_container-Quiet :
      (b : Build) (s : Sys W) → Quiet s (add_auth_token_container p b s).1
  unfolding add_auth_token_container reg_read_auth_token
  add_auth_token_container-Quiet b s =
      ground (arith, add_container-Quiet (reg_read_auth_token p s).0 b (reg_read_auth_token p s).1)

  add_root_container-Quiet : (b : Build) (s : Sys W) → Quiet s (add_root_container p b s).1
  unfolding add_root_container reg_read_root
  add_root_container-Quiet b s =
      ground (arith, add_container-Quiet (reg_read_root p s).0 b (reg_read_root p s).1)

  add_sp_container-Quiet :
      (spid : ℕ) (b : Build) (s : Sys W) → Quiet s (add_sp_container p spid b s).1
  unfolding add_sp_container reg_read_sp
  add_sp_container-Quiet spid b s =
      ground (arith, add_container-Quiet (reg_read_sp p spid s).0 b (reg_read_sp p spid s).1)

  add_tlt_container-Quiet :
      (uuid : List ℕ) (spid : ℕ) (b : Build) (s : Sys W)
      → Quiet s (add_tlt_container p uuid spid b s).1
  unfolding add_tlt_container reg_read_tlt
  add_tlt_container-Quiet uuid spid b s =
      ground
        (arith, add_container-Quiet (reg_read_tlt p uuid spid s).0 b (reg_read_tlt p uuid spid s).1)

  add_root_and_sp_containers-Quiet :
      (saved : ℕ) (b : Build) (s : Sys W) → Quiet s (add_root_and_sp_containers p saved b s).1
  unfolding add_root_and_sp_containers out_command
  add_root_and_sp_containers-Quiet saved b s =
      let (a, s') = add_root_container p b s in
      let command = (out_command p saved a.build.handle s'.world).0 in
      ground
        (arith, add_root_container-Quiet b s, add_sp_container-Quiet (spid_of command) a.build s')

  for_spid :
      (command : List ℕ) (b : Build) (s : Sys W)
      → Quiet s (add_sp_container p (spid_of command) b (record s { spid = spid_of command })).1
  for_spid command b s =
      let q = add_sp_container-Quiet (spid_of command) b (record s { spid = spid_of command }) in
      record { events = q.events; same_handle = q.same_handle }

  for_tlt :
      (command : List ℕ) (b : Build) (s : Sys W)
      → let named = record s { spid = spid_of command; tlt_uuid = uuid_of command } in
        Quiet s (add_tlt_container p (uuid_of command) (spid_of command) b named).1
  for_tlt command b s =
      let named = record s { spid = spid_of command; tlt_uuid = uuid_of command } in
      let q = add_tlt_container-Quiet (uuid_of command) (spid_of command) b named in
      record { events = q.events; same_handle = q.same_handle }

  prepare_case-Quiet :
      (c : Command) (saved : ℕ) (command : List ℕ) (b : Build) (s : Sys W)
      → Quiet s (prepare_case p c saved command b s).1
  unfolding prepare_case State.report
  prepare_case-Quiet Cmp.begin_soc_authentication saved command b s =
      ground (arith, add_auth_token_container-Quiet b (State.report State.authenticating_soc s).1)
  prepare_case-Quiet Cmp.begin_root_authentication saved command b s =
      ground (arith, add_root_container-Quiet b (State.report State.authenticating_root s).1)
  prepare_case-Quiet Cmp.begin_sp_authentication saved command b s =
      add_root_and_sp_containers-Quiet _ b s
  prepare_case-Quiet Cmp.sp_cont_lock_by_root saved command b s = for_spid command b s
  prepare_case-Quiet Cmp.sp_cont_unlock_by_root saved command b s = for_spid command b s
  prepare_case-Quiet Cmp.tlt_cont_activate saved command b s = for_tlt command b s
  prepare_case-Quiet Cmp.tlt_cont_lock_by_sp saved command b s = for_tlt command b s
  prepare_case-Quiet Cmp.tlt_cont_personalize saved command b s = add_tlt_container-Quiet _ _ b s
  prepare_case-Quiet Cmp.tlt_cont_unlock_by_sp saved command b s = for_tlt command b s
  prepare_case-Quiet _ saved command b s = ground arith

  pub prepare_command-Quiet :
      (id : ℕ) (command : CmpMessage) (h : Cmt) (r : CmpMessage) (s : Sys W)
      → Quiet s (prepare_command p id command h r s).1
  unfolding prepare_command ensure_mapped_buffer_size out_command
  prepare_command-Quiet id command h r s =
      let b = begin_command id command.length h in
      let ready = ensure_mapped_buffer_size p b.handle command.length s in
      let filled : Cmt = record (ready.0.1) {
        mapped = copy_to 0 (command_bytes command) ready.0.1.mapped;
      } in
      ground (
        arith,
        prepare_case-Quiet (command_of id) h.reallocs
            (out_command p h.reallocs filled ready.1.world).0 (record b { handle = filled })
            ready.1,
      )

  store_registered_root-Quiet :
      (element : ℕ) (h : Cmt) (s : Sys W) → Quiet s (store_registered_root p element h s).1
  unfolding store_registered_root store_root_element retire_auth_token recover_auth_token
      reg_write_root reg_read_auth_token reg_write_auth_token reg_delete_auth_token reg_cleanup_root
  store_registered_root-Quiet element h s = elim (Option-cases (get_rsp_element_info element h)) [
    | inl e ↦ ground arith
    | inr (x, e) ↦ ground arith
  ]

  store_containers-Quiet :
      (c : Command) (h : Cmt) (element : ℕ) (s : Sys W)
      → Quiet s (store_containers p c h element s).1
  unfolding store_containers store_auth_token_element store_root_element store_sp_element
      store_tlt_element store_registered_sp store_unregistered_sp store_registered_tlt
      store_unregistered_tlt store_sp_of_tlt reg_write_auth_token reg_write_root reg_cleanup_root
      reg_write_sp reg_cleanup_sp reg_write_tlt reg_cleanup_tlt
  store_containers-Quiet Cmp.root_cont_register_activate h element s =
      store_registered_root-Quiet element h s
  store_containers-Quiet c h element s = ground arith

  accept_response-Quiet :
      (id : ℕ) (r : CmpMessage) (h : Cmt) (s : Sys W) → Quiet s (accept_response p id r h s).1
  unfolding accept_response
  accept_response-Quiet id r h s = elim (Option-cases (get_rsp_element_info 1 h)) [
    | inl e ↦ ground arith
    | inr (x, e) ↦ ground (arith, store_containers-Quiet (command_of id) h x.next_nbr s)
  ]

  pub handle_response-Quiet :
      (id : ℕ) (r : CmpMessage) (h : Cmt) (s : Sys W) → Quiet s (handle_response p id r h s).1
  unfolding handle_response allocate_response_buffer
  handle_response-Quiet id r h s =
      let (a, s') = allocate_response_buffer p r h s in
      ground (arith, accept_response-Quiet id a.response h s')
