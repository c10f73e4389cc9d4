-- ===== src/Pacmp3/Stored.antt =====
-- What `storeContainers` (rootpa/Code/Common/pacmp3.c) writes to the registry, and in which order.
pub mod Planned
pub mod Outcomes
pub mod Registering
use tee_mobicore_driver_daem.Base.{ℕ, List, [], ◌∷◌, some, ◌≡◌}
use tee_mobicore_driver_daem.Cmp.{Command, mc_drv_ok}
use tee_mobicore_driver_daem.Cmp
use tee_mobicore_driver_daem.State.{Event, Sys, Cmt}
use tee_mobicore_driver_daem.State
use tee_mobicore_driver_daem.Pacmtl.{Element, get_rsp_element_info}
use tee_mobicore_driver_daem.Pacmp3.Store.{element_bytes}

-- The events that write to the registry.
abbrev pub writes : List Event → List Event
writes [] = []
writes (State.write_auth_token bytes r ∷ log) = State.write_auth_token bytes r ∷ writes log
writes (State.write_root bytes r ∷ log) = State.write_root bytes r ∷ writes log
writes (State.write_sp spid bytes r ∷ log) = State.write_sp spid bytes r ∷ writes log
writes (State.write_tlt uuid spid bytes r ∷ log) = State.write_tlt uuid spid bytes r ∷ writes log
writes (_ ∷ log) = writes log

-- The containers of a response.
pub data Target : Type 0 where
  auth_token root sp tlt : Target

-- What a response brings: nothing, one container, or two, of which the second is written first.
pub data Plan : Type 0 where
  nothing : Plan
  one : Target → Plan
  two : Target → Target → Plan

abbrev pub plan : Command → Plan
plan Cmp.generate_auth_token = one auth_token
plan Cmp.root_cont_register_activate = one root
plan Cmp.root_cont_lock_by_root = one root
plan Cmp.root_cont_unlock_by_root = one root
plan Cmp.sp_cont_unlock_by_root = one sp
plan Cmp.sp_cont_unlock_by_sp = one sp
plan Cmp.sp_cont_activate = one sp
plan Cmp.sp_cont_lock_by_root = one sp
plan Cmp.sp_cont_lock_by_sp = one sp
plan Cmp.sp_cont_register = two root sp
plan Cmp.sp_cont_register_activate = two root sp
plan Cmp.sp_cont_unregister = one root
plan Cmp.tlt_cont_register = two sp tlt
plan Cmp.tlt_cont_register_activate = two sp tlt
plan Cmp.tlt_cont_activate = one tlt
plan Cmp.tlt_cont_lock_by_sp = one tlt
plan Cmp.tlt_cont_unlock_by_sp = one tlt
plan Cmp.tlt_cont_unregister = one sp
plan _ = nothing

module _ {W : Type 0} where
  -- The write of a container, for the service provider and trustlet of the last command.
  abbrev pub write_of : Target → List ℕ → ℕ → Sys W → Event
  write_of auth_token bytes r s = State.write_auth_token bytes r
  write_of root bytes r s = State.write_root bytes r
  write_of sp bytes r s = State.write_sp s.spid bytes r
  write_of tlt bytes r s = State.write_tlt s.tlt_uuid s.spid bytes r

  -- The plan was carried out, with the elements from this number on: all writes succeeded.
  abbrev pub Written : Plan → ℕ → Cmt → Sys W → Sys W → Type 0
  Written nothing element h s s' = writes s'.log ≡ writes s.log
  Written (one t) element h s s' =
      (e : Element) × (get_rsp_element_info element h ≡ some e)
      × (writes s'.log ≡ write_of t (element_bytes e h) mc_drv_ok s ∷ writes s.log)
  Written (two first second) element h s s' =
      (e e' : Element) × (get_rsp_element_info element h ≡ some e)
      × (get_rsp_element_info e.next_nbr h ≡ some e')
      × (writes s'.log
          ≡ write_of first (element_bytes e h) mc_drv_ok s
            ∷ write_of second (element_bytes e' h) mc_drv_ok s
            ∷ writes s.log)
