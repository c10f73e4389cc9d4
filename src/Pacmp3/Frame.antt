-- ===== src/Pacmp3/Frame.antt =====
-- What `prepareCommand` and its helpers leave alone in the handle
-- (rootpa/Code/Common/pacmp3.c).
use tee_mobicore_driver_daem.Base.{ℕ, ◌≡◌, refl, List, arith, copy_to}
use tee_mobicore_driver_daem.Cmp.{Command, CmpMessage, command_of}
use tee_mobicore_driver_daem.Cmp
use tee_mobicore_driver_daem.World.{Platform}
use tee_mobicore_driver_daem.State.{Sys, Cmt}
use tee_mobicore_driver_daem.Registry.{
  Read, reg_read_auth_token, reg_read_root, reg_read_sp, reg_read_tlt,
}
use tee_mobicore_driver_daem.Pacmtl.{Build, set_cmd_element_info}
use tee_mobicore_driver_daem.Pacmp3.Prepare.{
  ensure_mapped_buffer_size, add_container, add_auth_token_container, add_root_container,
  add_sp_container, add_tlt_container, add_root_and_sp_containers, prepare_case, out_command,
  begin_command, prepare_command, command_bytes, spid_of,
}

-- The mapping of the buffer: its size and the driver's description of it.
pub record SameMap (h h' : Cmt) : Type 0 where
  pub size : h'.mapped_size ≡ h.mapped_size
  pub info : h'.map_info ≡ h.map_info

set_cmd_element_info-SameMap :
    (b : Build) (n : ℕ) → SameMap b.handle (set_cmd_element_info b n).handle
unfolding set_cmd_element_info
set_cmd_element_info-SameMap b n = ground arith

begin_command-SameMap : (id n : ℕ) (h : Cmt) → SameMap h (begin_command id n h).handle
unfolding begin_command
begin_command-SameMap id n h = ground arith

module _ {W : Type 0} (p : Platform W) where
  add_container-SameMap :
      (r : Read) (b : Build) (s : Sys W) → SameMap b.handle (add_container p r b s).0.build.handle
  unfolding add_container ensure_mapped_buffer_size set_cmd_element_info
  add_container-SameMap r b s = ground arith

  add_auth_token_container-SameMap :
      (b : Build) (s : Sys W) → SameMap b.handle (add_auth_token_container p b s).0.build.handle
  unfolding add_auth_token_container
  add_auth_token_container-SameMap b s =
      add_container-SameMap (reg_read_auth_token p s).0 b (reg_read_auth_token p s).1

  add_root_container-SameMap :
      (b : Build) (s : Sys W) → SameMap b.handle (add_root_container p b s).0.build.handle
  unfolding add_root_container
  add_root_container-SameMap b s =
      add_container-SameMap (reg_read_root p s).0 b (reg_read_root p s).1

  add_sp_container-SameMap :
      (spid : ℕ) (b : Build) (s : Sys W)
      → SameMap b.handle (add_sp_container p spid b s).0.build.handle
  unfolding add_sp_container
  add_sp_container-SameMap spid b s =
      add_container-SameMap (reg_read_sp p spid s).0 b (reg_read_sp p spid s).1

  add_tlt_container-SameMap :
      (uuid : List ℕ) (spid : ℕ) (b : Build) (s : Sys W)
      → SameMap b.handle (add_tlt_container p uuid spid b s).0.build.handle
  unfolding add_tlt_container
  add_tlt_container-SameMap uuid spid b s =
      add_container-SameMap (reg_read_tlt p uuid spid s).0 b (reg_read_tlt p uuid spid s).1

  add_root_and_sp_containers-SameMap :
      (saved : ℕ) (b : Build) (s : Sys W)
      → SameMap b.handle (add_root_and_sp_containers p saved b s).0.build.handle
  unfolding add_root_and_sp_containers out_command
  add_root_and_sp_containers-SameMap saved b s =
      let (a, s') = add_root_container p b s in
      let command = (out_command p saved a.build.handle s'.world).0 in
      ground (
        arith,
        add_root_container-SameMap b s,
        add_sp_container-SameMap (spid_of command) a.build s',
      )

  pub prepare_case-SameMap :
      (c : Command) (saved : ℕ) (command : List ℕ) (b : Build) (s : Sys W)
      → SameMap b.handle (prepare_case p c saved command b s).0.build.handle
  unfolding prepare_case
  prepare_case-SameMap Cmp.begin_soc_authentication saved command b s =
      add_auth_token_container-SameMap b _
  prepare_case-SameMap Cmp.begin_root_authentication saved command b s =
      add_root_container-SameMap b _
  prepare_case-SameMap Cmp.begin_sp_authentication saved command b s =
      add_root_and_sp_containers-SameMap _ b s
  prepare_case-SameMap Cmp.sp_cont_lock_by_root saved command b s = add_sp_container-SameMap _ b _
  prepare_case-SameMap Cmp.sp_cont_unlock_by_root saved command b s = add_sp_container-SameMap _ b _
  prepare_case-SameMap Cmp.tlt_cont_activate saved command b s = add_tlt_container-SameMap _ _ b _
  prepare_case-SameMap Cmp.tlt_cont_lock_by_sp saved command b s = add_tlt_container-SameMap _ _ b _
  prepare_case-SameMap Cmp.tlt_cont_personalize saved command b s =
      add_tlt_container-SameMap _ _ b _
  prepare_case-SameMap Cmp.tlt_cont_unlock_by_sp saved command b s =
      add_tlt_container-SameMap _ _ b _
  prepare_case-SameMap _ saved command b s = record { size = refl; info = refl }

  pub prepare_command-SameMap :
      (id : ℕ) (command : CmpMessage) (h : Cmt) (r : CmpMessage) (s : Sys W)
      → SameMap h (prepare_command p id command h r s).0.handle
  unfolding prepare_command ensure_mapped_buffer_size out_command
  prepare_command-SameMap id command h r s =
      let ready =
        ensure_mapped_buffer_size p (begin_command id command.length h).handle command.length s in
      let filled : Cmt = record (ready.0.1) {
        mapped = copy_to 0 (command_bytes command) ready.0.1.mapped;
      } in
      let b = begin_command id command.length h in
      ground (
        arith,
        begin_command-SameMap id command.length h,
        prepare_case-SameMap (command_of id) h.reallocs
            (out_command p h.reallocs filled ready.1.world).0 (record b { handle = filled })
            ready.1,
      )
