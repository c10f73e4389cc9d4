-- ===== src/Pacmp3/Layout/Stale.antt =====
-- A pointer into the mapped buffer that `realloc` has given up, `prepareCommand` of
-- rootpa/Code/Common/pacmp3.c.
use tee_mobicore_driver_daem.Base.{◌<◌, ◌≡◌, refl, true, false, arith, add32, length, ◌==◌}
use tee_mobicore_driver_daem.World.{Platform}
use tee_mobicore_driver_daem.State.{Sys}
use tee_mobicore_driver_daem.Cmp.{rootpa_ok}
use tee_mobicore_driver_daem.Registry.{bytes_at, reg_read_root}
use tee_mobicore_driver_daem.Pacmtl.{Build, set_cmd_element_info}
use tee_mobicore_driver_daem.Pacmp3.Prepare.{
  ensure_mapped_buffer_size, add_container, add_root_container, add_sp_container, out_command,
  add_root_and_sp_containers, spid_of,
}

module _ {W : Type 0} (p : Platform W) where
  add_root_container-moved :
      (b : Build) (s : Sys W)
      → b.handle.mapped_size < add32 b.element_offset (length (bytes_at (reg_read_root p s).0.1))
      → (add_root_container p b s).0.ret ≡ rootpa_ok
      → ((add_root_container p b s).0.build.handle.reallocs == b.handle.reallocs) ≡ false
  unfolding add_root_container add_container ensure_mapped_buffer_size set_cmd_element_info
  add_root_container-moved b s large ok = ground arith

  -- When the root container that was added for the authentication of a service provider did not
  -- fit the mapped buffer, so that realloc was called, the service provider's container is read
  -- for the id that the memory has which realloc has given up, not for the one in the command.
  pub add_root_and_sp_containers-stale :
      (b : Build) (s : Sys W)
      → b.handle.mapped_size < add32 b.element_offset (length (bytes_at (reg_read_root p s).0.1))
      → (add_root_container p b s).0.ret ≡ rootpa_ok
      → let (a, s') = add_root_container p b s in
        add_root_and_sp_containers p b.handle.reallocs b s
        ≡ add_sp_container p (spid_of (p.stale_bytes s'.world)) a.build s'
  unfolding add_root_and_sp_containers out_command
  add_root_and_sp_containers-stale b s large ok =
      let fine : ((add_root_container p b s).0.ret == rootpa_ok) ≡ true = ground arith in
      rw (fine, add_root_container-moved b s large ok) refl
