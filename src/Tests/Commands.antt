-- ===== src/Tests/Commands.antt =====
-- The theorems about one command at concrete inputs.
use tee_mobicore_driver_daem.Base.{
  ℕ, List, ◌∷◌, ◌≡◌, refl, false, some, arith, replicate, ◌<◌, add32, length,
}
use tee_mobicore_driver_daem.Cmp.{CmpMessage, command_of, rootpa_ok}
use tee_mobicore_driver_daem.Registry.{ReadsFit, bytes_at, reg_read_root, reg_read_sp}
use tee_mobicore_driver_daem.Pacmp3.Prepare.{
  prepare_command, prepare_case, add_root_and_sp_containers, out_command, add_root_container,
  add_sp_container, add_container, ensure_mapped_buffer_size, begin_command, command_bytes, spid_of,
}
use tee_mobicore_driver_daem.Pacmp3.Layout.Parts.{Holds}
use tee_mobicore_driver_daem.Pacmp3.Layout.Needs.{needs, announced, HasRead}
use tee_mobicore_driver_daem.Pacmp3.Layout.Prepared.{
  prepare_command-Holds, command_buffer, first_build,
}
use tee_mobicore_driver_daem.Pacmp3.Layout.Stale.{add_root_and_sp_containers-stale}
use tee_mobicore_driver_daem.Pacmtl.{Build, set_cmd_element_info}
use tee_mobicore_driver_daem.ContentManager.Execute.{Exec, execute_one_cmp_command}
use tee_mobicore_driver_daem.ContentManager.Execute.Total.{execute_one_cmp_command-total}
use tee_mobicore_driver_daem.Tests.Platforms.{working, idle, handle_of, message, no_response}

-- `MC_CMP_CMD_BEGIN_SP_AUTHENTICATION` for service provider 7.
abbrev pub begin_sp : CmpMessage
begin_sp =
    message 20 (some (3 ∷ 0 ∷ 0 ∷ 0 ∷ 20 ∷ 0 ∷ 0 ∷ 0 ∷ 0 ∷ 0 ∷ 0 ∷ 0 ∷ 7 ∷ replicate 7 0)) false

working-ReadsFit : ReadsFit working
working-ReadsFit = omega arith

execute_one_cmp_command-total_example :
    (y : Exec) × ((execute_one_cmp_command working (handle_of 0) begin_sp no_response idle).0
      ≡ some y)
execute_one_cmp_command-total_example =
    execute_one_cmp_command-total working (handle_of 0) begin_sp no_response idle

begin_sp_prepared :
    (prepare_command working 3 begin_sp (handle_of 64) no_response idle).0.ret ≡ rootpa_ok
unfolding prepare_command begin_command ensure_mapped_buffer_size prepare_case out_command
    add_root_and_sp_containers add_root_container add_sp_container add_container reg_read_root
    reg_read_sp command_of
begin_sp_prepared = refl

prepare_command-Holds_example :
    let c = command_of 3 in
    let (q, s') = prepare_command working 3 begin_sp (handle_of 64) no_response idle in
    (cs : List (List ℕ)) × HasRead
      (needs c)
      cs
      (command_buffer begin_sp (handle_of 64))
      (announced c idle)
      s'.log
    × Holds (command_bytes begin_sp ∷ cs) q.handle
prepare_command-Holds_example =
    prepare_command-Holds working working-ReadsFit 3 begin_sp (handle_of 64) no_response idle
      (omega arith) (omega arith) refl (omega arith) (λ k. (omega arith, λ w. omega arith))
      begin_sp_prepared

-- A mapped buffer that the command fills.
abbrev filled_build : Build
filled_build = first_build 3 begin_sp (handle_of 20)

root-large :
    filled_build.handle.mapped_size
    < add32 filled_build.element_offset (length (bytes_at (reg_read_root working idle).0.1))
unfolding begin_command set_cmd_element_info reg_read_root
root-large = omega arith

root_added : (add_root_container working filled_build idle).0.ret ≡ rootpa_ok
unfolding begin_command set_cmd_element_info reg_read_root add_root_container add_container
    ensure_mapped_buffer_size
root_added = refl

add_root_and_sp_containers-stale_example :
    let (a, s') = add_root_container working filled_build idle in
    add_root_and_sp_containers working filled_build.handle.reallocs filled_build idle
    ≡ add_sp_container working (spid_of (working.stale_bytes s'.world)) a.build s'
add_root_and_sp_containers-stale_example =
    add_root_and_sp_containers-stale working filled_build idle root-large root_added
