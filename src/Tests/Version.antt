-- ===== src/Tests/Version.antt =====
-- `getSuid` (rootpa/Code/Common/commandhandler.c) run on a platform, and the theorems about what
-- succeeds there.
use tee_mobicore_driver_daem.Base.{ℕ, List, [], ◌∷◌, ◌≡◌, refl, some, replicate}
use tee_mobicore_driver_daem.Cmp.{command_of, is_rsp, rsp_id}
use tee_mobicore_driver_daem.Pacmtl.{
  get_total_mapped_buffer_size, get_cmp_size_info, find_size_info, size_table, get_rsp_element_info,
  is_valid_response, is_valid_response_to, get_needed_bytes_from_response, set_cmd_element_info,
  set_cmd_map_info, set_cmd_cmp_version_and_cmd_id,
}
use tee_mobicore_driver_daem.Pacmp3.Prepare.{
  begin_command, ensure_mapped_buffer_size, prepare_case, out_command, prepare_command,
}
use tee_mobicore_driver_daem.Pacmp3.Store.{store_containers}
use tee_mobicore_driver_daem.Pacmp3.Response.{
  conclude, allocate_response_buffer, accept_response, handle_response,
}
use tee_mobicore_driver_daem.Channel.{tlt_channel_transmit}
use tee_mobicore_driver_daem.ContentManager.Execute.Succeeded.{
  Succeeded, started, execute_one_cmp_command-Succeeded,
}
use tee_mobicore_driver_daem.ContentManager.Execute.{
  Exec, inspect, transmit, attempt, execute_loop, finish, execute_one_cmp_command,
}
use tee_mobicore_driver_daem.CommandHandler.Version.{id_only, zero_message}
use tee_mobicore_driver_daem.Tests.Platforms.{working, idle, handle_of}

-- The response to the command, and the handle after it.
abbrev suid_response : List ℕ
suid_response = 27 ∷ replicate 23 0

abbrev suid_executed : Exec
suid_executed = record {
  ret = 0;
  handle = record (handle_of 24) {
    wsm = 196608 ∷ 2147483675 ∷ 0 ∷ 0 ∷ 24 ∷ 0 ∷ 0 ∷ 0 ∷ 0 ∷ 0 ∷ [];
    mapped = suid_response;
  };
  command = id_only 27;
  response = record zero_message { length = 24; content = some suid_response };
}

suid_runs :
    (execute_one_cmp_command working (handle_of 0) (id_only 27) zero_message idle).0
    ≡ some suid_executed
unfolding execute_one_cmp_command finish execute_loop attempt transmit inspect tlt_channel_transmit
    handle_response accept_response allocate_response_buffer conclude store_containers
    prepare_command prepare_case out_command ensure_mapped_buffer_size begin_command
    set_cmd_element_info set_cmd_map_info set_cmd_cmp_version_and_cmd_id
    get_needed_bytes_from_response is_valid_response_to is_valid_response get_rsp_element_info
    get_total_mapped_buffer_size get_cmp_size_info find_size_info size_table command_of is_rsp
    rsp_id
suid_runs = refl

execute_one_cmp_command-Succeeded_example :
    Succeeded working 27
      (started working (handle_of 0) (id_only 27) zero_message)
      suid_executed
      idle
      (execute_one_cmp_command working (handle_of 0) (id_only 27) zero_message idle).1
execute_one_cmp_command-Succeeded_example =
    execute_one_cmp_command-Succeeded working (handle_of 0) (id_only 27) zero_message idle suid_runs
      refl
