-- ===== src/Tests/Sessions.antt =====
-- The theorems about the session and the mapped buffers at concrete inputs.
use tee_mobicore_driver_daem.Base.{◌+◌, ◌≡◌, refl, [], none, some, arith, false}
use tee_mobicore_driver_daem.Pacmtl.{
  get_total_mapped_buffer_size, get_cmp_size_info, find_size_info, size_table,
}
use tee_mobicore_driver_daem.Channel.{ta_channel_open, tlt_channel_close, fresh_handle}
use tee_mobicore_driver_daem.Channel.Balance.{
  Resource, acquired, released, handles, Kept, ta_channel_open-Kept, tlt_channel_close-Kept,
}
use tee_mobicore_driver_daem.Channel.Balance
use tee_mobicore_driver_daem.Pacmp3.Prepare.{prepare_command}
use tee_mobicore_driver_daem.Pacmp3.Layout.Unmoved.{ContainersFit, prepare_command-unmoved}
use tee_mobicore_driver_daem.ContentManager.Execute.{execute_one_cmp_command}
use tee_mobicore_driver_daem.ContentManager.Execute.Mapping.{Leaves, execute_one_cmp_command-Leaves}
use tee_mobicore_driver_daem.ContentManager.Batch.{execute_content_management_commands}
use tee_mobicore_driver_daem.ContentManager.Ownership.{Owns}
use tee_mobicore_driver_daem.ContentManager.Ownership.Batches.{
  execute_content_management_commands-Owns,
}
use tee_mobicore_driver_daem.Tests.Platforms.{working, idle, handle_of, message, no_response}
use tee_mobicore_driver_daem.Tests.Batches.{strict_batch}
use tee_mobicore_driver_daem.Tests.Commands.{begin_sp}

idle-Owns : Owns idle
idle-Owns k = refl

ta_channel_open-Kept_example :
    let (opened, s') = ta_channel_open working 10 [] none 0 idle in
    Kept (handles opened.0) [] s'.log
ta_channel_open-Kept_example = ta_channel_open-Kept working 10 [] none 0 idle

tlt_channel_close-Kept_example :
    let s' = (tlt_channel_close working (some (fresh_handle 10)) idle).1 in
    1 + (acquired Balance.session s'.log + released Balance.session [])
    ≡ acquired Balance.session [] + released Balance.session s'.log
tlt_channel_close-Kept_example =
    tlt_channel_close-Kept working (some (fresh_handle 10)) idle Balance.session

execute_content_management_commands-Owns_example :
    Owns (execute_content_management_commands working strict_batch idle).1
execute_content_management_commands-Owns_example =
    execute_content_management_commands-Owns working strict_batch idle idle-Owns

execute_one_cmp_command-Leaves_example :
    let s' = (execute_one_cmp_command working (handle_of 0) begin_sp no_response idle).1 in
    Leaves 0 0 [] s'.log
execute_one_cmp_command-Leaves_example =
    execute_one_cmp_command-Leaves working (handle_of 0) begin_sp no_response idle

working-ContainersFit : ContainersFit working
working-ContainersFit = omega arith

begin_root_size : 292 ≡ get_total_mapped_buffer_size 1 20
unfolding get_total_mapped_buffer_size get_cmp_size_info find_size_info size_table
begin_root_size = refl

prepare_command-unmoved_example :
    (prepare_command working 1
      (message 20 none false)
      (handle_of 292)
      no_response
      idle).0.handle.reallocs
    ≡ 0
prepare_command-unmoved_example =
    prepare_command-unmoved working working-ContainersFit 1 (message 20 none false) (handle_of 292)
      no_response idle begin_root_size (omega arith) (omega arith)
