-- ===== src/Tests/Batches.antt =====
-- The theorems about a batch of commands at concrete inputs.
use tee_mobicore_driver_daem.Base.{
  List, [], ◌∷◌, ◌≡◌, ◌≢◌, refl, Bool, true, false, none, some, arith,
}
use tee_mobicore_driver_daem.Cmp.{CmpMessage, rootpa_error_internal}
use tee_mobicore_driver_daem.Channel.{
  ta_channel_open, tlt_channel_open, open_on_device, open_by, fresh_handle,
}
use tee_mobicore_driver_daem.Pacmp3.Prepare.{respond_ret}
use tee_mobicore_driver_daem.ContentManager.Session.{open_cmtl_session, close_if_open}
use tee_mobicore_driver_daem.ContentManager.Batch.{
  Pair, Progress, matched, run_commands, execute_content_management_commands,
}
use tee_mobicore_driver_daem.ContentManager.Batch.Closing.{batch_closes, batch_keeps_session}
use tee_mobicore_driver_daem.ContentManager.Batch.Order.{Ran, run_commands-Ran}
use tee_mobicore_driver_daem.ContentManager.Batch.EarlyReturn.{
  early_return_keeps_session, out_of_memory_is_masked,
}
use tee_mobicore_driver_daem.Tests.Platforms.{
  working, without_memory, idle, handle_of, message, no_response,
}

-- A command with no content fails at once, with `ROOTPA_ERROR_INTERNAL`.
abbrev empty_command : Bool → CmpMessage
empty_command ignore_error = message 4 none ignore_error

abbrev ignored_batch : List Pair
ignored_batch = (empty_command true, no_response) ∷ []

abbrev pub strict_batch : List Pair
strict_batch = (empty_command false, no_response) ∷ (empty_command false, no_response) ∷ []

session_opens : (open_cmtl_session working idle).1.handle ≡ some (fresh_handle 10)
unfolding open_cmtl_session close_if_open tlt_channel_open ta_channel_open open_on_device open_by
session_opens = refl

batch_closes_example :
    (execute_content_management_commands working ignored_batch idle).1.handle ≡ none
batch_closes_example = batch_closes working ignored_batch idle refl (refl, tt)

batch_keeps_session_example :
    (execute_content_management_commands working strict_batch
      (record idle { handle = some (handle_of 0) })).1.handle
    ≢ none
batch_keeps_session_example =
    batch_keeps_session working strict_batch (record idle { handle = some (handle_of 0) })
      (handle_of 0) refl

out_of_memory_is_masked_example :
    ((open_cmtl_session without_memory idle).0 ≡ 6)
    × ((execute_content_management_commands without_memory strict_batch idle).0
        ≡ some (record { ret = 5; internal_error = 0; messages = strict_batch }))
out_of_memory_is_masked_example = out_of_memory_is_masked without_memory strict_batch idle refl refl

run_commands-Ran_example :
    let (out, s') = run_commands working 0 (fresh_handle 10) strict_batch idle in
    (r : Progress) × ((out ≡ some r) × Ran working 0 (fresh_handle 10) idle strict_batch r s')
run_commands-Ran_example = run_commands-Ran working 0 (fresh_handle 10) strict_batch idle

-- A command of three bytes.
abbrev short_command : CmpMessage
short_command = message 3 none false

early_return_keeps_session_example :
    let (out, s') =
      execute_content_management_commands working
        ((short_command, no_response) ∷ strict_batch)
        idle in
    (out
      ≡ some (record {
        ret = rootpa_error_internal;
        internal_error = 0;
        messages =
            (short_command, respond_ret rootpa_error_internal (matched short_command no_response))
            ∷ strict_batch;
      }))
    × ((s'.handle ≡ some (fresh_handle 10)) × (s'.log ≡ (open_cmtl_session working idle).1.log))
early_return_keeps_session_example =
    early_return_keeps_session working short_command no_response strict_batch idle refl
      session_opens (omega arith) (omega arith) refl refl
