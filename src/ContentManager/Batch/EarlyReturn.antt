-- ===== src/ContentManager/Batch/EarlyReturn.antt =====
-- Where `executeContentManagementCommands` (rootpa/Code/Common/contentmanager.c) leaves its usual
-- end: the early return in the loop, and a session that does not open.
use tee_mobicore_driver_daem.Base.{◌≡◌, ◌<◌, ◌||◌, ltb, List, ◌∷◌, true, false, none, some, arith}
use tee_mobicore_driver_daem.Cmp.{
  CmpMessage, rootpa_ok, rootpa_error_internal, rootpa_error_mobicore_connection,
  rootpa_error_out_of_memory,
}
use tee_mobicore_driver_daem.World.{Platform}
use tee_mobicore_driver_daem.State.{Sys, Cmt}
use tee_mobicore_driver_daem.Channel.{
  sizeof_cmtstruct, ta_channel_open, tlt_channel_open, tlt_channel_close,
}
use tee_mobicore_driver_daem.ContentManager.Session.{
  open_cmtl_session, close_cmtl_session, close_if_open,
}
use tee_mobicore_driver_daem.Registry.{is_null}
use tee_mobicore_driver_daem.Pacmp3.Prepare.{respond_ret}
use tee_mobicore_driver_daem.ContentManager.Execute.{execute_one_cmp_command}
use tee_mobicore_driver_daem.ContentManager.Batch.{
  Pair, matched, run_commands, complete, run_session, run_without,
  execute_content_management_commands,
}

module _ {W : Type 0} (p : Platform W) where
  -- If no session is open before a batch, the session opens, and the first command has content
  -- that is too short for the id of a command, an error that is not to be ignored and a response
  -- without an error so far, then the batch returns ROOTPA_ERROR_INTERNAL with an internal error
  -- of 0 and writes that error to the response, the other commands are not run, and the session
  -- that it opened stays open.
  pub early_return_keeps_session :
      (command response : CmpMessage) (rest : List Pair) (s : Sys W) {h : Cmt}
      → s.handle ≡ none
      → (open_cmtl_session p s).1.handle ≡ some h
      → 0 < command.length
      → command.length < 4
      → command.hdr.ignore_error ≡ false
      → response.hdr.ret ≡ rootpa_ok
      → let (out, s') = execute_content_management_commands p ((command, response) ∷ rest) s in
        (out
          ≡ some (record {
            ret = rootpa_error_internal;
            internal_error = 0;
            messages =
                (command, respond_ret rootpa_error_internal (matched command response)) ∷ rest;
          }))
        × ((s'.handle ≡ some h) × (s'.log ≡ (open_cmtl_session p s).1.log))
  unfolding execute_content_management_commands run_session complete run_commands
      execute_one_cmp_command
  early_return_keeps_session command response rest s {h} e opened some_ short strict clean =
      let full : ltb 0 command.length ≡ true = ground arith in
      let lacking : (is_null command.content || ltb command.length 4) ≡ true = ground arith in
      ground (arith, full, lacking)

  -- If no session is open and there is no memory for a handle, opening the session returns
  -- ROOTPA_ERROR_OUT_OF_MEMORY, and the batch returns ROOTPA_ERROR_MOBICORE_CONNECTION with the
  -- messages untouched.
  pub out_of_memory_is_masked :
      (messages : List Pair) (s : Sys W)
      → s.handle ≡ none
      → (p.alloc sizeof_cmtstruct s.world).0 ≡ false
      → ((open_cmtl_session p s).0 ≡ rootpa_error_out_of_memory)
        × ((execute_content_management_commands p messages s).0
            ≡ some (record {
              ret = rootpa_error_mobicore_connection;
              internal_error = 0;
              messages = messages;
            }))
  unfolding execute_content_management_commands run_without open_cmtl_session close_if_open
      tlt_channel_open ta_channel_open close_cmtl_session tlt_channel_close
  out_of_memory_is_masked messages s e memory = ground arith
