-- ===== src/ContentManager/Batch.antt =====
-- `executeContentManagementCommands` of rootpa/Code/Common/contentmanager.c. The arrays of commands
-- and responses are one list of pairs.
pub mod Closing
pub mod Order
pub mod EarlyReturn
use tee_mobicore_driver_daem.Base.{
  ℕ, List, [], ◌∷◌, Bool, true, false, Option, none, some, if◌then◌else◌, ◌==◌, ltb,
}
use tee_mobicore_driver_daem.Cmp.{
  CmpMessage, rootpa_ok, mc_drv_err_no_free_memory, rootpa_error_out_of_memory,
  rootpa_error_mobicore_connection,
}
use tee_mobicore_driver_daem.World.{Platform}
use tee_mobicore_driver_daem.State.{M, when◌then◌else◌, option, Cmt, ◌>>=◌, ◌>>◌, pure}
use tee_mobicore_driver_daem.ContentManager.Session.{
  the_handle, set_handle, open_cmtl_session, close_cmtl_session, open_error,
}
use tee_mobicore_driver_daem.ContentManager.Execute.{Exec, default_ret, execute_one_cmp_command}

abbrev pub Pair : Type 0
Pair = CmpMessage × CmpMessage

-- The result so far, the handle, the messages, and whether the batch returned early.
pub record Progress : Type 0 where
  pub ret : ℕ
  pub handle : Cmt
  pub messages : List Pair
  pub stopped : Bool

-- What the caller gets: the result, `*internalError` and the messages.
pub record Outcome : Type 0 where
  pub ret : ℕ
  pub internal_error : ℕ
  pub messages : List Pair

-- The response gets the id and the flag of its command.
abbrev pub matched : CmpMessage → CmpMessage → CmpMessage
matched command response = record response {
  hdr = record (response.hdr) { id = command.hdr.id; ignore_error = command.hdr.ignore_error };
}

-- After a command: its own result if it failed, else the one so far.
abbrev pub result_of : ℕ → Exec → ℕ
result_of ret x = if x.ret == rootpa_ok then ret else x.ret

-- The messages of a command after it.
abbrev pub exchanged : Exec → Pair
exchanged x = (x.command, if x.ret == rootpa_ok then x.response else default_ret x.ret x.response)

-- Does the batch end at this command?
abbrev pub ends_at : Exec → Bool
ends_at x = if x.ret == rootpa_ok then false else if x.command.hdr.ignore_error then false else true

abbrev pub cons_message : Pair → Progress → Progress
cons_message m r = record r { messages = m ∷ r.messages }

abbrev cons_message? : Pair → Option Progress → Option Progress
cons_message? m none = none
cons_message? m (some r) = some (cons_message m r)

abbrev pub progress : ℕ → Cmt → List Pair → Bool → Progress
progress ret handle messages stopped = record {
  ret = ret;
  handle = handle;
  messages = messages;
  stopped = stopped;
}

abbrev internal_error_of : Progress → ℕ
internal_error_of r = if r.ret == rootpa_ok then 0 else r.handle.last_error

-- With `*internalError` still 0.
abbrev no_handle_error : ℕ → ℕ
no_handle_error internal_error =
    if internal_error == mc_drv_err_no_free_memory
    then rootpa_error_out_of_memory
    else rootpa_error_mobicore_connection

module _ {W : Type 0} (p : Platform W) where
  -- The `for` loop.
  unfoldable pub run_commands : ℕ → Cmt → List Pair → M W (Option Progress)
  run_commands ret handle [] = pure (some (progress ret handle [] false))
  run_commands ret handle ((command, response) ∷ rest) =
      when ltb 0 command.length
      then (do
        x? ← execute_one_cmp_command p handle command (matched command response)
        option x? (pure none) λ x.
            when ends_at x
            then pure (some (progress x.ret x.handle (exchanged x ∷ rest) true))
            else (do
              r ← run_commands (result_of ret x) x.handle rest
              pure (cons_message? (exchanged x) r)))
      else (do
        r ← run_commands ret handle rest
        pure (cons_message? (command, matched command response) r))

  -- The end of the function; an early return in the loop skips it.
  unfoldable pub complete : Bool → Progress → M W Outcome
  complete self_opened r =
      let out : Outcome = record {
        ret = r.ret;
        internal_error = internal_error_of r;
        messages = r.messages;
      } in
      when r.stopped
      then pure (record out { internal_error = 0 })
      else when self_opened
      then (do close_cmtl_session p; pure out)
      else pure out

  -- `handle_` is one with the handle that the loop works on.
  unfoldable pub run_session : Bool → ℕ → Cmt → List Pair → M W (Option Outcome)
  run_session self_opened ret handle messages = do
    r? ← run_commands ret handle messages
    option r? (pure none)
        λ r. do set_handle (some r.handle); out ← complete self_opened r; pure (some out)

  -- Without a handle: report the failure, and close what was opened here (nothing).
  unfoldable pub run_without : List Pair → M W (Option Outcome)
  run_without messages = do
    close_cmtl_session p
    pure (some (record { ret = no_handle_error 0; internal_error = 0; messages = messages }))

  unfoldable pub execute_content_management_commands : List Pair → M W (Option Outcome)
  execute_content_management_commands messages = do
    old ← the_handle
    option old
        (do
          ret ← open_cmtl_session p
          handle ← the_handle
          option handle (run_without messages) λ h. run_session true ret h messages)
        λ h. run_session false rootpa_ok h messages
