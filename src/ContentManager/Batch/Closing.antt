-- ===== src/ContentManager/Batch/Closing.antt =====
-- When `executeContentManagementCommands` (rootpa/Code/Common/contentmanager.c) closes the session
-- that it opened, when it ends, and what it reports for a session that does not open.
use tee_mobicore_driver_daem.Base.{
  ℕ, ◌≡◌, ◌≢◌, refl, List, [], ◌∷◌, Bool, true, false, none, some, arith, is_some, is_some→some,
  inl, inr, Option-cases,
}
use tee_mobicore_driver_daem.Cmp.{rootpa_ok}
use tee_mobicore_driver_daem.World.{Platform}
use tee_mobicore_driver_daem.State.{Sys, Cmt}
use tee_mobicore_driver_daem.ContentManager.Session.{open_cmtl_session, close_cmtl_session}
use tee_mobicore_driver_daem.ContentManager.Execute.{execute_one_cmp_command}
use tee_mobicore_driver_daem.ContentManager.Execute.Total.{execute_one_cmp_command-total}
use tee_mobicore_driver_daem.ContentManager.Execute.Tags.{execute_one_cmp_command-SameTags}
use tee_mobicore_driver_daem.ContentManager.Batch.{
  Pair, Progress, Outcome, matched, result_of, run_commands, complete, run_session, run_without,
  execute_content_management_commands,
}

-- Every command says that its error is to be ignored.
abbrev pub AllIgnored : List Pair → Type 0
AllIgnored [] = Unit {0}
AllIgnored ((command, _) ∷ rest) = (command.hdr.ignore_error ≡ true) × AllIgnored rest

module _ {W : Type 0} (p : Platform W) where
  pub run_commands-is_some :
      (ret : ℕ) (h : Cmt) (messages : List Pair) (s : Sys W)
      → is_some (run_commands p ret h messages s).0 ≡ true
  unfolding run_commands
  run_commands-is_some ret h [] s = refl
  run_commands-is_some ret h ((command, response) ∷ rest) s =
      let one = execute_one_cmp_command-total p h command (matched command response) s in
      let s' = (execute_one_cmp_command p h command (matched command response) s).1 in
      ground (
        arith,
        one.1,
        run_commands-is_some (result_of ret one.0) one.0.handle rest s',
        run_commands-is_some ret h rest s,
      )

  run_session-is_some :
      (self_opened : Bool) (ret : ℕ) (h : Cmt) (messages : List Pair) (s : Sys W)
      → is_some (run_session p self_opened ret h messages s).0 ≡ true
  unfolding run_session
  run_session-is_some self_opened ret h messages s =
      ground (arith, run_commands-is_some ret h messages s)

  batch-is_some :
      (messages : List Pair) (s : Sys W)
      → is_some (execute_content_management_commands p messages s).0 ≡ true
  unfolding execute_content_management_commands run_without
  batch-is_some messages s = elim (Option-cases s.handle) [
    | inr (h, e) ↦ ground (arith, run_session-is_some false rootpa_ok h messages s)
    | inl e ↦
        let s' = (open_cmtl_session p s).1 in
        elim (Option-cases s'.handle) [
          | inr (h, e') ↦
              ground (arith, run_session-is_some true (open_cmtl_session p s).0 h messages s')
          | inl e' ↦ ground arith
        ]
  ]

  -- A batch of commands ends with an outcome, whatever the driver, the registry and the trustlet
  -- answer.
  pub execute_content_management_commands-total :
      (messages : List Pair) (s : Sys W)
      → (out : Outcome) × ((execute_content_management_commands p messages s).0 ≡ some out)
  execute_content_management_commands-total messages s = is_some→some _ (batch-is_some messages s)

  pub close_cmtl_session-none : (s : Sys W) → (close_cmtl_session p s).1.handle ≡ none
  unfolding close_cmtl_session
  close_cmtl_session-none s = refl

  -- A command that says so does not end the batch; its message keeps the flag.
  run_commands-unstopped :
      (ret : ℕ) (h : Cmt) (messages : List Pair) (s : Sys W) (r : Progress)
      → AllIgnored messages
      → (run_commands p ret h messages s).0 ≡ some r
      → r.stopped ≡ false
  unfolding run_commands
  run_commands-unstopped ret h [] s r a e = ground arith
  run_commands-unstopped ret h ((command, response) ∷ rest) s r a e =
      let m = matched command response in
      let one = execute_one_cmp_command-total p h command m s in
      let x = one.0 in
      let s' = (execute_one_cmp_command p h command m s).1 in
      let later = run_commands p (result_of ret x) x.handle rest s' in
      let skipped = run_commands p ret h rest s in
      let go = is_some→some later.0 (run_commands-is_some (result_of ret x) x.handle rest s') in
      let go' = is_some→some skipped.0 (run_commands-is_some ret h rest s) in
      ground (
        arith,
        one.1,
        go.1,
        go'.1,
        execute_one_cmp_command-SameTags p h command m s x one.1,
        run_commands-unstopped (result_of ret x) x.handle rest s' go.0 a.1 go.1,
        run_commands-unstopped ret h rest s go'.0 a.1 go'.1,
      )

  -- If no session is open before a batch and every command says that its error is to be ignored,
  -- no session is open after it.
  pub batch_closes :
      (messages : List Pair) (s : Sys W)
      → s.handle ≡ none
      → AllIgnored messages
      → (execute_content_management_commands p messages s).1.handle ≡ none
  unfolding execute_content_management_commands run_without run_session complete
  batch_closes messages s closed a =
      let s' = (open_cmtl_session p s).1 in
      elim (Option-cases s'.handle) [
        | inl e' ↦ ground (arith, close_cmtl_session-none s')
        | inr (h, e') ↦
            let ret = (open_cmtl_session p s).0 in
            let r = run_commands p ret h messages s' in
            let go = is_some→some r.0 (run_commands-is_some ret h messages s') in
            ground (
              arith,
              go.1,
              run_commands-unstopped ret h messages s' go.0 a go.1,
              close_cmtl_session-none (record (r.1) { handle = some go.0.handle }),
            )
      ]

  -- A session that is open before a batch is open after it.
  pub batch_keeps_session :
      (messages : List Pair) (s : Sys W) (h : Cmt)
      → s.handle ≡ some h
      → (execute_content_management_commands p messages s).1.handle ≢ none
  unfolding execute_content_management_commands run_session complete
  batch_keeps_session messages s h e =
      let go = is_some→some _ (run_commands-is_some rootpa_ok h messages s) in ground (arith, go.1)
