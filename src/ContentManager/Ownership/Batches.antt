-- ===== src/ContentManager/Ownership/Batches.antt =====
-- A batch of commands (rootpa/Code/Common/contentmanager.c) keeps what `handle_` stands for.
use tee_mobicore_driver_daem.Base.{
  ℕ, ◌≡◌, List, arith, Bool, true, false, none, some, inl, inr, Option-cases, is_some→some,
}
use tee_mobicore_driver_daem.Cmp.{rootpa_ok}
use tee_mobicore_driver_daem.World.{Platform}
use tee_mobicore_driver_daem.State.{Sys, Cmt}
use tee_mobicore_driver_daem.Pacmtl.{wsm_words}
use tee_mobicore_driver_daem.Channel.{tlt_channel_open, tl_cm_uuid}
use tee_mobicore_driver_daem.Channel.Balance.{ta_channel_open-Kept, tlt_channel_close-Kept}
use tee_mobicore_driver_daem.ContentManager.Session.{
  open_cmtl_session, close_cmtl_session, close_if_open,
}
use tee_mobicore_driver_daem.ContentManager.Batch.{
  Pair, run_commands, complete, run_session, run_without, execute_content_management_commands,
}
use tee_mobicore_driver_daem.ContentManager.Batch.Closing.{
  run_commands-is_some, close_cmtl_session-none,
}
use tee_mobicore_driver_daem.ContentManager.Ownership.{Owns, SameSession-Owns}
use tee_mobicore_driver_daem.ContentManager.Ownership.Commands.{run_commands-SameSession}

module _ {W : Type 0} (p : Platform W) where
  pub close_cmtl_session-Owns : (s : Sys W) → Owns s → Owns (close_cmtl_session p s).1
  unfolding close_cmtl_session
  close_cmtl_session-Owns s o k = ground (arith, o k, tlt_channel_close-Kept p s.handle s k)

  pub open_cmtl_session-Owns : (s : Sys W) → Owns s → Owns (open_cmtl_session p s).1
  unfolding open_cmtl_session close_if_open tlt_channel_open
  open_cmtl_session-Owns s o k = elim (Option-cases s.handle) [
    | inl e ↦ ground (arith, o k, ta_channel_open-Kept p wsm_words tl_cm_uuid none 0 s k)
    | inr (h, e) ↦
        let s' = (close_cmtl_session p s).1 in
        ground (
          arith,
          close_cmtl_session-Owns s o k,
          close_cmtl_session-none p s,
          ta_channel_open-Kept p wsm_words tl_cm_uuid none 0 s' k,
        )
  ]

  run_session-Owns :
      (self_opened : Bool) (ret : ℕ) (h : Cmt) (messages : List Pair) (s : Sys W)
      → s.handle ≡ some h
      → Owns s
      → Owns (run_session p self_opened ret h messages s).1
  unfolding run_session complete
  run_session-Owns self_opened ret h messages s e o k =
      let (r, s') = run_commands p ret h messages s in
      let (done, go) = is_some→some r (run_commands-is_some p ret h messages s) in
      let after : Sys W = record s' { handle = some done.handle } in
      let quiet = run_commands-SameSession p ret h messages s in
      let held : Owns after =
        λ k'. ground (arith, SameSession-Owns s s' quiet o k', quiet.same_handle) in
      ground (arith, go, held k, close_cmtl_session-Owns after held k)

  run_without-Owns : (messages : List Pair) (s : Sys W) → Owns s → Owns (run_without p messages s).1
  unfolding run_without
  run_without-Owns messages s o k = close_cmtl_session-Owns s o k

  -- A batch keeps this invariant: the device, the shared buffer and the session have each been
  -- acquired as often as released if handle_ is NULL, and once more if it is not.
  pub execute_content_management_commands-Owns :
      (messages : List Pair) (s : Sys W)
      → Owns s
      → Owns (execute_content_management_commands p messages s).1
  unfolding execute_content_management_commands
  execute_content_management_commands-Owns messages s o k = elim (Option-cases s.handle) [
    | inr (h, e) ↦ ground (arith, run_session-Owns false rootpa_ok h messages s e o k)
    | inl e ↦
        let (ret, s') = open_cmtl_session p s in
        let o' = open_cmtl_session-Owns s o in
        elim (Option-cases s'.handle) [
          | inl e' ↦ ground (arith, run_without-Owns messages s' o' k)
          | inr (h, e') ↦ ground (arith, run_session-Owns true ret h messages s' e' o' k)
        ]
  ]
