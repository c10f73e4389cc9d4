-- ===== src/CommandHandler/Provision/Thread.antt =====
-- What the provisioning thread (rootpa/Code/Common/commandhandler.c) leaves behind, whatever the
-- service enabler has it do.
use tee_mobicore_driver_daem.Base.{◌≡◌, ◌≢◌, List, ◌∷◌, none, arith, inl, inr, Bool-cases, ◌==◌}
use tee_mobicore_driver_daem.Cmp.{rootpa_ok}
use tee_mobicore_driver_daem.World.{Platform}
use tee_mobicore_driver_daem.State.{Event, M, Sys, provisioning_state_thread_exiting}
use tee_mobicore_driver_daem.State
use tee_mobicore_driver_daem.ContentManager.Session.{open_cmtl_session, close_cmtl_session}
use tee_mobicore_driver_daem.ContentManager.Batch.Closing.{close_cmtl_session-none}
use tee_mobicore_driver_daem.CommandHandler.Provision.{provisioning_thread_function}

-- The newest event is that the thread exits, and no session is open.
pub record Exited {W : Type 0} (s : Sys W) : Type 0 where
  pub before : List Event
  pub last : s.log ≡ State.callback_with provisioning_state_thread_exiting rootpa_ok ∷ before
  pub closed : s.handle ≡ none

module _ {W : Type 0} (p : Platform W) where
  open_cmtl_session-ok :
      (s : Sys W) → (open_cmtl_session p s).0 ≢ rootpa_ok → (open_cmtl_session p s).1.handle ≡ none
  unfolding open_cmtl_session
  open_cmtl_session-ok s e = ground arith

  -- Whatever the thread does in between, the last thing that it reports is
  -- PROVISIONING_STATE_THREAD_EXITING, and no session is open then.
  pub provisioning_thread_function-Exited :
      (f : M W (Unit {0})) (s : Sys W) → Exited (provisioning_thread_function p f s).1
  unfolding provisioning_thread_function
  provisioning_thread_function-Exited f s =
      let (ret, s') = open_cmtl_session p s in
      let held = open_cmtl_session-ok s in
      let shut = close_cmtl_session-none p (f s').1 in
      elim (Bool-cases (ret == rootpa_ok)) [
        | inl opened ↦ record {
          before = (close_cmtl_session p (f s').1).1.log;
          last = ground arith;
          closed = ground (arith, shut);
        }
        | inr failed ↦ record {
          before = State.callback_with State.error_state ret ∷ s'.log;
          last = ground arith;
          closed = ground (arith, held);
        }
      ]
