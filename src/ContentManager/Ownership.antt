-- ===== src/ContentManager/Ownership.antt =====
-- `handle_` of rootpa/Code/Common/contentmanager.c stands for exactly one open session, and for none
-- if it is NULL, whatever runs.
pub mod Commands
pub mod Batches
use tee_mobicore_driver_daem.Base.{
  ℕ, ◌+◌, ◌≡◌, refl, sym, ◌∙◌, ap, List, [], ◌∷◌, arith, zero, suc, Bool, true, false, none, some,
  inl, inr, Option-cases, is_some→some, read_u32, u32_mod,
}
use tee_mobicore_driver_daem.Cmp.{CmpMessage, rootpa_ok}
use tee_mobicore_driver_daem.World.{Platform}
use tee_mobicore_driver_daem.State.{Event, Sys, Cmt, call, silently}
use tee_mobicore_driver_daem.State
use tee_mobicore_driver_daem.Registry.{bytes_at}
use tee_mobicore_driver_daem.Pacmtl.{get_total_mapped_buffer_size, wsm_words}
use tee_mobicore_driver_daem.Channel.{tlt_channel_transmit, tlt_channel_open, tl_cm_uuid}
use tee_mobicore_driver_daem.Channel.Balance.{
  Resource, acquired, released, handles, ta_channel_open-Kept, tlt_channel_close-Kept,
}
use tee_mobicore_driver_daem.Channel.Quiet.{
  driver_events, Quiet, prepare_command-Quiet, handle_response-Quiet,
}
use tee_mobicore_driver_daem.Pacmp3.Prepare.{prepare_command}
use tee_mobicore_driver_daem.ContentManager.Session.{
  open_cmtl_session, close_cmtl_session, close_if_open,
}
use tee_mobicore_driver_daem.ContentManager.Execute.{
  Exec, mapped_fresh, inspect, transmit, attempt, execute_loop, finish, execute_one_cmp_command,
}
use tee_mobicore_driver_daem.ContentManager.Execute.Total.{execute_one_cmp_command-total}
use tee_mobicore_driver_daem.ContentManager.Batch.{
  Pair, matched, result_of, run_commands, complete, run_session, run_without,
  execute_content_management_commands,
}
use tee_mobicore_driver_daem.ContentManager.Batch.Closing.{
  run_commands-is_some, close_cmtl_session-none,
}

-- The events that open or close the session and what it stands on.
abbrev pub session_events : List Event → List Event
session_events [] = []
session_events (State.open_device r ∷ log) = State.open_device r ∷ session_events log
session_events (State.close_device r ∷ log) = State.close_device r ∷ session_events log
session_events (State.malloc_wsm r ∷ log) = State.malloc_wsm r ∷ session_events log
session_events (State.free_wsm r ∷ log) = State.free_wsm r ∷ session_events log
session_events (State.open_session r ∷ log) = State.open_session r ∷ session_events log
session_events (State.close_session r ∷ log) = State.close_session r ∷ session_events log
session_events (_ ∷ log) = session_events log

session_events-driver_events :
    (log : List Event) → session_events (driver_events log) ≡ session_events log
session_events-driver_events [] = refl
session_events-driver_events (State.open_device r ∷ log) =
    ap (◌∷◌ (State.open_device r)) (session_events-driver_events log)
session_events-driver_events (State.close_device r ∷ log) =
    ap (◌∷◌ (State.close_device r)) (session_events-driver_events log)
session_events-driver_events (State.malloc_wsm r ∷ log) =
    ap (◌∷◌ (State.malloc_wsm r)) (session_events-driver_events log)
session_events-driver_events (State.free_wsm r ∷ log) =
    ap (◌∷◌ (State.free_wsm r)) (session_events-driver_events log)
session_events-driver_events (State.open_session r ∷ log) =
    ap (◌∷◌ (State.open_session r)) (session_events-driver_events log)
session_events-driver_events (State.close_session r ∷ log) =
    ap (◌∷◌ (State.close_session r)) (session_events-driver_events log)
session_events-driver_events (State.map_buffer r ∷ log) = session_events-driver_events log
session_events-driver_events (State.unmap_buffer r ∷ log) = session_events-driver_events log
session_events-driver_events (State.notify r ∷ log) = session_events-driver_events log
session_events-driver_events (State.wait r ∷ log) = session_events-driver_events log
session_events-driver_events (_ ∷ log) = session_events-driver_events log

acquired-session_events :
    (k : Resource) (log : List Event) → acquired k (session_events log) ≡ acquired k log
acquired-session_events k [] = refl
acquired-session_events k (State.open_device r ∷ log) = omega (arith, acquired-session_events k log)
acquired-session_events k (State.close_device r ∷ log) =
    omega (arith, acquired-session_events k log)
acquired-session_events k (State.malloc_wsm r ∷ log) = omega (arith, acquired-session_events k log)
acquired-session_events k (State.free_wsm r ∷ log) = omega (arith, acquired-session_events k log)
acquired-session_events k (State.open_session r ∷ log) =
    omega (arith, acquired-session_events k log)
acquired-session_events k (State.close_session r ∷ log) =
    omega (arith, acquired-session_events k log)
acquired-session_events k (_ ∷ log) = omega (arith, acquired-session_events k log)

released-session_events :
    (k : Resource) (log : List Event) → released k (session_events log) ≡ released k log
released-session_events k [] = refl
released-session_events k (State.open_device r ∷ log) = omega (arith, released-session_events k log)
released-session_events k (State.close_device r ∷ log) =
    omega (arith, released-session_events k log)
released-session_events k (State.malloc_wsm r ∷ log) = omega (arith, released-session_events k log)
released-session_events k (State.free_wsm r ∷ log) = omega (arith, released-session_events k log)
released-session_events k (State.open_session r ∷ log) =
    omega (arith, released-session_events k log)
released-session_events k (State.close_session r ∷ log) =
    omega (arith, released-session_events k log)
released-session_events k (_ ∷ log) = omega (arith, released-session_events k log)

module _ {W : Type 0} where
  -- Of the device, the shared buffer and the session, as many are open as there are handles.
  abbrev pub Owns : Sys W → Type 0
  Owns s = (k : Resource) → acquired k s.log ≡ handles s.handle + released k s.log

  -- From a state to the next, no session was opened or closed, and `handle_` is the same.
  pub record SameSession (s s' : Sys W) : Type 0 where
    pub events : session_events s'.log ≡ session_events s.log
    pub same_handle : s'.handle ≡ s.handle

  pub of_Quiet : {s s' : Sys W} → Quiet s s' → SameSession s s'
  of_Quiet {s} {s'} q = record {
    events =
        sym (session_events-driver_events s'.log)
        ∙ ap session_events q.events
        ∙ session_events-driver_events s.log;
    same_handle = q.same_handle;
  }

  pub SameSession-Owns : (s s' : Sys W) → SameSession s s' → Owns s → Owns s'
  SameSession-Owns s s' q o k =
      let a =
        sym (acquired-session_events k s'.log)
        ∙ ap (acquired k) q.events
        ∙ acquired-session_events k s.log in
      let r =
        sym (released-session_events k s'.log)
        ∙ ap (released k) q.events
        ∙ released-session_events k s.log in
      let h = ap handles q.same_handle in omega (arith, o k)
