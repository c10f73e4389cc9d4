-- ===== src/ContentManager/Ownership/Commands.antt =====
-- Running commands (rootpa/Code/Common/contentmanager.c) does not open or close the session.
use tee_mobicore_driver_daem.Base.{
  ℕ, List, [], ◌∷◌, arith, zero, suc, inl, inr, Option-cases, read_u32, u32_mod,
}
use tee_mobicore_driver_daem.Cmp.{CmpMessage, rootpa_ok}
use tee_mobicore_driver_daem.World.{Platform}
use tee_mobicore_driver_daem.State.{Event, Sys, Cmt, call, silently}
use tee_mobicore_driver_daem.State
use tee_mobicore_driver_daem.Registry.{bytes_at}
use tee_mobicore_driver_daem.Pacmtl.{get_total_mapped_buffer_size}
use tee_mobicore_driver_daem.Channel.{tlt_channel_transmit}
use tee_mobicore_driver_daem.Channel.Quiet.{prepare_command-Quiet, handle_response-Quiet}
use tee_mobicore_driver_daem.Pacmp3.Prepare.{prepare_command}
use tee_mobicore_driver_daem.ContentManager.Execute.{
  Exec, mapped_fresh, inspect, transmit, attempt, execute_loop, finish, execute_one_cmp_command,
}
use tee_mobicore_driver_daem.ContentManager.Execute.Total.{execute_one_cmp_command-total}
use tee_mobicore_driver_daem.ContentManager.Batch.{Pair, matched, result_of, run_commands}
use tee_mobicore_driver_daem.ContentManager.Ownership.{SameSession, of_Quiet}

module _ {W : Type 0} (p : Platform W) where
  inspect-SameSession : (x : Exec) (s : Sys W) → SameSession s (inspect p x s).1
  unfolding inspect
  inspect-SameSession x s = ground arith

  transmit-SameSession : (x : Exec) (s : Sys W) → SameSession s (transmit p x s).1
  unfolding transmit tlt_channel_transmit
  transmit-SameSession x s =
      let sent = tlt_channel_transmit p x.handle s in
      ground (arith, inspect-SameSession (record x { handle = sent.0.1 }) sent.1)

  attempt-SameSession : (id : ℕ) (x : Exec) (s : Sys W) → SameSession s (attempt p id x s).1
  unfolding attempt
  attempt-SameSession id x s =
      let s₁ = (silently (p.alloc x.handle.mapped_size) s).1 in
      let map = call (p.map_buffer x.handle.mapped_size) (λ r. State.map_buffer r.0) s₁ in
      let y = mapped_fresh map.0.1 x in
      let ready = prepare_command p id y.command y.handle y.response map.1 in
      let z : Exec = record y {
        ret = ready.0.ret;
        handle = ready.0.handle;
        response = ready.0.response;
      } in
      ground (
        arith,
        of_Quiet (prepare_command-Quiet p id y.command y.handle y.response map.1),
        transmit-SameSession z ready.1,
      )

  execute_loop-SameSession :
      (fuel id : ℕ) (x : Exec) (s : Sys W) → SameSession s (execute_loop p fuel id x s).1
  unfolding execute_loop
  execute_loop-SameSession zero id x s = ground arith
  execute_loop-SameSession (suc fuel) id x s =
      let a = attempt p id x s in
      ground (arith, attempt-SameSession id x s, execute_loop-SameSession fuel id a.0.1 a.1)

  finish-SameSession : (id : ℕ) (x : Exec) (s : Sys W) → SameSession s (finish p id x s).1
  unfolding finish
  finish-SameSession id x s =
      ground (arith, of_Quiet (handle_response-Quiet p id x.response x.handle s))

  execute_one_cmp_command-SameSession :
      (handle : Cmt) (command response : CmpMessage) (s : Sys W)
      → SameSession s (execute_one_cmp_command p handle command response s).1
  unfolding execute_one_cmp_command
  execute_one_cmp_command-SameSession handle command response s =
      let id : ℕ = read_u32 (bytes_at command.content) 0 in
      let size : ℕ = get_total_mapped_buffer_size id command.length in
      let x : Exec = record {
        ret = rootpa_ok;
        handle = record handle { mapped_size = size };
        command = command;
        response = response;
      } in
      let ran = execute_loop p u32_mod id x s in
      elim (Option-cases ran.0) [
        | inl e ↦ ground (arith, execute_loop-SameSession u32_mod id x s)
        | inr (y, e) ↦
            ground (arith, execute_loop-SameSession u32_mod id x s, finish-SameSession id y ran.1)
      ]

  pub run_commands-SameSession :
      (ret : ℕ) (h : Cmt) (messages : List Pair) (s : Sys W)
      → SameSession s (run_commands p ret h messages s).1
  unfolding run_commands
  run_commands-SameSession ret h [] s = ground arith
  run_commands-SameSession ret h ((command, response) ∷ rest) s =
      let m = matched command response in
      let one = execute_one_cmp_command-total p h command m s in
      let s' = (execute_one_cmp_command p h command m s).1 in
      ground (
        arith,
        one.1,
        execute_one_cmp_command-SameSession h command m s,
        run_commands-SameSession (result_of ret one.0) one.0.handle rest s',
        run_commands-SameSession ret h rest s,
      )
