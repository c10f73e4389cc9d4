-- ===== src/ContentManager/Execute/Mapping.antt =====
-- Which memory `executeOneCmpCommand` (rootpa/Code/Common/contentmanager.c) maps to the secure world,
-- and unmaps.
use tee_mobicore_driver_daem.Base.{
  ℕ, ◌+◌, ◌≤◌, ◌≡◌, refl, sym, ◌∙◌, ap, List, [], ◌∷◌, arith, zero, suc, Bool, inl, inr,
  Option-cases, read_u32, u32_mod, if◌then◌else◌, ◌==◌,
}
use tee_mobicore_driver_daem.Cmp.{CmpMessage, mc_drv_ok, rootpa_ok}
use tee_mobicore_driver_daem.World.{Platform}
use tee_mobicore_driver_daem.State.{Event, Sys, Cmt, call, silently}
use tee_mobicore_driver_daem.State
use tee_mobicore_driver_daem.Registry.{bytes_at}
use tee_mobicore_driver_daem.Pacmtl.{get_total_mapped_buffer_size}
use tee_mobicore_driver_daem.Channel.{tlt_channel_transmit}
use tee_mobicore_driver_daem.Channel.Quiet.{
  driver_events, Quiet, prepare_command-Quiet, handle_response-Quiet,
}
use tee_mobicore_driver_daem.Pacmp3.Prepare.{prepare_command}
use tee_mobicore_driver_daem.ContentManager.Execute.{
  Exec, mapped_fresh, inspect, transmit, attempt, execute_loop, finish, execute_one_cmp_command,
}
use tee_mobicore_driver_daem.ContentManager.Execute.Total.{execute_loop-total}

-- How many buffers were mapped, and how often one was unmapped.
abbrev pub mapped : List Event → ℕ
mapped [] = 0
mapped (State.map_buffer r ∷ log) = (if r == mc_drv_ok then 1 else 0) + mapped log
mapped (_ ∷ log) = mapped log

abbrev pub unmapped : List Event → ℕ
unmapped [] = 0
unmapped (State.unmap_buffer r ∷ log) = 1 + unmapped log
unmapped (_ ∷ log) = unmapped log

mapped-driver_events : (log : List Event) → mapped (driver_events log) ≡ mapped log
mapped-driver_events [] = refl
mapped-driver_events (State.map_buffer r ∷ log) =
    ap (◌+◌ (if r == mc_drv_ok then 1 else 0)) (mapped-driver_events log)
mapped-driver_events (State.unmap_buffer r ∷ log) = mapped-driver_events log
mapped-driver_events (State.notify r ∷ log) = mapped-driver_events log
mapped-driver_events (State.wait r ∷ log) = mapped-driver_events log
mapped-driver_events (State.open_device r ∷ log) = mapped-driver_events log
mapped-driver_events (State.close_device r ∷ log) = mapped-driver_events log
mapped-driver_events (State.malloc_wsm r ∷ log) = mapped-driver_events log
mapped-driver_events (State.free_wsm r ∷ log) = mapped-driver_events log
mapped-driver_events (State.open_session r ∷ log) = mapped-driver_events log
mapped-driver_events (State.close_session r ∷ log) = mapped-driver_events log
mapped-driver_events (_ ∷ log) = mapped-driver_events log

unmapped-driver_events : (log : List Event) → unmapped (driver_events log) ≡ unmapped log
unmapped-driver_events [] = refl
unmapped-driver_events (State.map_buffer r ∷ log) = unmapped-driver_events log
unmapped-driver_events (State.unmap_buffer r ∷ log) = ap (◌+◌ 1) (unmapped-driver_events log)
unmapped-driver_events (State.notify r ∷ log) = unmapped-driver_events log
unmapped-driver_events (State.wait r ∷ log) = unmapped-driver_events log
unmapped-driver_events (State.open_device r ∷ log) = unmapped-driver_events log
unmapped-driver_events (State.close_device r ∷ log) = unmapped-driver_events log
unmapped-driver_events (State.malloc_wsm r ∷ log) = unmapped-driver_events log
unmapped-driver_events (State.free_wsm r ∷ log) = unmapped-driver_events log
unmapped-driver_events (State.open_session r ∷ log) = unmapped-driver_events log
unmapped-driver_events (State.close_session r ∷ log) = unmapped-driver_events log
unmapped-driver_events (_ ∷ log) = unmapped-driver_events log

-- With `before` buffers mapped at the older log, at most `after` are at the newer one.
pub record Leaves (before after : ℕ) (old new : List Event) : Type 0 where
  pub balance : before + (mapped new + unmapped old) ≤ after + (mapped old + unmapped new)

module _ {W : Type 0} where
  of_Quiet : (n : ℕ) {s s' : Sys W} → Quiet s s' → Leaves n n s.log s'.log
  of_Quiet n {s} {s'} q =
      let m = sym (mapped-driver_events s'.log) ∙ ap mapped q.events ∙ mapped-driver_events s.log in
      let u =
        sym (unmapped-driver_events s'.log) ∙ ap unmapped q.events ∙ unmapped-driver_events s.log in
      record { balance = omega (arith, m, u) }

-- What a round leaves mapped: nothing if there is another, else at most its own buffer.
abbrev left : Bool → ℕ
left again = if again then 0 else 1

module _ {W : Type 0} (p : Platform W) where
  inspect-Leaves :
      (x : Exec) (s : Sys W) → let (a, s') = inspect p x s in Leaves 1 (left a.0) s.log s'.log
  unfolding inspect
  inspect-Leaves x s = ground arith

  transmit-Leaves :
      (x : Exec) (s : Sys W) → let (a, s') = transmit p x s in Leaves 1 (left a.0) s.log s'.log
  unfolding transmit tlt_channel_transmit
  transmit-Leaves x s =
      let sent = tlt_channel_transmit p x.handle s in
      ground (arith, inspect-Leaves (record x { handle = sent.0.1 }) sent.1)

  attempt-Leaves :
      (id : ℕ) (x : Exec) (s : Sys W)
      → let (a, s') = attempt p id x s in Leaves 0 (left a.0) s.log s'.log
  unfolding attempt
  attempt-Leaves id x s =
      let s₁ = (silently (p.alloc x.handle.mapped_size) s).1 in
      let map = call (p.map_buffer x.handle.mapped_size) (λ r. State.map_buffer r.0) s₁ in
      let y = mapped_fresh map.0.1 x in
      let ready = prepare_command p id y.command y.handle y.response map.1 in
      let z : Exec = record y {
        ret = ready.0.ret;
        handle = ready.0.handle;
        response = ready.0.response;
      } in
      ground (
        arith,
        of_Quiet 0 (prepare_command-Quiet p id y.command y.handle y.response map.1),
        transmit-Leaves z ready.1,
      )

  execute_loop-Leaves :
      (fuel id : ℕ) (x : Exec) (s : Sys W) → Leaves 0 1 s.log (execute_loop p fuel id x s).1.log
  unfolding execute_loop
  execute_loop-Leaves zero id x s = ground arith
  execute_loop-Leaves (suc fuel) id x s =
      let a = attempt p id x s in
      ground (arith, attempt-Leaves id x s, execute_loop-Leaves fuel id a.0.1 a.1)

  finish-Leaves : (id : ℕ) (x : Exec) (s : Sys W) → Leaves 1 0 s.log (finish p id x s).1.log
  unfolding finish
  finish-Leaves id x s =
      ground (arith, of_Quiet 0 (handle_response-Quiet p id x.response x.handle s))

  -- Over one command, mcUnmap is called at least as often as mcMap succeeds, whichever way the
  -- command ends.
  pub execute_one_cmp_command-Leaves :
      (handle : Cmt) (command response : CmpMessage) (s : Sys W)
      → let s' = (execute_one_cmp_command p handle command response s).1 in Leaves 0 0 s.log s'.log
  unfolding execute_one_cmp_command
  execute_one_cmp_command-Leaves handle command response s =
      let id : ℕ = read_u32 (bytes_at command.content) 0 in
      let size : ℕ = get_total_mapped_buffer_size id command.length in
      let x : Exec = record {
        ret = rootpa_ok;
        handle = record handle { mapped_size = size };
        command = command;
        response = response;
      } in
      let (ran, s') = execute_loop p u32_mod id x s in
      elim (Option-cases ran) [
        | inl e ↦ ground (arith, execute_loop-total p u32_mod id x s (omega arith) (omega arith))
        | inr (y, e) ↦ ground (arith, execute_loop-Leaves u32_mod id x s, finish-Leaves id y s')
      ]
