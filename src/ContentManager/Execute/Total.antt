-- ===== src/ContentManager/Execute/Total.antt =====
-- The loop of `executeOneCmpCommand` (rootpa/Code/Common/contentmanager.c) ends: every round more
-- asks for a larger buffer, and its size is a 32-bit word.
use tee_mobicore_driver_daem.Base.{
  ℕ, zero, suc, ◌+◌, ◌≤◌, ◌<◌, ◌≡◌, Bool, true, some, arith, u32_mod, List, is_some, is_some→some,
  read_u32,
}
use tee_mobicore_driver_daem.Cmp.{CmpMessage, rootpa_ok}
use tee_mobicore_driver_daem.World.{Platform}
use tee_mobicore_driver_daem.State.{Sys, Cmt, call, silently}
use tee_mobicore_driver_daem.State
use tee_mobicore_driver_daem.Channel.{tlt_channel_transmit}
use tee_mobicore_driver_daem.Registry.{bytes_at}
use tee_mobicore_driver_daem.Pacmtl.{get_total_mapped_buffer_size, get_needed_bytes_from_response}
use tee_mobicore_driver_daem.Pacmp3.Prepare.{prepare_command}
use tee_mobicore_driver_daem.Pacmp3.Frame.{SameMap, prepare_command-SameMap}
use tee_mobicore_driver_daem.ContentManager.Execute.{
  Exec, mapped_fresh, inspect, transmit, attempt, execute_loop, execute_one_cmp_command,
}

needed-lt : (wsm : List ℕ) → get_needed_bytes_from_response wsm < u32_mod
unfolding get_needed_bytes_from_response
needed-lt wsm = ground arith

-- From one round to the next the buffer grows, within 32 bits.
abbrev Grows : ℕ → Bool × Exec → Type 0
Grows size (again, y) =
    again ≡ true → (size < y.handle.mapped_size) × (y.handle.mapped_size < u32_mod)

module _ {W : Type 0} (p : Platform W) where
  inspect-Grows : (x : Exec) (s : Sys W) → Grows x.handle.mapped_size (inspect p x s).0
  unfolding inspect
  inspect-Grows x s again = ground (arith, needed-lt x.handle.wsm)

  tlt_channel_transmit-SameMap : (h : Cmt) (s : Sys W) → SameMap h (tlt_channel_transmit p h s).0.1
  unfolding tlt_channel_transmit
  tlt_channel_transmit-SameMap h s = ground arith

  transmit-Grows : (x : Exec) (s : Sys W) → Grows x.handle.mapped_size (transmit p x s).0
  unfolding transmit
  transmit-Grows x s again =
      let sent = tlt_channel_transmit p x.handle s in
      ground (
        arith,
        tlt_channel_transmit-SameMap x.handle s,
        inspect-Grows (record x { handle = sent.0.1 }) sent.1,
      )

  attempt-Grows : (id : ℕ) (x : Exec) (s : Sys W) → Grows x.handle.mapped_size (attempt p id x s).0
  unfolding attempt
  attempt-Grows id x s again =
      let s₁ = (silently (p.alloc x.handle.mapped_size) s).1 in
      let map = call (p.map_buffer x.handle.mapped_size) (λ r. State.map_buffer r.0) s₁ in
      let y = mapped_fresh map.0.1 x in
      let ready = prepare_command p id y.command y.handle y.response map.1 in
      let z : Exec = record y {
        ret = ready.0.ret;
        handle = ready.0.handle;
        response = ready.0.response;
      } in
      ground (
        arith,
        prepare_command-SameMap p id y.command y.handle y.response map.1,
        transmit-Grows z ready.1,
      )

  pub execute_loop-total :
      (fuel id : ℕ) (x : Exec) (s : Sys W)
      → u32_mod ≤ fuel + x.handle.mapped_size
      → 0 < fuel
      → is_some (execute_loop p fuel id x s).0 ≡ true
  unfolding execute_loop
  execute_loop-total zero id x s h k = elim k [ ]
  execute_loop-total (suc fuel) id x s h k =
      let a = attempt p id x s in
      ground (arith, attempt-Grows id x s, execute_loop-total fuel id a.0.1 a.1)

  pub execute_one_cmp_command-is_some :
      (handle : Cmt) (command response : CmpMessage) (s : Sys W)
      → is_some (execute_one_cmp_command p handle command response s).0 ≡ true
  unfolding execute_one_cmp_command
  execute_one_cmp_command-is_some handle command response s =
      let id : ℕ = read_u32 (bytes_at command.content) 0 in
      let size : ℕ = get_total_mapped_buffer_size id command.length in
      let x : Exec = record {
        ret = rootpa_ok;
        handle = record handle { mapped_size = size };
        command = command;
        response = response;
      } in
      ground (arith, execute_loop-total u32_mod id x s)

  -- Executing one command ends with a result, whatever the driver, the registry and the trustlet
  -- answer: the loop that asks for larger buffers does not run out of its fuel of 2^32 rounds.
  pub execute_one_cmp_command-total :
      (handle : Cmt) (command response : CmpMessage) (s : Sys W)
      → (y : Exec) × ((execute_one_cmp_command p handle command response s).0 ≡ some y)
  unfolding execute_one_cmp_command
  execute_one_cmp_command-total handle command response s =
      is_some→some _ (execute_one_cmp_command-is_some handle command response s)
