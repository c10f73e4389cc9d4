-- ===== src/ContentManager/Execute/Tags.antt =====
-- What `executeOneCmpCommand` (rootpa/Code/Common/contentmanager.c) leaves alone in its messages:
-- the id and the flag, by which the caller matches responses with commands.
use tee_mobicore_driver_daem.Base.{
  ℕ, zero, suc, ◌≡◌, some, arith, read_u32, u32_mod, Option-cases, inl, inr,
}
use tee_mobicore_driver_daem.Cmp.{CmpMessage, rootpa_ok}
use tee_mobicore_driver_daem.World.{Platform}
use tee_mobicore_driver_daem.State.{Sys, Cmt, call, silently}
use tee_mobicore_driver_daem.State
use tee_mobicore_driver_daem.Channel.{tlt_channel_transmit}
use tee_mobicore_driver_daem.Registry.{bytes_at}
use tee_mobicore_driver_daem.Pacmtl.{get_total_mapped_buffer_size}
use tee_mobicore_driver_daem.Pacmp3.Prepare.{prepare_command}
use tee_mobicore_driver_daem.Pacmp3.Response.{
  conclude, allocate_response_buffer, accept_response, handle_response,
}
use tee_mobicore_driver_daem.ContentManager.Execute.{
  Exec, mapped_fresh, inspect, transmit, attempt, execute_loop, execute_one_cmp_command, finish,
}

pub record SameTag (m m' : CmpMessage) : Type 0 where
  pub same_id : m'.hdr.id ≡ m.hdr.id
  pub same_flag : m'.hdr.ignore_error ≡ m.hdr.ignore_error

-- The same tags, and a command with the same bytes.
pub record SameTags (x y : Exec) : Type 0 where
  pub command_tag : SameTag x.command y.command
  pub response_tag : SameTag x.response y.response
  pub same_length : y.command.length ≡ x.command.length
  pub same_content : y.command.content ≡ x.command.content

module _ {W : Type 0} (p : Platform W) where
  prepare_command-SameTag :
      (id : ℕ) (command : CmpMessage) (h : Cmt) (r : CmpMessage) (s : Sys W)
      → SameTag r (prepare_command p id command h r s).0.response
  unfolding prepare_command
  prepare_command-SameTag id command h r s = ground arith

  accept_response-SameTag :
      (id : ℕ) (r : CmpMessage) (h : Cmt) (s : Sys W)
      → SameTag r (accept_response p id r h s).0.response
  unfolding accept_response conclude
  accept_response-SameTag id r h s = ground arith

  allocate_response_buffer-SameTag :
      (r : CmpMessage) (h : Cmt) (s : Sys W)
      → SameTag r (allocate_response_buffer p r h s).0.response
  unfolding allocate_response_buffer
  allocate_response_buffer-SameTag r h s = ground arith

  handle_response-SameTag :
      (id : ℕ) (r : CmpMessage) (h : Cmt) (s : Sys W)
      → SameTag r (handle_response p id r h s).0.response
  unfolding handle_response
  handle_response-SameTag id r h s =
      let a = allocate_response_buffer p r h s in
      ground (
        arith,
        allocate_response_buffer-SameTag r h s,
        accept_response-SameTag id a.0.response h a.1,
      )

  inspect-SameTags : (x : Exec) (s : Sys W) → SameTags x (inspect p x s).0.1
  unfolding inspect
  inspect-SameTags x s = ground arith

  transmit-SameTags : (x : Exec) (s : Sys W) → SameTags x (transmit p x s).0.1
  unfolding transmit
  transmit-SameTags x s =
      let sent = tlt_channel_transmit p x.handle s in
      ground (arith, inspect-SameTags (record x { handle = sent.0.1 }) sent.1)

  attempt-SameTags : (id : ℕ) (x : Exec) (s : Sys W) → SameTags x (attempt p id x s).0.1
  unfolding attempt
  attempt-SameTags id x s =
      let s₁ = (silently (p.alloc x.handle.mapped_size) s).1 in
      let map = call (p.map_buffer x.handle.mapped_size) (λ r. State.map_buffer r.0) s₁ in
      let y = mapped_fresh map.0.1 x in
      let ready = prepare_command p id y.command y.handle y.response map.1 in
      let z : Exec = record y {
        ret = ready.0.ret;
        handle = ready.0.handle;
        response = ready.0.response;
      } in
      ground (
        arith,
        prepare_command-SameTag id y.command y.handle y.response map.1,
        transmit-SameTags z ready.1,
      )

  execute_loop-SameTags :
      (fuel id : ℕ) (x : Exec) (s : Sys W) (y : Exec)
      → (execute_loop p fuel id x s).0 ≡ some y
      → SameTags x y
  unfolding execute_loop
  execute_loop-SameTags zero id x s y e = cc
  execute_loop-SameTags (suc fuel) id x s y e =
      let a = attempt p id x s in
      ground (arith, attempt-SameTags id x s, execute_loop-SameTags fuel id a.0.1 a.1 y)

  finish-SameTags : (id : ℕ) (x : Exec) (s : Sys W) → SameTags x (finish p id x s).0
  unfolding finish
  finish-SameTags id x s = ground (arith, handle_response-SameTag id x.response x.handle s)

  pub execute_one_cmp_command-SameTags :
      (h : Cmt) (command response : CmpMessage) (s : Sys W) (y : Exec)
      → (execute_one_cmp_command p h command response s).0 ≡ some y
      → SameTags (record { ret = rootpa_ok; handle = h; command = command; response = response }) y
  unfolding execute_one_cmp_command
  execute_one_cmp_command-SameTags h command response s y e =
      let id : ℕ = read_u32 (bytes_at command.content) 0 in
      let size : ℕ = get_total_mapped_buffer_size id command.length in
      let x : Exec = record {
        ret = rootpa_ok;
        handle = record h { mapped_size = size };
        command = command;
        response = response;
      } in
      let r = execute_loop p u32_mod id x s in
      elim (Option-cases r.0) [
        | inl out ↦ ground arith
        | inr (z, ended) ↦
            ground (arith, execute_loop-SameTags u32_mod id x s z ended, finish-SameTags id z r.1)
      ]
