-- ===== src/ContentManager/Execute.antt =====
-- `executeOneCmpCommand` of rootpa/Code/Common/contentmanager.c: the command goes out in a mapped
-- buffer, which is made larger as long as the trustlet asks for that.
pub mod Total
pub mod Tags
pub mod Mapping
pub mod Succeeded
use tee_mobicore_driver_daem.Base.{
  ℕ, zero, suc, List, [], Bool, true, false, ◌||◌, Option, none, some, if◌then◌else◌, ◌==◌, ltb,
  leb, replicate, read_u32, minus_one, u32_mod, not,
}
use tee_mobicore_driver_daem.Cmp.{
  CmpMessage, mc_drv_ok, rootpa_ok, rootpa_command_not_supported, rootpa_error_internal,
  rootpa_error_mobicore_connection, rootpa_error_out_of_memory,
}
use tee_mobicore_driver_daem.World.{Platform, BulkMap}
use tee_mobicore_driver_daem.State.{
  M, when◌then◌else◌, option, Cmt, ◌>>=◌, ◌>>◌, pure, call, silently,
}
use tee_mobicore_driver_daem.State
use tee_mobicore_driver_daem.Registry.{bytes_at, is_null}
use tee_mobicore_driver_daem.Channel.{tlt_channel_transmit}
use tee_mobicore_driver_daem.Pacmtl.{get_needed_bytes_from_response, get_total_mapped_buffer_size}
use tee_mobicore_driver_daem.Pacmp3.Prepare.{prepare_command, respond_ret}
use tee_mobicore_driver_daem.Pacmp3.Response.{handle_response}

-- The local result, and what the handle and the two messages hold.
pub record Exec : Type 0 where
  pub ret : ℕ
  pub handle : Cmt
  pub command : CmpMessage
  pub response : CmpMessage

-- `hdr.intRet` of a message.
abbrev pub with_int_ret : ℕ → CmpMessage → CmpMessage
with_int_ret int_ret m = record m { hdr = record (m.hdr) { int_ret = int_ret } }

-- `if(hdr.ret==ROOTPA_OK) hdr.ret=ret;`
abbrev pub default_ret : ℕ → CmpMessage → CmpMessage
default_ret ret m = if m.hdr.ret == rootpa_ok then respond_ret ret m else m

-- A connection error with the driver's result in both messages.
abbrev fail_with : ℕ → Exec → Exec
fail_with result x = record x {
  ret = rootpa_error_mobicore_connection;
  command = with_int_ret result x.command;
  response = with_int_ret result x.response;
}

abbrev no_map : BulkMap
no_map = record { s_virtual_addr = 0; s_virtual_len = 0 }

abbrev pub mapped_fresh : BulkMap → Exec → Exec
mapped_fresh info x = record x {
  handle = record (x.handle) {
    mapped = replicate x.handle.mapped_size 0;
    map_info = info;
    reallocs = 0;
  };
}

module _ {W : Type 0} (p : Platform W) where
  -- What the answer asks for: `true` is another round, with a larger buffer.
  unfoldable pub inspect : Exec → M W (Bool × Exec)
  inspect x =
      let needed : ℕ = get_needed_bytes_from_response x.handle.wsm in
      when needed == 0
      then pure (false, x)
      else when needed == minus_one
      then pure (false, record x { ret = rootpa_error_mobicore_connection })
      else when leb needed x.handle.mapped_size
      then pure (false, record x { ret = rootpa_error_mobicore_connection })
      else (do
        unmapped ← call (p.unmap_buffer x.handle.map_info) State.unmap_buffer
        pure (
            if unmapped == mc_drv_ok
            then (
              true,
              record x { handle = record (x.handle) { map_info = no_map; mapped_size = needed } },
            )
            else (false, fail_with unmapped x)))

  -- The command is in the buffer: send it.
  unfoldable pub transmit : Exec → M W (Bool × Exec)
  transmit x = do
    (sent, handle) ← tlt_channel_transmit p x.handle
    when sent
        then inspect (record x { handle = handle })
        else pure (false, fail_with handle.last_error (record x { handle = handle }))

  -- One round of the loop.
  unfoldable pub attempt : ℕ → Exec → M W (Bool × Exec)
  attempt id x = do
    memory ← silently (p.alloc x.handle.mapped_size)
    when memory
        then (do
          (result, info) ← call (p.map_buffer x.handle.mapped_size) (λ r. State.map_buffer r.0)
          when result == mc_drv_ok
              then (do
                let y = mapped_fresh info x
                ready ← prepare_command p id y.command y.handle y.response
                let z = record y {
                  ret = ready.ret;
                  handle = ready.handle;
                  response = ready.response;
                }
                when ready.ret == rootpa_ok then transmit z else pure (false, z))
              else pure (false, fail_with result (mapped_fresh info x)))
        else pure (
          false,
          record x { ret = rootpa_error_out_of_memory; handle = record (x.handle) { mapped = [] } },
        )

  -- `while(true)`; `none` means that the fuel ran out.
  unfoldable pub execute_loop : ℕ → ℕ → Exec → M W (Option Exec)
  execute_loop zero id x = pure none
  execute_loop (suc fuel) id x = do
    (again, y) ← attempt id x
    when again then execute_loop fuel id y else pure (some y)

  -- After the loop: handle the response, unmap and free the buffer, and fill in the results.
  unfoldable pub finish : ℕ → Exec → M W Exec
  finish id x = do
    h ←
        (when x.ret == rootpa_ok
          then handle_response p id x.response x.handle
          else pure (record { ret = x.ret; response = respond_ret x.ret x.response }))
    unmapped ← call (p.unmap_buffer x.handle.map_info) State.unmap_buffer
    let ret = if unmapped == mc_drv_ok then h.ret else rootpa_error_mobicore_connection
    pure (record {
      ret = ret;
      handle = x.handle;
      command = default_ret ret x.command;
      response = default_ret ret h.response;
    })

  abbrev finish? : ℕ → Option Exec → M W (Option Exec)
  finish? id none = pure none
  finish? id (some x) = do y ← finish id x; pure (some y)

  unfoldable pub execute_one_cmp_command : Cmt → CmpMessage → CmpMessage → M W (Option Exec)
  execute_one_cmp_command handle command response =
      let id : ℕ = read_u32 (bytes_at command.content) 0 in
      let size : ℕ = get_total_mapped_buffer_size id command.length in
      let x : Exec = record {
        ret = rootpa_ok;
        handle = record handle { mapped_size = size };
        command = command;
        response = response;
      } in
      when is_null command.content || ltb command.length 4
      then pure (
          some (record {
            ret = rootpa_error_internal;
            handle = handle;
            command = command;
            response = response;
          }))
      else when size == 0
      then pure (some (record x { ret = rootpa_command_not_supported }))
      else (do r ← execute_loop u32_mod id x; finish? id r)
