-- ===== src/Channel.antt =====
-- rootpa/Code/Common/trustletchannel.c: the session to a trustlet over the MobiCore driver. The
-- Windows branch is not modelled. `wsmP` of an open channel is never NULL.
pub mod Balance
pub mod Quiet
use tee_mobicore_driver_daem.Base.{
  ℕ, List, [], ◌∷◌, Bool, false, not, Option, none, some, if◌then◌else◌, ◌==◌, replicate, length,
}
use tee_mobicore_driver_daem.Cmp.{mc_drv_ok, mc_drv_err_no_free_memory}
use tee_mobicore_driver_daem.World.{Platform}
use tee_mobicore_driver_daem.State.{
  M, when◌then◌else◌, option, Cmt, ◌>>=◌, ◌>>◌, pure, call, silently,
}
use tee_mobicore_driver_daem.State

-- The handle, or NULL, and the driver's result.
abbrev pub Opened : Type 0
Opened = Option Cmt × ℕ

-- `sizeof(CMTSTRUCT)`, with pointers of eight bytes.
abbrev pub sizeof_cmtstruct : ℕ
sizeof_cmtstruct = 40

-- `TL_CM_UUID`
abbrev pub tl_cm_uuid : List ℕ
tl_cm_uuid = 7 ∷ 1 ∷ replicate 14 0

-- A binary was given, by its pointer (NULL is `none`) and its length.
abbrev has_binary : Option (List ℕ) → Bool
has_binary none = false
has_binary (some binary) = not (length binary == 0)

abbrev binary_of : Option (List ℕ) → List ℕ
binary_of none = []
binary_of (some binary) = binary

-- The handle after `memset` and `mcMallocWsm`, which fills the shared buffer with zeros.
abbrev pub fresh_handle : ℕ → Cmt
fresh_handle words = record {
  wsm = replicate words 0;
  mapped = [];
  mapped_size = 0;
  map_info = record { s_virtual_addr = 0; s_virtual_len = 0 };
  last_error = 0;
  reallocs = 0;
}

module _ {W : Type 0} (p : Platform W) where
  -- `mcOpenTrustlet` with a binary, `mcOpenSession` without.
  unfoldable pub open_by : List ℕ → Option (List ℕ) → ℕ → M W ℕ
  open_by uuid ta_binary spid =
      when has_binary ta_binary
      then call (p.open_trustlet spid (binary_of ta_binary)) State.open_session
      else call (p.open_session uuid) State.open_session

  -- With the device open: the shared buffer, then the session; on failure what is open is closed.
  unfoldable pub open_on_device : ℕ → List ℕ → Option (List ℕ) → ℕ → M W Opened
  open_on_device words uuid ta_binary spid = do
    allocated ← call (p.malloc_wsm words) State.malloc_wsm
    when allocated == mc_drv_ok
        then (do
          opened ← open_by uuid ta_binary spid
          when opened == mc_drv_ok then pure (some (fresh_handle words), opened) else (do
            call p.free_wsm State.free_wsm
            call p.close_device State.close_device
            pure (none, opened)))
        else (do call p.close_device State.close_device; pure (none, allocated))

  -- `sizeOfWsmBuffer` is given in words.
  unfoldable pub ta_channel_open : ℕ → List ℕ → Option (List ℕ) → ℕ → M W Opened
  ta_channel_open words uuid ta_binary spid = do
    memory ← silently (p.alloc sizeof_cmtstruct)
    when memory
        then (do
          device ← call p.open_device State.open_device
          when device == mc_drv_ok
              then open_on_device words uuid ta_binary spid
              else pure (none, device))
        else pure (none, mc_drv_err_no_free_memory)

  unfoldable pub tlt_channel_open : ℕ → M W Opened
  tlt_channel_open words = ta_channel_open words tl_cm_uuid none 0

  unfoldable pub tlt_channel_close : Option Cmt → M W (Unit {0})
  tlt_channel_close none = pure tt
  tlt_channel_close (some handle) = do
    call p.close_session State.close_session
    call p.free_wsm State.free_wsm
    call p.close_device State.close_device
    pure tt

  -- What the secure world leaves in the shared words and the mapped bytes, and the result.
  abbrev waited : Cmt → ℕ × List ℕ × List ℕ → Cmt
  waited handle (result, words, bytes) = record handle {
    wsm = words;
    mapped = bytes;
    last_error = result;
  }

  unfoldable pub tlt_channel_transmit : Cmt → M W (Bool × Cmt)
  tlt_channel_transmit handle = do
    notified ← call p.notify State.notify
    when notified == mc_drv_ok
        then (do
          r ← call (p.wait_notification handle.wsm handle.mapped) (λ r. State.wait r.0)
          pure (r.0 == mc_drv_ok, waited handle r))
        else pure (false, record handle { last_error = notified })
