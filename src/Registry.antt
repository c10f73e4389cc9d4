-- ===== src/Registry.antt =====
-- rootpa/Code/Common/registry.c: RootPA's use of the registry. A read allocates the buffer for the
-- object; the pointer that it returns is NULL only if there was no memory.
use tee_mobicore_driver_daem.Base.{
  ℕ, List, Bool, true, false, Option, none, some, if◌then◌else◌, ◌==◌,
}
use tee_mobicore_driver_daem.Base.{read_u32, length, ◌≤◌}
use tee_mobicore_driver_daem.Cmp.{mc_drv_ok, mc_drv_err_no_free_memory}
use tee_mobicore_driver_daem.World.{Platform}
use tee_mobicore_driver_daem.State.{M, when◌then◌else◌, option, ◌>>=◌, pure, call, silently}
use tee_mobicore_driver_daem.State

-- `CONTAINER_BUFFER_SIZE` of registry.h
abbrev pub container_buffer_size : ℕ
container_buffer_size = 4096

-- The offset of `cont.attribs.state` in a root, service provider or trustlet container.
abbrev pub state_offset : ℕ
state_offset = 52

-- The result of a read: its code, and the pointer.
abbrev pub Read : Type 0
Read = ℕ × Option (List ℕ)

-- The bytes behind a pointer that is not NULL.
abbrev pub bytes_at : Option (List ℕ) → List ℕ
bytes_at none = List.[]
bytes_at (some bytes) = bytes

-- `pointer == NULL`
abbrev pub is_null : Option (List ℕ) → Bool
is_null none = true
is_null (some _) = false

abbrev found : ℕ × List ℕ → Read
found (result, bytes) = (result, some bytes)

module _ {W : Type 0} (p : Platform W) where
  unfoldable pub reg_read_auth_token : M W Read
  reg_read_auth_token = do
    memory ← silently (p.alloc container_buffer_size)
    when memory
        then (do r ← call p.read_auth_token (λ r. State.read_auth_token r.1 r.0); pure (found r))
        else pure (mc_drv_err_no_free_memory, none)

  unfoldable pub reg_write_auth_token : List ℕ → M W ℕ
  reg_write_auth_token bytes = call (p.store_auth_token bytes) (State.write_auth_token bytes)

  unfoldable pub reg_delete_auth_token : M W ℕ
  reg_delete_auth_token = call p.delete_auth_token State.delete_auth_token

  unfoldable pub reg_read_root : M W Read
  reg_read_root = do
    memory ← silently (p.alloc container_buffer_size)
    when memory
        then (do r ← call p.read_root (λ r. State.read_root r.1 r.0); pure (found r))
        else pure (mc_drv_err_no_free_memory, none)

  unfoldable pub reg_write_root : List ℕ → M W ℕ
  reg_write_root bytes = call (p.store_root bytes) (State.write_root bytes)

  unfoldable pub reg_cleanup_root : M W ℕ
  reg_cleanup_root = call p.cleanup_root State.cleanup_root

  unfoldable pub reg_read_sp : ℕ → M W Read
  reg_read_sp spid = do
    memory ← silently (p.alloc container_buffer_size)
    when memory
        then (do r ← call (p.read_sp spid) (λ r. State.read_sp spid r.1 r.0); pure (found r))
        else pure (mc_drv_err_no_free_memory, none)

  unfoldable pub reg_write_sp : ℕ → List ℕ → M W ℕ
  reg_write_sp spid bytes = call (p.store_sp spid bytes) (State.write_sp spid bytes)

  unfoldable pub reg_cleanup_sp : ℕ → M W ℕ
  reg_cleanup_sp spid = call (p.cleanup_sp spid) (State.cleanup_sp spid)

  -- The state is written only if the container was read.
  unfoldable pub reg_get_sp_state : ℕ → M W (ℕ × Option ℕ)
  reg_get_sp_state spid = do
    r ← reg_read_sp spid
    pure (r.0, if r.0 == mc_drv_ok then some (read_u32 (bytes_at r.1) state_offset) else none)

  unfoldable pub reg_read_tlt : List ℕ → ℕ → M W Read
  reg_read_tlt uuid spid = do
    memory ← silently (p.alloc container_buffer_size)
    when memory
        then (do
          r ← call (p.read_tlt uuid spid) (λ r. State.read_tlt uuid spid r.1 r.0)
          pure (found r))
        else pure (mc_drv_err_no_free_memory, none)

  unfoldable pub reg_write_tlt : List ℕ → List ℕ → ℕ → M W ℕ
  reg_write_tlt uuid bytes spid =
      call (p.store_tlt uuid spid bytes) (State.write_tlt uuid spid bytes)

  unfoldable pub reg_cleanup_tlt : List ℕ → ℕ → M W ℕ
  reg_cleanup_tlt uuid spid = call (p.cleanup_tlt uuid spid) (State.cleanup_tlt uuid spid)

  -- `taBinary` with its length; the uuid is not used.
  unfoldable pub reg_store_ta : ℕ → List ℕ → M W ℕ
  reg_store_ta spid ta_binary =
      call (p.store_ta_blob spid ta_binary) (State.write_ta spid ta_binary)

  unfoldable pub reg_get_ta_state : ℕ → List ℕ → M W (ℕ × Option ℕ)
  reg_get_ta_state spid uuid = do
    r ← reg_read_tlt uuid spid
    pure (r.0, if r.0 == mc_drv_ok then some (read_u32 (bytes_at r.1) state_offset) else none)

-- What a read relies on: the registry puts no more into the buffer than it was told to be long.
pub record ReadsFit {W : Type 0} (p : Platform W) : Type 0 where
  pub auth_token_fits : (w : W) → length (p.read_auth_token w).0.1 ≤ container_buffer_size
  pub root_fits : (w : W) → length (p.read_root w).0.1 ≤ container_buffer_size
  pub sp_fits : (spid : ℕ) (w : W) → length (p.read_sp spid w).0.1 ≤ container_buffer_size
  pub tlt_fits :
      (uuid : List ℕ) (spid : ℕ) (w : W)
      → length (p.read_tlt uuid spid w).0.1 ≤ container_buffer_size
