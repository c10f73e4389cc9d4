-- ===== src/World.antt =====
-- What RootPA calls and does not implement: memory allocation, threads, the MobiCore driver
-- and the registry (MobiCoreDriverLib/Registry/Public/MobiCoreRegistry.h), as functions on an arbitrary
-- type of worlds, and the global state of RootPA around them.
use tee_mobicore_driver_daem.Base.{ℕ, Bool, List}

-- The pages that `mcMap` has handed to the secure world (`mcBulkMap_t`).
pub record BulkMap : Type 0 where
  pub s_virtual_addr : ℕ
  pub s_virtual_len : ℕ

-- Every operation answers with a result and the next world. A read gives the object with its size,
-- as far as it was filled in.
pub record Platform (W : Type 0) : Type 0 where
  -- `malloc` and `realloc` of a number of bytes: whether there was memory.
  pub alloc : ℕ → W → Bool × W
  -- What the memory holds that `realloc` has given up, where a pointer into it is read.
  pub stale_bytes : W → List ℕ
  pub open_device : W → ℕ × W
  pub close_device : W → ℕ × W
  pub malloc_wsm : ℕ → W → ℕ × W
  pub free_wsm : W → ℕ × W
  pub open_session : List ℕ → W → ℕ × W
  pub open_trustlet : ℕ → List ℕ → W → ℕ × W
  pub close_session : W → ℕ × W
  pub map_buffer : ℕ → W → (ℕ × BulkMap) × W
  pub unmap_buffer : BulkMap → W → ℕ × W
  -- `mcNotify`.
  pub notify : W → ℕ × W
  -- `mcWaitNotification`: the result, and the shared words and mapped bytes as the secure world
  -- leaves them, given what they held.
  pub wait_notification : List ℕ → List ℕ → W → (ℕ × List ℕ × List ℕ) × W
  pub read_auth_token : W → (ℕ × List ℕ) × W
  pub store_auth_token : List ℕ → W → ℕ × W
  pub delete_auth_token : W → ℕ × W
  pub read_root : W → (ℕ × List ℕ) × W
  pub store_root : List ℕ → W → ℕ × W
  pub cleanup_root : W → ℕ × W
  pub read_sp : ℕ → W → (ℕ × List ℕ) × W
  pub store_sp : ℕ → List ℕ → W → ℕ × W
  pub cleanup_sp : ℕ → W → ℕ × W
  pub read_tlt : List ℕ → ℕ → W → (ℕ × List ℕ) × W
  pub store_tlt : List ℕ → ℕ → List ℕ → W → ℕ × W
  pub cleanup_tlt : List ℕ → ℕ → W → ℕ × W
  pub store_ta_blob : ℕ → List ℕ → W → ℕ × W
  -- `pthread_attr_init` and `pthread_create`: 0, or an error.
  pub init_attributes : W → ℕ × W
  pub create_thread : W → ℕ × W
