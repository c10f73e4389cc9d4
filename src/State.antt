-- ===== src/State.antt =====
-- The state that RootPA's functions share: the handle of the session to the content management
-- trustlet (`CMTSTRUCT` of rootpa/Code/Common/trustletchannel.h), the file-scope variables of
-- pacmp3.c and contentmanager.c, and the record of what was asked of the registry, of the driver
-- and of the callback. A function is an action, which returns a result and the next state.
use tee_mobicore_driver_daem.Base.{ℕ, Bool, List, ◌∷◌, Option, none, some, if◌then◌else◌}
use tee_mobicore_driver_daem.World.{BulkMap}

-- ProvisioningState, as far as pacmp3.c, commandhandler.c and provisioningengine.c report it.
pub data ProvisioningState : Type 0 where
  error_state provisioning_state_thread_exiting : ProvisioningState
  connecting_service_enabler finished_provisioning : ProvisioningState
  provisioning_state_install_trustlet : ProvisioningState
  authenticating_soc authenticating_root : ProvisioningState
  creating_root_container creating_sp_container : ProvisioningState
  unregistering_root_container : ProvisioningState

-- A call of the registry, of the driver or of the callback, with its arguments and its result.
pub data Event : Type 0 where
  delete_auth_token cleanup_root : ℕ → Event
  write_auth_token write_root read_auth_token read_root : List ℕ → ℕ → Event
  cleanup_sp : ℕ → ℕ → Event
  write_sp read_sp : ℕ → List ℕ → ℕ → Event
  cleanup_tlt : List ℕ → ℕ → ℕ → Event
  write_tlt read_tlt : List ℕ → ℕ → List ℕ → ℕ → Event
  write_ta : ℕ → List ℕ → ℕ → Event
  callback : ProvisioningState → Event
  callback_with : ProvisioningState → ℕ → Event
  open_device close_device open_session close_session malloc_wsm free_wsm : ℕ → Event
  map_buffer unmap_buffer notify wait : ℕ → Event

-- CMTSTRUCT. The TCI buffer is its 32-bit words, in the order of their addresses; `mapped` is the
-- bytes that `mappedP` points to. `reallocs` counts how often `realloc` may have moved them since
-- they were mapped.
pub record Cmt : Type 0 where
  pub wsm : List ℕ
  pub mapped : List ℕ
  pub mapped_size : ℕ
  pub map_info : BulkMap
  pub last_error : ℕ
  pub reallocs : ℕ

-- `spid_`, `tltUuid_` and `callbackP_` of pacmp3.c (is a callback set?), and `handle_` of
-- contentmanager.c. The log has the newest event first.
pub record Sys (W : Type 0) : Type 0 where
  pub world : W
  pub log : List Event
  pub spid : ℕ
  pub tlt_uuid : List ℕ
  pub callback_set : Bool
  pub handle : Option Cmt

abbrev pub M : Type 0 → Type 0 → Type 0
M W A = Sys W → A × Sys W

module _ {W : Type 0} where
  infixl 5 ◌>>=◌ ◌>>◌
  abbrev pub ◌>>=◌ : {A B : Type 0} → M W A → (A → M W B) → M W B
  ◌>>=◌ m f s = let (a, s') = m s in f a s'

  abbrev pub ◌>>◌ : {A B : Type 0} → M W A → M W B → M W B
  ◌>>◌ m k s = k (m s).1

  abbrev pub pure : {A : Type 0} → A → M W A
  pure a s = (a, s)

  -- A test, and a case split on a pointer, in an action.
  infix 1 when◌then◌else◌
  abbrev pub when◌then◌else◌ : {A : Type 0} → Bool → M W A → M W A → M W A
  when◌then◌else◌ c m k s = if c then m s else k s

  abbrev pub option : {A B : Type 0} → Option A → M W B → (A → M W B) → M W B
  option o m f s = elim o [ none ↦ m s | some a ↦ f a s ]

  -- One step of the world, written to the log.
  abbrev pub call : {A : Type 0} → (W → A × W) → (A → Event) → M W A
  call op event s = let (a, w) = op s.world in (a, record s { world = w; log = event a ∷ s.log })

  -- One step of the world that the log leaves out.
  abbrev pub silently : {A : Type 0} → (W → A × W) → M W A
  silently op s = let (a, w) = op s.world in (a, record s { world = w })

  -- `if (callbackP_) callbackP_(state, ROOTPA_OK, NULL);`
  unfoldable pub report : ProvisioningState → M W (Unit {0})
  report state s = (tt, record s { log = if s.callback_set then callback state ∷ s.log else s.log })
