-- ===== src/CommandHandler/Queries.antt =====
-- The functions of rootpa/Code/Common/commandhandler.c on the containers in the registry, and
-- `factoryResetAssumed` of rootpa/Code/Common/pacmp3.c. Pointers for results are not NULL.
pub mod Structure
pub mod Answers
use tee_mobicore_driver_daem.Base.{
  ℕ, zero, suc, ◌+◌, ◌*◌, List, [], ◌∷◌, ◌++◌, Bool, true, false, not, ◌&&◌, Option, none, some,
  if◌then◌else◌, ◌==◌, replicate, slice, read_u32,
}
use tee_mobicore_driver_daem.Cmp.{
  mc_drv_ok, mc_drv_err_invalid_device_file, rootpa_ok, rootpa_error_registry,
  rootpa_error_illegal_argument, rootpa_error_internal_no_container,
}
use tee_mobicore_driver_daem.World.{Platform}
use tee_mobicore_driver_daem.State.{M, when◌then◌else◌, ◌>>=◌, pure}
use tee_mobicore_driver_daem.Registry.{
  bytes_at, state_offset, reg_read_auth_token, reg_read_root, reg_read_sp, reg_read_tlt,
  reg_get_sp_state, reg_get_ta_state, reg_store_ta,
}

-- MC_CONT_STATE_UNREGISTERED
abbrev pub mc_cont_state_unregistered : ℕ
mc_cont_state_unregistered = 0

-- MC_CONT_CHILDREN_COUNT
abbrev pub mc_cont_children_count : ℕ
mc_cont_children_count = 16

-- MC_UUID_FREE
abbrev pub mc_uuid_free : List ℕ
mc_uuid_free = replicate 16 255

-- `memcmp(...) == 0`, for as many bytes.
abbrev same_bytes : List ℕ → List ℕ → Bool
same_bytes [] [] = true
same_bytes (x ∷ xs) (y ∷ ys) = (x == y) && same_bytes xs ys
same_bytes _ _ = false

unfoldable pub container_exists : List ℕ → Bool
container_exists uuid = not (same_bytes uuid mc_uuid_free)

-- `spP->cont.children[i]`, behind 60 bytes of a service provider container.
abbrev pub child : List ℕ → ℕ → List ℕ
child sp i = slice (60 + 16 * i) 16 sp

-- The children from the first number on, as many as are left.
unfoldable pub children_from : List ℕ → ℕ → ℕ → List (List ℕ)
children_from sp i zero = []
children_from sp i (suc left) = child sp i ∷ children_from sp (suc i) left

-- TltContainerData
pub record TltContainerData : Type 0 where
  pub uuid : List ℕ
  pub state : ℕ

-- SpContainerStructure, of whose array the `nbrOfTlts` elements that are set. `none` is the state
-- as `memset` leaves it.
pub record SpContainerStructure : Type 0 where
  pub state : Option ℕ
  pub tlt_containers : List TltContainerData

-- `cont.attribs.state` of a container.
abbrev pub state_of : List ℕ → ℕ
state_of container = read_u32 container state_offset

-- The answer to a query: a result, and what is written to the caller's variable.
abbrev pub Answer : Type 0 → Type 0
Answer A = ℕ × Option A

abbrev registered : ℕ → Bool
registered state = not (state == mc_cont_state_unregistered)

-- What the registry's result is to the caller who needs the container.
abbrev pub missing_or_broken : ℕ → ℕ → ℕ
missing_or_broken missing result =
    if result == mc_drv_err_invalid_device_file then missing else rootpa_error_registry

-- `state` is set if the result is ROOTPA_OK.
abbrev registered_if_known : Answer ℕ → Answer Bool
registered_if_known (ret, some state) =
    if ret == rootpa_ok
    then (rootpa_ok, some (registered state))
    else if ret == rootpa_error_internal_no_container
    then (rootpa_ok, some false)
    else (ret, none)
registered_if_known (ret, none) =
    if ret == rootpa_error_internal_no_container then (rootpa_ok, some false) else (ret, none)

module _ {W : Type 0} (p : Platform W) where
  unfoldable pub factory_reset_assumed : M W Bool
  factory_reset_assumed = do
    token ← reg_read_auth_token p
    when token.0 == mc_drv_ok then pure false else (do
      root ← reg_read_root p
      pure (
          if root.0 == mc_drv_ok
          then false
          else (mc_drv_err_invalid_device_file == token.0)
            && (mc_drv_err_invalid_device_file == root.0)))

  unfoldable pub is_root_container_registered : M W (Answer Bool)
  is_root_container_registered = do
    r ← reg_read_root p
    pure (
        if r.0 == mc_drv_ok
        then (rootpa_ok, some (registered (state_of (bytes_at r.1))))
        else if r.0 == mc_drv_err_invalid_device_file
        then (rootpa_ok, some false)
        else (rootpa_error_registry, none))

  unfoldable pub get_sp_container_state : ℕ → M W (Answer ℕ)
  get_sp_container_state spid = do
    r ← reg_get_sp_state p spid
    pure (
      if r.0 == mc_drv_ok
          then rootpa_ok
          else missing_or_broken rootpa_error_internal_no_container r.0,
      r.1,
    )

  unfoldable pub is_sp_container_registered : ℕ → M W (Answer Bool)
  is_sp_container_registered spid = do r ← get_sp_container_state spid; pure (registered_if_known r)

  -- The loop's body: the result, and the trustlet container if one was read.
  unfoldable pub collect_one : ℕ → ℕ → List ℕ → M W (ℕ × List TltContainerData)
  collect_one spid ret uuid =
      when container_exists uuid && (ret == rootpa_ok)
      then (do
        r ← reg_read_tlt p uuid spid
        pure (
            if r.0 == mc_drv_ok
            then (ret, record { uuid = uuid; state = state_of (bytes_at r.1) } ∷ [])
            else (rootpa_error_registry, [])))
      else pure (ret, [])

  -- The loop on the children: the result so far, and the trustlet containers that were read.
  unfoldable pub collect : ℕ → ℕ → List (List ℕ) → M W (ℕ × List TltContainerData)
  collect spid ret [] = pure (ret, [])
  collect spid ret (uuid ∷ rest) = do
    (ret', one) ← collect_one spid ret uuid
    (ret'', more) ← collect spid ret' rest
    pure (ret'', one ++ more)

  unfoldable pub get_sp_container_structure : ℕ → M W (ℕ × SpContainerStructure)
  get_sp_container_structure spid = do
    r ← reg_read_sp p spid
    when r.0 == mc_drv_ok
        then (do
          let sp = bytes_at r.1
          (ret, tlts) ← collect spid rootpa_ok (children_from sp 0 mc_cont_children_count)
          pure (ret, record { state = some (state_of sp); tlt_containers = tlts }))
        else pure (
          missing_or_broken rootpa_error_internal_no_container r.0,
          record { state = none; tlt_containers = [] },
        )

  unfoldable pub store_ta : ℕ → List ℕ → List ℕ → M W ℕ
  store_ta spid uuid ta_bin = do
    r ← reg_get_ta_state p spid uuid
    when r.0 == mc_drv_ok
        then (do
          result ← reg_store_ta p spid ta_bin
          pure (if result == mc_drv_ok then rootpa_ok else rootpa_error_registry))
        else pure (missing_or_broken rootpa_error_illegal_argument r.0)
