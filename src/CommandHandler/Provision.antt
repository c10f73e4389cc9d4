-- ===== src/CommandHandler/Provision.antt =====
-- `provision` of rootpa/Code/Common/commandhandler.c, which starts the provisioning thread, the
-- calls that end in it, and the thread. The two callbacks of the caller are never NULL (`provision`
-- puts dummies in their place) and stand for themselves; the branches for Windows are left out.
pub mod Memory
pub mod Thread
use tee_mobicore_driver_daem.Base.{
  ℕ, List, [], ◌∷◌, ◌++◌, Bool, true, false, not, ◌&&◌, ◌||◌, Option, none, some, if◌then◌else◌,
  ◌==◌, length,
}
use tee_mobicore_driver_daem.Cmp.{
  rootpa_ok, rootpa_error_internal, rootpa_error_out_of_memory, rootpa_error_illegal_argument,
}
use tee_mobicore_driver_daem.World.{Platform}
use tee_mobicore_driver_daem.State.{
  M, Sys, when◌then◌else◌, option, ◌>>=◌, ◌>>◌, pure, silently, ProvisioningState, error_state,
  provisioning_state_thread_exiting,
}
use tee_mobicore_driver_daem.State
use tee_mobicore_driver_daem.Registry.{bytes_at, is_null}
use tee_mobicore_driver_daem.ContentManager.Session.{open_cmtl_session, close_cmtl_session}
use tee_mobicore_driver_daem.CommandHandler.Version.{SuidAnswer, get_suid}

-- initialRel_t
pub data InitialRel : Type 0 where
  initial_rel_post initial_rel_delete : InitialRel

-- trustletInstallationData_t: a pointer that is not NULL is given with the bytes behind it, as many
-- as the length says.
pub record TrustletInstallationData : Type 0 where
  pub bytes : Option (List ℕ)
  pub data_type : ℕ
  pub uuid : List ℕ
  pub min_tlt_version : ℕ
  pub tlt_puk_hash : Option (List ℕ)
  pub memory_type : ℕ
  pub number_of_instances : ℕ
  pub flags : ℕ

-- provisioningparams_t, without the callbacks.
pub record ProvisioningParams : Type 0 where
  pub spid : ℕ
  pub suid : List ℕ
  pub initial_rel : InitialRel
  pub tlt_installation_data : Option TrustletInstallationData

-- What `provision` allocates.
pub data Block : Type 0 where
  params_block installation_block data_block hash_block : Block

-- The result, what the thread was started with, and the blocks that are allocated at the end, the
-- newest first. The thread owns them if it was started.
pub record Provisioned : Type 0 where
  pub ret : ℕ
  pub started : Option ProvisioningParams
  pub live : List Block

abbrev failed : ℕ → List Block → Provisioned
failed ret live = record { ret = ret; started = none; live = live }

abbrev sizeof_params : ℕ
sizeof_params = 56

abbrev sizeof_installation_data : ℕ
sizeof_installation_data = 64

abbrev suid_bytes : SuidAnswer → List ℕ
suid_bytes answer = bytes_at (answer.suid)

-- REQUEST_DATA_TLT and REQUEST_DATA_KEY
abbrev request_data_tlt : ℕ
request_data_tlt = 1

abbrev request_data_key : ℕ
request_data_key = 2

module _ {W : Type 0} (p : Platform W) where
  -- The copy of the installation data: the blocks, and whether there was memory for them all. What
  -- was allocated for an incomplete copy is freed.
  unfoldable pub copy_installation_data : Option TrustletInstallationData → M W (Bool × List Block)
  copy_installation_data none = pure (true, [])
  copy_installation_data (some d) = do
    installation ← silently (p.alloc sizeof_installation_data)
    when installation
        then (do
          bytes ← silently (p.alloc (length (bytes_at d.bytes)))
          when bytes
              then (do
                hash ← silently (p.alloc (length (bytes_at d.tlt_puk_hash)))
                pure (
                    if hash
                    then (true, hash_block ∷ data_block ∷ installation_block ∷ [])
                    else (false, [])))
              else pure (false, []))
        else pure (false, [])

  -- With the parameters complete: start the thread. An error of `pthread_attr_setdetachstate` is only
  -- logged.
  unfoldable pub start_thread : ProvisioningParams → List Block → M W Provisioned
  start_thread params copies = do
    attributes ← silently p.init_attributes
    when attributes == 0
        then (do
          created ← silently p.create_thread
          pure (
              if created == 0
              then record {
                ret = rootpa_ok;
                started = some params;
                live = copies ++ params_block ∷ [];
              }
              else failed rootpa_error_internal copies))
        else pure (failed rootpa_error_internal (copies ++ params_block ∷ []))

  unfoldable pub provision :
      ℕ → Option TrustletInstallationData → InitialRel → M W (Option Provisioned)
  provision spid tlt_data initial_rel = do
    memory ← silently (p.alloc sizeof_params)
    when not memory then pure (some (failed rootpa_error_out_of_memory [])) else (do
      (copied, copies) ← copy_installation_data tlt_data
      when not copied then pure (some (failed rootpa_error_out_of_memory [])) else (do
        answer? ← get_suid p
        option answer? (pure none) λ answer.
            when answer.ret == rootpa_ok
            then (do
              r ←
                  start_thread
                    (record {
                      spid = spid;
                      suid = suid_bytes answer;
                      initial_rel = initial_rel;
                      tlt_installation_data = tlt_data;
                    })
                    copies
              pure (some r))
            else pure (some (failed answer.ret (copies ++ params_block ∷ [])))))

  unfoldable pub do_provisioning : ℕ → M W (Option Provisioned)
  do_provisioning spid = provision spid none initial_rel_post

  -- `none` is a NULL pointer.
  unfoldable pub install_trustlet : ℕ → Option TrustletInstallationData → M W (Option Provisioned)
  install_trustlet spid none = pure (some (failed rootpa_error_illegal_argument []))
  install_trustlet spid (some d) =
      when is_null d.bytes
        || ((length (bytes_at d.bytes) == 0)
            || (not (d.data_type == request_data_tlt) && not (d.data_type == request_data_key)))
      then pure (some (failed rootpa_error_illegal_argument []))
      else provision spid (some d) initial_rel_post

  unfoldable pub unregister_root_container : M W (Option Provisioned)
  unregister_root_container = provision 0 none initial_rel_delete

  -- `callbackP(state, error, NULL)`
  abbrev pub report_to_caller : ProvisioningState → ℕ → M W (Unit {0})
  report_to_caller state error s = (tt, record s { log = State.callback_with state error ∷ s.log })

  -- The thread, around `doProvisioningWithSe` as it is called with the parameters. It ends by freeing
  -- the copies of the installation data, which leaves this state alone.
  unfoldable pub provisioning_thread_function : M W (Unit {0}) → M W (Unit {0})
  provisioning_thread_function do_provisioning_with_se = do
    ret ← open_cmtl_session p
    (when ret == rootpa_ok
        then (do do_provisioning_with_se; close_cmtl_session p)
        else report_to_caller error_state ret)
    report_to_caller provisioning_state_thread_exiting rootpa_ok
