-- ===== src/CommandHandler/Provision/Memory.antt =====
-- How `provision` (rootpa/Code/Common/commandhandler.c) ends, and the memory that it then leaves
-- allocated.
use tee_mobicore_driver_daem.Base.{
  ℕ, ◌≡◌, ◌≢◌, ◌⊎◌, refl, List, [], ◌∷◌, ◌++◌, true, some, none, arith, inl, inr, Option,
  Bool-cases, Bool, false, ◌&&◌, is_some, is_some→some, ◌==◌,
}
use tee_mobicore_driver_daem.Cmp.{rootpa_ok, rootpa_error_out_of_memory, rootpa_error_internal}
use tee_mobicore_driver_daem.World.{Platform}
use tee_mobicore_driver_daem.State.{Sys, silently}
use tee_mobicore_driver_daem.CommandHandler.Version.{get_suid, SuidAnswer}
use tee_mobicore_driver_daem.CommandHandler.Version.Written.{get_suid-is_some}
use tee_mobicore_driver_daem.CommandHandler.Provision.{
  TrustletInstallationData, InitialRel, ProvisioningParams, Provisioned, Block, params_block,
  installation_block, data_block, hash_block, sizeof_params, suid_bytes, copy_installation_data,
  start_thread, provision,
}

-- The blocks of a copy of the installation data.
abbrev pub copies_of : Option TrustletInstallationData → List Block
copies_of none = []
copies_of (some d) = hash_block ∷ data_block ∷ installation_block ∷ []

abbrev pub blocks_of : Option TrustletInstallationData → List Block
blocks_of d = copies_of d ++ params_block ∷ []

-- What the calls of `provision` answer: whether there is memory for its copies, what `getSuid` gives,
-- and the results of `pthread_attr_init` and `pthread_create`.
pub record Answered : Type 0 where
  pub memory : Bool
  pub suid : Option SuidAnswer
  pub attributes : ℕ
  pub thread : ℕ

-- The ways in which `provision` ends.
pub data Ended (spid : ℕ) (d : Option TrustletInstallationData) (rel : InitialRel) (q : Answered)
    (r : Provisioned) : Type 0 where
  -- For want of memory; all is freed.
  no_memory :
      q.memory ≡ false
      → r.ret ≡ rootpa_error_out_of_memory
      → r.started ≡ none
      → r.live ≡ []
      → Ended spid d rel q r
  -- `getSuid` failed, and its result is returned; nothing is freed.
  no_suid :
      (a : SuidAnswer)
      → q.memory ≡ true
      → q.suid ≡ some a
      → a.ret ≢ rootpa_ok
      → r.ret ≡ a.ret
      → r.started ≡ none
      → r.live ≡ blocks_of d
      → Ended spid d rel q r
  -- The thread could not be created; the copy of the installation data is not freed, and the
  -- parameters are if it was for its creation.
  no_thread :
      (a : SuidAnswer)
      → q.memory ≡ true
      → q.suid ≡ some a
      → a.ret ≡ rootpa_ok
      → r.ret ≡ rootpa_error_internal
      → r.started ≡ none
      → ((q.attributes ≢ 0) × (r.live ≡ blocks_of d))
        ⊎ ((q.attributes ≡ 0) × ((q.thread ≢ 0) × (r.live ≡ copies_of d)))
      → Ended spid d rel q r
  -- The thread was started with what the caller asked for, and has all the memory.
  started :
      (a : SuidAnswer)
      → q.memory ≡ true
      → q.suid ≡ some a
      → a.ret ≡ rootpa_ok
      → q.attributes ≡ 0
      → q.thread ≡ 0
      → r.ret ≡ rootpa_ok
      → r.started
        ≡ some (record {
          spid = spid;
          suid = suid_bytes a;
          initial_rel = rel;
          tlt_installation_data = d;
        })
      → r.live ≡ blocks_of d
      → Ended spid d rel q r

module _ {W : Type 0} (p : Platform W) where
  copy_installation_data-copies :
      (d : Option TrustletInstallationData) (s : Sys W)
      → (copy_installation_data p d s).0.0 ≡ true
      → (copy_installation_data p d s).0.1 ≡ copies_of d
  unfolding copy_installation_data
  copy_installation_data-copies none s e = refl
  copy_installation_data-copies (some d) s e = ground arith

  start_thread-Ended :
      (spid : ℕ) (rel : InitialRel) (d : Option TrustletInstallationData) (a : SuidAnswer)
      (q : Answered) (s : Sys W)
      → q.memory ≡ true
      → q.suid ≡ some a
      → a.ret ≡ rootpa_ok
      → q.attributes ≡ (p.init_attributes s.world).0
      → q.thread ≡ (p.create_thread (p.init_attributes s.world).1).0
      → Ended spid d rel q
          (start_thread p
            (record {
              spid = spid;
              suid = suid_bytes a;
              initial_rel = rel;
              tlt_installation_data = d;
            })
            (copies_of d)
            s).0
  unfolding start_thread
  start_thread-Ended spid rel d answer q s m e ok i c =
      let (a, w) = p.init_attributes s.world in
      let (t, w') = p.create_thread w in
      elim (Bool-cases (a == 0)) [
        | inr failed ↦
            no_thread answer m e ok (ground arith) (ground arith)
              (inl ((λ zero_. ground arith), ground arith))
        | inl fine ↦ elim (Bool-cases (t == 0)) [
          | inr failed ↦
              no_thread answer m e ok (ground arith) (ground arith)
                (inr (ground arith, ((λ zero_. ground arith), ground arith)))
          | inl runs ↦
              started answer m e ok (ground arith) (ground arith) (ground arith) (ground arith)
                (ground arith)
        ]
      ]

  pub provision-is_some :
      (spid : ℕ) (d : Option TrustletInstallationData) (rel : InitialRel) (s : Sys W)
      → is_some (provision p spid d rel s).0 ≡ true
  unfolding provision
  provision-is_some spid d rel s =
      let (copied, s') = copy_installation_data p d (silently (p.alloc sizeof_params) s).1 in
      ground (arith, get_suid-is_some p s')

  -- The state in which `provision` calls `getSuid`.
  abbrev pub before_suid : Option TrustletInstallationData → Sys W → Sys W
  before_suid d s = (copy_installation_data p d (silently (p.alloc sizeof_params) s).1).1

  -- The state in which `provision` starts the thread, and what was answered up to there.
  abbrev pub before_thread : Option TrustletInstallationData → Sys W → Sys W
  before_thread d s = (get_suid p (before_suid d s)).1

  abbrev pub answered : Option TrustletInstallationData → Sys W → Answered
  answered d s =
      let (there, s') = silently (p.alloc sizeof_params) s in
      let (attributes, w) = p.init_attributes (before_thread d s).world in
      record {
        memory = there && (copy_installation_data p d s').0.0;
        suid = (get_suid p (before_suid d s)).0;
        attributes = attributes;
        thread = (p.create_thread w).0;
      }

  -- Provisioning always returns, in one of these ways, and which way the calls decide: if memory
  -- is lacking, without a thread and with all memory freed; if there is memory and getSuid
  -- fails, with its result, no thread and all memory still allocated; if getSuid returns
  -- ROOTPA_OK and the attributes or the thread cannot be created, with ROOTPA_ERROR_INTERNAL and
  -- the copies of the installation data still allocated, and the parameters too in the first
  -- case; else with ROOTPA_OK and a thread that has the parameters that were asked for, the SUID
  -- of getSuid and all the memory.
  pub provision-Ended :
      (spid : ℕ) (d : Option TrustletInstallationData) (rel : InitialRel) (s : Sys W)
      → (r : Provisioned) × ((provision p spid d rel s).0 ≡ some r)
        × Ended spid d rel (answered d s) r
  unfolding provision
  provision-Ended spid d rel s =
      let (memory, s₁) = silently (p.alloc sizeof_params) s in
      let ((copied, copies), s₂) = copy_installation_data p d s₁ in
      let (answer, e) = is_some→some (get_suid p s₂).0 (get_suid-is_some p s₂) in
      let s₃ = (get_suid p s₂).1 in
      let params : ProvisioningParams = record {
        spid = spid;
        suid = suid_bytes answer;
        initial_rel = rel;
        tlt_installation_data = d;
      } in
      let lacked : Provisioned = record {
        ret = rootpa_error_out_of_memory;
        started = none;
        live = [];
      } in
      let refused : Provisioned = record { ret = answer.ret; started = none; live = blocks_of d } in
      elim (Bool-cases memory) [
        | inr lacking ↦ (lacked, ground arith, no_memory (ground arith) refl refl refl)
        | inl there ↦ elim (Bool-cases copied) [
          | inr lacking ↦ (lacked, ground arith, no_memory (ground arith) refl refl refl)
          | inl all ↦
              let same = copy_installation_data-copies d s₁ all in
              elim (Bool-cases (answer.ret == rootpa_ok)) [
                | inr failed ↦ (
                  refused,
                  ground (arith, e, same),
                  no_suid answer (ground arith) e (ground arith) refl refl refl,
                )
                | inl good ↦ (
                  (start_thread p params (copies_of d) s₃).0,
                  ground (arith, e, same),
                  start_thread-Ended spid rel d answer (answered d s) s₃ (ground arith) e
                      (ground arith) refl refl,
                )
              ]
        ]
      ]
