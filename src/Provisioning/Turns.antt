-- ===== src/Provisioning/Turns.antt =====
-- What a branch of the loop of rootpa/Code/Common/provisioningengine.c leaves.
pub mod Results
use tee_mobicore_driver_daem.Base.{
  ℕ, suc, ◌+◌, ◌≤◌, ◌<◌, ◌≡◌, ◌≢◌, ◌⊎◌, inl, inr, refl, sym, ap, ◌∙◌, Bool, true, false, ◌&&◌, ◌||◌,
  not, List, [], ◌∷◌, ◌++◌, Option, none, some, if◌then◌else◌, ◌==◌, arith, tests, Bool-cases,
  Option-cases,
}
use tee_mobicore_driver_daem.Cmp.{
  rootpa_ok, rootpa_error_illegal_argument, rootpa_error_network, rootpa_error_xml,
  rootpa_error_registry_object_not_available,
}
use tee_mobicore_driver_daem.SeClient.Text.{◌>>=◌}
use tee_mobicore_driver_daem.SeClient.Communicate.{
  HttpMethod, http_get, http_put, http_post, http_delete,
}
use tee_mobicore_driver_daem.SeClient.Communicate.{HasInput}
use tee_mobicore_driver_daem.Provisioning.Memory.{Pointer, Memory, null, load, is_null}
use tee_mobicore_driver_daem.Provisioning.Peer.{
  Peer, Loop, Relation, relation_self, relation_system_info, relation_initial_delete,
  relation_initial_post, relation_result, relation_next, relation_other, fail, keep_used,
}
use tee_mobicore_driver_daem.Provisioning.Branches.{
  request, plain_request, collect_system_info, report_system_info, on_system_info, report_result,
  on_result, on_relation,
}
use tee_mobicore_driver_daem.Provisioning.Laws.{
  no_self, text_of, blocks, used, Waiting, Ready, Apart, Left, Shared, told, rank, Lawful,
}
use tee_mobicore_driver_daem.Provisioning.Owned.{owned, owned-tail, away-none}
use tee_mobicore_driver_daem.Provisioning.Ends.{load-owned}
use tee_mobicore_driver_daem.Provisioning.Requests.{
  Alike, Requested, brought, lost, request-Requested,
}

-- New pointers and work to do, in fewer rounds than before, or the end, which was told.
pub data Turned {W : Type 0} (budget : W → ℕ) (s : Loop W) (r : Option (Loop W)) : Type 0 where
  turned_on :
      (s' : Loop W)
      → r ≡ some s'
      → s'.work_to_do ≡ true
      → s'.tmp_ret ≡ rootpa_ok
      → Apart s'
      → rank budget s' < rank budget s
      → Turned budget s r
  turned_off :
      (s' : Loop W)
      → r ≡ some s'
      → s'.work_to_do ≡ false
      → (Apart s' ⊎ Shared s')
      → told s'.reports ≡ true
      → Turned budget s r

-- `s.work_to_do && not true`
pub off-true : (b : Bool) → (b && not true) ≡ false
off-true true = refl
off-true false = refl

module _ {W : Type 0} (peer : Peer W) (budget : W → ℕ) (lawful : Lawful peer budget) where
  pub plain_request-Turned :
      (method : HttpMethod) (input : Option (List ℕ)) (s : Loop W)
      → HasInput method input
      → Ready s
      → is_null s.rel ≡ false
      → s.work_to_do ≡ true
      → s.tmp_ret ≡ rootpa_ok
      → Turned budget s (plain_request peer method input (keep_used s))
  unfolding plain_request
  plain_request-Turned method input s h d live work t =
      elim (request-Requested peer budget lawful method input s h d live) [
        | lost r s' e bad z shared alike ↦
            turned_off (fail true (record s' { ret = r })) (rw (e, bad) refl)
              (off-true s'.work_to_do) (inr shared) refl
        | brought r s' e z ap_ (p', (t', (w', r'))) less ↦ elim (Bool-cases (r == rootpa_ok)) [
          | inl ok ↦
              turned_on (record s' { ret = r }) (rw (e, ok) refl) (w' ∙ work) (t' ∙ t) ap_ less
          | inr bad ↦
              turned_off (fail true (record s' { ret = r })) (rw (e, bad) refl)
                (off-true s'.work_to_do) (inl ap_) refl
        ]
      ]

  -- The pointers as they were, under both names.
  pub kept-Shared : (s : Loop W) → Ready s → Shared (keep_used s)
  kept-Shared s (o, (ml, (mc, (n, w)))) = (o, (ml, (mc, (refl, (inl refl, inl refl)))))

  pub relation_other-Turned :
      (s : Loop W) → Ready s → Turned budget s (on_relation peer relation_other s)
  unfolding on_relation
  relation_other-Turned s d =
      turned_off (fail true (record (keep_used s) { ret = rootpa_error_illegal_argument })) refl
        (off-true s.work_to_do) (inr (kept-Shared s d)) refl
