-- ===== src/Provisioning/Turns/Results.antt =====
-- The branches of the loop of rootpa/Code/Common/provisioningengine.c that send a response.
use tee_mobicore_driver_daem.Base.{
  ℕ, ◌<◌, ◌≡◌, ◌⊎◌, inl, inr, refl, ◌∙◌, true, false, ◌||◌, [], ◌∷◌, none, some, if◌then◌else◌,
  ◌==◌, arith, ==→eq, Bool-cases, Option-cases,
}
use tee_mobicore_driver_daem.Cmp.{rootpa_ok, rootpa_error_xml}
use tee_mobicore_driver_daem.SeClient.Communicate.{http_put, http_post}
use tee_mobicore_driver_daem.Provisioning.Memory.{null, is_null}
use tee_mobicore_driver_daem.Provisioning.Peer.{Peer, Loop, fail, keep_used}
use tee_mobicore_driver_daem.Provisioning.Branches.{
  request, keep_error, collect_system_info, report_system_info, on_system_info, report_result,
  on_result,
}
use tee_mobicore_driver_daem.Provisioning.Laws.{text_of, blocks, Ready, Apart, Shared, rank, Lawful}
use tee_mobicore_driver_daem.Provisioning.Owned.{owned, away-none}
use tee_mobicore_driver_daem.Provisioning.Ends.{load-owned}
use tee_mobicore_driver_daem.Provisioning.Requests.{brought, lost, request-Requested, rank-answer}
use tee_mobicore_driver_daem.Provisioning.Turns.{
  Turned, turned_on, turned_off, off-true, kept-Shared,
}

-- A state that may be reported with an error keeps its pointers.
module _ {W : Type 0} (budget : W → ℕ) where
  -- An error that was sent, or none: the server tells whether to go on.
  on_report_system_info :
      (s s' : Loop W)
      → s'.work_to_do ≡ true
      → s'.tmp_ret ≡ rootpa_ok
      → Apart s'
      → rank budget s' < rank budget s
      → Turned budget s (some (report_system_info s'))
  unfolding report_system_info
  on_report_system_info s s' work t d less = elim (Bool-cases (s'.ret == rootpa_ok)) [
    | inl ok ↦ turned_on s' (rw (ok) refl) work t d less
    | inr bad ↦ turned_on (fail false s') (rw (bad, t) refl) (rw (work) refl) t d less
  ]

  -- An error of the last step ends the loop.
  off_report_system_info :
      (s s' : Loop W)
      → (s'.ret == rootpa_ok) ≡ false
      → (s'.tmp_ret == rootpa_ok) ≡ false
      → (Apart s' ⊎ Shared s')
      → Turned budget s (some (report_system_info s'))
  unfolding report_system_info
  off_report_system_info s s' bad t d =
      turned_off (fail true s') (rw (bad, t) refl) (off-true s'.work_to_do) d refl

  on_report_result :
      (s s' : Loop W)
      → s'.work_to_do ≡ true
      → s'.tmp_ret ≡ rootpa_ok
      → Apart s'
      → rank budget s' < rank budget s
      → Turned budget s (some (report_result s'))
  unfolding report_result
  on_report_result s s' work t d less =
      elim (Bool-cases ((s'.ret == rootpa_ok) || (s'.ret == 11))) [
        | inl ok ↦ turned_on s' (rw (ok) refl) work t d less
        | inr bad ↦ turned_on (fail false s') (rw (bad, t) refl) (rw (work) refl) t d less
      ]

  off_report_result :
      (s s' : Loop W)
      → (s'.ret == rootpa_ok) ≡ false
      → (s'.ret == 11) ≡ false
      → (s'.tmp_ret == rootpa_ok) ≡ false
      → (Apart s' ⊎ Shared s')
      → Turned budget s (some (report_result s'))
  unfolding report_result
  off_report_result s s' bad other t d =
      turned_off (fail true s') (rw (bad, other, t) refl) (off-true s'.work_to_do) d refl

module _ {W : Type 0} (peer : Peer W) (budget : W → ℕ) (lawful : Lawful peer budget) where
  pub on_system_info-Turned :
      (s : Loop W)
      → Ready s
      → is_null s.rel ≡ false
      → s.work_to_do ≡ true
      → Turned budget s (on_system_info peer (keep_used s))
  unfolding on_system_info collect_system_info
  on_system_info-Turned s d live work =
      let w₁ = (peer.get_sys_info s.world).1 in
      let info = (peer.get_sys_info s.world).0.1 in
      let version = (peer.get_version w₁).0.1 in
      let w₂ = (peer.get_version w₁).1 in
      let made = peer.build_xml_system_info version info w₂ in
      elim (Option-cases made.0.1) [
        | inl silent ↦
            let bad = lawful.system_info_fails version info w₂ silent in
            rw (silent, bad, bad)
              (off_report_system_info budget s
                (record (keep_used s) {
                  world = made.1;
                  response = made.0.1;
                  tmp_ret = made.0.0;
                  ret = made.0.0;
                })
                bad bad (inr (kept-Shared peer budget lawful s d)))
        | inr (text, e) ↦
            let s₁ = record s {
              world = made.1;
              response = made.0.1;
              tmp_ret = made.0.0;
              ret = keep_error made.0.0 (
                  keep_error (peer.get_version w₁).0.0
                    (keep_error (peer.get_sys_info s.world).0.0 s.ret));
            } in
            elim (request-Requested peer budget lawful http_put (some text) s₁ tt d live) [
              | lost r s' q b z shared alike ↦
                  let q' : request peer http_put (some text)
                        (collect_system_info peer (keep_used s))
                      ≡ some (r, s') =
                    q in
                  rw (e, q', b)
                    (off_report_system_info budget s (record s' { tmp_ret = r; ret = r }) b b
                      (inr shared))
              | brought r s' q z ap_ (p', (t', (w', r'))) less ↦
                  let q' : request peer http_put (some text)
                        (collect_system_info peer (keep_used s))
                      ≡ some (r, s') =
                    q in
                  elim (Bool-cases (r == rootpa_ok)) [
                    | inl ok ↦
                        let none_ : r ≡ rootpa_ok = ==→eq r rootpa_ok ok in
                        rw (e, q', ok)
                          (on_report_system_info budget s (record s' { tmp_ret = r; ret = s'.ret })
                            (w' ∙ work) none_ ap_
                            (omega (arith, less, lawful.system_info_budget version info s.world)))
                    | inr bad ↦
                        rw (e, q', bad)
                          (off_report_system_info budget s (record s' { tmp_ret = r; ret = r }) bad
                            bad (inl ap_))
                  ]
            ]
      ]

  pub on_result-Turned :
      (s : Loop W)
      → Ready s
      → is_null s.rel ≡ false
      → s.work_to_do ≡ true
      → s.tmp_ret ≡ rootpa_ok
      → Turned budget s (on_result peer (keep_used s))
  unfolding on_result
  on_result-Turned s (o, (ml, (mc, (n, w)))) live work t =
      let read = load-owned s.command (s.rel ∷ s.link ∷ s.pending_link ∷ []) s.memory o in
      let handled = peer.handle_xml_message (text_of s.command) (peer.set_callback true s.world) in
      let r₀ = handled.0.0 in
      let s₁ = record s {
        world = peer.set_callback false handled.1;
        response = handled.0.1;
        ret = r₀;
      } in
      let cheaper = lawful.handle_xml_budget (text_of s.command) s.world in
      elim (Option-cases handled.0.1) [
        | inl silent ↦
            let alone = away-none (blocks s) in
            let unnamed : owned (null ∷ null ∷ null ∷ blocks s) s.memory ≡ true =
              ground (arith, o, alone) in
            rw (read, silent)
              (on_report_result budget s
                (record (keep_used s) {
                  world = peer.set_callback false handled.1;
                  link = null;
                  rel = null;
                  command = null;
                  response = handled.0.1;
                  ret = if r₀ == rootpa_ok then rootpa_error_xml else r₀;
                })
                work t (unnamed, (refl, (refl, (ml, (mc, (refl, w))))))
                (rank-answer none 0 (budget s.world) (budget (peer.set_callback false handled.1))
                  (if is_null s.pending_link then 0 else 2) s.rel cheaper live))
        | inr (text, e) ↦
            elim (request-Requested peer budget lawful http_post (some text) s₁ tt
              (o, (ml, (mc, (n, w)))) live) [
                | lost r s' q b z shared alike ↦
                    rw (read, e, q, b)
                      (off_report_result budget s (record s' { tmp_ret = r; ret = r }) b z b
                        (inr shared))
                | brought r s' q z ap_ (p', (t', (w', r'))) less ↦
                    elim (Bool-cases (r == rootpa_ok)) [
                      | inl ok ↦
                          let none_ : r ≡ rootpa_ok = ==→eq r rootpa_ok ok in
                          rw (read, e, q, ok)
                            (on_report_result budget s (record s' { tmp_ret = r; ret = r₀ })
                              (w' ∙ work) none_ ap_ (omega (arith, less, cheaper)))
                      | inr bad ↦
                          rw (read, e, q, bad)
                            (off_report_result budget s (record s' { tmp_ret = r; ret = r }) bad z
                              bad (inl ap_))
                    ]
              ]
      ]
