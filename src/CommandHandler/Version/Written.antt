-- ===== src/CommandHandler/Version/Written.antt =====
-- When `getVersion` and `getSuid` of rootpa/Code/Common/commandhandler.c end, and what is then
-- written.
use tee_mobicore_driver_daem.Base.{
  ℕ, ◌≡◌, ◌≢◌, List, [], ◌∷◌, Bool, true, false, some, none, arith, inl, inr, Option-cases, is_some,
  is_some→some,
}
use tee_mobicore_driver_daem.Cmp.{rootpa_ok}
use tee_mobicore_driver_daem.World.{Platform}
use tee_mobicore_driver_daem.State.{Sys, Cmt, silently}
use tee_mobicore_driver_daem.ContentManager.Session.{open_cmtl_session}
use tee_mobicore_driver_daem.ContentManager.Batch.{
  Pair, Outcome, complete, run_session, run_without, execute_content_management_commands,
}
use tee_mobicore_driver_daem.ContentManager.Batch.Closing.{
  execute_content_management_commands-total, run_commands-is_some,
}
use tee_mobicore_driver_daem.CommandHandler.Version.{
  id_only, zero_message, VersionAnswer, SuidAnswer, version_of, suid_of, version_answer,
  suid_answer, get_version, get_suid,
}

module _ {W : Type 0} (p : Platform W) where
  run_session-internal_error :
      (self_opened : Bool) (ret : ℕ) (h : Cmt) (messages : List Pair) (s : Sys W) (out : Outcome)
      → (run_session p self_opened ret h messages s).0 ≡ some out
      → out.ret ≡ rootpa_ok
      → out.internal_error ≡ 0
  unfolding run_session complete
  run_session-internal_error self_opened ret h messages s out e ok =
      let (r, go) = is_some→some _ (run_commands-is_some p ret h messages s) in ground (arith, go)

  -- A batch that succeeds has no internal error.
  internal_error-eq_zero :
      (messages : List Pair) (s : Sys W) (out : Outcome)
      → (execute_content_management_commands p messages s).0 ≡ some out
      → out.ret ≡ rootpa_ok
      → out.internal_error ≡ 0
  unfolding execute_content_management_commands run_without
  internal_error-eq_zero messages s out e ok = elim (Option-cases s.handle) [
    | inr (h, e') ↦ ground (arith, run_session-internal_error false rootpa_ok h messages s out)
    | inl e' ↦
        let (ret, s') = open_cmtl_session p s in
        elim (Option-cases s'.handle) [
          | inl e'' ↦ ground arith
          | inr (h, e'') ↦ ground (arith, run_session-internal_error true ret h messages s' out)
        ]
  ]

  pub get_suid-is_some : (s : Sys W) → is_some (get_suid p s).0 ≡ true
  unfolding get_suid
  get_suid-is_some s =
      let (m, s') = silently (p.alloc 4) s in
      let (out, e) =
        execute_content_management_commands-total p ((id_only 27, zero_message) ∷ []) s' in
      ground (arith, e)

  -- If getting the SUID returns ROOTPA_OK, the SUID is written.
  pub get_suid-written :
      (s : Sys W) (a : SuidAnswer) → (get_suid p s).0 ≡ some a → a.ret ≡ rootpa_ok → a.suid ≢ none
  unfolding get_suid suid_answer suid_of
  get_suid-written s a got ok =
      let (m, s') = silently (p.alloc 4) s in
      let messages : List Pair = (id_only 27, zero_message) ∷ [] in
      let (out, e) = execute_content_management_commands-total p messages s' in
      ground (arith, e, internal_error-eq_zero messages s' out e)

  pub get_version-written :
      (s : Sys W) (a : VersionAnswer)
      → (get_version p s).0 ≡ some a
      → a.ret ≡ rootpa_ok
      → (a.tag ≡ some 2) × (a.version ≢ none)
  unfolding get_version version_answer version_of
  get_version-written s a got ok =
      let (m, s') = silently (p.alloc 4) s in
      let messages : List Pair = (id_only 5, zero_message) ∷ [] in
      let (out, e) = execute_content_management_commands-total p messages s' in
      ground (arith, e, internal_error-eq_zero messages s' out e)
