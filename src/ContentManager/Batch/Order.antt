-- ===== src/ContentManager/Batch/Order.antt =====
-- The order in which `executeContentManagementCommands`
-- (rootpa/Code/Common/contentmanager.c) runs its commands, and what each response then holds.
use tee_mobicore_driver_daem.Base.{
  ℕ, ◌<◌, ◌≡◌, ◌≢◌, ◌⊎◌, refl, ap, ◌==◌, Option, List, [], ◌∷◌, true, false, some, arith, inl, inr,
  Bool-cases, ltb,
}
use tee_mobicore_driver_daem.Cmp.{CmpMessage, rootpa_ok}
use tee_mobicore_driver_daem.World.{Platform}
use tee_mobicore_driver_daem.State.{Sys, Cmt}
use tee_mobicore_driver_daem.ContentManager.Execute.{Exec, execute_one_cmp_command}
use tee_mobicore_driver_daem.ContentManager.Execute.Total.{execute_one_cmp_command-total}
use tee_mobicore_driver_daem.ContentManager.Execute.Tags.{
  SameTag, SameTags, execute_one_cmp_command-SameTags,
}
use tee_mobicore_driver_daem.ContentManager.Batch.{
  Pair, Progress, progress, cons_message, matched, result_of, exchanged, ends_at, run_commands,
}

-- A command and its response, before and after: the command's bytes are what they were, and the
-- response bears the id and the flag of the command.
pub record Answers (m m' : Pair) : Type 0 where
  pub same_length : m'.0.length ≡ m.0.length
  pub same_content : m'.0.content ≡ m.0.content
  pub id : m'.1.hdr.id ≡ m.0.hdr.id
  pub flag : m'.1.hdr.ignore_error ≡ m.0.hdr.ignore_error

-- From a result so far, a handle and a state the loop goes over a batch to what it leaves and
-- another state. Each command with content is executed with the handle and the state that the
-- command before it left; one without content is passed over.
pub data Ran {W : Type 0} (p : Platform W)
    : ℕ → Cmt → Sys W → List Pair → Progress → Sys W → Type 0 where
  done : {ret : ℕ} {h : Cmt} {s : Sys W} → Ran p ret h s [] (progress ret h [] false) s
  skipped :
      {ret : ℕ} {h : Cmt} {s s' : Sys W} {command response : CmpMessage} {ms : List Pair}
      {r : Progress}
      → command.length ≡ 0
      → Ran p ret h s ms r s'
      → Ran p ret h s
          ((command, response) ∷ ms)
          (cons_message (command, matched command response) r)
          s'
  -- The command succeeded, or its error is to be ignored: the loop goes on.
  next :
      {ret ret' : ℕ} {h : Cmt} {s s₁ s' : Sys W} {command response : CmpMessage} {m' : Pair}
      {ms : List Pair} {r : Progress} {x : Exec}
      → 0 < command.length
      → execute_one_cmp_command p h command (matched command response) s ≡ (some x, s₁)
      → Answers (command, response) m'
      → ((x.ret ≡ rootpa_ok) × ((ret' ≡ ret) × (m' ≡ (x.command, x.response))))
        ⊎ ((x.ret ≢ rootpa_ok)
            × ((ret' ≡ x.ret) × ((command.hdr.ignore_error ≡ true) × (m'.1.hdr.ret ≢ rootpa_ok))))
      → Ran p ret' x.handle s₁ ms r s'
      → Ran p ret h s ((command, response) ∷ ms) (cons_message m' r) s'
  -- It failed, and its error is not to be ignored: what follows is left as it was.
  stop :
      {ret : ℕ} {h : Cmt} {s s₁ : Sys W} {command response : CmpMessage} {m' : Pair}
      {ms : List Pair} {x : Exec}
      → 0 < command.length
      → execute_one_cmp_command p h command (matched command response) s ≡ (some x, s₁)
      → Answers (command, response) m'
      → x.ret ≢ rootpa_ok
      → command.hdr.ignore_error ≡ false
      → m'.1.hdr.ret ≢ rootpa_ok
      → Ran p ret h s ((command, response) ∷ ms) (progress x.ret x.handle (m' ∷ ms) true) s₁

exchanged-Answers :
    (command response : CmpMessage) (h : Cmt) (x : Exec)
    → SameTags
        (record {
          ret = rootpa_ok;
          handle = h;
          command = command;
          response = matched command response;
        })
        x
    → Answers (command, response) (exchanged x)
exchanged-Answers command response h x t = ground arith

ends_at-ret : (x : Exec) → ends_at x ≡ true → (exchanged x).1.hdr.ret ≢ rootpa_ok
ends_at-ret x e = ground arith

ends_at-flag :
    (m : CmpMessage) (x : Exec)
    → SameTag m x.command
    → ends_at x ≡ true
    → m.hdr.ignore_error ≡ false
ends_at-flag m x t e = ground arith

-- A command after which the loop goes on.
goes_on :
    (command response : CmpMessage) (ret : ℕ) (h : Cmt) (x : Exec)
    → SameTag command x.command
    → ends_at x ≡ false
    → ((x.ret ≡ rootpa_ok) × ((result_of ret x ≡ ret) × (exchanged x ≡ (x.command, x.response))))
      ⊎ ((x.ret ≢ rootpa_ok)
          × ((result_of ret x ≡ x.ret)
              × ((command.hdr.ignore_error ≡ true) × ((exchanged x).1.hdr.ret ≢ rootpa_ok))))
goes_on command response ret h x t e = elim (Bool-cases (x.ret == rootpa_ok)) [
  | inl ok ↦ inl (ground arith, (rw (ok) refl, rw (ok) refl))
  | inr failed ↦
      inr ((λ zero_. ground arith), (rw (failed) refl, (ground arith, (λ zero_. ground arith))))
]

module _ {W : Type 0} (p : Platform W) where
  -- The loop over a batch always comes to its end. It executes the commands that have content in
  -- their order, each with the handle and the state that the one before left; it leaves the
  -- bytes of a command alone, and its response bears the id and the flag of the command. The
  -- result is that of the last command that failed, or else the one from before. After a command
  -- that failed, whose response then shows an error, the loop goes on if the error is to be
  -- ignored, and else stops and leaves what follows as it was.
  pub run_commands-Ran :
      (ret : ℕ) (h : Cmt) (messages : List Pair) (s : Sys W)
      → let (out, s') = run_commands p ret h messages s in
        (r : Progress) × ((out ≡ some r) × Ran p ret h s messages r s')
  unfolding run_commands
  run_commands-Ran ret h [] s = (progress ret h [] false, (refl, done))
  run_commands-Ran ret h ((command, response) ∷ rest) s =
      let m = matched command response in
      let (x, e) = execute_one_cmp_command-total p h command m s in
      let s₁ = (execute_one_cmp_command p h command m s).1 in
      let ran : execute_one_cmp_command p h command m s ≡ (some x, s₁) =
        ap (λ (o : Option Exec). (o, s₁)) e in
      let tags = execute_one_cmp_command-SameTags p h command m s x e in
      let answers = exchanged-Answers command response h x tags in
      let (r, (r_ran, later)) = run_commands-Ran (result_of ret x) x.handle rest s₁ in
      let (k, (k_ran, past)) = run_commands-Ran ret h rest s in
      elim (Bool-cases (ltb 0 command.length)) [
        | inr empty ↦
            rw (empty, k_ran) (cons_message (command, m) k, (refl, skipped (ground arith) past))
        | inl full ↦ elim (Bool-cases (ends_at x)) [
          | inl ends ↦
              rw (full, ran, ends)
                (
                  progress x.ret x.handle (exchanged x ∷ rest) true,
                  (
                    refl,
                    stop (ground arith) ran answers (λ zero_. ground arith)
                        (ends_at-flag command x tags.command_tag ends) (ends_at-ret x ends),
                  ),
                )
          | inr goes ↦
              rw (full, ran, goes, r_ran)
                (
                  cons_message (exchanged x) r,
                  (
                    refl,
                    next (ground arith) ran answers
                        (goes_on command response ret h x tags.command_tag goes) later,
                  ),
                )
        ]
      ]
