-- ===== src/Provisioning/Provisioned.antt =====
-- The loop of rootpa/Code/Common/provisioningengine.c from its first round to its last.
use mathlib.Core.Path.{subst}
use tee_mobicore_driver_daem.Base.{
  ℕ, zero, suc, ◌+◌, ◌<◌, ◌≡◌, ◌≢◌, inl, inr, refl, ap, ◌∙◌, Bool, true, false, ◌&&◌, not, List, [],
  ◌∷◌, Option, none, some, if◌then◌else◌, arith, Bool-cases, Option-cases,
}
use tee_mobicore_driver_daem.Cmp.{rootpa_ok}
use tee_mobicore_driver_daem.State.{finished_provisioning}
use tee_mobicore_driver_daem.SeClient.Text.{◌>>=◌}
use tee_mobicore_driver_daem.SeClient.Communicate.{http_get, http_post, http_delete}
use tee_mobicore_driver_daem.Provisioning.Memory.{
  Pointer, Memory, null, block, initial_post, initial_delete, is_null,
}
use tee_mobicore_driver_daem.Provisioning.Peer.{
  Peer, Loop, Relation, relation_self, relation_system_info, relation_initial_delete,
  relation_initial_post, relation_result, relation_next, relation_other, relation_of, contains,
  self_text,
}
use tee_mobicore_driver_daem.Provisioning.Branches.{on_relation}
use tee_mobicore_driver_daem.Provisioning.Round.{end_round, on_no_relation, round, rounds}
use tee_mobicore_driver_daem.Provisioning.Owned.{
  owned, address, freed, free-Freed, owned-pull, away-none, owned-tail,
}
use tee_mobicore_driver_daem.Provisioning.Laws.{
  no_self, text_of, blocks, Ready, Apart, told, rank, Lawful,
}
use tee_mobicore_driver_daem.Provisioning.Ends.{
  load-owned, owned-used, goes_on, end_round-GoesOn, stops, Apart-Stops,
}
use tee_mobicore_driver_daem.Provisioning.Ends.LastRound.{Shared-Stops}
use tee_mobicore_driver_daem.Provisioning.Turns.{
  Turned, turned_on, turned_off, plain_request-Turned, relation_other-Turned,
}
use tee_mobicore_driver_daem.Provisioning.Turns.Results.{on_system_info-Turned, on_result-Turned}

-- Between the rounds, with work to do.
abbrev pub Working : {W : Type 0} → Loop W → Type 0
Working s =
    Ready s
    × ((s.work_to_do ≡ true)
        × ((s.tmp_ret ≡ rootpa_ok)
            × ((s.used_link ≡ null) × ((s.used_rel ≡ null) × (s.used_command ≡ null)))))

-- A round that is defined, and leaves fewer rounds or none.
data Rounded {W : Type 0} (budget : W → ℕ) (s : Loop W) (r : Option (Loop W)) : Type 0 where
  rounded_on :
      (s' : Loop W) → r ≡ some s' → Working s' → rank budget s' < rank budget s → Rounded budget s r
  rounded_off :
      (s' : Loop W)
      → r ≡ some s'
      → s'.work_to_do ≡ false
      → told s'.reports ≡ true
      → s'.link ≡ null
      → Rounded budget s r

relation_of-no_self :
    (text : List ℕ) → contains self_text text ≡ false → relation_of text ≢ relation_self
unfolding relation_of
relation_of-no_self text h e = ground arith

module _ {W : Type 0} (peer : Peer W) (budget : W → ℕ) (lawful : Lawful peer budget) where
  on_relation-Turned :
      (relation : Relation) (s : Loop W)
      → Working s
      → is_null s.rel ≡ false
      → relation ≢ relation_self
      → Turned budget s (on_relation peer relation s)
  unfolding on_relation
  on_relation-Turned relation_self s d live h = absurd (h refl)
  on_relation-Turned relation_system_info s (d, (work, (t, u))) live h =
      on_system_info-Turned peer budget lawful s d live work
  on_relation-Turned relation_initial_delete s (d, (work, (t, u))) live h =
      plain_request-Turned peer budget lawful http_delete none s tt d live work t
  on_relation-Turned relation_initial_post s (d, (work, (t, u))) live h =
      plain_request-Turned peer budget lawful http_post s.response s tt d live work t
  on_relation-Turned relation_result s (d, (work, (t, u))) live h =
      on_result-Turned peer budget lawful s d live work t
  on_relation-Turned relation_next s (d, (work, (t, u))) live h =
      plain_request-Turned peer budget lawful http_get none s tt d live work t
  on_relation-Turned relation_other s (d, (work, (t, u))) live h =
      relation_other-Turned peer budget lawful s d

  -- The end of the round after a branch.
  end_round-Rounded :
      (s : Loop W) (r : Option (Loop W))
      → Turned budget s r
      → Rounded budget s (do s' ← r; end_round s')
  end_round-Rounded s r (turned_on s' e work t d less) = elim (end_round-GoesOn s' work d) [
    | goes_on mem e' o ↦
        rounded_on
          (record s' {
            memory = mem;
            used_link = null;
            used_rel = null;
            used_command = null;
            response = none;
          })
          (rw (e) e') ((o, (d.1.0, (d.1.1.0, d.1.1.1.1.1))), (work, (t, (refl, (refl, refl))))) less
  ]
  end_round-Rounded s r (turned_off s' e off (inl d) k) = elim (Apart-Stops s' off d) [
    | stops s'' e' off' k' l ↦ rounded_off s'' (rw (e) e') off' (ap told k' ∙ k) l
  ]
  end_round-Rounded s r (turned_off s' e off (inr d) k) = elim (Shared-Stops s' off d) [
    | stops s'' e' off' k' l ↦ rounded_off s'' (rw (e) e') off' (ap told k' ∙ k) l
  ]

-- NULL and the constants take no part.
owned-none :
    (q : Pointer) (ps : List Pointer) (mem : Memory)
    → address q ≡ none
    → owned ps mem ≡ true
    → owned (q ∷ ps) mem ≡ true
owned-none q ps mem e o = let alone = away-none ps in rw (e) (ground (arith, alone))

-- The request that was put off, with its two pointers.
owned-pending :
    (c r l p q : Pointer) (mem : Memory)
    → address q ≡ none
    → owned (c ∷ r ∷ p ∷ []) mem ≡ true
    → owned (c ∷ q ∷ p ∷ null ∷ []) mem ≡ true
owned-pending c r l p q mem e o =
    let rest = owned-tail r (c ∷ p ∷ []) mem (owned-pull (c ∷ []) r (p ∷ []) mem o) in
    let all = owned-none null (q ∷ c ∷ p ∷ []) mem refl (owned-none q (c ∷ p ∷ []) mem e rest) in
    let s₁ = owned-pull (null ∷ q ∷ c ∷ []) p [] mem all in
    let s₂ = owned-pull (p ∷ null ∷ []) q (c ∷ []) mem s₁ in
    owned-pull (q ∷ p ∷ null ∷ []) c [] mem s₂

null-address : (p : Pointer) → is_null p ≡ true → p ≡ null
null-address null h = refl
null-address (block a text) h = cc
null-address initial_post h = cc
null-address initial_delete h = cc

text_of-null : (p : Pointer) → text_of p ≡ none → is_null p ≡ true
text_of-null null h = refl
text_of-null (block a text) h = cc
text_of-null initial_post h = cc
text_of-null initial_delete h = cc

text_of-some : (p : Pointer) (text : List ℕ) → text_of p ≡ some text → is_null p ≡ false
text_of-some null text h = cc
text_of-some (block a t) text h = refl
text_of-some initial_post text h = refl
text_of-some initial_delete text h = refl

both-left : (a b : Bool) → (not a && not b) ≡ true → a ≡ false
both-left a b h = ground arith

both-right : (a b : Bool) → (not a && not b) ≡ true → b ≡ false
both-right a b h = ground arith

not-true : (b : Bool) → not b ≡ true → b ≡ false
not-true b h = ground arith

if-true : {A : Type 0} (b : Bool) (x y : A) → b ≡ true → (if b then x else y) ≡ x
if-true true x y h = refl
if-true false x y h = cc

if-false : {A : Type 0} (b : Bool) (x y : A) → b ≡ false → (if b then x else y) ≡ y
if-false true x y h = cc
if-false false x y h = refl

rank-pending :
    (left : ℕ) (rel pending_link pending_rel : Pointer)
    → is_null rel ≡ true
    → is_null pending_link ≡ false
    → is_null pending_rel ≡ false
    → left + ((if is_null pending_rel then 0 else 1) + 0)
      < left + ((if is_null rel then 0 else 1) + (if is_null pending_link then 0 else 2))
rank-pending left rel pending_link pending_rel h k l = rw (h, k, l) (omega arith)

module _ {W : Type 0} (peer : Peer W) (budget : W → ℕ) (lawful : Lawful peer budget) where
  -- Nothing is kept under a used name.
  unused-Apart : (s : Loop W) → Working s → Apart s
  unused-Apart s ((o, (ml, (mc, (n, w)))), (work, (t, (ul, (ur, uc))))) =
      let all = owned-none null (null ∷ null ∷ blocks s) s.memory refl (
        owned-none null (null ∷ blocks s) s.memory refl
          (owned-none null (blocks s) s.memory refl o)) in
      rw (ul, ur, uc)
        (
          owned-used null null null s.command s.rel s.link s.pending_link s.memory all,
          (ml, (mc, (refl, (refl, (n, w))))),
        )

  on_no_relation-Rounded :
      (s : Loop W) → Working s → is_null s.rel ≡ true → Rounded budget s (on_no_relation s)
  unfolding on_no_relation
  on_no_relation-Rounded s ((o, (ml, (mc, (n, (mp, (ap_, np)))))), (work, (t, u))) nothing =
      elim (Bool-cases (not (is_null s.pending_link) && not (is_null s.pending_rel))) [
        | inl waits ↦
            let front =
              owned-pull (s.command ∷ s.rel ∷ []) s.link (s.pending_link ∷ []) s.memory o in
            elim (free-Freed s.link (s.command ∷ s.rel ∷ s.pending_link ∷ []) s.memory ml front) [
              | freed mem e o' ↦
                  rounded_on
                    (record s {
                      memory = mem;
                      link = s.pending_link;
                      rel = s.pending_rel;
                      pending_link = null;
                      pending_rel = null;
                      work_to_do = true;
                    })
                    (rw (waits, e) refl)
                    (
                      (
                        owned-pending s.command s.rel s.link s.pending_link s.pending_rel mem ap_
                            o',
                        (mp, (mc, (np, (refl, (refl, refl))))),
                      ),
                      (refl, (t, u)),
                    )
                    (rank-pending (budget s.world) s.rel s.pending_link s.pending_rel nothing
                      (both-left (is_null s.pending_link) (is_null s.pending_rel) waits)
                      (both-right (is_null s.pending_link) (is_null s.pending_rel) waits))
            ]
        | inr over ↦
            let s' = record s {
              reports = (finished_provisioning, rootpa_ok) ∷ s.reports;
              work_to_do = false;
            } in
            elim (Apart-Stops s' refl
              (unused-Apart s ((o, (ml, (mc, (n, (mp, (ap_, np)))))), (work, (t, u))))) [
                | stops s'' e off k l ↦ rounded_off s'' (rw (over) e) off (ap told k) l
              ]
      ]

  round-Rounded : (s : Loop W) → Working s → Rounded budget s (round peer s)
  unfolding round
  round-Rounded s (d, h) =
      let read =
        load-owned s.rel (s.command ∷ s.link ∷ s.pending_link ∷ []) s.memory
          (owned-pull (s.command ∷ []) s.rel (s.link ∷ s.pending_link ∷ []) s.memory d.0) in
      elim (Option-cases (text_of s.rel)) [
        | inl e ↦ rw (read, e) (on_no_relation-Rounded s (d, h) (text_of-null s.rel e))
        | inr (text, e) ↦
            let other : contains self_text text ≡ false =
              not-true (contains self_text text) (subst (λ q. no_self q ≡ true) e d.1.1.1.0) in
            rw (read, e)
              (end_round-Rounded peer budget lawful s (on_relation peer (relation_of text) s) (
                on_relation-Turned peer budget lawful (relation_of text) s (d, h)
                  (text_of-some s.rel text e) (relation_of-no_self text other)))
      ]

  rounds-step :
      (fuel : ℕ) (s : Loop W)
      → s.work_to_do ≡ true
      → rounds peer (suc fuel) s ≡ (do s' ← round peer s; rounds peer fuel s')
  unfolding rounds
  rounds-step fuel s work = if-true s.work_to_do _ _ work

  pub rounds-over : (fuel : ℕ) (s : Loop W) → s.work_to_do ≡ false → rounds peer fuel s ≡ some s
  unfolding rounds
  rounds-over zero s off = refl
  rounds-over (suc fuel) s off = if-false s.work_to_do _ _ off

  pub rounds-end :
      (fuel : ℕ) (s : Loop W)
      → Working s
      → rank budget s < fuel
      → (s' : Loop W) × ((rounds peer fuel s ≡ some s')
          × ((s'.work_to_do ≡ false) × ((told s'.reports ≡ true) × (s'.link ≡ null))))
  rounds-end zero s d h = absurd (omega arith)
  rounds-end (suc fuel) s (d, (work, u)) h = elim (round-Rounded s (d, (work, u))) [
    | rounded_off s' e off k l ↦
        (s', (rounds-step fuel s work ∙ (rw (e) (rounds-over fuel s' off)), (off, (k, l))))
    | rounded_on s' e d' less ↦
        let (s'', (e', k)) = rounds-end fuel s' d' (omega arith) in
        (s'', (rounds-step fuel s work ∙ (rw (e) e'), k))
  ]
