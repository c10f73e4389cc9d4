-- ===== src/Provisioning/Faults.antt =====
-- Runs of the loop of rootpa/Code/Common/provisioningengine.c that do not end well.
use mathlib.Core.Path.{subst}
use tee_mobicore_driver_daem.Base.{
  ℕ, ◌≡◌, refl, sym, ap, ◌∙◌, true, false, List, [], ◌∷◌, none, some, arith, Bool-cases,
  Option-cases, inl, inr, some-inj,
}
use tee_mobicore_driver_daem.SeClient.Text.{str_str}
use tee_mobicore_driver_daem.Provisioning.Memory.{
  Pointer, Memory, null, block, initial_post, initial_delete, initial_post_text,
  initial_delete_text, elem, load, free, free_rel, same, is_null, cleanup,
}
use tee_mobicore_driver_daem.Provisioning.Peer.{
  Peer, Loop, relation_self, relation_of, contains, self_text,
}
use tee_mobicore_driver_daem.Provisioning.Branches.{request, plain_request, on_self, on_relation}
use tee_mobicore_driver_daem.Provisioning.Round.{drop_used, end_round, round}
use tee_mobicore_driver_daem.Provisioning.Owned.{
  owned, mallocated, freed, cleanup-Freed, owned-pull,
}
use tee_mobicore_driver_daem.Provisioning.Laws.{no_self, text_of, used}
use tee_mobicore_driver_daem.Provisioning.Ends.{load-owned, moves_on-no_self}

-- `free` of a block writes its address down.
free-block :
    (b : ℕ) (text : List ℕ) (mem mem' : Memory)
    → free (block b text) mem ≡ some mem'
    → b ∷ mem.freed ≡ mem'.freed
free-block b text mem mem' e = elim (Bool-cases (elem b mem.freed)) [
  | inl t ↦ let nothing : none ≡ some mem' = sym (rw (t) refl) ∙ e in cc
  | inr f ↦
      let new = record mem { freed = b ∷ mem.freed } in
      let it : some new ≡ some mem' = sym (rw (f) refl) ∙ e in
      ap (λ m. m.freed) (some-inj {0} new mem' it)
]

free_rel-keeps :
    (a : ℕ) (p : Pointer) (mem mem' : Memory)
    → free_rel p mem ≡ some mem'
    → elem a mem.freed ≡ true
    → elem a mem'.freed ≡ true
free_rel-keeps a null mem mem' e h = subst (λ m. elem a m.freed ≡ true) (some-inj {0} mem mem' e) h
free_rel-keeps a initial_post mem mem' e h =
    subst (λ m. elem a m.freed ≡ true) (some-inj {0} mem mem' e) h
free_rel-keeps a initial_delete mem mem' e h =
    subst (λ m. elem a m.freed ≡ true) (some-inj {0} mem mem' e) h
free_rel-keeps a (block b text) mem mem' e h =
    subst (λ fs. elem a fs ≡ true) (free-block b text mem mem' e) (ground arith)

free-keeps :
    (a : ℕ) (p : Pointer) (mem mem' : Memory)
    → free p mem ≡ some mem'
    → elem a mem.freed ≡ true
    → elem a mem'.freed ≡ true
free-keeps a null mem mem' e h = free_rel-keeps a null mem mem' e h
free-keeps a initial_post mem mem' e h = cc
free-keeps a initial_delete mem mem' e h = cc
free-keeps a (block b text) mem mem' e h = free_rel-keeps a (block b text) mem mem' e h

-- After `cleanup` the link and the rel are freed.
data Cleaned (link rel : Pointer) (mem : Memory) : Type 0 where
  cleaned :
      ((a : ℕ) (text : List ℕ) → link ≡ block a text → elem a mem.freed ≡ true)
      → ((a : ℕ) (text : List ℕ) → rel ≡ block a text → elem a mem.freed ≡ true)
      → Cleaned link rel mem

elem-first : (a : ℕ) (fs : List ℕ) → elem a (a ∷ fs) ≡ true
elem-first a fs = ground arith

free-elem :
    (p : Pointer) (a : ℕ) (text : List ℕ) (mem mem' : Memory)
    → p ≡ block a text
    → free_rel p mem ≡ some mem'
    → elem a mem'.freed ≡ true
free-elem p a text mem mem' e h =
    let freed_ : free (block a text) mem ≡ some mem' =
      subst (λ q. free_rel q mem ≡ some mem') e h in
    subst (λ fs. elem a fs ≡ true) (free-block a text mem mem' freed_) (elem-first a mem.freed)

free_rel-eq : (p : Pointer) (mem : Memory) → mallocated p ≡ true → free_rel p mem ≡ free p mem
free_rel-eq null mem m = refl
free_rel-eq (block a text) mem m = refl
free_rel-eq initial_post mem m = cc
free_rel-eq initial_delete mem m = cc

cleanup-Cleaned :
    (link rel command : Pointer) (mem mem' : Memory)
    → mallocated link ≡ true
    → cleanup link rel command mem ≡ some mem'
    → Cleaned link rel mem'
unfolding cleanup
cleanup-Cleaned link rel command mem mem' m h = elim (Option-cases (free command mem)) [
  | inl e ↦ let nothing : none ≡ some mem' = sym (rw (e) refl) ∙ h in cc
  | inr (mem₁, e₁) ↦ elim (Option-cases (free_rel rel mem₁)) [
    | inl e ↦ let nothing : none ≡ some mem' = sym (rw (e₁, e) refl) ∙ h in cc
    | inr (mem₂, e₂) ↦
        let last : free link mem₂ ≡ some mem' = sym (rw (e₁, e₂) refl) ∙ h in
        cleaned (λ a text k. free-elem link a text mem₂ mem' k (free_rel-eq link mem₂ m ∙ last))
          (λ a text k. free-keeps a link mem₂ mem' last (free-elem rel a text mem₁ mem₂ k e₂))
  ]
]

relation_of_self :
    (text : List ℕ) → contains self_text text ≡ true → relation_of text ≡ relation_self
unfolding relation_of
relation_of_self text h = rw (h) refl

module _ {W : Type 0} (peer : Peer W) where
  -- A round with a link that was freed, under a rel of before.
  round-freed :
      (p : Pointer) (s : Loop W) (b : ℕ) (t : List ℕ)
      → s.rel ≡ p
      → is_null p ≡ false
      → ((a : ℕ) (text : List ℕ) → p ≡ block a text → elem a s.memory.freed ≡ true)
      → s.link ≡ block b t
      → elem b s.memory.freed ≡ true
      → round peer s ≡ none
  unfolding round on_relation relation_of initial_post_text initial_delete_text plain_request
      request str_str
  round-freed null s b t e live gone el h = cc
  round-freed (block a text) s b t e live gone el h = rw (e, gone a text refl) refl
  round-freed initial_post s b t e live gone el h = rw (e, el, h) refl
  round-freed initial_delete s b t e live gone el h = rw (e, el, h) refl

  -- The round that goes back to the pointers of before, and frees them.
  round-back :
      (s : Loop W) (text : List ℕ) (mem mem' : Memory)
      → s.work_to_do ≡ true
      → load s.rel s.memory ≡ some (some text)
      → contains self_text text ≡ true
      → cleanup s.link s.rel s.command s.memory ≡ some mem
      → cleanup s.used_link s.used_rel s.used_command mem ≡ some mem'
      → load s.used_rel mem ≡ some (text_of s.used_rel)
      → no_self (text_of s.used_rel) ≡ true
      → same s.link s.used_link ≡ false
      → same s.rel s.used_rel ≡ false
      → same s.command s.used_command ≡ false
      → round peer s
        ≡ some (record s {
          memory = mem';
          rel = s.used_rel;
          link = s.used_link;
          command = s.used_command;
          used_rel = null;
          used_link = null;
          used_command = null;
          response = none;
        })
  unfolding round on_relation on_self end_round drop_used
  round-back s text mem mem' work read self e e' read' nr sl sr sc =
      rw
        (
          read,
          relation_of_self text self,
          sr,
          sl,
          sc,
          e,
          work,
          read',
          moves_on-no_self (text_of s.used_rel) nr,
          e',
        )
        refl

  -- When the server has answered relation/self to a request, the round is defined, goes back to
  -- the link, the relation and the command of the request before and frees that link at its end,
  -- with work still to do, so that the next round reads a block that was freed and is undefined;
  -- given that the blocks of both are live and different, that the link asked with is a block,
  -- and that the relation before is not relation/self.
  pub round-self_dangles :
      (s : Loop W) (a b : ℕ) (text t : List ℕ)
      → s.work_to_do ≡ true
      → s.rel ≡ block a text
      → contains self_text text ≡ true
      → owned (s.command ∷ s.rel ∷ s.link ∷ used s) s.memory ≡ true
      → mallocated s.link ≡ true
      → mallocated s.command ≡ true
      → mallocated s.used_command ≡ true
      → s.used_link ≡ block b t
      → is_null s.used_rel ≡ false
      → no_self (text_of s.used_rel) ≡ true
      → same s.link s.used_link ≡ false
      → same s.rel s.used_rel ≡ false
      → same s.command s.used_command ≡ false
      → (s' : Loop W) × ((round peer s ≡ some s')
          × (((s'.link ≡ s.used_link) × ((s'.rel ≡ s.used_rel) × (s'.command ≡ s.used_command)))
              × ((s'.work_to_do ≡ true)
                  × ((load s'.link s'.memory ≡ none) × (round peer s' ≡ none)))))
  round-self_dangles s a b text t work er self o ml mc muc el lr nr sl sr sc =
      elim (cleanup-Freed s.link s.rel s.command (used s) s.memory ml mc o) [
        | freed mem e o' ↦
            elim (cleanup-Freed s.used_link s.used_rel s.used_command (s.pending_link ∷ []) mem
              (rw (el) refl) muc o') [
                | freed mem' e' o'' ↦
                    elim (cleanup-Cleaned s.used_link s.used_rel s.used_command mem mem'
                      (rw (el) refl) e') [
                        | cleaned gone_link gone_rel ↦
                            let read =
                              load-owned s.rel (s.command ∷ s.link ∷ used s) s.memory
                                (owned-pull (s.command ∷ []) s.rel (s.link ∷ used s) s.memory o) in
                            let back =
                              round-back s text mem mem' work (read ∙ ap (λ p. some (text_of p)) er)
                                self e e'
                                (load-owned s.used_rel
                                  (s.used_command ∷ s.used_link ∷ s.pending_link ∷ []) mem
                                  (owned-pull (s.used_command ∷ []) s.used_rel
                                    (s.used_link ∷ s.pending_link ∷ []) mem o'))
                                nr sl sr sc in
                            let gone = gone_link b t el in
                            (
                              _,
                              (
                                back,
                                (
                                  (refl, (refl, refl)),
                                  (
                                    work,
                                    (
                                      rw (el, gone) refl,
                                      round-freed s.used_rel _ b t refl lr gone_rel el gone,
                                    ),
                                  ),
                                ),
                              ),
                            )
                      ]
              ]
      ]
