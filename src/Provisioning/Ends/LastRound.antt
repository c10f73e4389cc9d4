-- ===== src/Provisioning/Ends/LastRound.antt =====
-- The last round of the loop of rootpa/Code/Common/provisioningengine.c when an exchange has left
-- pointers as they were: no block is freed twice.
use mathlib.Core.Path.{subst}
use tee_mobicore_driver_daem.Base.{
  ◌≡◌, inl, inr, refl, sym, true, false, List, [], ◌∷◌, if◌then◌else◌, arith,
}
use tee_mobicore_driver_daem.Provisioning.Memory.{Pointer, Memory, null, same}
use tee_mobicore_driver_daem.Provisioning.Peer.{Loop}
use tee_mobicore_driver_daem.Provisioning.Owned.{
  owned, mallocated, freed, away-none, owned-pull, cleanup-Freed,
}
use tee_mobicore_driver_daem.Provisioning.Laws.{Left, Shared}
use tee_mobicore_driver_daem.Provisioning.Ends.{
  Stops, end_round-Stops, same_refl, owned-kept, mallocated-kept,
}

-- The used pointer, unless it is the pointer itself.
abbrev other : Pointer → Pointer → Pointer
other p old = if same p old then null else old

-- The block stands under one of the two names.
owned-other :
    (p old : Pointer) (ps : List Pointer) (mem : Memory)
    → Left p old
    → owned (old ∷ ps) mem ≡ true
    → owned (p ∷ other p old ∷ ps) mem ≡ true
owned-other p old ps mem (inl e) o =
    let alone = away-none (old ∷ ps) in
    let first : owned (null ∷ old ∷ ps) mem ≡ true = ground (arith, alone) in
    subst (λ q. owned (q ∷ other q old ∷ ps) mem ≡ true) (sym e)
      (subst (λ b. owned (old ∷ (if b then null else old) ∷ ps) mem ≡ true) (sym (same_refl old))
        (owned-pull (null ∷ []) old ps mem first))
owned-other p old ps mem (inr e) o =
    let rest = owned-kept (same null old) old ps mem o in
    let alone = away-none (other null old ∷ ps) in
    let first : owned (null ∷ other null old ∷ ps) mem ≡ true = ground (arith, rest, alone) in
    subst (λ q. owned (q ∷ other q old ∷ ps) mem ≡ true) (sym e) first

mallocated-Left : (p old : Pointer) → Left p old → mallocated old ≡ true → mallocated p ≡ true
mallocated-Left p old (inl e) m = rw (e) m
mallocated-Left p old (inr e) m = rw (e) refl

owned-others :
    (c r l uc ur ul p : Pointer) (mem : Memory)
    → Left c uc
    → Left r ur
    → Left l ul
    → owned (uc ∷ ur ∷ ul ∷ p ∷ []) mem ≡ true
    → owned (c ∷ r ∷ l ∷ other c uc ∷ other r ur ∷ other l ul ∷ p ∷ []) mem ≡ true
owned-others c r l uc ur ul p mem hc hr hl o =
    let uc' = other c uc in
    let ur' = other r ur in
    let ul' = other l ul in
    let named_c = owned-other c uc (ur ∷ ul ∷ p ∷ []) mem hc o in
    let at_r = owned-pull (c ∷ uc' ∷ []) ur (ul ∷ p ∷ []) mem named_c in
    let named_r = owned-other r ur (c ∷ uc' ∷ ul ∷ p ∷ []) mem hr at_r in
    let at_l = owned-pull (r ∷ ur' ∷ c ∷ uc' ∷ []) ul (p ∷ []) mem named_r in
    let named_l = owned-other l ul (r ∷ ur' ∷ c ∷ uc' ∷ p ∷ []) mem hl at_l in
    let s₁ = owned-pull (l ∷ []) ul' (r ∷ ur' ∷ c ∷ uc' ∷ p ∷ []) mem named_l in
    let s₂ = owned-pull (ul' ∷ l ∷ r ∷ []) ur' (c ∷ uc' ∷ p ∷ []) mem s₁ in
    let s₃ = owned-pull (ur' ∷ ul' ∷ l ∷ r ∷ c ∷ []) uc' (p ∷ []) mem s₂ in
    let s₄ = owned-pull (uc' ∷ ur' ∷ ul' ∷ []) l (r ∷ c ∷ p ∷ []) mem s₃ in
    let s₅ = owned-pull (l ∷ uc' ∷ ur' ∷ ul' ∷ []) r (c ∷ p ∷ []) mem s₄ in
    owned-pull (r ∷ l ∷ uc' ∷ ur' ∷ ul' ∷ []) c (p ∷ []) mem s₅

pub Shared-Stops : {W : Type 0} (s : Loop W) → s.work_to_do ≡ false → Shared s → Stops s
Shared-Stops s off (o, (mul, (muc, (el, (hr, hc))))) =
    let all =
      owned-others s.command s.rel s.link s.used_command s.used_rel s.used_link s.pending_link
        s.memory hc hr (inl el) o in
    elim (cleanup-Freed s.link s.rel s.command
      (other s.command s.used_command
        ∷ other s.rel s.used_rel
        ∷ other s.link s.used_link
        ∷ s.pending_link
        ∷ [])
      s.memory (mallocated-Left s.link s.used_link (inl el) mul)
      (mallocated-Left s.command s.used_command hc muc) all) [
        | freed mem e o' ↦
            elim (cleanup-Freed (other s.link s.used_link) (other s.rel s.used_rel)
              (other s.command s.used_command) (s.pending_link ∷ []) mem
              (mallocated-kept (same s.link s.used_link) s.used_link mul)
              (mallocated-kept (same s.command s.used_command) s.used_command muc) o') [
                | freed mem' e' o'' ↦ end_round-Stops s mem mem' off e e'
              ]
      ]
