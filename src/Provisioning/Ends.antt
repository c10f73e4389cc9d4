-- ===== src/Provisioning/Ends.antt =====
-- How a round of the loop of rootpa/Code/Common/provisioningengine.c ends: the frees at its end.
pub mod LastRound
use tee_mobicore_driver_daem.Base.{
  ℕ, ◌+◌, ◌≤◌, ◌<◌, ◌≡◌, ◌⊎◌, inl, inr, refl, sym, ap, ◌∙◌, Bool, true, false, ◌&&◌, not, List, [],
  ◌∷◌, ◌++◌, Option, none, some, if◌then◌else◌, ◌==◌, arith, tests, Bool-cases, Option-cases,
}
use tee_mobicore_driver_daem.SeClient.Text.{◌>>=◌}
use tee_mobicore_driver_daem.Provisioning.Memory.{
  Pointer, Memory, null, initial_post, initial_delete, block, elem, load, same, cleanup,
}
use tee_mobicore_driver_daem.Provisioning.Peer.{Loop}
use tee_mobicore_driver_daem.Provisioning.Owned.{
  owned, mallocated, address, Freed, freed, owned-tail, owned-pull, away-none, cleanup-Freed,
}
use tee_mobicore_driver_daem.Provisioning.Laws.{
  no_self, text_of, blocks, used, Waiting, Ready, Apart, Left, Shared,
}
use tee_mobicore_driver_daem.Provisioning.Round.{moves_on, last_cleanup, drop_used, end_round}

pub load-owned :
    (p : Pointer) (ps : List Pointer) (mem : Memory)
    → owned (p ∷ ps) mem ≡ true
    → load p mem ≡ some (text_of p)
load-owned null ps mem o = refl
load-owned initial_post ps mem o = refl
load-owned initial_delete ps mem o = refl
load-owned (block a text) ps mem o =
    let unfreed : elem a mem.freed ≡ false = ground arith in rw (unfreed) refl

pub moves_on-no_self : (rel : Option (List ℕ)) → no_self rel ≡ true → moves_on rel ≡ true
moves_on-no_self none h = refl
moves_on-no_self (some text) h = h

-- The used pointers behind the new ones come to the front.
pub owned-used :
    (c r l uc ur ul p : Pointer) (mem : Memory)
    → owned (c ∷ r ∷ l ∷ uc ∷ ur ∷ ul ∷ p ∷ []) mem ≡ true
    → owned (uc ∷ ur ∷ ul ∷ c ∷ r ∷ l ∷ p ∷ []) mem ≡ true
owned-used c r l uc ur ul p mem o = owned-pull (ur ∷ ul ∷ c ∷ r ∷ l ∷ []) uc (p ∷ []) mem (
    owned-pull (ul ∷ c ∷ r ∷ l ∷ uc ∷ []) ur (p ∷ []) mem
      (owned-pull (c ∷ r ∷ l ∷ uc ∷ ur ∷ []) ul (p ∷ []) mem o))

module _ {W : Type 0} where
  -- The round goes on with the new pointers.
  pub data GoesOn (s : Loop W) : Type 0 where
    goes_on :
        (mem : Memory)
        → end_round s
          ≡ some (record s {
            memory = mem;
            used_link = null;
            used_rel = null;
            used_command = null;
            response = none;
          })
        → owned (blocks s) mem ≡ true
        → GoesOn s

  pub end_round-GoesOn : (s : Loop W) → s.work_to_do ≡ true → Apart s → GoesOn s
  unfolding end_round drop_used
  end_round-GoesOn s work (o, (ml, (mc, (mul, (muc, (n, w)))))) =
      let front =
        owned-used s.command s.rel s.link s.used_command s.used_rel s.used_link s.pending_link
          s.memory o in
      elim (cleanup-Freed s.used_link s.used_rel s.used_command (blocks s) s.memory mul muc front) [
        | freed mem e o' ↦
            goes_on mem
              (rw
                (
                  work,
                  load-owned s.rel (s.link ∷ used s) s.memory
                      (owned-tail s.command (s.rel ∷ s.link ∷ used s) s.memory o),
                  moves_on-no_self (text_of s.rel) n,
                  e,
                )
                refl)
              o'
      ]

  -- The loop ends with it.
  pub data Stops (s : Loop W) : Type 0 where
    stops :
        (s' : Loop W)
        → end_round s ≡ some s'
        → s'.work_to_do ≡ false
        → s'.reports ≡ s.reports
        → s'.link ≡ null
        → Stops s

  -- The frees of the last round, when they are defined.
  pub end_round-Stops :
      (s : Loop W) (mem mem' : Memory)
      → s.work_to_do ≡ false
      → cleanup s.link s.rel s.command s.memory ≡ some mem
      → cleanup
          (if same s.link s.used_link then null else s.used_link)
          (if same s.rel s.used_rel then null else s.used_rel)
          (if same s.command s.used_command then null else s.used_command)
          mem
        ≡ some mem'
      → Stops s
  unfolding end_round last_cleanup drop_used
  end_round-Stops s mem mem' off e e' =
      stops
        (record s {
          memory = mem';
          link = null;
          rel = null;
          command = null;
          used_link = null;
          used_rel = null;
          used_command = null;
          response = none;
        })
        (rw (off, e, e') refl) off refl refl

pub same_refl : (p : Pointer) → same p p ≡ true
same_refl null = refl
same_refl initial_post = refl
same_refl initial_delete = refl
same_refl (block a text) = ground arith

-- A used pointer that is dropped from the list, or not.
pub owned-kept :
    (b : Bool) (p : Pointer) (ps : List Pointer) (mem : Memory)
    → owned (p ∷ ps) mem ≡ true
    → owned ((if b then null else p) ∷ ps) mem ≡ true
owned-kept true p ps mem o =
    let alone = away-none ps in let rest = owned-tail p ps mem o in ground (arith, alone, rest)
owned-kept false p ps mem o = o

-- Under the front of the list.
owned-under :
    (p q : Pointer) (ps : List Pointer) (mem : Memory)
    → owned (p ∷ q ∷ ps) mem ≡ true
    → owned (q ∷ p ∷ ps) mem ≡ true
owned-under p q ps mem o = owned-pull (p ∷ []) q ps mem o

owned-kept_all :
    (b b' b'' : Bool) (c r l : Pointer) (ps : List Pointer) (mem : Memory)
    → owned (c ∷ r ∷ l ∷ ps) mem ≡ true
    → owned
        ((if b then null else c) ∷ (if b' then null else r) ∷ (if b'' then null else l) ∷ ps)
        mem
      ≡ true
owned-kept_all b b' b'' c r l ps mem o =
    let c' = if b then null else c in
    let r' = if b' then null else r in
    let l' = if b'' then null else l in
    -- c r l, then r c' l, then l r' c', then the order of before
    let first = owned-under c' r (l ∷ ps) mem (owned-kept b c (r ∷ l ∷ ps) mem o) in
    let second = owned-pull (r' ∷ c' ∷ []) l ps mem (owned-kept b' r (c' ∷ l ∷ ps) mem first) in
    let third = owned-kept b'' l (r' ∷ c' ∷ ps) mem second in
    owned-pull (r' ∷ l' ∷ []) c' ps mem (owned-under l' r' (c' ∷ ps) mem third)

pub mallocated-kept :
    (b : Bool) (p : Pointer) → mallocated p ≡ true → mallocated (if b then null else p) ≡ true
mallocated-kept true p m = refl
mallocated-kept false p m = m

module _ {W : Type 0} where
  pub Apart-Stops : (s : Loop W) → s.work_to_do ≡ false → Apart s → Stops s
  Apart-Stops s off (o, (ml, (mc, (mul, (muc, (n, w)))))) =
      elim (cleanup-Freed s.link s.rel s.command (used s) s.memory ml mc o) [
        | freed mem e o' ↦
            elim (cleanup-Freed (if same s.link s.used_link then null else s.used_link)
              (if same s.rel s.used_rel then null else s.used_rel)
              (if same s.command s.used_command then null else s.used_command) (s.pending_link ∷ [])
              mem (mallocated-kept (same s.link s.used_link) s.used_link mul)
              (mallocated-kept (same s.command s.used_command) s.used_command muc)
              (owned-kept_all (same s.command s.used_command) (same s.rel s.used_rel)
                (same s.link s.used_link) s.used_command s.used_rel s.used_link
                (s.pending_link ∷ []) mem o')) [
                  | freed mem' e' o'' ↦ end_round-Stops s mem mem' off e e'
                ]
      ]
