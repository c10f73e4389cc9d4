-- ===== src/Provisioning/Requests.antt =====
-- What a request of the loop of rootpa/Code/Common/provisioningengine.c leaves.
use tee_mobicore_driver_daem.Base.{
  ℕ, ◌+◌, ◌<◌, ◌≡◌, inl, inr, refl, ap, ◌∙◌, true, false, List, [], ◌∷◌, Option, none, some,
  if◌then◌else◌, ◌==◌, arith,
}
use tee_mobicore_driver_daem.Cmp.{rootpa_ok, rootpa_error_illegal_argument, rootpa_error_network}
use tee_mobicore_driver_daem.SeClient.Communicate.{HttpMethod, answered}
use tee_mobicore_driver_daem.SeClient.Communicate.{HasInput}
use tee_mobicore_driver_daem.Provisioning.Memory.{Pointer, null, is_null, allocate}
use tee_mobicore_driver_daem.Provisioning.Peer.{Peer, Loop, take_answer, keep_used}
use tee_mobicore_driver_daem.Provisioning.Branches.{request}
use tee_mobicore_driver_daem.Provisioning.Owned.{owned, mallocated, owned-allocate, owned-pull}
use tee_mobicore_driver_daem.Provisioning.Laws.{
  no_self, text_of, blocks, Ready, Apart, Shared, rank, tame_refused, tame_failed, tame_answered,
  Lawful, Spends,
}
use tee_mobicore_driver_daem.Provisioning.Ends.{load-owned}

-- A state that goes on as the other did, as far as no request changes it.
abbrev pub Alike : {W : Type 0} → Loop W → Loop W → Type 0
Alike s s' =
    (s'.pending_link ≡ s.pending_link)
    × ((s'.tmp_ret ≡ s.tmp_ret) × ((s'.work_to_do ≡ s.work_to_do) × (s'.reports ≡ s.reports)))

-- The request brought new pointers, or an error and left some of the old ones.
pub data Requested {W : Type 0} (budget : W → ℕ) (s : Loop W) (q : Option (ℕ × Loop W))
    : Type 0 where
  brought :
      (r : ℕ) (s' : Loop W)
      → q ≡ some (r, s')
      → (r == 11) ≡ false
      → Apart s'
      → Alike s s'
      → rank budget s' < rank budget s
      → Requested budget s q
  lost :
      (r : ℕ) (s' : Loop W)
      → q ≡ some (r, s')
      → (r == rootpa_ok) ≡ false
      → (r == 11) ≡ false
      → Shared s'
      → Alike s s'
      → Requested budget s q

owned-next :
    (text : Option (List ℕ)) (n a m : ℕ) (fs : List ℕ) (ps : List Pointer)
    → a ≡ n
    → m ≡ n + 1
    → owned ps (record { next = n; freed = fs }) ≡ true
    → owned (allocate text a ∷ ps) (record { next = m; freed = fs }) ≡ true
owned-next text n a m fs ps e e' o = rw (e, e') (owned-allocate text n fs ps o)

-- The three copies of an answer.
owned-answer :
    (command rel link : Option (List ℕ)) (n : ℕ) (fs : List ℕ) (ps : List Pointer)
    → owned ps (record { next = n; freed = fs }) ≡ true
    → owned
        (allocate command (n + 2) ∷ allocate rel (n + 1) ∷ allocate link n ∷ ps)
        (record { next = n + 3; freed = fs })
      ≡ true
owned-answer command rel link n fs ps o =
    owned-next command (n + 2) (n + 2) (n + 3) fs (allocate rel (n + 1) ∷ allocate link n ∷ ps) refl
      (omega arith)
      (owned-next rel (n + 1) (n + 1) (n + 2) fs (allocate link n ∷ ps) refl (omega arith)
        (owned-next link n n (n + 1) fs ps refl refl o))

mallocated-allocate : (text : Option (List ℕ)) (a : ℕ) → mallocated (allocate text a) ≡ true
mallocated-allocate none a = refl
mallocated-allocate (some text) a = refl

text_of-allocate : (text : Option (List ℕ)) (a : ℕ) → text_of (allocate text a) ≡ text
text_of-allocate none a = refl
text_of-allocate (some text) a = refl

-- An answer costs some of the budget, or is the last of its kind.
pub rank-answer :
    (rel : Option (List ℕ)) (a old new waits : ℕ) (p : Pointer)
    → Spends rel old new
    → is_null p ≡ false
    → new + ((if is_null (allocate rel a) then 0 else 1) + waits)
      < old + ((if is_null p then 0 else 1) + waits)
rank-answer none a old new waits p h live = rw (live) (omega arith)
rank-answer (some rel) a old new waits p h live = rw (live) (omega arith)

module _ {W : Type 0} (peer : Peer W) (budget : W → ℕ) (lawful : Lawful peer budget) where
  -- The used pointers are those of the loop, and the rel is not NULL.
  pub request-Requested :
      (method : HttpMethod) (input : Option (List ℕ)) (s : Loop W)
      → HasInput method input
      → Ready s
      → is_null s.rel ≡ false
      → Requested budget (keep_used s) (request peer method input (keep_used s))
  unfolding request take_answer
  request-Requested method input s h (o, (ml, (mc, (n, w)))) live =
      let read =
        load-owned s.link (s.command ∷ s.rel ∷ s.pending_link ∷ []) s.memory
          (owned-pull (s.command ∷ s.rel ∷ []) s.link (s.pending_link ∷ []) s.memory o) in
      elim (lawful.exchange_tame method input (text_of s.link) s.world h) [
        | tame_refused w' e b ↦
            lost rootpa_error_illegal_argument (record (keep_used s) { world = w' })
              (rw (read, e) refl) refl refl (o, (ml, (mc, (refl, (inl refl, inl refl)))))
              (refl, (refl, (refl, refl)))
        | tame_failed w' e b ↦
            lost rootpa_error_network
              (record (keep_used s) { world = w'; rel = null; command = null }) (rw (read, e) refl)
              refl refl (o, (ml, (mc, (refl, (inr refl, inr refl))))) (refl, (refl, (refl, refl)))
        | tame_answered status link rel command w' e z k b ↦
            brought status
              (take_answer (answered status link rel (some command))
                (record (keep_used s) { world = w' }))
              (rw (read, e) refl) z
              (
                owned-answer (some command) rel link s.memory.next s.memory.freed (blocks s) o,
                (
                  mallocated-allocate link s.memory.next,
                  (
                    refl,
                    (ml, (mc, (ap no_self (text_of-allocate rel (s.memory.next + 1)) ∙ k, w))),
                  ),
                ),
              )
              (refl, (refl, (refl, refl)))
              (rank-answer rel (s.memory.next + 1) (budget s.world) (budget w')
                (if is_null s.pending_link then 0 else 2) s.rel b live)
      ]
