-- ===== src/Provisioning/Start/Told.antt =====
-- How `doProvisioningWithSe` of rootpa/Code/Common/provisioningengine.c ends.
use mathlib.Core.Path.{subst}
use tee_mobicore_driver_daem.Base.{
  ℕ, ◌<◌, ◌≡◌, ◌⊎◌, inl, inr, refl, ap, ◌∙◌, Bool, true, false, ◌&&◌, not, List, [], ◌∷◌, Option,
  none, some, if◌then◌else◌, ◌==◌, arith, Bool-cases, Option-cases,
}
use tee_mobicore_driver_daem.Cmp.{rootpa_ok, rootpa_error_xml}
use tee_mobicore_driver_daem.State.{ProvisioningState, error_state, connecting_service_enabler}
use tee_mobicore_driver_daem.SeClient.Text.{◌>>=◌, str_str}
use tee_mobicore_driver_daem.Uri.{create_basic_link}
use tee_mobicore_driver_daem.CommandHandler.Provision.{
  InitialRel, initial_rel_post, initial_rel_delete,
}
use tee_mobicore_driver_daem.Provisioning.Memory.{
  Memory, null, free, initial_post_text, initial_delete_text,
}
use tee_mobicore_driver_daem.Provisioning.Peer.{Peer, Loop}
use tee_mobicore_driver_daem.Provisioning.Laws.{Lawful, told, rank}
use tee_mobicore_driver_daem.Provisioning.Provisioned.{Working, rounds-end, rounds-over}
use tee_mobicore_driver_daem.Provisioning.Start.{
  Frame, Order, first_rel, is_delete, first_link, initial_url_of, recover, text_before_zero,
  trustlet_in_link, install, request_of, loop_with, put_off, start, prepare, finish,
  do_provisioning_with_se,
}

-- A beginning with work to do, or one that has failed and was told.
abbrev pub Begun : {W : Type 0} → Loop W → Type 0
Begun s =
    Working s
    ⊎ ((s.work_to_do ≡ false)
        × ((told s.reports ≡ true) × ((mem : Memory) × (free s.link s.memory ≡ some mem))))

-- Of what is defined.
abbrev pub Holds : {A : Type 0} → (A → Type 0) → Option A → Type 0
Holds P none = Unit
Holds P (some a) = P a

loop_with-Working :
    {W : Type 0} (w : W) (link : List ℕ) (rel : InitialRel) (response : Option (List ℕ)) (ret : ℕ)
    (reports : List (ProvisioningState × ℕ))
    → Working (loop_with w link (first_rel rel) response ret true reports)
unfolding initial_post_text initial_delete_text str_str
loop_with-Working w link initial_rel_post response ret reports =
    ((refl, (refl, (refl, (refl, (refl, (refl, refl)))))), (refl, (refl, (refl, (refl, refl)))))
loop_with-Working w link initial_rel_delete response ret reports =
    ((refl, (refl, (refl, (refl, (refl, (refl, refl)))))), (refl, (refl, (refl, (refl, refl)))))

put_off-Working :
    {W : Type 0} (w : W) (link delete_link : List ℕ) (rel : InitialRel) (response : Option (List ℕ))
    (ret : ℕ) (reports : List (ProvisioningState × ℕ))
    → Working (put_off delete_link (loop_with w link (first_rel rel) response ret true reports))
unfolding initial_post_text initial_delete_text str_str put_off
put_off-Working w link delete_link initial_rel_post response ret reports =
    ((refl, (refl, (refl, (refl, (refl, (refl, refl)))))), (refl, (refl, (refl, (refl, refl)))))
put_off-Working w link delete_link initial_rel_delete response ret reports =
    ((refl, (refl, (refl, (refl, (refl, (refl, refl)))))), (refl, (refl, (refl, (refl, refl)))))

-- With work to do, or without.
data Prepared {W : Type 0} (rel : InitialRel) (s : Loop W) : Type 0 where
  prepared :
      (w : W) (link : List ℕ) (response : Option (List ℕ)) (ret : ℕ)
      (reports : List (ProvisioningState × ℕ))
      → loop_with w link (first_rel rel) response ret true reports ≡ s
      → Prepared rel s
  unprepared :
      (w : W) (link : List ℕ) (response : Option (List ℕ)) (ret : ℕ)
      (reports : List (ProvisioningState × ℕ))
      → loop_with w link (first_rel rel) response ret false reports ≡ s
      → told reports ≡ true
      → Prepared rel s

loop_with-Prepared :
    {W : Type 0} (w : W) (link : List ℕ) (rel : InitialRel) (response : Option (List ℕ)) (ret : ℕ)
    (work : Bool) (reports : List (ProvisioningState × ℕ))
    → ((work ≡ true) ⊎ (told reports ≡ true))
    → Prepared rel (loop_with w link (first_rel rel) response ret work reports)
loop_with-Prepared w link rel response ret true reports h =
    prepared w link response ret reports refl
loop_with-Prepared w link rel response ret false reports (inl h) = cc
loop_with-Prepared w link rel response ret false reports (inr h) =
    unprepared w link response ret reports refl h

install-Prepared :
    {W : Type 0} (rel : InitialRel) (uuid link : List ℕ) (w : W) (r : ℕ)
    (response request : Option (List ℕ)) (work : Bool) (reports : List (ProvisioningState × ℕ))
    → ((work ≡ true) ⊎ (told reports ≡ true))
    → Holds (Prepared rel) (install rel uuid link w r response request work reports)
unfolding install
install-Prepared rel uuid link w r response none work reports h =
    let bad = if r == rootpa_ok then rootpa_error_xml else r in
    loop_with-Prepared w (text_before_zero link) rel response bad false
      ((error_state, bad) ∷ reports) (inr refl)
install-Prepared rel uuid link w r response (some request) work reports h =
    elim (Option-cases (trustlet_in_link link uuid)) [
      | inl t ↦ rw (t) tt
      | inr (link', t) ↦
          rw (t) (loop_with-Prepared w (text_before_zero link') rel (some request) r work reports h)
    ]

last-true : (a b c : Bool) → (a && (b && c)) ≡ true → c ≡ true
last-true a b c h = ground arith

module _ {W : Type 0} (frame : Frame W) where
  prepare-Prepared :
      (rel : InitialRel) (uuid : Option (List ℕ)) (link : List ℕ) (w : W) (ret : ℕ) (work : Bool)
      (reports : List (ProvisioningState × ℕ))
      → ((work ≡ true) ⊎ (told reports ≡ true))
      → Holds (Prepared rel) (prepare frame rel uuid link w ret work reports)
  unfolding prepare
  prepare-Prepared rel none link w ret work reports h =
      loop_with-Prepared w (text_before_zero link) rel none ret work reports h
  prepare-Prepared rel (some uuid) link w ret work reports h =
      let built = frame.build_installation_request w in
      install-Prepared rel uuid link built.1 built.0.0 built.0.1 (request_of built.0.0 built.0.1)
        work reports h

  -- Before the loop, after the question whether there was a factory reset.
  Prepared-Begun :
      (rel : InitialRel) (s : Loop W) (w : W) → Prepared rel s → Begun (record s { world = w })
  Prepared-Begun rel s w (prepared w' link response ret reports e) = inl (
      subst (λ q. Working (record q { world = w })) e
        (loop_with-Working w link rel response ret reports))
  Prepared-Begun rel s w (unprepared w' link response ret reports e k) = inr (
      subst
        (λ q.
          (q.work_to_do ≡ false)
          × ((told q.reports ≡ true) × ((mem : Memory) × (free q.link q.memory ≡ some mem))))
        e (refl, (k, (record { next = 1; freed = 0 ∷ [] }, refl))))

  Prepared-put_off :
      (rel : InitialRel) (s : Loop W) (w : W) (delete_link : List ℕ)
      → s.work_to_do ≡ true
      → Prepared rel s
      → Begun (put_off delete_link (record s { world = w }))
  Prepared-put_off rel s w delete_link work (prepared w' link response ret reports e) = inl (
      subst (λ q. Working (put_off delete_link (record q { world = w }))) e
        (put_off-Working w link delete_link rel response ret reports))
  Prepared-put_off rel s w delete_link work (unprepared w' link response ret reports e k) =
      let off : false ≡ true = ap (λ q. q.work_to_do) e ∙ work in cc

  recover-Begun :
      (order : Order) (url : List ℕ) (s : Loop W)
      → Prepared order.initial_rel s
      → Holds Begun (recover frame order url s)
  unfolding recover
  recover-Begun order url s d =
      let w = (frame.factory_reset_assumed s.world).1 in
      elim (Bool-cases (
        (frame.factory_reset_assumed s.world).0
        && (not (is_delete order.initial_rel) && s.work_to_do))) [
          | inl c ↦ elim (Option-cases (create_basic_link order.suid url)) [
            | inl n ↦ rw (c, n) tt
            | inr (delete_link, n) ↦
                rw (c, n)
                  (Prepared-put_off order.initial_rel s w (text_before_zero delete_link)
                    (last-true (frame.factory_reset_assumed s.world).0
                      (not (is_delete order.initial_rel)) s.work_to_do c)
                    d)
          ]
          | inr c ↦ rw (c) (Prepared-Begun order.initial_rel s w d)
        ]

  Holds-bind :
      {A B : Type 0} (P : A → Type 0) (Q : B → Type 0) (o : Option A) (f : A → Option B)
      → Holds P o
      → ((a : A) → P a → Holds Q (f a))
      → Holds Q (o >>= f)
  Holds-bind P Q none f h k = tt
  Holds-bind P Q (some a) f h k = k a h

  pub start-Begun :
      (order : Order) (initial_url : List ℕ) (w : W) → Holds Begun (start frame order initial_url w)
  unfolding start
  start-Begun order initial_url w =
      let connecting = (connecting_service_enabler, rootpa_ok) ∷ [] in
      let opened = frame.open_se_client w in
      let recovered = recover-Begun order (initial_url_of initial_url) in
      elim (Option-cases (first_link order (initial_url_of initial_url))) [
        | inl n ↦ rw (n) tt
        | inr (link, n) ↦ elim (Bool-cases (opened.0 == rootpa_ok)) [
          | inl ok ↦
              rw (n, ok)
                (Holds-bind (Prepared order.initial_rel) Begun
                  (prepare frame order.initial_rel order.uuid link opened.1 opened.0 true
                    connecting)
                  (recover frame order (initial_url_of initial_url))
                  (prepare-Prepared order.initial_rel order.uuid link opened.1 opened.0 true
                    connecting (inl refl))
                  recovered)
          | inr bad ↦
              rw (n, bad)
                (Holds-bind (Prepared order.initial_rel) Begun
                  (prepare frame order.initial_rel order.uuid link opened.1 opened.0 false
                    ((error_state, opened.0) ∷ connecting))
                  (recover frame order (initial_url_of initial_url))
                  (prepare-Prepared order.initial_rel order.uuid link opened.1 opened.0 false
                    ((error_state, opened.0) ∷ connecting) (inr refl))
                  recovered)
        ]
      ]

  -- For a server that does not answer relation/self and that asks for a bounded number of
  -- further requests, provisioning ends: with fuel above the rank of the state before the loop
  -- (the budget of the server and at most three rounds more) the loop runs to its end without
  -- reading or freeing a block that was freed, no work is left, and the last report to the
  -- application is FINISHED_PROVISIONING or ERROR_STATE; given that the addresses could be put
  -- together, that an exchange is refused, fails or is answered with a command, and that system
  -- information without a text is an error.
  pub do_provisioning_with_se-told :
      (peer : Peer W) (budget : W → ℕ) (lawful : Lawful peer budget) (fuel : ℕ) (order : Order)
      (initial_url : List ℕ) (w : W) (s : Loop W)
      → start frame order initial_url w ≡ some s
      → rank budget s < fuel
      → (s' : Loop W) × ((do_provisioning_with_se frame peer fuel order initial_url w ≡ some s')
          × ((s'.work_to_do ≡ false) × (told s'.reports ≡ true)))
  unfolding do_provisioning_with_se finish
  do_provisioning_with_se-told peer budget lawful fuel order initial_url w s e h =
      elim (subst (Holds Begun) e (start-Begun order initial_url w)) [
        | inl working ↦
            let (s', (r, (off, (k, l)))) = rounds-end peer budget lawful fuel s working h in
            (
              record s' { world = frame.close_se_client s'.world; link = null; response = none },
              (rw (e, r, l) refl, (off, k)),
            )
        | inr (off, (k, (mem, f))) ↦ (
          record s {
            world = frame.close_se_client s.world;
            memory = mem;
            link = null;
            response = none;
          },
          (rw (e, rounds-over peer budget lawful fuel s off, f) refl, (off, k)),
        )
      ]
