-- ===== src/Pacmp3/Layout/Fetched.antt =====
-- The switch of `prepareCommand` (rootpa/Code/Common/pacmp3.c) puts the containers that a command
-- needs behind its first element.
use tee_mobicore_driver_daem.Base.{
  ℕ, zero, suc, ◌+◌, ◌*◌, ◌<◌, ◌≤◌, ◌≡◌, refl, sym, ◌∙◌, ap, List, [], ◌∷◌, arith, length, u32_mod,
  get_or, take, true, ◌==◌,
}
use tee_mobicore_driver_daem.State.{Event, Sys, Cmt}
use tee_mobicore_driver_daem.State
use tee_mobicore_driver_daem.World.{Platform}
use tee_mobicore_driver_daem.Cmp.{Command, command_of, CmpMessage, rootpa_ok}
use tee_mobicore_driver_daem.Cmp
use tee_mobicore_driver_daem.Registry.{
  ReadsFit, reg_read_auth_token, reg_read_root, reg_read_sp, reg_read_tlt, container_buffer_size,
}
use tee_mobicore_driver_daem.Pacmtl.{Build, set_cmd_element_info}
use tee_mobicore_driver_daem.Pacmp3.Prepare.{
  Added, add_auth_token_container, add_root_container, add_sp_container, add_tlt_container,
  add_root_and_sp_containers, prepare_case, spid_of, uuid_of, out_command, add_container,
  ensure_mapped_buffer_size,
}
use tee_mobicore_driver_daem.Pacmp3.Layout.Parts.{Builds}
use tee_mobicore_driver_daem.Pacmp3.Layout.Needs.{
  Kind, needs, read_of, HasRead, announced, Adds, add_container-Adds, read_auth_token-Reads,
  read_root-Reads, read_sp-Reads, read_tlt-Reads,
}

get_or-take : (n i : ℕ) (xs : List ℕ) (d : ℕ) → i < n → get_or (take n xs) i d ≡ get_or xs i d
get_or-take zero i xs d h = absurd (omega arith)
get_or-take (suc n) i [] d h = refl
get_or-take (suc n) zero (x ∷ xs) d h = refl
get_or-take (suc n) (suc i) (x ∷ xs) d h = get_or-take n i xs d (omega arith)

-- The id of the service provider is in the first sixteen bytes.
pub spid_of-take : (n : ℕ) (xs : List ℕ) → 16 ≤ n → spid_of (take n xs) ≡ spid_of xs
spid_of-take n xs h =
    rw
      (
        get_or-take n 12 xs 0 (omega arith),
        get_or-take n 13 xs 0 (omega arith),
        get_or-take n 14 xs 0 (omega arith),
        get_or-take n 15 xs 0 (omega arith),
      )
      refl

module _ {W : Type 0} (p : Platform W) (f : ReadsFit p) where
  -- With room for the root container the buffer stays where it is.
  add_root_container-stays :
      (b : Build) (s : Sys W)
      → ((w : W) → b.element_offset + length (p.read_root w).0.1 ≤ b.handle.mapped_size)
      → b.element_offset + container_buffer_size < u32_mod
      → (add_root_container p b s).0.build.handle.reallocs ≡ b.handle.reallocs
  unfolding add_root_container reg_read_root add_container ensure_mapped_buffer_size
      set_cmd_element_info
  add_root_container-stays b s room small =
      ground (arith, room (p.alloc 4096 s.world).1, f.root_fits (p.alloc 4096 s.world).1)

module _ {W : Type 0} (p : Platform W) (f : ReadsFit p) (saved : ℕ) (command first : List ℕ) where
  -- The containers of these kinds were read, and are the parts behind the first.
  abbrev pub Gets : List Kind → List Event → Added × Sys W → Type 0
  Gets kinds old (a, s') =
      (cs : List (List ℕ)) × HasRead kinds cs command old s'.log × Builds (first ∷ cs) a.build

  abbrev one_part : List (List ℕ)
  one_part = first ∷ []

  module _ (b : Build) (v : Builds (first ∷ []) b)
      (short : length first + 2 * container_buffer_size < u32_mod) where
    add_auth_token-Gets :
        (s : Sys W)
        → (add_auth_token_container p b s).0.ret ≡ rootpa_ok
        → Gets (Kind.auth_token ∷ []) s.log (add_auth_token_container p b s)
    unfolding add_auth_token_container
    add_auth_token-Gets s e =
        let (c, log, _, done) =
          add_container-Adds p f one_part (read_of Kind.auth_token command) b s
            (reg_read_auth_token p s) (read_auth_token-Reads p f s) (omega arith) v (omega arith)
            e in
        (c ∷ [], log, done)

    add_root-Gets :
        (s : Sys W)
        → (add_root_container p b s).0.ret ≡ rootpa_ok
        → Gets (Kind.root ∷ []) s.log (add_root_container p b s)
    unfolding add_root_container
    add_root-Gets s e =
        let (c, log, _, done) =
          add_container-Adds p f one_part (read_of Kind.root command) b s (reg_read_root p s)
            (read_root-Reads p f s) (omega arith) v (omega arith) e in
        (c ∷ [], log, done)

    add_sp-Gets :
        (s : Sys W)
        → (add_sp_container p (spid_of command) b s).0.ret ≡ rootpa_ok
        → Gets (Kind.sp ∷ []) s.log (add_sp_container p (spid_of command) b s)
    unfolding add_sp_container
    add_sp-Gets s e =
        let (c, log, _, done) =
          add_container-Adds p f one_part (read_of Kind.sp command) b s
            (reg_read_sp p (spid_of command) s) (read_sp-Reads p f _ s) (omega arith) v
            (omega arith) e in
        (c ∷ [], log, done)

    add_tlt-Gets :
        (s : Sys W)
        → (add_tlt_container p (uuid_of command) (spid_of command) b s).0.ret ≡ rootpa_ok
        → Gets (Kind.tlt ∷ []) s.log (add_tlt_container p (uuid_of command) (spid_of command) b s)
    unfolding add_tlt_container
    add_tlt-Gets s e =
        let (c, log, _, done) =
          add_container-Adds p f one_part (read_of Kind.tlt command) b s
            (reg_read_tlt p (uuid_of command) (spid_of command) s) (read_tlt-Reads p f _ _ s)
            (omega arith) v (omega arith) e in
        (c ∷ [], log, done)

    -- The root container is the second part, and the service provider's the third.
    add_sp_behind-Adds :
        (c : List ℕ) (b' : Build) (s : Sys W)
        → length c ≤ container_buffer_size
        → Builds (first ∷ c ∷ []) b'
        → (add_sp_container p (spid_of command) b' s).0.ret ≡ rootpa_ok
        → Adds p f
            (first ∷ c ∷ [])
            (read_of Kind.sp command)
            s
            (add_sp_container p (spid_of command) b' s)
    unfolding add_sp_container
    add_sp_behind-Adds c b' s fits v' e =
        add_container-Adds p f (first ∷ c ∷ []) (read_of Kind.sp command) b' s
          (reg_read_sp p (spid_of command) s) (read_sp-Reads p f _ s) (omega arith) v' (omega arith)
          e

    module _ (same_spid : spid_of first ≡ spid_of command) (whole : 16 ≤ length first)
        (unmoved : b.handle.reallocs ≡ saved)
        (room : (w : W) → length first + length (p.read_root w).0.1 ≤ b.handle.mapped_size) where
      -- The id is read from the command, which is where it was.
      out_command-spid :
          (s : Sys W) (c : List ℕ)
          → Builds (first ∷ c ∷ []) (add_root_container p b s).0.build
          → spid_of
              (out_command p saved
                (add_root_container p b s).0.build.handle
                (add_root_container p b s).1.world).0
            ≡ spid_of command
      unfolding out_command
      out_command-spid s c done =
          let a = (add_root_container p b s).0 in
          let stays : (a.build.handle.reallocs == saved) ≡ true = ground (
            arith,
            unmoved,
            add_root_container-stays p f b s (λ w. omega (arith, room w, v.offset))
                (omega (arith, v.offset)),
          ) in
          rw (stays) (
            sym (spid_of-take (length first) a.build.handle.mapped whole)
            ∙ (ap spid_of done.holds.table.2 ∙ same_spid))

      add_root_and_sp_containers-eq :
          (s : Sys W) (c : List ℕ)
          → Builds (first ∷ c ∷ []) (add_root_container p b s).0.build
          → (add_root_container p b s).0.ret ≡ rootpa_ok
          → add_root_and_sp_containers p saved b s
            ≡ add_sp_container p
                (spid_of command)
                (add_root_container p b s).0.build
                (add_root_container p b s).1
      unfolding add_root_and_sp_containers out_command
      add_root_and_sp_containers-eq s c done e =
          let (a, s') = add_root_container p b s in
          let ok : (a.ret == rootpa_ok) ≡ true = ground arith in
          rw (ok) (ap (λ spid. add_sp_container p spid a.build s') (out_command-spid s c done))

      add_root_container-ok :
          (s : Sys W)
          → (add_root_and_sp_containers p saved b s).0.ret ≡ rootpa_ok
          → (add_root_container p b s).0.ret ≡ rootpa_ok
      unfolding add_root_and_sp_containers
      add_root_container-ok s e = ground arith

      add_root_and_sp-Gets :
          (s : Sys W)
          → (add_root_and_sp_containers p saved b s).0.ret ≡ rootpa_ok
          → Gets (Kind.root ∷ Kind.sp ∷ []) s.log (add_root_and_sp_containers p saved b s)
      unfolding add_root_container
      add_root_and_sp-Gets s e =
          let ok = add_root_container-ok s e in
          let (c, log, fits, done) =
            add_container-Adds p f one_part (read_of Kind.root command) b s (reg_read_root p s)
              (read_root-Reads p f s) (omega arith) v (omega arith) ok in
          let same = add_root_and_sp_containers-eq s c done ok in
          let (c', log', _, done') = add_sp_behind-Adds c _ _ fits done (rw same at e) in
          rw same (c ∷ c' ∷ [], log' ∙ ap (◌∷◌ (read_of Kind.sp command c')) log, done')

    pub prepare_case-Gets :
        (c : Command) (s : Sys W)
        → (16 ≤ length first → spid_of first ≡ spid_of command)
        → b.handle.reallocs ≡ saved
        → (c ≡ Cmp.begin_sp_authentication
            → (16 ≤ length first)
              × ((w : W) → length first + length (p.read_root w).0.1 ≤ b.handle.mapped_size))
        → (prepare_case p c saved command b s).0.ret ≡ rootpa_ok
        → Gets (needs c) (announced c s) (prepare_case p c saved command b s)
    unfolding prepare_case State.report
    prepare_case-Gets Cmp.begin_soc_authentication s i u k e = add_auth_token-Gets _ e
    prepare_case-Gets Cmp.begin_root_authentication s i u k e = add_root-Gets _ e
    prepare_case-Gets Cmp.begin_sp_authentication s i u k e =
        add_root_and_sp-Gets (i (k refl).0) (k refl).0 u (k refl).1 s e
    prepare_case-Gets Cmp.sp_cont_lock_by_root s i u k e = add_sp-Gets _ e
    prepare_case-Gets Cmp.sp_cont_unlock_by_root s i u k e = add_sp-Gets _ e
    prepare_case-Gets Cmp.tlt_cont_activate s i u k e = add_tlt-Gets _ e
    prepare_case-Gets Cmp.tlt_cont_lock_by_sp s i u k e = add_tlt-Gets _ e
    prepare_case-Gets Cmp.tlt_cont_personalize s i u k e = add_tlt-Gets _ e
    prepare_case-Gets Cmp.tlt_cont_unlock_by_sp s i u k e = add_tlt-Gets _ e
    prepare_case-Gets _ s i u k e = ([], refl, v)
