-- ===== src/Pacmp3/Layout/Needs.antt =====
-- Which containers a command needs (`prepareCommand`, rootpa/Code/Common/pacmp3.c), and that a
-- prepared command holds the command and them.
use tee_mobicore_driver_daem.Base.{
  ℕ, ◌+◌, ◌≤◌, ◌<◌, ◌≡◌, ◌∙◌, List, [], ◌∷◌, ◌++◌, arith, length, u32_mod, if◌then◌else◌,
}
use tee_mobicore_driver_daem.State.{
  Event, Sys, Cmt, ProvisioningState, authenticating_soc, authenticating_root,
  creating_root_container, creating_sp_container, unregistering_root_container,
}
use tee_mobicore_driver_daem.State
use tee_mobicore_driver_daem.World.{Platform}
use tee_mobicore_driver_daem.Cmp.{Command, command_of, CmpMessage, rootpa_ok, mc_drv_ok}
use tee_mobicore_driver_daem.Cmp
use tee_mobicore_driver_daem.Registry.{
  Read, bytes_at, ReadsFit, container_buffer_size, reg_read_auth_token, reg_read_root, reg_read_sp,
  reg_read_tlt,
}
use tee_mobicore_driver_daem.Pacmtl.{Build}
use tee_mobicore_driver_daem.Pacmp3.Prepare.{Added, add_container, spid_of, uuid_of}
use tee_mobicore_driver_daem.Pacmp3.Layout.Parts.{total, Builds}
use tee_mobicore_driver_daem.Pacmp3.Layout.Grown.{
  add_container-Builds, add_container-ok, add_container-log,
}

pub data Kind : Type 0 where
  auth_token root sp tlt : Kind

-- The specification: what the trustlet gets besides the command.
abbrev pub needs : Command → List Kind
needs Cmp.begin_soc_authentication = auth_token ∷ []
needs Cmp.begin_root_authentication = root ∷ []
needs Cmp.begin_sp_authentication = root ∷ sp ∷ []
needs Cmp.sp_cont_lock_by_root = sp ∷ []
needs Cmp.sp_cont_unlock_by_root = sp ∷ []
needs Cmp.tlt_cont_activate = tlt ∷ []
needs Cmp.tlt_cont_lock_by_sp = tlt ∷ []
needs Cmp.tlt_cont_personalize = tlt ∷ []
needs Cmp.tlt_cont_unlock_by_sp = tlt ∷ []
needs _ = []

-- The successful read of a container, for the service provider and trustlet of the command.
abbrev pub read_of : Kind → List ℕ → List ℕ → Event
read_of auth_token command bytes = State.read_auth_token bytes mc_drv_ok
read_of root command bytes = State.read_root bytes mc_drv_ok
read_of sp command bytes = State.read_sp (spid_of command) bytes mc_drv_ok
read_of tlt command bytes = State.read_tlt (uuid_of command) (spid_of command) bytes mc_drv_ok

-- From the older log to the newer one exactly these containers were read, with these bytes.
abbrev pub HasRead : List Kind → List (List ℕ) → List ℕ → List Event → List Event → Type 0
HasRead [] [] command old new = new ≡ old
HasRead [] (c ∷ cs) command old new = ⊥
HasRead (k ∷ ks) [] command old new = ⊥
HasRead (k ∷ ks) (c ∷ cs) command old new = HasRead ks cs command (read_of k command c ∷ old) new

module _ {W : Type 0} where
  abbrev pub reported : ProvisioningState → Sys W → List Event
  reported state s = if s.callback_set then State.callback state ∷ s.log else s.log

  -- The log after what `prepareCommand` reports to the callback.
  abbrev pub announced : Command → Sys W → List Event
  announced Cmp.begin_soc_authentication s = reported authenticating_soc s
  announced Cmp.begin_root_authentication s = reported authenticating_root s
  announced Cmp.root_cont_register_activate s = reported creating_root_container s
  announced Cmp.root_cont_unregister s = reported unregistering_root_container s
  announced Cmp.sp_cont_register s = reported creating_sp_container s
  announced Cmp.sp_cont_register_activate s = reported creating_sp_container s
  announced _ s = s.log

module _ {W : Type 0} where
  -- A read that succeeds leaves its event, and bytes that fit the buffer.
  abbrev pub Reads : (List ℕ → Event) → Sys W → Read × Sys W → Type 0
  Reads event s (r, s') =
      r.0 ≡ mc_drv_ok
      → (s'.log ≡ event (bytes_at r.1) ∷ s.log) × (length (bytes_at r.1) ≤ container_buffer_size)

module _ {W : Type 0} (p : Platform W) (f : ReadsFit p) where
  pub read_auth_token-Reads :
      (s : Sys W) → Reads (λ c. State.read_auth_token c mc_drv_ok) s (reg_read_auth_token p s)
  unfolding reg_read_auth_token
  read_auth_token-Reads s e = ground (arith, f.auth_token_fits (p.alloc 4096 s.world).1)

  pub read_root-Reads : (s : Sys W) → Reads (λ c. State.read_root c mc_drv_ok) s (reg_read_root p s)
  unfolding reg_read_root
  read_root-Reads s e = ground (arith, f.root_fits (p.alloc 4096 s.world).1)

  pub read_sp-Reads :
      (spid : ℕ) (s : Sys W) → Reads (λ c. State.read_sp spid c mc_drv_ok) s (reg_read_sp p spid s)
  unfolding reg_read_sp
  read_sp-Reads spid s e = ground (arith, f.sp_fits spid (p.alloc 4096 s.world).1)

  pub read_tlt-Reads :
      (uuid : List ℕ) (spid : ℕ) (s : Sys W)
      → Reads (λ c. State.read_tlt uuid spid c mc_drv_ok) s (reg_read_tlt p uuid spid s)
  unfolding reg_read_tlt
  read_tlt-Reads uuid spid s e = ground (arith, f.tlt_fits uuid spid (p.alloc 4096 s.world).1)

  -- The container that was added: read, logged, and the last part.
  abbrev pub Adds : List (List ℕ) → (List ℕ → Event) → Sys W → Added × Sys W → Type 0
  Adds parts event s (a, s') =
      (c : List ℕ) × (s'.log ≡ event c ∷ s.log)
      × (length c ≤ container_buffer_size)
      × Builds (parts ++ c ∷ []) a.build

  pub add_container-Adds :
      (parts : List (List ℕ)) (event : List ℕ → Event) (b : Build) (s : Sys W) (rs : Read × Sys W)
      → Reads event s rs
      → length parts < 3
      → Builds parts b
      → total parts + container_buffer_size < u32_mod
      → (add_container p rs.0 b rs.1).0.ret ≡ rootpa_ok
      → Adds parts event s (add_container p rs.0 b rs.1)
  add_container-Adds parts event b s (r, s') reads few v fits e =
      let got = reads (add_container-ok p r b s' e) in
      (
        bytes_at r.1,
        add_container-log p r b s' ∙ got.0,
        got.1,
        add_container-Builds p parts r b s' few v (omega (arith, got.1)) e,
      )
