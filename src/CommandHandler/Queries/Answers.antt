-- ===== src/CommandHandler/Queries/Answers.antt =====
-- What the other queries of rootpa/Code/Common/commandhandler.c, and `factoryResetAssumed` of
-- rootpa/Code/Common/pacmp3.c, conclude from the registry's results.
use tee_mobicore_driver_daem.Base.{
  ℕ, ◌≡◌, ◌≢◌, ◌⊎◌, ◌↔◌, List, ◌∷◌, true, false, some, arith, inl, inr, Bool-cases, ◌==◌,
}
use tee_mobicore_driver_daem.Cmp.{
  mc_drv_ok, mc_drv_err_invalid_device_file, rootpa_ok, rootpa_error_illegal_argument,
}
use tee_mobicore_driver_daem.World.{Platform}
use tee_mobicore_driver_daem.State.{Event, Sys}
use tee_mobicore_driver_daem.State
use tee_mobicore_driver_daem.Registry.{
  reg_read_auth_token, reg_read_root, reg_read_sp, reg_read_tlt, reg_get_sp_state, reg_get_ta_state,
  reg_store_ta, bytes_at,
}
use tee_mobicore_driver_daem.CommandHandler.Queries.{
  state_of, mc_cont_state_unregistered, factory_reset_assumed, get_sp_container_state,
  is_sp_container_registered, store_ta,
}

module _ {W : Type 0} (p : Platform W) where
  -- A factory reset is assumed if and only if the registry says of the authentication token and
  -- then of the root container that there is no such file.
  pub factory_reset_assumed-eq :
      (s : Sys W)
      → let (token, s') = reg_read_auth_token p s in
        ((factory_reset_assumed p s).0 ≡ true) ↔ (
          (token.0 ≡ mc_drv_err_invalid_device_file)
          × ((reg_read_root p s').0.0 ≡ mc_drv_err_invalid_device_file))
  unfolding factory_reset_assumed
  factory_reset_assumed-eq s = (λ e. ground arith, λ e. ground arith)

  -- A service provider is said to be registered if and only if its container was read and is not
  -- in the state unregistered, and not to be registered if and only if there is no such file or
  -- the container was read and is in that state.
  pub is_sp_container_registered-eq :
      (spid : ℕ) (s : Sys W)
      → let answer = (is_sp_container_registered p spid s).0 in
        let (result, container) = (reg_read_sp p spid s).0 in
        let unregistered = state_of (bytes_at container) ≡ mc_cont_state_unregistered in
        ((answer ≡ (rootpa_ok, some true)) ↔ ((result ≡ mc_drv_ok) × (¬ unregistered)))
        × ((answer ≡ (rootpa_ok, some false))
            ↔ ((result ≡ mc_drv_err_invalid_device_file) ⊎ ((result ≡ mc_drv_ok) × unregistered)))
  unfolding is_sp_container_registered get_sp_container_state reg_get_sp_state
  is_sp_container_registered-eq spid s =
      let (result, container) = (reg_read_sp p spid s).0 in
      (
        (λ e. ground arith, λ e. ground arith),
        (
          λ e. elim (Bool-cases (result == mc_drv_err_invalid_device_file)) [
            | inl missing ↦ inl (ground arith)
            | inr other ↦ inr (ground arith, ground arith)
          ],
          λ e. elim e [ inl missing ↦ ground arith | inr (good, unregistered) ↦ ground arith ],
        ),
      )

  -- Storing a trusted application either reads the container of its trustlet, writes the
  -- application and returns ROOTPA_OK if and only if that succeeds; or does not read the
  -- container, writes nothing and returns an error, which is ROOTPA_ERROR_ILLEGAL_ARGUMENT if
  -- and only if there is no such file.
  pub store_ta-cases :
      (spid : ℕ) (uuid ta : List ℕ) (s : Sys W)
      → let (ret, s') = store_ta p spid uuid ta s in
        let (r, read) = reg_read_tlt p uuid spid s in
        ((r.0 ≡ mc_drv_ok)
          × (w : ℕ) × (s'.log ≡ State.write_ta spid ta w ∷ read.log)
          × ((ret ≡ rootpa_ok) ↔ (w ≡ mc_drv_ok)))
        ⊎ ((r.0 ≢ mc_drv_ok)
            × (s'.log ≡ read.log)
            × ((ret ≡ rootpa_error_illegal_argument) ↔ (r.0 ≡ mc_drv_err_invalid_device_file))
            × (ret ≢ rootpa_ok))
  unfolding store_ta reg_get_ta_state reg_store_ta
  store_ta-cases spid uuid ta s =
      let (r, read) = reg_read_tlt p uuid spid s in
      let (w, _) = p.store_ta_blob spid ta read.world in
      elim (Bool-cases (r.0 == mc_drv_ok)) [
        | inl good ↦ inl (ground arith, w, ground arith, (λ e. ground arith, λ e. ground arith))
        | inr bad ↦
            inr (ground arith, ground arith, (λ e. ground arith, λ e. ground arith), ground arith)
      ]
