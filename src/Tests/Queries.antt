-- ===== src/Tests/Queries.antt =====
-- The theorems about the calls of the operating system's part of RootPA at concrete inputs.
use tee_mobicore_driver_daem.Base.{
  ℕ, ◌≤◌, ◌≡◌, ◌≢◌, ◌⊎◌, ◌↔◌, refl, List, [], ◌∷◌, ◌++◌, true, none, some, length, replicate,
}
use tee_mobicore_driver_daem.Cmp.{
  rootpa_ok, mc_drv_ok, mc_drv_err_invalid_device_file, rootpa_error_illegal_argument,
}
use tee_mobicore_driver_daem.World.{Platform}
use tee_mobicore_driver_daem.State.{Sys, Cmt, pure}
use tee_mobicore_driver_daem.State
use tee_mobicore_driver_daem.Registry.{
  reg_read_auth_token, reg_read_root, reg_read_sp, reg_read_tlt,
}
use tee_mobicore_driver_daem.CommandHandler.Queries.{
  state_of, mc_cont_children_count, children_from, factory_reset_assumed,
  get_sp_container_structure, store_ta, collect, collect_one, container_exists,
}
use tee_mobicore_driver_daem.CommandHandler.Queries.Structure.{
  Collected, get_sp_container_structure-fits, get_sp_container_structure-Collected,
}
use tee_mobicore_driver_daem.CommandHandler.Queries.Answers.{
  factory_reset_assumed-eq, store_ta-cases,
}
use tee_mobicore_driver_daem.CommandHandler.Provision.{
  Provisioned, initial_rel_post, provision, provisioning_thread_function,
}
use tee_mobicore_driver_daem.CommandHandler.Provision.Memory.{Ended, answered, provision-Ended}
use tee_mobicore_driver_daem.CommandHandler.Provision.Thread.{
  Exited, provisioning_thread_function-Exited,
}
use tee_mobicore_driver_daem.Tests.Platforms.{World, working, idle}

-- A service provider in state 2 whose children are all free.
abbrev childless : List ℕ
childless = replicate 52 0 ++ (2 ∷ replicate 7 0) ++ replicate 256 255

-- That service provider is in the registry.
abbrev one_sp : Platform World
one_sp = record working { read_sp = λ spid w. ((0, childless), w) }

factory_reset_assumed-eq_example :
    let (token, s') = reg_read_auth_token working idle in
    ((factory_reset_assumed working idle).0 ≡ true) ↔ (
      (token.0 ≡ mc_drv_err_invalid_device_file)
      × ((reg_read_root working s').0.0 ≡ mc_drv_err_invalid_device_file))
factory_reset_assumed-eq_example = factory_reset_assumed-eq working idle

store_ta-cases_example :
    let (ret, s') = store_ta working 7 [] (1 ∷ []) idle in
    let (r, read) = reg_read_tlt working [] 7 idle in
    ((r.0 ≡ mc_drv_ok)
      × (w : ℕ) × (s'.log ≡ State.write_ta 7 (1 ∷ []) w ∷ read.log)
      × ((ret ≡ rootpa_ok) ↔ (w ≡ mc_drv_ok)))
    ⊎ ((r.0 ≢ mc_drv_ok)
        × (s'.log ≡ read.log)
        × ((ret ≡ rootpa_error_illegal_argument) ↔ (r.0 ≡ mc_drv_err_invalid_device_file))
        × (ret ≢ rootpa_ok))
store_ta-cases_example = store_ta-cases working 7 [] (1 ∷ []) idle

get_sp_container_structure-fits_example :
    length (get_sp_container_structure one_sp 7 idle).0.1.tlt_containers ≤ 16
get_sp_container_structure-fits_example = get_sp_container_structure-fits one_sp 7 idle

structure_read : (get_sp_container_structure one_sp 7 idle).0.0 ≡ rootpa_ok
unfolding get_sp_container_structure collect collect_one container_exists reg_read_sp children_from
structure_read = refl

get_sp_container_structure-Collected_example :
    let ((ret, structure), s') = get_sp_container_structure one_sp 7 idle in
    (sp : List ℕ) × (structure.state ≡ some (state_of sp))
    × Collected 7
        (children_from sp 0 mc_cont_children_count)
        structure.tlt_containers
        (State.read_sp 7 sp mc_drv_ok ∷ [])
        s'.log
get_sp_container_structure-Collected_example =
    get_sp_container_structure-Collected one_sp 7 idle structure_read

provision-Ended_example :
    (r : Provisioned) × ((provision working 7 none initial_rel_post idle).0 ≡ some r)
    × Ended 7 none initial_rel_post (answered working none idle) r
provision-Ended_example = provision-Ended working 7 none initial_rel_post idle

provisioning_thread_function-Exited_example :
    Exited (provisioning_thread_function working (pure tt) idle).1
provisioning_thread_function-Exited_example =
    provisioning_thread_function-Exited working (pure tt) idle
