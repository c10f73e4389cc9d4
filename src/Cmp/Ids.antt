-- ===== src/Cmp/Ids.antt =====
-- The command ids of common/MobiCore/inc/TlCm/tlCmApiCommon.h.
use tee_mobicore_driver_daem.Base.{ℕ, ◌==◌, if◌then◌else◌, ◌≡◌, arith}

pub data Command : Type 0 where
  authenticate begin_root_authentication begin_soc_authentication : Command
  begin_sp_authentication generate_auth_token get_version : Command
  root_cont_lock_by_root root_cont_register_activate : Command
  root_cont_unlock_by_root root_cont_unregister : Command
  sp_cont_activate sp_cont_lock_by_root sp_cont_lock_by_sp sp_cont_register : Command
  sp_cont_register_activate sp_cont_unlock_by_root sp_cont_unlock_by_sp : Command
  sp_cont_unregister : Command
  tlt_cont_activate tlt_cont_lock_by_sp tlt_cont_personalize tlt_cont_register : Command
  tlt_cont_register_activate tlt_cont_unlock_by_sp tlt_cont_unregister : Command
  get_suid authenticate_terminate : Command
  unknown : ℕ → Command

-- The number that the headers give each command.
unfoldable pub command_id : Command → ℕ
command_id authenticate = 0
command_id begin_root_authentication = 1
command_id begin_soc_authentication = 2
command_id begin_sp_authentication = 3
command_id generate_auth_token = 4
command_id get_version = 5
command_id root_cont_lock_by_root = 7
command_id root_cont_register_activate = 9
command_id root_cont_unlock_by_root = 10
command_id root_cont_unregister = 11
command_id sp_cont_activate = 12
command_id sp_cont_lock_by_root = 13
command_id sp_cont_lock_by_sp = 14
command_id sp_cont_register = 15
command_id sp_cont_register_activate = 16
command_id sp_cont_unlock_by_root = 17
command_id sp_cont_unlock_by_sp = 18
command_id sp_cont_unregister = 19
command_id tlt_cont_activate = 20
command_id tlt_cont_lock_by_sp = 21
command_id tlt_cont_personalize = 22
command_id tlt_cont_register = 23
command_id tlt_cont_register_activate = 24
command_id tlt_cont_unlock_by_sp = 25
command_id tlt_cont_unregister = 26
command_id get_suid = 27
command_id authenticate_terminate = 28
command_id (unknown id) = id

high_command : ℕ → Command
high_command id =
    if id == 17
    then sp_cont_unlock_by_root
    else if id == 18
    then sp_cont_unlock_by_sp
    else if id == 19
    then sp_cont_unregister
    else if id == 20
    then tlt_cont_activate
    else if id == 21
    then tlt_cont_lock_by_sp
    else if id == 22
    then tlt_cont_personalize
    else if id == 23
    then tlt_cont_register
    else if id == 24
    then tlt_cont_register_activate
    else if id == 25
    then tlt_cont_unlock_by_sp
    else if id == 26
    then tlt_cont_unregister
    else if id == 27
    then get_suid
    else if id == 28
    then authenticate_terminate
    else unknown id

-- The case of a `switch` on the command id.
unfoldable pub command_of : ℕ → Command
unfolding high_command
command_of id =
    if id == 0
    then authenticate
    else if id == 1
    then begin_root_authentication
    else if id == 2
    then begin_soc_authentication
    else if id == 3
    then begin_sp_authentication
    else if id == 4
    then generate_auth_token
    else if id == 5
    then get_version
    else if id == 7
    then root_cont_lock_by_root
    else if id == 9
    then root_cont_register_activate
    else if id == 10
    then root_cont_unlock_by_root
    else if id == 11
    then root_cont_unregister
    else if id == 12
    then sp_cont_activate
    else if id == 13
    then sp_cont_lock_by_root
    else if id == 14
    then sp_cont_lock_by_sp
    else if id == 15
    then sp_cont_register
    else if id == 16
    then sp_cont_register_activate
    else high_command id

high_command_lem : (id : ℕ) → command_id (high_command id) ≡ id
unfolding high_command command_id
high_command_lem id = ground arith

-- The classification loses nothing.
pub command_id-command_of : (id : ℕ) → command_id (command_of id) ≡ id
unfolding command_of command_id
command_id-command_of id = ground (arith, high_command_lem id)
