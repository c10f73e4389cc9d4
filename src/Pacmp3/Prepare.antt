-- ===== src/Pacmp3/Prepare.antt =====
-- `prepareCommand` of rootpa/Code/Common/pacmp3.c and what it calls: the command and the containers
-- that it needs go into the mapped buffer one behind the other, and the element table of the TCI
-- buffer says where.
use tee_mobicore_driver_daem.Base.{
  ℕ, ◌+◌, List, Bool, true, false, ◌++◌, if◌then◌else◌, ◌==◌, ltb, add32, take, replicate, copy_to,
  slice, read_u32, length,
}
use tee_mobicore_driver_daem.Cmp.{
  Command, command_of, CmpMessage, rootpa_ok, rootpa_error_out_of_memory, rootpa_error_registry,
  rootpa_error_registry_object_not_available, mc_drv_ok, mc_drv_err_invalid_device_file,
}
use tee_mobicore_driver_daem.Cmp
use tee_mobicore_driver_daem.World.{Platform}
use tee_mobicore_driver_daem.State.{
  M, when◌then◌else◌, Cmt, ◌>>=◌, ◌>>◌, pure, silently, report, authenticating_soc,
  authenticating_root, creating_root_container, creating_sp_container, unregistering_root_container,
}
use tee_mobicore_driver_daem.Registry.{
  Read, bytes_at, reg_read_auth_token, reg_read_root, reg_read_sp, reg_read_tlt,
}
use tee_mobicore_driver_daem.Pacmtl.{
  Build, set_cmd_element_info, set_cmd_map_info, set_cmd_cmp_version_and_cmd_id, wsm_words,
}

-- `realloc` keeps what was there; what it adds is taken for zeros.
abbrev pub resize : ℕ → List ℕ → List ℕ
resize size bytes = take size (bytes ++ replicate size 0)

-- The buffer grows, and `mappedSize` stays.
abbrev pub grown : ℕ → Cmt → Cmt
grown size handle = record handle {
  mapped = resize size handle.mapped;
  reallocs = handle.reallocs + 1;
}

-- A build whose handle has these bytes in its mapped buffer at the next offset.
abbrev pub put : List ℕ → Cmt → Build → Build
put bytes handle b = record b {
  handle = record handle { mapped = copy_to b.element_offset bytes handle.mapped };
}

-- The result of adding a container: RootPA's, the registry's and what was built.
pub record Added : Type 0 where
  pub ret : ℕ
  pub mc_ret : ℕ
  pub build : Build

abbrev pub added : ℕ → ℕ → Build → Added
added ret mc_ret b = record { ret = ret; mc_ret = mc_ret; build = b }

-- What a command says about itself, at the offsets that all structures of cmpMap.h share.
abbrev pub spid_of : List ℕ → ℕ
spid_of command = read_u32 command 12

abbrev pub uuid_of : List ℕ → List ℕ
uuid_of command = slice 16 16 command

module _ {W : Type 0} where
  -- `setCallbackP`: is the pointer one to a callback, or NULL?
  unfoldable pub set_callback : Bool → M W (Unit {0})
  set_callback callback_set s = (tt, record s { callback_set = callback_set })

  abbrev set_spid : ℕ → M W (Unit {0})
  set_spid id s = (tt, record s { spid = id })

  abbrev set_tlt : List ℕ → M W (Unit {0})
  set_tlt command s = (tt, record s { spid = spid_of command; tlt_uuid = uuid_of command })

module _ {W : Type 0} (p : Platform W) where
  unfoldable pub ensure_mapped_buffer_size : Cmt → ℕ → M W (Bool × Cmt)
  ensure_mapped_buffer_size handle needed_size =
      when ltb handle.mapped_size needed_size
      then (do
        memory ← silently (p.alloc needed_size)
        pure (if memory then (true, grown needed_size handle) else (false, handle)))
      else pure (true, handle)

  -- What the four functions that follow do with what they have read.
  unfoldable pub add_container : Read → Build → M W Added
  add_container (result, container) b =
      when result == mc_drv_ok
      then (do
        (fits, handle) ←
            ensure_mapped_buffer_size b.handle
              (add32 b.element_offset (length (bytes_at container)))
        pure (
            if fits
            then added rootpa_ok result (
                set_cmd_element_info (put (bytes_at container) handle b)
                  (length (bytes_at container)))
            else added rootpa_error_out_of_memory result (record b { handle = handle })))
      else when result == mc_drv_err_invalid_device_file
      then pure (added rootpa_error_registry_object_not_available result b)
      else pure (added rootpa_error_registry result b)

  unfoldable pub add_auth_token_container : Build → M W Added
  add_auth_token_container b = do r ← reg_read_auth_token p; add_container r b

  unfoldable pub add_root_container : Build → M W Added
  add_root_container b = do r ← reg_read_root p; add_container r b

  unfoldable pub add_sp_container : ℕ → Build → M W Added
  add_sp_container spid b = do r ← reg_read_sp p spid; add_container r b

  unfoldable pub add_tlt_container : List ℕ → ℕ → Build → M W Added
  add_tlt_container uuid spid b = do r ← reg_read_tlt p uuid spid; add_container r b

  -- What `outCommandP` points at: the mapped buffer, unless `realloc` was called since the pointer
  -- was taken, when there had been so many calls of it. Where `realloc` leaves the block in its
  -- place, the memory that it has given up is that block.
  unfoldable pub out_command : ℕ → Cmt → W → List ℕ × W
  out_command saved handle w =
      (if handle.reallocs == saved then handle.mapped else p.stale_bytes w, w)

  -- `MC_CMP_CMD_BEGIN_SP_AUTHENTICATION`: the root container, then the service provider's, whose
  -- id is read behind the first.
  unfoldable pub add_root_and_sp_containers : ℕ → Build → M W Added
  add_root_and_sp_containers saved b = do
    a ← add_root_container b
    when a.ret == rootpa_ok
        then (do
          command ← silently (out_command saved a.build.handle)
          add_sp_container (spid_of command) a.build)
        else pure a

  -- The `switch` of `prepareCommand`, with what `outCommandP` points at.
  unfoldable pub prepare_case : Command → ℕ → List ℕ → Build → M W Added
  prepare_case Cmp.begin_soc_authentication saved command b = do
    report authenticating_soc
    add_auth_token_container b
  prepare_case Cmp.begin_root_authentication saved command b = do
    report authenticating_root
    add_root_container b
  prepare_case Cmp.begin_sp_authentication saved command b = add_root_and_sp_containers saved b
  prepare_case Cmp.root_cont_register_activate saved command b = do
    report creating_root_container
    pure (added rootpa_ok mc_drv_ok b)
  prepare_case Cmp.root_cont_unregister saved command b = do
    report unregistering_root_container
    pure (added rootpa_ok mc_drv_ok b)
  prepare_case Cmp.sp_cont_activate saved command b = do
    set_spid (spid_of command)
    pure (added rootpa_ok mc_drv_ok b)
  prepare_case Cmp.sp_cont_lock_by_root saved command b = do
    set_spid (spid_of command)
    add_sp_container (spid_of command) b
  prepare_case Cmp.sp_cont_lock_by_sp saved command b = do
    set_spid (spid_of command)
    pure (added rootpa_ok mc_drv_ok b)
  prepare_case Cmp.sp_cont_register saved command b = do
    report creating_sp_container
    set_spid (spid_of command)
    pure (added rootpa_ok mc_drv_ok b)
  prepare_case Cmp.sp_cont_register_activate saved command b = do
    report creating_sp_container
    set_spid (spid_of command)
    pure (added rootpa_ok mc_drv_ok b)
  prepare_case Cmp.sp_cont_unlock_by_root saved command b = do
    set_spid (spid_of command)
    add_sp_container (spid_of command) b
  prepare_case Cmp.sp_cont_unlock_by_sp saved command b = do
    set_spid (spid_of command)
    pure (added rootpa_ok mc_drv_ok b)
  prepare_case Cmp.sp_cont_unregister saved command b = do
    set_spid (spid_of command)
    pure (added rootpa_ok mc_drv_ok b)
  prepare_case Cmp.tlt_cont_activate saved command b = do
    set_tlt command
    add_tlt_container (uuid_of command) (spid_of command) b
  prepare_case Cmp.tlt_cont_lock_by_sp saved command b = do
    set_tlt command
    add_tlt_container (uuid_of command) (spid_of command) b
  prepare_case Cmp.tlt_cont_personalize saved command b =
      add_tlt_container (uuid_of command) (spid_of command) b
  prepare_case Cmp.tlt_cont_register saved command b = do
    set_tlt command
    pure (added rootpa_ok mc_drv_ok b)
  prepare_case Cmp.tlt_cont_register_activate saved command b = do
    set_tlt command
    pure (added rootpa_ok mc_drv_ok b)
  prepare_case Cmp.tlt_cont_unlock_by_sp saved command b = do
    set_tlt command
    add_tlt_container (uuid_of command) (spid_of command) b
  prepare_case Cmp.tlt_cont_unregister saved command b = do
    set_tlt command
    pure (added rootpa_ok mc_drv_ok b)
  prepare_case _ saved command b = pure (added rootpa_ok mc_drv_ok b)

-- The header and the first element, the command itself.
unfoldable pub begin_command : ℕ → ℕ → Cmt → Build
unfolding set_cmd_element_info set_cmd_map_info set_cmd_cmp_version_and_cmd_id
begin_command command_id command_length handle =
    set_cmd_element_info
      (record {
        element_nbr = 1;
        element_offset = 0;
        handle = record handle {
          wsm =
              set_cmd_cmp_version_and_cmd_id
                (set_cmd_map_info (replicate wsm_words 0) handle.map_info) command_id;
        };
      })
      command_length

-- What `prepareCommand` leaves behind: its result, the handle and the response.
pub record Prepared : Type 0 where
  pub ret : ℕ
  pub handle : Cmt
  pub response : CmpMessage

-- `responseP->hdr.ret=ret; responseP->hdr.intRet=mcRet;`
abbrev pub respond : ℕ → ℕ → CmpMessage → CmpMessage
respond ret int_ret r = record r { hdr = record (r.hdr) { ret = ret; int_ret = int_ret } }

-- `responseP->hdr.ret=ret;`
abbrev pub respond_ret : ℕ → CmpMessage → CmpMessage
respond_ret ret r = record r { hdr = record (r.hdr) { ret = ret } }

-- The command's bytes, which `memcpy` takes from `contentP`.
abbrev pub command_bytes : CmpMessage → List ℕ
command_bytes m = take m.length (bytes_at m.content)

module _ {W : Type 0} (p : Platform W) where
  unfoldable pub prepare_command : ℕ → CmpMessage → Cmt → CmpMessage → M W Prepared
  prepare_command id in_command handle response = do
    let b = begin_command id in_command.length handle
    (fits, handle') ← ensure_mapped_buffer_size p b.handle in_command.length
    let filled = record handle' { mapped = copy_to 0 (command_bytes in_command) handle'.mapped }
    when fits
        then (do
          out ← silently (out_command p handle.reallocs filled)
          a ← prepare_case p (command_of id) handle.reallocs out (record b { handle = filled })
          pure (record {
            ret = a.ret;
            handle = a.build.handle;
            response = respond a.ret a.mc_ret response;
          }))
        else pure (record {
          ret = rootpa_error_out_of_memory;
          handle = handle';
          response = respond_ret rootpa_error_out_of_memory response;
        })
