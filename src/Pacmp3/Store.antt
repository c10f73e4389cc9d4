-- ===== src/Pacmp3/Store.antt =====
-- `storeContainers` of rootpa/Code/Common/pacmp3.c: the containers of a response go from the mapped
-- buffer to the registry. `element` is the number of the first element behind the response itself.
use tee_mobicore_driver_daem.Base.{
  ℕ, List, Option, none, some, if◌then◌else◌, ◌==◌, slice, minus_one,
}
use tee_mobicore_driver_daem.Cmp.{Command, mc_drv_ok}
use tee_mobicore_driver_daem.Cmp
use tee_mobicore_driver_daem.World.{Platform}
use tee_mobicore_driver_daem.State.{M, when◌then◌else◌, option, Cmt, ◌>>=◌, ◌>>◌, pure}
use tee_mobicore_driver_daem.Registry.{
  reg_read_auth_token, reg_write_auth_token, reg_delete_auth_token, reg_write_root,
  reg_cleanup_root, reg_write_sp, reg_cleanup_sp, reg_write_tlt, reg_cleanup_tlt,
}
use tee_mobicore_driver_daem.Pacmtl.{Element, get_rsp_element_info}

-- `handle->mappedP+offset`, with the length.
abbrev pub element_bytes : Element → Cmt → List ℕ
element_bytes e handle = slice e.offset e.length handle.mapped

-- `spid_` and `tltUuid_`.
module _ {W : Type 0} where
  abbrev pub the_spid : M W ℕ
  the_spid s = (s.spid, s)

  abbrev pub the_tlt : M W (List ℕ)
  the_tlt s = (s.tlt_uuid, s)

module _ {W : Type 0} (p : Platform W) where
  -- Write the element, if there is one; -1 if not.
  abbrev write_element : (List ℕ → M W ℕ) → ℕ → Cmt → M W ℕ
  write_element write element handle =
      option (get_rsp_element_info element handle) (pure minus_one)
        (λ e. write (element_bytes e handle))

  unfoldable pub store_sp_element : ℕ → Cmt → M W ℕ
  store_sp_element element handle = do
    spid ← the_spid
    write_element (reg_write_sp p spid) element handle

  unfoldable pub store_tlt_element : ℕ → Cmt → M W ℕ
  store_tlt_element element handle = do
    spid ← the_spid
    uuid ← the_tlt
    write_element (λ bytes. reg_write_tlt p uuid bytes spid) element handle

  unfoldable pub store_root_element : ℕ → Cmt → M W ℕ
  store_root_element element handle = write_element (reg_write_root p) element handle

  unfoldable pub store_auth_token_element : ℕ → Cmt → M W ℕ
  store_auth_token_element element handle = write_element (reg_write_auth_token p) element handle

  -- After the deletion of the authentication token failed: write it again, and remove the root
  -- container if that succeeds.
  unfoldable pub recover_auth_token : ℕ → Option (List ℕ) → M W ℕ
  recover_auth_token failed none = pure failed
  recover_auth_token failed (some token) = do
    written ← reg_write_auth_token p token
    when written == mc_drv_ok then (do reg_cleanup_root p; pure written) else pure written

  -- Delete the authentication token, which the root container replaces.
  unfoldable pub retire_auth_token : M W ℕ
  retire_auth_token = do
    (_, token) ← reg_read_auth_token p
    deleted ← reg_delete_auth_token p
    when deleted == mc_drv_ok then pure deleted else recover_auth_token deleted token

  -- `MC_CMP_CMD_ROOT_CONT_REGISTER_ACTIVATE`
  unfoldable pub store_registered_root : ℕ → Cmt → M W ℕ
  store_registered_root element handle = do
    written ← store_root_element element handle
    when written == mc_drv_ok then retire_auth_token else pure written

  -- `MC_CMP_CMD_SP_CONT_REGISTER` and `..._ACTIVATE`: the root container is the first element, and
  -- is written last.
  unfoldable pub store_registered_sp : ℕ → Cmt → M W ℕ
  store_registered_sp element handle =
      option (get_rsp_element_info element handle) (pure minus_one) λ root. do
        written ← store_sp_element root.next_nbr handle
        when written == mc_drv_ok
            then reg_write_root p (element_bytes root handle)
            else pure written

  -- `MC_CMP_CMD_SP_CONT_UNREGISTER`
  unfoldable pub store_unregistered_sp : ℕ → Cmt → M W ℕ
  store_unregistered_sp element handle = do
    spid ← the_spid
    reg_cleanup_sp p spid
    store_root_element element handle

  -- The service provider container, behind the trustlet's; without it the trustlet's goes again.
  unfoldable pub store_sp_of_tlt : List ℕ → M W ℕ
  store_sp_of_tlt sp = do
    spid ← the_spid
    uuid ← the_tlt
    written ← reg_write_sp p spid sp
    when written == mc_drv_ok then pure written else (do reg_cleanup_tlt p uuid spid; pure written)

  -- `MC_CMP_CMD_TLT_CONT_REGISTER` and `..._ACTIVATE`: the service provider container is the first
  -- element, and is written last.
  unfoldable pub store_registered_tlt : ℕ → Cmt → M W ℕ
  store_registered_tlt element handle =
      option (get_rsp_element_info element handle) (pure minus_one) λ sp. do
        written ← store_tlt_element sp.next_nbr handle
        when written == mc_drv_ok then store_sp_of_tlt (element_bytes sp handle) else pure written

  -- `MC_CMP_CMD_TLT_CONT_UNREGISTER`
  unfoldable pub store_unregistered_tlt : ℕ → Cmt → M W ℕ
  store_unregistered_tlt element handle = do
    spid ← the_spid
    uuid ← the_tlt
    reg_cleanup_tlt p uuid spid
    store_sp_element element handle

  unfoldable pub store_containers : Command → Cmt → ℕ → M W ℕ
  store_containers Cmp.generate_auth_token handle element = store_auth_token_element element handle
  store_containers Cmp.root_cont_register_activate handle element =
      store_registered_root element handle
  store_containers Cmp.root_cont_lock_by_root handle element = store_root_element element handle
  store_containers Cmp.root_cont_unlock_by_root handle element = store_root_element element handle
  store_containers Cmp.root_cont_unregister handle element = reg_cleanup_root p
  store_containers Cmp.sp_cont_unlock_by_root handle element = store_sp_element element handle
  store_containers Cmp.sp_cont_unlock_by_sp handle element = store_sp_element element handle
  store_containers Cmp.sp_cont_activate handle element = store_sp_element element handle
  store_containers Cmp.sp_cont_lock_by_root handle element = store_sp_element element handle
  store_containers Cmp.sp_cont_lock_by_sp handle element = store_sp_element element handle
  store_containers Cmp.sp_cont_register handle element = store_registered_sp element handle
  store_containers Cmp.sp_cont_register_activate handle element = store_registered_sp element handle
  store_containers Cmp.sp_cont_unregister handle element = store_unregistered_sp element handle
  store_containers Cmp.tlt_cont_register handle element = store_registered_tlt element handle
  store_containers Cmp.tlt_cont_register_activate handle element =
      store_registered_tlt element handle
  store_containers Cmp.tlt_cont_activate handle element = store_tlt_element element handle
  store_containers Cmp.tlt_cont_lock_by_sp handle element = store_tlt_element element handle
  store_containers Cmp.tlt_cont_unlock_by_sp handle element = store_tlt_element element handle
  store_containers Cmp.tlt_cont_unregister handle element = store_unregistered_tlt element handle
  store_containers _ handle element = pure mc_drv_ok
