-- ===== src/ContentManager/Session.antt =====
-- `openCmtlSession`, `closeCmtlSession` and `uploadSo` of rootpa/Code/Common/contentmanager.c.
use tee_mobicore_driver_daem.Base.{ℕ, List, Option, none, some, if◌then◌else◌, ◌==◌}
use tee_mobicore_driver_daem.Cmp.{
  mc_drv_ok, mc_drv_err_no_free_memory, rootpa_ok, rootpa_error_registry,
  rootpa_error_out_of_memory, rootpa_error_mobicore_connection,
}
use tee_mobicore_driver_daem.World.{Platform}
use tee_mobicore_driver_daem.State.{M, when◌then◌else◌, Cmt, ◌>>=◌, ◌>>◌, pure}
use tee_mobicore_driver_daem.Registry.{reg_write_auth_token}
use tee_mobicore_driver_daem.Pacmtl.{wsm_words}
use tee_mobicore_driver_daem.Channel.{tlt_channel_open, tlt_channel_close}

-- `handle_`
module _ {W : Type 0} where
  abbrev pub the_handle : M W (Option Cmt)
  the_handle s = (s.handle, s)

  abbrev pub set_handle : Option Cmt → M W (Unit {0})
  set_handle handle s = (tt, record s { handle = handle })

-- The result for a session that did not open.
abbrev pub open_error : ℕ → ℕ
open_error result =
    if result == mc_drv_err_no_free_memory
    then rootpa_error_out_of_memory
    else rootpa_error_mobicore_connection

abbrev opened_ret : Option Cmt → ℕ → ℕ
opened_ret none result = open_error result
opened_ret (some _) result = rootpa_ok

module _ {W : Type 0} (p : Platform W) where
  unfoldable pub close_cmtl_session : M W (Unit {0})
  close_cmtl_session = do handle ← the_handle; tlt_channel_close p handle; set_handle none

  -- `if(handle_) closeCmtlSession();`
  unfoldable pub close_if_open : Option Cmt → M W (Unit {0})
  close_if_open none = pure tt
  close_if_open (some _) = close_cmtl_session

  unfoldable pub open_cmtl_session : M W ℕ
  open_cmtl_session = do
    old ← the_handle
    close_if_open old
    (handle, result) ← tlt_channel_open p wsm_words
    set_handle handle
    pure (opened_ret handle result)

  -- The result, and `*regRetP`.
  unfoldable pub upload_so : List ℕ → M W (ℕ × ℕ)
  upload_so container = do
    written ← reg_write_auth_token p container
    pure (if written == mc_drv_ok then rootpa_ok else rootpa_error_registry, written)
