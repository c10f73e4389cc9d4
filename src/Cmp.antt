-- ===== src/Cmp.antt =====
-- The content management protocol as RootPA uses it: command ids
-- (common/MobiCore/inc/TlCm/tlCmApiCommon.h), response ids (common/MobiCore/inc/TlCm/cmpCommon.h),
-- the result codes of RootPA (rootpa/Code/Common/include/rootpaErrors.h) and of the driver, and
-- `CmpMessage` (rootpa/Code/Common/include/rootpa.h).
mod Ids
unfoldable pub use Ids.*
use tee_mobicore_driver_daem.Base.{ℕ, ◌+◌, if◌then◌else◌, leb, Bool, List, Option}

-- rootpaerror_t
abbrev pub rootpa_ok : ℕ
rootpa_ok = 0

abbrev pub rootpa_command_not_supported : ℕ
rootpa_command_not_supported = 1

abbrev pub rootpa_error_command_execution : ℕ
rootpa_error_command_execution = 3

abbrev pub rootpa_error_lock : ℕ
rootpa_error_lock = 2

abbrev pub rootpa_error_registry : ℕ
rootpa_error_registry = 4

abbrev pub rootpa_error_mobicore_connection : ℕ
rootpa_error_mobicore_connection = 5

abbrev pub rootpa_error_out_of_memory : ℕ
rootpa_error_out_of_memory = 6

abbrev pub rootpa_error_internal : ℕ
rootpa_error_internal = 7

abbrev pub rootpa_error_illegal_argument : ℕ
rootpa_error_illegal_argument = 8

abbrev pub rootpa_error_network : ℕ
rootpa_error_network = 9

abbrev pub rootpa_error_xml : ℕ
rootpa_error_xml = 10

abbrev pub rootpa_error_registry_object_not_available : ℕ
rootpa_error_registry_object_not_available = 11

abbrev pub rootpa_error_se_cmp_version : ℕ
rootpa_error_se_cmp_version = 12

abbrev pub rootpa_error_se_precondition_not_met : ℕ
rootpa_error_se_precondition_not_met = 13

abbrev pub rootpa_error_internal_no_container : ℕ
rootpa_error_internal_no_container = 48

-- mcResult_t
abbrev pub mc_drv_ok : ℕ
mc_drv_ok = 0

abbrev pub mc_drv_err_no_free_memory : ℕ
mc_drv_err_no_free_memory = 12

abbrev pub mc_drv_err_invalid_device_file : ℕ
mc_drv_err_invalid_device_file = 16

-- The version in the header of every command and response.
abbrev pub cmp_version : ℕ
cmp_version = 196608

-- `SUCCESSFUL` of TlCm/tlCmError.h
abbrev pub successful : ℕ
successful = 0

-- `RSP_ID_MASK`, bit 31.
abbrev pub rsp_id_mask : ℕ
rsp_id_mask = 2147483648

-- `RSP_ID(cmdId)`: `cmdId | (1U << 31)` on a 32-bit word.
unfoldable pub rsp_id : ℕ → ℕ
rsp_id id = if leb rsp_id_mask id then id else id + rsp_id_mask

-- `IS_RSP(cmdId)`: bit 31 of a 32-bit word is set.
unfoldable pub is_rsp : ℕ → Bool
is_rsp id = leb rsp_id_mask id

-- CommonMessage
pub record CommonMessage : Type 0 where
  pub ignore_error : Bool
  pub ret : ℕ
  pub int_ret : ℕ
  pub id : ℕ

-- CmpMessage. `content` is what `contentP` points to, and `none` is NULL.
pub record CmpMessage : Type 0 where
  pub length : ℕ
  pub content : Option (List ℕ)
  pub hdr : CommonMessage
