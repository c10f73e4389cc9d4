-- ===== src/Pacmtl.antt =====
-- rootpa/Code/Common/pacmtl.c: the TCI buffer that is shared with the content management trustlet.
-- It is `cmp_t` of common/MobiCore/inc/TlCm/3.0/tlCmApi.h, ten 32-bit words: of a command the
-- version, the id, the address and length of the mapped buffer and up to three elements (offset and
-- length); of a response the version, the id, the needed bytes and the elements. The pointers that
-- the source tests for NULL are the addresses of variables and of the buffer.
mod Sizes
pub mod Bounds
unfoldable pub use Sizes.*
use tee_mobicore_driver_daem.Base.{
  ℕ, suc, ◌+◌, ◌-◌, ◌*◌, List, Bool, true, false, not, ◌&&◌, ◌||◌, Option, none, some,
  if◌then◌else◌, ◌==◌, ltb, set, get_or, add32, minus_one, u32_mod, ◌%◌,
}
use tee_mobicore_driver_daem.Cmp.{cmp_version, is_rsp, rsp_id}
use tee_mobicore_driver_daem.State.{Cmt}
use tee_mobicore_driver_daem.World.{BulkMap}

-- The words of `cmp_t`.
abbrev pub wsm_words : ℕ
wsm_words = 10

-- What is passed by reference while a command is put together: the number of the next element,
-- its offset, and the handle with the TCI buffer and the mapped buffer.
pub record Build : Type 0 where
  pub element_nbr : ℕ
  pub element_offset : ℕ
  pub handle : Cmt

unfoldable pub set_cmd_element_info : Build → ℕ → Build
set_cmd_element_info b element_length =
    if b.element_nbr == 0 || (b.element_nbr == 1 && not (b.element_offset == 0))
    then b
    else record {
      element_nbr = add32 b.element_nbr 1;
      element_offset = add32 b.element_offset element_length;
      handle = record (b.handle) {
        wsm =
            set (set b.handle.wsm (4 + 2 * (b.element_nbr - 1)) b.element_offset)
              (5 + 2 * (b.element_nbr - 1)) element_length;
      };
    }

unfoldable pub set_cmd_map_info : List ℕ → BulkMap → List ℕ
set_cmd_map_info wsm info = set (set wsm 2 info.s_virtual_addr) 3 info.s_virtual_len

unfoldable pub set_cmd_cmp_version_and_cmd_id : List ℕ → ℕ → List ℕ
set_cmd_cmp_version_and_cmd_id wsm command_id = set (set wsm 0 cmp_version) 1 command_id

-- An element of a response.
pub record Element : Type 0 where
  pub next_nbr : ℕ
  pub offset : ℕ
  pub length : ℕ

abbrev pub rsp_offset : List ℕ → ℕ → ℕ
rsp_offset wsm nbr = get_or wsm (3 + 2 * (nbr - 1)) 0

abbrev pub rsp_length : List ℕ → ℕ → ℕ
rsp_length wsm nbr = get_or wsm (4 + 2 * (nbr - 1)) 0

-- `none` is the answer `false`, with which the length is 0 and the offset what it was.
unfoldable pub get_rsp_element_info : ℕ → Cmt → Option Element
get_rsp_element_info nbr handle =
    if nbr == 0
    then none
    else if ltb handle.mapped_size (add32 (rsp_offset handle.wsm nbr) (rsp_length handle.wsm nbr))
    then none
    else some (record {
      next_nbr = add32 nbr 1;
      offset = rsp_offset handle.wsm nbr;
      length = rsp_length handle.wsm nbr;
    })

abbrev pub get_rsp_cmp_version : List ℕ → ℕ
get_rsp_cmp_version wsm = get_or wsm 0 0

abbrev pub get_rsp_cmp_id : List ℕ → ℕ
get_rsp_cmp_id wsm = get_or wsm 1 0

unfoldable pub is_valid_response : List ℕ → Bool
unfolding is_rsp
is_valid_response wsm =
    if not (get_rsp_cmp_version wsm == cmp_version) then false else is_rsp (get_rsp_cmp_id wsm)

unfoldable pub is_valid_response_to : ℕ → List ℕ → Bool
unfolding is_valid_response rsp_id
is_valid_response_to command_id wsm =
    if is_valid_response wsm then get_rsp_cmp_id wsm == rsp_id command_id else false

unfoldable pub get_needed_bytes_from_response : List ℕ → ℕ
unfolding is_valid_response
get_needed_bytes_from_response wsm =
    if not (is_valid_response wsm) then minus_one else get_or wsm 2 0 % u32_mod
