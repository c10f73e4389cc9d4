-- ===== src/Pacmp3/Response.antt =====
-- `handleResponse` of rootpa/Code/Common/pacmp3.c and what it calls.
use tee_mobicore_driver_daem.Base.{ℕ, List, none, some, if◌then◌else◌, ◌==◌, minus_one, read_u32}
use tee_mobicore_driver_daem.Cmp.{
  command_of, CmpMessage, mc_drv_ok, rootpa_ok, rootpa_error_command_execution,
  rootpa_error_registry, rootpa_error_internal, rootpa_error_out_of_memory, successful,
}
use tee_mobicore_driver_daem.World.{Platform}
use tee_mobicore_driver_daem.State.{M, when◌then◌else◌, option, Cmt, ◌>>=◌, pure, silently}
use tee_mobicore_driver_daem.Pacmtl.{get_rsp_element_info, is_valid_response_to}
use tee_mobicore_driver_daem.Pacmp3.Prepare.{respond, respond_ret}
use tee_mobicore_driver_daem.Pacmp3.Store.{element_bytes, store_containers}

-- `getCmpReturnCode`: the second word of the response in the mapped buffer.
abbrev pub get_cmp_return_code : List ℕ → ℕ
get_cmp_return_code message = read_u32 message 4

-- A result, and the response that goes with it.
pub record Handled : Type 0 where
  pub ret : ℕ
  pub response : CmpMessage

abbrev pub handled : ℕ → CmpMessage → Handled
handled ret response = record { ret = ret; response = response }

-- `if(0==outResponseP->hdr.intRet) outResponseP->hdr.intRet=mcRet;` and the result of `ret`.
abbrev pub respond_failed : ℕ → ℕ → CmpMessage → CmpMessage
respond_failed ret mc_ret r = respond ret (if r.hdr.int_ret == 0 then mc_ret else r.hdr.int_ret) r

-- After `storeContainers`.
unfoldable pub conclude : ℕ → CmpMessage → Handled
conclude mc_ret r =
    if mc_ret == mc_drv_ok
    then handled rootpa_ok r
    else if mc_ret == minus_one
    then handled rootpa_error_internal (respond_failed rootpa_error_internal mc_ret r)
    else handled rootpa_error_registry (respond_failed rootpa_error_registry mc_ret r)

abbrev with_length : ℕ → CmpMessage → CmpMessage
with_length length r = record r { length = length }

module _ {W : Type 0} (p : Platform W) where
  -- The length is set from the first element, and the content to the buffer that was allocated.
  unfoldable pub allocate_response_buffer : CmpMessage → Cmt → M W Handled
  allocate_response_buffer r handle =
      option (get_rsp_element_info 1 handle)
        (pure (handled rootpa_error_internal (with_length 0 r)))
        λ e. do
          memory ← silently (p.alloc e.length)
          pure (
              if memory
              then handled rootpa_ok (with_length e.length r)
              else handled rootpa_error_out_of_memory
                  (record (with_length e.length r) { content = none }))

  -- With the buffer at hand: copy the response, look at its return code and store the containers.
  unfoldable pub accept_response : ℕ → CmpMessage → Cmt → M W Handled
  accept_response id r handle =
      option (get_rsp_element_info 1 handle) (pure (handled rootpa_error_internal r)) λ e. do
        let r' = record r { content = some (element_bytes e handle) }
        when get_cmp_return_code handle.mapped == successful
            then (do
              mc_ret ← store_containers p (command_of id) handle e.next_nbr
              pure (conclude mc_ret r'))
            else pure (
                handled rootpa_error_command_execution (record r' {
                  hdr = record (r'.hdr) { int_ret = get_cmp_return_code handle.mapped };
                }))

  unfoldable pub handle_response : ℕ → CmpMessage → Cmt → M W Handled
  handle_response id r handle =
      when is_valid_response_to id handle.wsm
      then (do
        allocated ← allocate_response_buffer r handle
        when allocated.ret == rootpa_ok
            then accept_response id allocated.response handle
            else pure (handled allocated.ret (respond_ret allocated.ret allocated.response)))
      else pure
          (handled rootpa_error_command_execution (respond_ret rootpa_error_command_execution r))
