-- ===== src/Pacmp3/Accepted.antt =====
-- What a result of `handleResponse` (rootpa/Code/Common/pacmp3.c) says.
use tee_mobicore_driver_daem.Base.{ℕ, ◌≡◌, ◌≢◌, refl, some, inl, inr, arith, Option-cases, true}
use tee_mobicore_driver_daem.Cmp.{command_of, CmpMessage, mc_drv_ok, rootpa_ok, successful}
use tee_mobicore_driver_daem.World.{Platform}
use tee_mobicore_driver_daem.State.{Sys, Cmt}
use tee_mobicore_driver_daem.Pacmtl.{Element, get_rsp_element_info, is_valid_response_to}
use tee_mobicore_driver_daem.Pacmp3.Store.{element_bytes, store_containers}
use tee_mobicore_driver_daem.Pacmp3.Response.{
  get_cmp_return_code, conclude, allocate_response_buffer, accept_response, handle_response,
}

module _ {W : Type 0} (p : Platform W) where
  -- From a state to the next a response was accepted: it is one to the command, its first element
  -- was copied to the caller, the trustlet reports success, and its containers were stored.
  pub record Accepted (id : ℕ) (h : Cmt) (r : CmpMessage) (s s' : Sys W) : Type 0 where
    pub valid : is_valid_response_to id h.wsm ≡ true
    pub element : Element
    pub found : get_rsp_element_info 1 h ≡ some element
    pub content : r.content ≡ some (element_bytes element h)
    pub size : r.length ≡ element.length
    pub succeeded : get_cmp_return_code h.mapped ≡ successful
    pub before : Sys W
    pub same_log : before.log ≡ s.log
    pub stored : store_containers p (command_of id) h element.next_nbr before ≡ (mc_drv_ok, s')

  -- If handling a response returns ROOTPA_OK, the response is a valid one to the command, the
  -- caller gets the bytes and the length of its first element, its return code is SUCCESSFUL,
  -- and storing its containers, from the next element on, succeeded.
  pub handle_response-Accepted :
      (id : ℕ) (r : CmpMessage) (h : Cmt) (s : Sys W)
      → let (a, s') = handle_response p id r h s in
        a.ret ≡ rootpa_ok → Accepted id h a.response s s'
  unfolding handle_response allocate_response_buffer accept_response conclude
  handle_response-Accepted id r h s ok = elim (Option-cases (get_rsp_element_info 1 h)) [
    | inl e ↦ ground arith
    | inr (x, e) ↦
        let before : Sys W = record s { world = (p.alloc x.length s.world).1 } in
        record {
          valid = ground arith;
          element = x;
          found = e;
          content = ground arith;
          size = ground arith;
          succeeded = ground arith;
          before = before;
          same_log = refl;
          stored = ground arith;
        }
  ]

  -- If handling a response adds to the log, that is, calls the registry, then the response is a
  -- valid one to the command and its return code is SUCCESSFUL.
  pub handle_response-log :
      (id : ℕ) (r : CmpMessage) (h : Cmt) (s : Sys W)
      → (handle_response p id r h s).1.log ≢ s.log
      → (is_valid_response_to id h.wsm ≡ true) × (get_cmp_return_code h.mapped ≡ successful)
  unfolding handle_response allocate_response_buffer accept_response
  handle_response-log id r h s differs = ground arith
