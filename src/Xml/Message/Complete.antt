-- ===== src/Xml/Message/Complete.antt =====
-- A message is handled to its end, and its response is filled,
-- rootpa/Code/Common/xmlmessagehandler.c.
use Prim.Native.String.{String}
use tee_mobicore_driver_daem.Base.{
  ℕ, ◌*◌, ◌≡◌, refl, Bool, true, List, [], ◌∷◌, ◌++◌, Option, none, some, if◌then◌else◌, ◌==◌,
  length, map, Bool-cases, Option-cases, inl, inr, is_some, is_some→some,
}
use tee_mobicore_driver_daem.Cmp.{CmpMessage, CommonMessage, rootpa_error_out_of_memory}
use tee_mobicore_driver_daem.World.{Platform}
use tee_mobicore_driver_daem.State.{Sys, when◌then◌else◌}
use tee_mobicore_driver_daem.ContentManager.Batch.Closing.{
  execute_content_management_commands-total,
}
use tee_mobicore_driver_daem.Xml.Document.{
  Node, cmp, get_values, find_first_command_node, commands_of,
}
use tee_mobicore_driver_daem.Xml.Results.{Tools, handle_cmp_responses}
use tee_mobicore_driver_daem.Xml.Results.Listed.{
  up_to, cmp_cuts, upload_cuts, cmp_result, upload_result, handle_cmp_responses-eq,
  handle_upload_responses-eq,
}
use tee_mobicore_driver_daem.Xml.Parse.{
  Parsed, nothing_parsed, parse_commands, extract_cmp_command, dispatch, sizeof_cmp_message,
}
use tee_mobicore_driver_daem.Xml.Message.{
  with_response, execute_parsed, fill_response, handle_command_and_fill_response, Library,
  handle_document, handle_xml_message,
}

module _ {W : Type 0} (tools : Tools W) (encoded : List ℕ → ℕ → String)
    (encodes : (bytes : List ℕ) (n : ℕ) → tools.encode bytes n ≡ some (encoded bytes n))
    (grows : (w : W) → (tools.grows w).0 ≡ true) where
  -- The response to a message lists one result for each response of a command, up to and with
  -- the first whose error is not to be ignored, and behind them one for each upload, up to and
  -- with the first such error: the encoded content of a response that did not fail outside the
  -- trustlet, or else the name of the error with its detail unless that is 0; when memory ran
  -- out there is no list. The result is the one from before. Given that libxml2 has memory for
  -- the nodes and that base64 encodes.
  pub fill_response-eq :
      (ret : ℕ) (responses : List CmpMessage) (uploads : List CommonMessage) (s : Sys W)
      → (fill_response tools ret responses uploads s).0 ≡ (
          if ret == rootpa_error_out_of_memory
          then record { ret = ret; results = none }
          else record {
            ret = ret;
            results = some (
                map (cmp_result encoded) (up_to cmp_cuts responses)
                ++ map (upload_result encoded) (up_to upload_cuts uploads));
          })
  unfolding fill_response
  fill_response-eq ret responses uploads s = elim (Bool-cases (ret == rootpa_error_out_of_memory)) [
    | inl out ↦ rw (out) refl
    | inr in_ ↦
        let w = record s { world = (tools.grows s.world).1 } in
        let cmps = handle_cmp_responses-eq tools encoded encodes grows responses w in
        let s' = (handle_cmp_responses tools responses w).1 in
        let ups = handle_upload_responses-eq tools encoded encodes grows uploads s' in
        rw (in_, grows s.world, cmps, ups) refl
  ]

module _ {W : Type 0} (p : Platform W) (tools : Tools W) (callback_set : Bool)
    (get_content : Node → Option String) where
  -- When the first command of a message is one of the content management protocol without a
  -- value, the loop over the commands ends there with ROOTPA_ERROR_OUT_OF_MEMORY although
  -- realloc had memory, with an array of no commands, whatever commands follow.
  pub parse_commands-valueless :
      (n : Node) (ns : List Node) (s : Sys W)
      → (get_values get_content n).command_type ≡ cmp
      → (get_values get_content n).value ≡ none
      → (p.alloc sizeof_cmp_message s.world).0 ≡ true
      → (parse_commands p tools callback_set get_content (n ∷ ns) nothing_parsed s).0 ≡ record {
        ret = rootpa_error_out_of_memory;
        cmp_commands = some [];
        upload_commands = none;
      }
  unfolding parse_commands dispatch extract_cmp_command
  parse_commands-valueless n ns s t v a = rw (t, v, a) refl

  execute_parsed-is_some : (x : Parsed) (s : Sys W) → is_some (execute_parsed p x s).0 ≡ true
  unfolding execute_parsed
  execute_parsed-is_some x s = elim (Option-cases x.cmp_commands) [
    | inl e ↦ rw (e) refl
    | inr (commands, e) ↦
        let at = sizeof_cmp_message * length commands in
        elim (Bool-cases (p.alloc at s.world).0) [
          | inr full ↦ rw (e, full) refl
          | inl room ↦
              let s' = record s { world = (p.alloc at s.world).1 } in
              let (out, o) =
                execute_content_management_commands-total p (map with_response commands) s' in
              rw (e, room, o) refl
        ]
  ]

  pub handle_xml_message-total :
      (library : Library W) (text : Option (List ℕ)) (s : Sys W)
      → is_some (handle_xml_message p tools library callback_set get_content text s).0 ≡ true
  unfolding handle_xml_message handle_document handle_command_and_fill_response
  handle_xml_message-total library none s = refl
  handle_xml_message-total library (some text) s =
      elim (Option-cases (library.parse_memory text s.world).0) [
        | inl e ↦ rw (e) refl
        | inr (root, e) ↦
            let s₁ = record s { world = (library.parse_memory text s.world).1 } in
            let s₂ = record s₁ { world = (library.valid_message s₁.world).1 } in
            let parsed =
              parse_commands p tools callback_set get_content
                (commands_of (find_first_command_node root)) nothing_parsed s₂ in
            let ((ret, responses), d) =
              is_some→some {0} (execute_parsed p parsed.0 parsed.1).0
                (execute_parsed-is_some parsed.0 parsed.1) in
            rw (e, d) refl
      ]
