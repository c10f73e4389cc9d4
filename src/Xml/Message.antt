-- ===== src/Xml/Message.antt =====
-- One message and its response, `handleCommandAndFillResponse` and `handleXmlMessage` of
-- rootpa/Code/Common/xmlmessagehandler.c.
pub mod Complete
use Prim.Native.String.{String}
use tee_mobicore_driver_daem.Base.{
  ℕ, ◌*◌, Bool, true, false, List, [], ◌∷◌, ◌++◌, Option, none, some, if◌then◌else◌, ◌==◌, length,
  map,
}
use tee_mobicore_driver_daem.Cmp.{
  CmpMessage, CommonMessage, rootpa_ok, rootpa_error_out_of_memory, rootpa_error_illegal_argument,
  rootpa_error_xml,
}
use tee_mobicore_driver_daem.World.{Platform}
use tee_mobicore_driver_daem.State.{M, ◌>>=◌, ◌>>◌, pure, when◌then◌else◌, option, silently}
use tee_mobicore_driver_daem.ContentManager.Batch.{
  Pair, Outcome, execute_content_management_commands,
}
use tee_mobicore_driver_daem.Xml.Document.{Node, find_first_command_node, commands_of}
use tee_mobicore_driver_daem.Xml.Results.{
  Result, Tools, handle_cmp_responses, handle_upload_responses,
}
use tee_mobicore_driver_daem.Xml.Parse.{
  Parsed, nothing_parsed, counted, blank_message, sizeof_cmp_message, parse_commands,
}

-- The result, and the list of results in the response; `none` for no list.
pub record Filled : Type 0 where
  pub ret : ℕ
  pub results : Option (List Result)

-- Responses that are zero, beside their commands.
abbrev pub with_response : CmpMessage → Pair
with_response command = (command, record { length = 0; content = none; hdr = blank_message })

abbrev pub response_of : Pair → CmpMessage
response_of (command, response) = response

-- `if(ROOTPA_OK!=tmpRet) ret=tmpRet;`
abbrev pub last_error : ℕ → ℕ → ℕ
last_error tmp ret = if tmp == rootpa_ok then ret else tmp

-- Nothing can be added to a list that is NULL.
abbrev unlisted {ℓ} : {A : Type ℓ} → List A → ℕ
unlisted [] = rootpa_ok
unlisted (m ∷ ms) = rootpa_error_xml

module _ {W : Type 0} (p : Platform W) where
  -- The commands are executed if there is an array of them: the result, and the responses.
  unfoldable pub execute_parsed : Parsed → M W (Option (ℕ × List CmpMessage))
  execute_parsed x = option x.cmp_commands (pure (some (x.ret, []))) λ commands. do
    room ← silently (p.alloc (sizeof_cmp_message * length commands))
    when room
        then (do
          out ← execute_content_management_commands p (map with_response commands)
          option out (pure none)
              λ o. pure (some (last_error o.ret x.ret, map response_of o.messages)))
        else pure (some (rootpa_error_out_of_memory, []))

module _ {W : Type 0} (tools : Tools W) where
  -- The results of the commands, then those of the uploads.
  unfoldable pub fill_response : ℕ → List CmpMessage → List CommonMessage → M W Filled
  fill_response ret responses uploads =
      when ret == rootpa_error_out_of_memory
      then pure (record { ret = ret; results = none })
      else (do
        has_list ← silently tools.grows
        when has_list
            then (do
              (tmp, rs) ← handle_cmp_responses tools responses
              (tmp', rs') ← handle_upload_responses tools uploads
              pure (record {
                ret = last_error tmp' (last_error tmp ret);
                results = some (rs ++ rs');
              }))
            else pure (record {
              ret = last_error (unlisted uploads) (last_error (unlisted responses) ret);
              results = none;
            }))

module _ {W : Type 0} (p : Platform W) (tools : Tools W) (callback_set : Bool) where
  -- `none` when the batch of commands is out of fuel, which it never is.
  unfoldable pub handle_command_and_fill_response :
      (Node → Option String) → Option Node → M W (Option Filled)
  handle_command_and_fill_response get_content root = do
    x ←
        parse_commands p tools callback_set get_content (commands_of (find_first_command_node root))
          nothing_parsed
    done ← execute_parsed p x
    option done (pure none) λ d. do
      let (ret, responses) = d
      filled ← fill_response tools ret responses (counted x.upload_commands)
      pure (some filled)

-- What `handleXmlMessage` asks of libxml2: to parse a text to a document's root, to validate a
-- message, and to validate and print a response with these results.
pub record Library (W : Type 0) : Type 0 where
  pub parse_memory : List ℕ → W → Option (Option Node) × W
  pub valid_message : W → Bool × W
  pub dump_response : Option (List Result) → W → Option (List ℕ) × W

module _ {W : Type 0} (p : Platform W) (tools : Tools W) (library : Library W) (callback_set : Bool)
    (get_content : Node → Option String) where
  -- With the document: a message that is not valid is handled too.
  unfoldable pub handle_document : Option Node → M W (Option (ℕ × Option (List ℕ)))
  handle_document root = do
    valid ← silently library.valid_message
    filled ← handle_command_and_fill_response p tools callback_set get_content root
    option filled (pure none) λ f. do
      response ← silently (library.dump_response f.results)
      pure (some (last_error f.ret (if valid then rootpa_ok else rootpa_error_xml), response))

  unfoldable pub handle_xml_message : Option (List ℕ) → M W (Option (ℕ × Option (List ℕ)))
  handle_xml_message none = pure (some (rootpa_error_illegal_argument, none))
  handle_xml_message (some text) = do
    document ← silently (library.parse_memory text)
    option document (pure (some (rootpa_error_xml, none))) handle_document
