-- ===== src/Xml/Results.antt =====
-- The results that rootpa/Code/Common/xmlmessagehandler.c writes.
pub mod Listed
use Prim.Native.String.{String}
use tee_mobicore_driver_daem.Base.{
  ℕ, ◌+◌, Bool, true, false, ◌&&◌, ◌||◌, not, List, [], ◌∷◌, Option, none, some, if◌then◌else◌,
  ◌==◌,
}
use tee_mobicore_driver_daem.Cmp.{
  CmpMessage, CommonMessage, rootpa_ok, rootpa_command_not_supported, rootpa_error_lock,
  rootpa_error_command_execution, rootpa_error_registry, rootpa_error_mobicore_connection,
  rootpa_error_out_of_memory, rootpa_error_internal, rootpa_error_xml,
  rootpa_error_registry_object_not_available,
}
use tee_mobicore_driver_daem.State.{M, ◌>>=◌, ◌>>◌, pure, when◌then◌else◌, silently}

unfoldable pub error_code_to_string : ℕ → String
error_code_to_string code =
    if code == rootpa_command_not_supported
    then "COMMAND_NOT_SUPPORTED_ERROR"
    else if code == rootpa_error_lock
    then "BUSY_ERROR"
    else if code == rootpa_error_registry
    then "REGISTRY_ERROR"
    else if code == rootpa_error_mobicore_connection
    then "MOBICORE_CONNECTION_ERROR"
    else if code == rootpa_error_out_of_memory
    then "OUT_OF_MEMORY_ERROR"
    else if code == rootpa_error_internal
    then "INTERNAL_ERROR"
    else if code == rootpa_error_xml
    then "XML_ERROR"
    else if code == rootpa_error_registry_object_not_available
    then "REGISTRY_OBJECT_NOT_AVAILABLE"
    else "INTERNAL_ERROR"

-- A `commandResult`, as far as it was written: its id, its value, or its error with a detail.
pub record Result : Type 0 where
  pub id : Option ℕ
  pub value : Option String
  pub error : Option String
  pub detail : Option ℕ

abbrev pub empty_result : Result
empty_result = record { id = none; value = none; error = none; detail = none }

-- base64, `xmlNodeGetContent`, and whether libxml2 has memory for the next node or attribute.
pub record Tools (W : Type 0) : Type 0 where
  pub decode : String → ℕ × Option (List ℕ)
  pub encode : List ℕ → ℕ → Option String
  pub grows : W → Bool × W

abbrev pub cons_result : Option Result → List Result → List Result
cons_result none rs = rs
cons_result (some r) rs = r ∷ rs

-- Is the list of results cut off behind this one?
abbrev pub cuts : ℕ → Bool → Bool
cuts ret ignore_error = not (ret == rootpa_ok) && not ignore_error

module _ {W : Type 0} (tools : Tools W) where
  abbrev grow : M W Bool
  grow = silently tools.grows

  -- The error, with a detail that is not 0.
  unfoldable pub add_error : ℕ → ℕ → Result → M W (Bool × Result)
  add_error code detail r = do
    has_node ← grow
    when has_node
        then (do
          has_code ← grow
          let r' = record r { error = some (error_code_to_string code) }
          when has_code
              then (when detail == 0 then pure (true, r') else (do
                has_detail ← grow
                when has_detail
                    then pure (true, record r' { detail = some detail })
                    else pure (false, r')))
              else pure (false, r))
        else pure (false, r)

  -- The value, or the error when there is none.
  unfoldable pub add_rest : Option String → ℕ → ℕ → Result → M W (Bool × Option Result)
  add_rest none code detail r = do (ok, r') ← add_error code detail r; pure (ok, some r')
  add_rest (some value) code detail r = do
    has_value ← grow
    when has_value
        then pure (true, some (record r { value = some value }))
        else pure (false, some r)

  -- The result that was added, `none` for none, and whether all of it was.
  unfoldable pub add_command_result_data : ℕ → Option String → ℕ → ℕ → M W (Bool × Option Result)
  add_command_result_data id result code detail = do
    has_node ← grow
    when has_node
        then (do
          has_id ← grow
          let r = record empty_result { id = some id }
          when has_id then add_rest result code detail r else pure (false, some empty_result))
        else pure (false, none)

  -- What a response carries, and the response and the result after a failure of base64.
  unfoldable pub encode_response : CmpMessage → Option String × (ℕ × ℕ)
  encode_response m =
      let ret = m.hdr.ret in
      if (ret == rootpa_error_command_execution) || (ret == rootpa_ok)
      then elim m.content [
        | none ↦ (none, (ret, rootpa_ok))
        | some bytes ↦ elim (tools.encode bytes m.length) [
          | none ↦ (
            none,
            (
              rootpa_error_internal,
              (if m.hdr.ignore_error then rootpa_ok else rootpa_error_internal),
            ),
          )
          | some text ↦ (some text, (ret, rootpa_ok))
        ]
      ]
      else (none, (ret, rootpa_ok))

  -- The loop over the responses: its result, and the results that were added.
  unfoldable pub handle_cmp_responses : List CmpMessage → M W (ℕ × List Result)
  handle_cmp_responses [] = pure (rootpa_ok, [])
  handle_cmp_responses (m ∷ ms) = do
    let (text, (ret, error)) = encode_response m
    (ok, added) ← add_command_result_data m.hdr.id text ret m.hdr.int_ret
    let error' = if ok then error else rootpa_error_xml
    when cuts ret m.hdr.ignore_error || not (error' == rootpa_ok)
        then pure (error', cons_result added [])
        else (do (error'', rs) ← handle_cmp_responses ms; pure (error'', cons_result added rs))

  -- "0" in base64 for an upload that went well.
  abbrev pub encode_upload : CommonMessage → Option String
  encode_upload m = if m.ret == rootpa_ok then tools.encode (0 ∷ []) 1 else none

  unfoldable pub handle_upload_responses : List CommonMessage → M W (ℕ × List Result)
  handle_upload_responses [] = pure (rootpa_ok, [])
  handle_upload_responses (m ∷ ms) = do
    (ok, added) ← add_command_result_data m.id (encode_upload m) m.ret m.int_ret
    let error = if ok then rootpa_ok else rootpa_error_xml
    when cuts m.ret m.ignore_error || not (error == rootpa_ok)
        then pure (error, cons_result added [])
        else (do (error', rs) ← handle_upload_responses ms; pure (error', cons_result added rs))
