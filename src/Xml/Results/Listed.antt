-- ===== src/Xml/Results/Listed.antt =====
-- Which results rootpa/Code/Common/xmlmessagehandler.c writes: those of the responses up to the
-- first error that is not to be ignored.
use Prim.Native.String.{String}
use tee_mobicore_driver_daem.Base.{
  ℕ, ◌≡◌, refl, Bool, true, ◌||◌, List, [], ◌∷◌, map, Option, none, some, if◌then◌else◌, ◌==◌,
  Bool-cases, Option-cases, inl, inr,
}
use tee_mobicore_driver_daem.Cmp.{
  CmpMessage, CommonMessage, rootpa_ok, rootpa_error_command_execution,
}
use tee_mobicore_driver_daem.State.{Sys, when◌then◌else◌}
use tee_mobicore_driver_daem.Xml.Results.{
  Result, Tools, empty_result, error_code_to_string, cuts, add_error, add_rest,
  add_command_result_data, encode_response, encode_upload, handle_cmp_responses,
  handle_upload_responses,
}

-- The messages up to the first that cuts the list off, that one included.
abbrev pub up_to {ℓ} : {A : Type ℓ} → (A → Bool) → List A → List A
up_to cut [] = []
up_to cut (m ∷ ms) = let more = up_to cut ms in m ∷ (if cut m then [] else more)

-- A value, or an error with a detail that is not 0.
abbrev pub result_for : ℕ → Option String → ℕ → ℕ → Result
result_for id none code detail = record {
  id = some id;
  value = none;
  error = some (error_code_to_string code);
  detail = if detail == 0 then none else some detail;
}
result_for id (some value) code detail = record {
  id = some id;
  value = some value;
  error = none;
  detail = none;
}

module _ (encoded : List ℕ → ℕ → String) where
  -- The content of a response that did not fail outside the trustlet.
  abbrev pub value_of : CmpMessage → Option String
  value_of m =
      if (m.hdr.ret == rootpa_error_command_execution) || (m.hdr.ret == rootpa_ok)
      then elim m.content [ none ↦ none | some bytes ↦ some (encoded bytes m.length) ]
      else none

  abbrev pub cmp_result : CmpMessage → Result
  cmp_result m = result_for m.hdr.id (value_of m) m.hdr.ret m.hdr.int_ret

  abbrev pub upload_result : CommonMessage → Result
  upload_result m =
      result_for m.id (if m.ret == rootpa_ok then some (encoded (0 ∷ []) 1) else none) m.ret
        m.int_ret

abbrev pub cmp_cuts : CmpMessage → Bool
cmp_cuts m = cuts m.hdr.ret m.hdr.ignore_error

abbrev pub upload_cuts : CommonMessage → Bool
upload_cuts m = cuts m.ret m.ignore_error

module _ {W : Type 0} (tools : Tools W) (encoded : List ℕ → ℕ → String)
    (encodes : (bytes : List ℕ) (n : ℕ) → tools.encode bytes n ≡ some (encoded bytes n))
    (grows : (w : W) → (tools.grows w).0 ≡ true) where
  add_error-eq :
      (code detail : ℕ) (r : Result) (s : Sys W)
      → (add_error tools code detail r s).0 ≡ (
        true,
        record r {
          error = some (error_code_to_string code);
          detail = if detail == 0 then r.detail else some detail;
        },
      )
  unfolding add_error
  add_error-eq code detail r s =
      let w₁ = (tools.grows s.world).1 in
      let w₂ = (tools.grows w₁).1 in
      elim (Bool-cases (detail == 0)) [
        | inl z ↦ rw (grows s.world, grows w₁, z) refl
        | inr z ↦ rw (grows s.world, grows w₁, z, grows w₂) refl
      ]

  add_command_result_data-eq :
      (id : ℕ) (text : Option String) (code detail : ℕ) (s : Sys W)
      → (add_command_result_data tools id text code detail s).0
        ≡ (true, some (result_for id text code detail))
  unfolding add_command_result_data add_rest
  add_command_result_data-eq id none code detail s =
      let w₁ = (tools.grows s.world).1 in
      let w₂ = (tools.grows w₁).1 in
      rw
        (
          grows s.world,
          grows w₁,
          add_error-eq code detail (record empty_result { id = some id }) (record s { world = w₂ }),
        )
        refl
  add_command_result_data-eq id (some value) code detail s =
      let w₁ = (tools.grows s.world).1 in
      let w₂ = (tools.grows w₁).1 in rw (grows s.world, grows w₁, grows w₂) refl

  encode_response-eq :
      (m : CmpMessage) → encode_response tools m ≡ (value_of encoded m, (m.hdr.ret, rootpa_ok))
  unfolding encode_response
  encode_response-eq m =
      elim (Bool-cases
        ((m.hdr.ret == rootpa_error_command_execution) || (m.hdr.ret == rootpa_ok))) [
          | inr other ↦ rw (other) refl
          | inl answered ↦ elim (Option-cases m.content) [
            | inl c ↦ rw (answered, c) refl
            | inr (bytes, c) ↦ rw (answered, c, encodes bytes m.length) refl
          ]
        ]

  pub handle_cmp_responses-eq :
      (ms : List CmpMessage) (s : Sys W)
      → (handle_cmp_responses tools ms s).0
        ≡ (rootpa_ok, map (cmp_result encoded) (up_to cmp_cuts ms))
  unfolding handle_cmp_responses
  handle_cmp_responses-eq [] s = refl
  handle_cmp_responses-eq (m ∷ ms) s =
      let added =
        add_command_result_data-eq m.hdr.id (value_of encoded m) m.hdr.ret m.hdr.int_ret s in
      elim (Bool-cases (cmp_cuts m)) [
        | inl cut ↦ rw (encode_response-eq m, added, cut) refl
        | inr on ↦ rw (encode_response-eq m, added, on, handle_cmp_responses-eq ms _) refl
      ]

  pub handle_upload_responses-eq :
      (ms : List CommonMessage) (s : Sys W)
      → (handle_upload_responses tools ms s).0
        ≡ (rootpa_ok, map (upload_result encoded) (up_to upload_cuts ms))
  unfolding handle_upload_responses
  handle_upload_responses-eq [] s = refl
  handle_upload_responses-eq (m ∷ ms) s =
      let text = if m.ret == rootpa_ok then some (encoded (0 ∷ []) 1) else none in
      let value : encode_upload tools m ≡ text = rw (encodes (0 ∷ []) 1) refl in
      let added = add_command_result_data-eq m.id text m.ret m.int_ret s in
      elim (Bool-cases (upload_cuts m)) [
        | inl cut ↦ rw (value, added, cut) refl
        | inr on ↦ rw (value, added, on, handle_upload_responses-eq ms _) refl
      ]
