-- ===== src/Tests/Messages.antt =====
-- The theorems about messages of the service enabler at concrete inputs.
use Prim.Native.String.{String}
use tee_mobicore_driver_daem.Base.{
  ℕ, ◌≡◌, refl, true, false, List, [], ◌∷◌, ◌++◌, Option, none, some, if◌then◌else◌, ◌==◌, map,
}
use tee_mobicore_driver_daem.Cmp.{
  CommonMessage, rootpa_ok, rootpa_error_registry, rootpa_error_out_of_memory,
}
use tee_mobicore_driver_daem.Xml.Document.{
  Node, element, Nodes, cmp, end, node, get_values, get_command_type, get_command_value,
}
use tee_mobicore_driver_daem.Xml.Results.{Tools}
use tee_mobicore_driver_daem.Xml.Results.Listed.{
  up_to, cmp_cuts, upload_cuts, cmp_result, upload_result,
}
use tee_mobicore_driver_daem.Xml.Parse.{nothing_parsed, parse_commands}
use tee_mobicore_driver_daem.Xml.Message.{fill_response}
use tee_mobicore_driver_daem.Xml.Message.Complete.{fill_response-eq, parse_commands-valueless}
use tee_mobicore_driver_daem.Tests.Platforms.{World, working, idle, message}

abbrev encoded : List ℕ → ℕ → String
encoded bytes n = "AA=="

abbrev tools : Tools World
tools = record {
  decode = λ text. (1, some (7 ∷ []));
  encode = λ bytes n. some "AA==";
  grows = λ w. (true, w);
}

-- One that went well, one that failed, and one behind it.
abbrev uploads : List CommonMessage
uploads =
    record { ignore_error = false; ret = rootpa_ok; int_ret = 0; id = 3 }
    ∷ record { ignore_error = false; ret = rootpa_error_registry; int_ret = 5; id = 4 }
    ∷ record { ignore_error = false; ret = rootpa_ok; int_ret = 0; id = 5 }
    ∷ []

fill_response-eq_example :
    (fill_response tools rootpa_ok (message 2 (some (1 ∷ 2 ∷ [])) false ∷ []) uploads idle).0 ≡ (
      if rootpa_ok == rootpa_error_out_of_memory
      then record { ret = rootpa_ok; results = none }
      else record {
        ret = rootpa_ok;
        results = some (
            map (cmp_result encoded) (up_to cmp_cuts (message 2 (some (1 ∷ 2 ∷ [])) false ∷ []))
            ++ map (upload_result encoded) (up_to upload_cuts uploads));
      })
fill_response-eq_example =
    fill_response-eq tools encoded (λ bytes n. refl) (λ w. refl) rootpa_ok
      (message 2 (some (1 ∷ 2 ∷ [])) false ∷ []) uploads idle

abbrev command_of : Nodes → Node
command_of children = element "command" (("id", "1") ∷ ("type", "CMP") ∷ []) children

abbrev text_content : Node → Option String
text_content n = some "AA=="

valueless-type : (get_values text_content (command_of end)).command_type ≡ cmp
unfolding get_values get_command_type
valueless-type = refl

valueless-value : (get_values text_content (command_of end)).value ≡ none
unfolding get_values get_command_value
valueless-value = refl

abbrev with_value : Node
with_value = command_of (node (element "commandValue" [] end) end)

parse_commands-valueless_example :
    (parse_commands working tools true text_content
      (command_of end ∷ with_value ∷ [])
      nothing_parsed
      idle).0
    ≡ record { ret = rootpa_error_out_of_memory; cmp_commands = some []; upload_commands = none }
parse_commands-valueless_example =
    parse_commands-valueless working tools true text_content (command_of end) (with_value ∷ []) idle
      valueless-type valueless-value refl
