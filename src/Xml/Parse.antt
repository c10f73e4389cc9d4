-- ===== src/Xml/Parse.antt =====
-- The commands of a message, as rootpa/Code/Common/xmlmessagehandler.c collects them; uploads run
-- while it does. `uploadTrustlet` of rootpa/Code/Common/provisioningengine.c is among them.
use Prim.Native.String.{String}
use tee_mobicore_driver_daem.Base.{
  ℕ, ◌+◌, ◌*◌, Bool, true, false, ◌&&◌, ◌||◌, not, List, [], ◌∷◌, ◌++◌, Option, none, some,
  if◌then◌else◌, ◌==◌, length,
}
use tee_mobicore_driver_daem.Cmp.{
  CmpMessage, CommonMessage, rootpa_ok, rootpa_command_not_supported, rootpa_error_out_of_memory,
  rootpa_error_internal, rootpa_error_xml,
}
use tee_mobicore_driver_daem.World.{Platform}
use tee_mobicore_driver_daem.State.{
  M, ◌>>=◌, pure, when◌then◌else◌, option, silently, callback, provisioning_state_install_trustlet,
}
use tee_mobicore_driver_daem.ContentManager.Session.{upload_so}
use tee_mobicore_driver_daem.Xml.Document.{
  Node, CommandType, cmp, so_upload, tlt_upload, unknown_type, Values, get_values,
}
use tee_mobicore_driver_daem.Xml.Results.{Tools}

-- The arrays of commands, NULL or as many as are counted, and the result so far.
pub record Parsed : Type 0 where
  pub ret : ℕ
  pub cmp_commands : Option (List CmpMessage)
  pub upload_commands : Option (List CommonMessage)

abbrev pub nothing_parsed : Parsed
nothing_parsed = record { ret = rootpa_ok; cmp_commands = none; upload_commands = none }

abbrev pub counted {ℓ} : {A : Type ℓ} → Option (List A) → List A
counted none = []
counted (some ms) = ms

abbrev pub blank_message : CommonMessage
blank_message = record { ignore_error = false; ret = rootpa_ok; int_ret = 0; id = 0 }

-- sizeof(CmpMessage) and sizeof(CommonMessage), on a platform with pointers of four bytes.
abbrev pub sizeof_cmp_message : ℕ
sizeof_cmp_message = 24

abbrev sizeof_common_message : ℕ
sizeof_common_message = 16

abbrev bytes_of : Option (List ℕ) → List ℕ
bytes_of none = []
bytes_of (some bytes) = bytes

abbrev is_empty {ℓ} : {A : Type ℓ} → Option (List A) → Bool
is_empty none = true
is_empty (some []) = true
is_empty (some (m ∷ ms)) = false

abbrev out_when_empty : Bool → ℕ → ℕ
out_when_empty empty ret = if empty then rootpa_error_out_of_memory else ret

-- Did the last upload fail?
abbrev last_failed : List CommonMessage → Bool
last_failed [] = false
last_failed (m ∷ ms) =
    let later = last_failed ms in elim ms [ [] ↦ not (m.ret == rootpa_ok) | m' ∷ ms' ↦ later ]

abbrev is_cmp : CommandType → Bool
is_cmp cmp = true
is_cmp so_upload = false
is_cmp tlt_upload = false
is_cmp unknown_type = false

-- Does the loop end behind this command?
abbrev stops_at : Values → Parsed → Bool
stops_at v x =
    (x.ret == rootpa_error_out_of_memory)
    || (not (is_cmp v.command_type)
        && (not v.ignore_error && last_failed (counted x.upload_commands)))

-- `callbackP_` of provisioningengine.c is set or not.
module _ {W : Type 0} (p : Platform W) (tools : Tools W) (callback_set : Bool) where
  -- The array behind a command, which is not counted if it has no value.
  unfoldable pub extract_cmp_command :
      Option (List CmpMessage) → Values → M W (Option (List CmpMessage))
  extract_cmp_command commands v = do
    grown ← silently (p.alloc (sizeof_cmp_message * (length (counted commands) + 1)))
    when grown
        then pure (
            some (elim v.value [
              | none ↦ counted commands
              | some text ↦
                  let (size, bytes) = tools.decode text in
                  counted commands
                  ++ (record {
                    length = size;
                    content = bytes;
                    hdr = record blank_message { id = v.id; ignore_error = v.ignore_error };
                  }
                      ∷ [])
            ]))
        else pure (if v.ignore_error then commands else none)

  -- `uploadTrustlet`
  unfoldable pub upload_trustlet : M W ℕ
  upload_trustlet s =
      if callback_set
      then (rootpa_ok, record s { log = callback provisioning_state_install_trustlet ∷ s.log })
      else (rootpa_command_not_supported, s)

  -- The result and the detail of an upload of these bytes.
  unfoldable pub run_upload : CommandType → Option (List ℕ) → M W (ℕ × ℕ)
  run_upload tlt_upload bytes = do ret ← upload_trustlet; pure (ret, 0)
  run_upload so_upload bytes = upload_so p (bytes_of bytes)
  run_upload _ bytes = pure (rootpa_error_internal, 0)

  -- One upload, run, and the array with its result.
  unfoldable pub handle_upload_command :
      Option (List CommonMessage) → Values → M W (Option (List CommonMessage))
  handle_upload_command commands v = do
    grown ← silently (p.alloc (sizeof_common_message * (length (counted commands) + 1)))
    when grown
        then (option v.value
            (pure
              (some (counted commands ++ (record blank_message { ret = rootpa_error_xml } ∷ []))))
            λ text. do
              (ret, int_ret) ← run_upload v.command_type (tools.decode text).1
              pure (
                  some (
                    counted commands
                    ++ (record {
                      ignore_error = v.ignore_error;
                      ret = ret;
                      int_ret = int_ret;
                      id = v.id;
                    }
                        ∷ []))))
        else pure (if v.ignore_error then commands else none)

  -- The switch over the type of the command.
  unfoldable pub dispatch : Values → CommandType → Parsed → M W Parsed
  dispatch v cmp x = do
    commands ← extract_cmp_command x.cmp_commands v
    pure (record x { cmp_commands = commands; ret = out_when_empty (is_empty commands) x.ret })
  dispatch v so_upload x = do
    commands ← handle_upload_command x.upload_commands v
    pure (record x { upload_commands = commands; ret = out_when_empty (is_empty commands) x.ret })
  dispatch v tlt_upload x = do
    commands ← handle_upload_command x.upload_commands v
    pure (record x { upload_commands = commands; ret = out_when_empty (is_empty commands) x.ret })
  dispatch v unknown_type x = pure x

  -- The loop over the commands.
  unfoldable pub parse_commands : (Node → Option String) → List Node → Parsed → M W Parsed
  parse_commands get_content [] x = pure x
  parse_commands get_content (n ∷ ns) x =
      let v = get_values get_content n in
      do
        x' ← dispatch v v.command_type x
        when stops_at v x' then pure x' else parse_commands get_content ns x'
