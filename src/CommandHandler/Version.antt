-- ===== src/CommandHandler/Version.antt =====
-- `getVersion` and `getSuid` of rootpa/Code/Common/commandhandler.c: one command to the content
-- management trustlet, and a part of its response.
pub mod Written
use tee_mobicore_driver_daem.Base.{
  ℕ, List, [], ◌∷◌, Bool, false, true, ◌&&◌, Option, none, some, if◌then◌else◌, ◌==◌, slice,
  read_u32, not,
}
use tee_mobicore_driver_daem.Cmp.{
  CmpMessage, rootpa_ok, rootpa_error_internal, rootpa_error_out_of_memory,
}
use tee_mobicore_driver_daem.World.{Platform}
use tee_mobicore_driver_daem.State.{M, when◌then◌else◌, option, ◌>>=◌, pure, silently}
use tee_mobicore_driver_daem.Registry.{bytes_at}
use tee_mobicore_driver_daem.ContentManager.Batch.{
  Pair, Outcome, execute_content_management_commands,
}

-- `memset(&command,0,sizeof(CmpMessage))`
abbrev pub zero_message : CmpMessage
zero_message = record {
  length = 0;
  content = none;
  hdr = record { ignore_error = false; ret = 0; int_ret = 0; id = 0 };
}

-- A command of four bytes, its id.
abbrev pub id_only : ℕ → CmpMessage
id_only id = record zero_message { length = 4; content = some (id ∷ 0 ∷ 0 ∷ 0 ∷ []) }

-- The response of a batch of one.
abbrev pub only_response : List Pair → CmpMessage
only_response [] = zero_message
only_response ((_, response) ∷ _) = response

-- sizeof(cmpRspGetVersion_t), sizeof(cmpRspGetSuid_t)
abbrev pub sizeof_version_response : ℕ
sizeof_version_response = 108

abbrev pub sizeof_suid_response : ℕ
sizeof_suid_response = 24

abbrev cmp_version_tag2 : ℕ
cmp_version_tag2 = 2

-- A result, the tag and the version information, as far as they are written.
pub record VersionAnswer : Type 0 where
  pub ret : ℕ
  pub tag : Option ℕ
  pub version : Option (List ℕ)

abbrev no_version : ℕ → VersionAnswer
no_version ret = record { ret = ret; tag = none; version = none }

-- A result, and the SUID, if it is written.
pub record SuidAnswer : Type 0 where
  pub ret : ℕ
  pub suid : Option (List ℕ)

abbrev no_suid : ℕ → SuidAnswer
no_suid ret = record { ret = ret; suid = none }

-- `ROOTPA_OK==ret && 0 == internalError`
abbrev succeeded : Outcome → Bool
succeeded out = (out.ret == rootpa_ok) && (out.internal_error == 0)

unfoldable pub version_of : CmpMessage → VersionAnswer
version_of response =
    if not (response.length == sizeof_version_response)
    then no_version rootpa_error_internal
    else let tag : ℕ = read_u32 (bytes_at response.content) 8 in
      if tag == cmp_version_tag2
      then record {
        ret = rootpa_ok;
        tag = some tag;
        version = some (slice 12 96 (bytes_at response.content));
      }
      else record { ret = rootpa_error_internal; tag = some tag; version = none }

unfoldable pub suid_of : CmpMessage → SuidAnswer
suid_of response =
    if not (response.length == sizeof_suid_response)
    then no_suid rootpa_error_internal
    else record { ret = rootpa_ok; suid = some (slice 8 16 (bytes_at response.content)) }

-- With an internal error and the result ROOTPA_OK nothing is written.
unfoldable pub version_answer : Outcome → VersionAnswer
version_answer out =
    if succeeded out then version_of (only_response out.messages) else no_version out.ret

unfoldable pub suid_answer : Outcome → SuidAnswer
suid_answer out = if succeeded out then suid_of (only_response out.messages) else no_suid out.ret

module _ {W : Type 0} (p : Platform W) where
  -- `none` is what no run gives: the batch always ends.
  unfoldable pub get_version : M W (Option VersionAnswer)
  get_version = do
    memory ← silently (p.alloc 4)
    when memory
        then (do
          out? ← execute_content_management_commands p ((id_only 5, zero_message) ∷ [])
          option out? (pure none) (λ out. pure (some (version_answer out))))
        else pure (some (no_version rootpa_error_out_of_memory))

  unfoldable pub get_suid : M W (Option SuidAnswer)
  get_suid = do
    memory ← silently (p.alloc 4)
    when memory
        then (do
          out? ← execute_content_management_commands p ((id_only 27, zero_message) ∷ [])
          option out? (pure none) (λ out. pure (some (suid_answer out))))
        else pure (some (no_suid rootpa_error_out_of_memory))
