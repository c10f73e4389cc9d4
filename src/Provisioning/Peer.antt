-- ===== src/Provisioning/Peer.antt =====
-- What `doProvisioningWithSe` of rootpa/Code/Common/provisioningengine.c calls, its variables, and
-- the relations.
use tee_mobicore_driver_daem.Base.{
  ℕ, ◌+◌, Bool, false, ◌&&◌, not, List, [], ◌∷◌, ◌++◌, Option, none, some, if◌then◌else◌, is_some,
}
use tee_mobicore_driver_daem.State.{ProvisioningState, error_state}
use tee_mobicore_driver_daem.Xml.Requests.{OsInfo, McVersionInfo}
use tee_mobicore_driver_daem.SeClient.Text.{as_is, str_str}
use tee_mobicore_driver_daem.SeClient.Communicate.{HttpMethod, Exchange, refused, failed, answered}
use tee_mobicore_driver_daem.Provisioning.Memory.{
  Pointer, Memory, null, allocate, initial_post_text, initial_delete_text,
}

-- What the loop calls: one of the four requests with the response to send and the link, the XML
-- messages, the callbacks of the application, and `setCallbackP`.
pub record Peer (W : Type 0) : Type 0 where
  pub exchange : HttpMethod → Option (List ℕ) → Option (List ℕ) → W → Option (Exchange × W)
  pub handle_xml_message : Option (List ℕ) → W → (ℕ × Option (List ℕ)) × W
  pub get_sys_info : W → (ℕ × OsInfo) × W
  pub get_version : W → (ℕ × McVersionInfo) × W
  pub build_xml_system_info : McVersionInfo → OsInfo → W → (ℕ × Option (List ℕ)) × W
  pub set_callback : Bool → W → W

-- The variables of the function. `reports` has the calls of `callbackP`, the newest first.
pub record Loop (W : Type 0) : Type 0 where
  pub world : W
  pub memory : Memory
  pub link : Pointer
  pub rel : Pointer
  pub command : Pointer
  pub pending_link : Pointer
  pub pending_rel : Pointer
  pub used_link : Pointer
  pub used_rel : Pointer
  pub used_command : Pointer
  pub response : Option (List ℕ)
  pub ret : ℕ
  pub tmp_ret : ℕ
  pub work_to_do : Bool
  pub reports : List (ProvisioningState × ℕ)

-- The relations that the loop knows, in the order of its tests.
pub data Relation : Type 0 where
  relation_self relation_system_info relation_initial_delete relation_initial_post : Relation
  relation_result relation_next relation_other : Relation

-- "relation/self"
abbrev pub self_text : List ℕ
self_text = 114 ∷ 101 ∷ 108 ∷ 97 ∷ 116 ∷ 105 ∷ 111 ∷ 110 ∷ 47 ∷ 115 ∷ 101 ∷ 108 ∷ 102 ∷ []

-- "relation/system_info"
abbrev pub system_info_text : List ℕ
system_info_text =
    114 ∷ 101 ∷ 108 ∷ 97 ∷ 116 ∷ 105 ∷ 111 ∷ 110 ∷ 47 ∷ 115 ∷ 121 ∷ 115 ∷ 116 ∷ 101 ∷ 109 ∷ 95 ∷ 105
    ∷ 110 ∷ 102 ∷ 111 ∷ []

-- "relation/command_result"
abbrev pub result_text : List ℕ
result_text =
    114 ∷ 101 ∷ 108 ∷ 97 ∷ 116 ∷ 105 ∷ 111 ∷ 110 ∷ 47 ∷ 99 ∷ 111 ∷ 109 ∷ 109 ∷ 97 ∷ 110 ∷ 100 ∷ 95
    ∷ 114 ∷ 101 ∷ 115 ∷ 117 ∷ 108 ∷ 116 ∷ []

-- "relation/next"
abbrev pub next_text : List ℕ
next_text = 114 ∷ 101 ∷ 108 ∷ 97 ∷ 116 ∷ 105 ∷ 111 ∷ 110 ∷ 47 ∷ 110 ∷ 101 ∷ 120 ∷ 116 ∷ []

-- `strstr` of a text and the zero behind it.
abbrev pub contains : List ℕ → List ℕ → Bool
contains word text = elim (str_str as_is word (text ++ (0 ∷ []))) [
  | none ↦ false
  | some found ↦ is_some found
]

unfoldable pub relation_of : List ℕ → Relation
relation_of text =
    if contains self_text text
    then relation_self
    else if contains system_info_text text
    then relation_system_info
    else if contains initial_delete_text text
    then relation_initial_delete
    else if contains initial_post_text text
    then relation_initial_post
    else if contains result_text text
    then relation_result
    else if contains next_text text
    then relation_next
    else relation_other

abbrev pub result_of : Exchange → ℕ
result_of (refused r) = r
result_of (failed r) = r
result_of (answered r link rel command) = r

module _ {W : Type 0} where
  -- `callbackP(ERROR_STATE, ret, NULL)`, and the end of the loop or not.
  abbrev pub fail : Bool → Loop W → Loop W
  fail stop s = record s {
    reports = (error_state, s.ret) ∷ s.reports;
    work_to_do = s.work_to_do && not stop;
  }

  -- What an exchange does to the three pointers.
  unfoldable pub take_answer : Exchange → Loop W → Loop W
  take_answer (refused r) s = s
  take_answer (failed r) s = record s { rel = null; command = null }
  take_answer (answered r link rel command) s =
      let a = s.memory.next in
      record s {
        memory = record s.memory { next = a + 3 };
        link = allocate link a;
        rel = allocate rel (a + 1);
        command = allocate command (a + 2);
      }

  -- The pointers before the next request, for RELATION_SELF.
  abbrev pub keep_used : Loop W → Loop W
  keep_used s = record s { used_link = s.link; used_rel = s.rel; used_command = s.command }
