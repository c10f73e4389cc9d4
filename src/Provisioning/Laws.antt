-- ===== src/Provisioning/Laws.antt =====
-- What the loop of rootpa/Code/Common/provisioningengine.c relies on, and what holds of its
-- pointers between the rounds.
use tee_mobicore_driver_daem.Base.{
  ℕ, ◌+◌, ◌≤◌, ◌<◌, ◌≡◌, ◌⊎◌, Bool, true, false, not, List, [], ◌∷◌, Option, none, some,
  if◌then◌else◌, ◌==◌,
}
use tee_mobicore_driver_daem.Cmp.{
  rootpa_ok, rootpa_error_illegal_argument, rootpa_error_network,
  rootpa_error_registry_object_not_available,
}
use tee_mobicore_driver_daem.State.{ProvisioningState, error_state, finished_provisioning}
use tee_mobicore_driver_daem.SeClient.Communicate.{HttpMethod, Exchange, refused, failed, answered}
use tee_mobicore_driver_daem.SeClient.Communicate.{HasInput}
use tee_mobicore_driver_daem.Provisioning.Memory.{
  Pointer, null, initial_post, initial_delete, block, initial_post_text, initial_delete_text,
  is_null,
}
use tee_mobicore_driver_daem.Xml.Requests.{OsInfo, McVersionInfo}
use tee_mobicore_driver_daem.Provisioning.Peer.{Peer, Loop, self_text, contains}
use tee_mobicore_driver_daem.Provisioning.Owned.{owned, mallocated, address}

-- No relation, or another than `relation/self`.
abbrev pub no_self : Option (List ℕ) → Bool
no_self none = true
no_self (some text) = not (contains self_text text)

-- What is left of a budget after an exchange: an answer that asks for another one costs some of it.
abbrev pub Spends : Option (List ℕ) → ℕ → ℕ → Type 0
Spends none old new = new ≤ old
Spends (some rel) old new = new < old

-- One exchange as the server and the client of it behave: it does not answer `relation/self`.
pub data Tame {W : Type 0} (budget : W → ℕ) (w : W) (r : Option (Exchange × W)) : Type 0 where
  tame_refused :
      (w' : W)
      → r ≡ some (refused rootpa_error_illegal_argument, w')
      → budget w' ≤ budget w
      → Tame budget w r
  tame_failed :
      (w' : W) → r ≡ some (failed rootpa_error_network, w') → budget w' ≤ budget w → Tame budget w r
  tame_answered :
      (status : ℕ) (link rel : Option (List ℕ)) (command : List ℕ) (w' : W)
      → r ≡ some (answered status link rel (some command), w')
      → (status == rootpa_error_registry_object_not_available) ≡ false
      → no_self rel ≡ true
      → Spends rel (budget w) (budget w')
      → Tame budget w r

-- The laws of the peer, for a server that asks for a bounded number of exchanges.
pub record Lawful {W : Type 0} (peer : Peer W) (budget : W → ℕ) : Type 0 where
  pub exchange_tame :
      (method : HttpMethod) (input link : Option (List ℕ)) (w : W)
      → HasInput method input
      → Tame budget w (peer.exchange method input link w)
  pub handle_xml_budget :
      (command : Option (List ℕ)) (w : W)
      → budget
          (peer.set_callback false (peer.handle_xml_message command (peer.set_callback true w)).1)
        ≤ budget w
  pub system_info_budget :
      (version : McVersionInfo) (info : OsInfo) (w : W)
      → budget
          (peer.build_xml_system_info version info (peer.get_version (peer.get_sys_info w).1).1).1
        ≤ budget w
  pub system_info_fails :
      (version : McVersionInfo) (info : OsInfo) (w : W)
      → (peer.build_xml_system_info version info w).0.1 ≡ none
      → ((peer.build_xml_system_info version info w).0.0 == rootpa_ok) ≡ false

-- The text of a block that is live, and of a constant.
abbrev pub text_of : Pointer → Option (List ℕ)
text_of null = none
text_of initial_post = some initial_post_text
text_of initial_delete = some initial_delete_text
text_of (block a text) = some text

-- The exchange left some of them as they were.
abbrev pub Left : Pointer → Pointer → Type 0
Left p old = (p ≡ old) ⊎ (p ≡ null)

-- The application was told how it ended.
abbrev pub told : List (ProvisioningState × ℕ) → Bool
told [] = false
told ((error_state, r) ∷ reports) = true
told ((finished_provisioning, r) ∷ reports) = true
told (_ ∷ reports) = false

module _ {W : Type 0} where
  -- The loop's blocks between the rounds.
  abbrev pub blocks : Loop W → List Pointer
  blocks s = s.command ∷ s.rel ∷ s.link ∷ s.pending_link ∷ []

  abbrev pub used : Loop W → List Pointer
  used s = s.used_command ∷ s.used_rel ∷ s.used_link ∷ s.pending_link ∷ []

  -- What is put off waits under one of the constants.
  abbrev pub Waiting : Loop W → Type 0
  Waiting s =
      (mallocated s.pending_link ≡ true)
      × ((address s.pending_rel ≡ none) × (no_self (text_of s.pending_rel) ≡ true))

  -- Between two rounds.
  abbrev pub Ready : Loop W → Type 0
  Ready s =
      (owned (blocks s) s.memory ≡ true)
      × ((mallocated s.link ≡ true)
          × ((mallocated s.command ≡ true) × ((no_self (text_of s.rel) ≡ true) × Waiting s)))

  -- The pointers before an exchange and those after it are different.
  abbrev pub Apart : Loop W → Type 0
  Apart s =
      (owned (s.command ∷ s.rel ∷ s.link ∷ used s) s.memory ≡ true)
      × ((mallocated s.link ≡ true)
          × ((mallocated s.command ≡ true)
              × ((mallocated s.used_link ≡ true)
                  × ((mallocated s.used_command ≡ true)
                      × ((no_self (text_of s.rel) ≡ true) × Waiting s)))))

  abbrev pub Shared : Loop W → Type 0
  Shared s =
      (owned (used s) s.memory ≡ true)
      × ((mallocated s.used_link ≡ true)
          × ((mallocated s.used_command ≡ true)
              × ((s.link ≡ s.used_link) × (Left s.rel s.used_rel × Left s.command s.used_command))))

  -- How many rounds may follow.
  abbrev pub rank : (W → ℕ) → Loop W → ℕ
  rank budget s =
      budget s.world
      + ((if is_null s.rel then 0 else 1) + (if is_null s.pending_link then 0 else 2))
