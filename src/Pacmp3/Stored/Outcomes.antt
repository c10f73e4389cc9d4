-- ===== src/Pacmp3/Stored/Outcomes.antt =====
-- The ways in which `storeContainers` (rootpa/Code/Common/pacmp3.c) can end when a container is
-- registered, with what is then in the registry.
use tee_mobicore_driver_daem.Base.{ℕ, ◌≡◌, ◌≢◌, ◌⊎◌, List, ◌∷◌, none, some, minus_one}
use tee_mobicore_driver_daem.Cmp.{mc_drv_ok}
use tee_mobicore_driver_daem.State.{Event, Sys, Cmt}
use tee_mobicore_driver_daem.State
use tee_mobicore_driver_daem.Pacmtl.{Element, get_rsp_element_info}
use tee_mobicore_driver_daem.Pacmp3.Store.{element_bytes}

pub data Retired (old : List Event) (ret : ℕ) (new : List Event) : Type 0 where
  -- It was deleted.
  deleted :
      ret ≡ mc_drv_ok
      → (new ≡ State.delete_auth_token ret ∷ old)
        ⊎ ((token : List ℕ) × (r : ℕ) × (new
              ≡ State.delete_auth_token ret ∷ State.read_auth_token token r ∷ old))
      → Retired old ret new
  -- It was not, and there was no memory to read it before.
  kept : ret ≢ mc_drv_ok → new ≡ State.delete_auth_token ret ∷ old → Retired old ret new
  -- It was not, was written again, and the root container is removed: this is a success.
  taken_back :
      (token : List ℕ) (d r c : ℕ)
      → ret ≡ mc_drv_ok
      → d ≢ mc_drv_ok
      → new
        ≡ State.cleanup_root c
          ∷ State.write_auth_token token ret
          ∷ State.delete_auth_token d
          ∷ State.read_auth_token token r
          ∷ old
      → Retired old ret new
  -- It was not, and could not be written again.
  not_taken_back :
      (token : List ℕ) (d r : ℕ)
      → ret ≢ mc_drv_ok
      → d ≢ mc_drv_ok
      → new
        ≡ State.write_auth_token token ret
          ∷ State.delete_auth_token d
          ∷ State.read_auth_token token r
          ∷ old
      → Retired old ret new

pub data RootRegistered (element : ℕ) (h : Cmt) (old : List Event) (ret : ℕ) (new : List Event)
    : Type 0 where
  rejected :
      get_rsp_element_info element h ≡ none
      → ret ≡ minus_one
      → new ≡ old
      → RootRegistered element h old ret new
  not_written :
      (e : Element)
      → get_rsp_element_info element h ≡ some e
      → ret ≢ mc_drv_ok
      → new ≡ State.write_root (element_bytes e h) ret ∷ old
      → RootRegistered element h old ret new
  written :
      (e : Element)
      → get_rsp_element_info element h ≡ some e
      → Retired (State.write_root (element_bytes e h) mc_drv_ok ∷ old) ret new
      → RootRegistered element h old ret new

-- The element, or the one behind it, is not accepted.
abbrev pub Refused : ℕ → Cmt → Type 0
Refused element h =
    (get_rsp_element_info element h ≡ none)
    ⊎ ((first : Element) × ((get_rsp_element_info element h ≡ some first)
          × (get_rsp_element_info first.next_nbr h ≡ none)))

pub data TltRegistered {W : Type 0} (element : ℕ) (h : Cmt) (s : Sys W) (ret : ℕ) (new : List Event)
    : Type 0 where
  rejected : Refused element h → ret ≡ minus_one → new ≡ s.log → TltRegistered element h s ret new
  not_written :
      (sp tlt : Element)
      → get_rsp_element_info element h ≡ some sp
      → get_rsp_element_info sp.next_nbr h ≡ some tlt
      → ret ≢ mc_drv_ok
      → new ≡ State.write_tlt s.tlt_uuid s.spid (element_bytes tlt h) ret ∷ s.log
      → TltRegistered element h s ret new
  taken_back :
      (sp tlt : Element) (c : ℕ)
      → get_rsp_element_info element h ≡ some sp
      → get_rsp_element_info sp.next_nbr h ≡ some tlt
      → ret ≢ mc_drv_ok
      → new
        ≡ State.cleanup_tlt s.tlt_uuid s.spid c
          ∷ State.write_sp s.spid (element_bytes sp h) ret
          ∷ State.write_tlt s.tlt_uuid s.spid (element_bytes tlt h) mc_drv_ok
          ∷ s.log
      → TltRegistered element h s ret new
  written :
      (sp tlt : Element)
      → get_rsp_element_info element h ≡ some sp
      → get_rsp_element_info sp.next_nbr h ≡ some tlt
      → ret ≡ mc_drv_ok
      → new
        ≡ State.write_sp s.spid (element_bytes sp h) mc_drv_ok
          ∷ State.write_tlt s.tlt_uuid s.spid (element_bytes tlt h) mc_drv_ok
          ∷ s.log
      → TltRegistered element h s ret new

pub data SpRegistered {W : Type 0} (element : ℕ) (h : Cmt) (s : Sys W) (ret : ℕ) (new : List Event)
    : Type 0 where
  rejected : Refused element h → ret ≡ minus_one → new ≡ s.log → SpRegistered element h s ret new
  not_written :
      (root sp : Element)
      → get_rsp_element_info element h ≡ some root
      → get_rsp_element_info root.next_nbr h ≡ some sp
      → ret ≢ mc_drv_ok
      → new ≡ State.write_sp s.spid (element_bytes sp h) ret ∷ s.log
      → SpRegistered element h s ret new
  written :
      (root sp : Element)
      → get_rsp_element_info element h ≡ some root
      → get_rsp_element_info root.next_nbr h ≡ some sp
      → new
        ≡ State.write_root (element_bytes root h) ret
          ∷ State.write_sp s.spid (element_bytes sp h) mc_drv_ok
          ∷ s.log
      → SpRegistered element h s ret new
