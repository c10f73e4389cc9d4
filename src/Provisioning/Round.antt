-- ===== src/Provisioning/Round.antt =====
-- One round of the loop of `doProvisioningWithSe`, rootpa/Code/Common/provisioningengine.c, and the
-- loop.
use tee_mobicore_driver_daem.Base.{
  ℕ, zero, suc, Bool, true, false, ◌&&◌, not, List, ◌∷◌, Option, none, some, if◌then◌else◌,
}
use tee_mobicore_driver_daem.Cmp.{rootpa_ok}
use tee_mobicore_driver_daem.State.{finished_provisioning}
use tee_mobicore_driver_daem.SeClient.Text.{◌>>=◌}
use tee_mobicore_driver_daem.Provisioning.Memory.{null, load, free, same, is_null, cleanup}
use tee_mobicore_driver_daem.Provisioning.Peer.{Peer, Loop, self_text, contains, relation_of}
use tee_mobicore_driver_daem.Provisioning.Branches.{on_relation}

-- `relP==NULL || strstr(relP, RELATION_SELF)==NULL`
abbrev pub moves_on : Option (List ℕ) → Bool
moves_on none = true
moves_on (some text) = not (contains self_text text)

module _ {W : Type 0} where
  -- `if(linkP==usedLinkP) usedLinkP=NULL;` and so on, then the cleaning of the last round.
  unfoldable pub last_cleanup : Loop W → Option (Loop W)
  last_cleanup s = do
    mem ← cleanup s.link s.rel s.command s.memory
    some (record s {
      memory = mem;
      used_link = if same s.link s.used_link then null else s.used_link;
      used_rel = if same s.rel s.used_rel then null else s.used_rel;
      used_command = if same s.command s.used_command then null else s.used_command;
      link = null;
      rel = null;
      command = null;
    })

  unfoldable pub drop_used : Loop W → Option (Loop W)
  drop_used s = do
    mem ← cleanup s.used_link s.used_rel s.used_command s.memory
    some (record s { memory = mem; used_link = null; used_rel = null; used_command = null })

  -- From the end of the branches to the end of the round.
  unfoldable pub end_round : Loop W → Option (Loop W)
  end_round s = do
    s' ← (if s.work_to_do then some s else last_cleanup s)
    rel ← load s'.rel s'.memory
    s'' ← (if moves_on rel then drop_used s' else some s')
    some (record s'' { response = none })

  -- NULL for a rel: the provisioning that was put off, or the end.
  unfoldable pub on_no_relation : Loop W → Option (Loop W)
  on_no_relation s =
      if not (is_null s.pending_link) && not (is_null s.pending_rel)
      then (do
        mem ← free s.link s.memory
        some (record s {
          memory = mem;
          link = s.pending_link;
          rel = s.pending_rel;
          pending_link = null;
          pending_rel = null;
          work_to_do = true;
        }))
      else end_round (record s {
        reports = (finished_provisioning, rootpa_ok) ∷ s.reports;
        work_to_do = false;
      })

module _ {W : Type 0} (peer : Peer W) where
  -- The body of the loop.
  unfoldable pub round : Loop W → Option (Loop W)
  round s = do
    rel ← load s.rel s.memory
    elim rel [
      | none ↦ on_no_relation s
      | some text ↦ (do s' ← on_relation peer (relation_of text) s; end_round s')
    ]

  -- So many rounds at most. No work is left when the loop has ended.
  unfoldable pub rounds : ℕ → Loop W → Option (Loop W)
  rounds zero s = some s
  rounds (suc fuel) s =
      let more = (do s' ← round s; rounds fuel s') in if s.work_to_do then more else some s
