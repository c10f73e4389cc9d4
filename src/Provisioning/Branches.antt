-- ===== src/Provisioning/Branches.antt =====
-- The branches of the loop of `doProvisioningWithSe`, rootpa/Code/Common/provisioningengine.c.
use tee_mobicore_driver_daem.Base.{
  ℕ, true, false, ◌&&◌, ◌||◌, not, List, Option, none, some, if◌then◌else◌, ◌==◌,
}
use tee_mobicore_driver_daem.Cmp.{
  rootpa_ok, rootpa_error_out_of_memory, rootpa_error_illegal_argument, rootpa_error_xml,
  rootpa_error_registry_object_not_available,
}
use tee_mobicore_driver_daem.SeClient.Text.{◌>>=◌}
use tee_mobicore_driver_daem.SeClient.Communicate.{
  HttpMethod, http_get, http_post, http_put, http_delete,
}
use tee_mobicore_driver_daem.Provisioning.Memory.{null, load, same, cleanup}
use tee_mobicore_driver_daem.Provisioning.Peer.{
  Peer, Loop, Relation, relation_self, relation_system_info, relation_initial_delete,
  relation_initial_post, relation_result, relation_next, relation_other, result_of, fail,
  take_answer, keep_used,
}

-- `if(tmpRet!=ROOTPA_OK) ret=tmpRet;`
abbrev pub keep_error : ℕ → ℕ → ℕ
keep_error tmp ret = if tmp == rootpa_ok then ret else tmp

module _ {W : Type 0} where
  -- `if(ret!=ROOTPA_OK)` at the end of RELATION_SYSTEMINFO.
  unfoldable pub report_system_info : Loop W → Loop W
  report_system_info s = if s.ret == rootpa_ok then s else fail (not (s.tmp_ret == rootpa_ok)) s

  -- `if(ret!=ROOTPA_OK && ret!=ROOTPA_ERROR_REGISTRY_OBJECT_NOT_AVAILABLE)`
  unfoldable pub report_result : Loop W → Loop W
  report_result s =
      if (s.ret == rootpa_ok) || (s.ret == rootpa_error_registry_object_not_available)
      then s
      else fail (not (s.tmp_ret == rootpa_ok)) s

module _ {W : Type 0} (peer : Peer W) where
  -- One of the four requests: its result, and the state after it.
  unfoldable pub request : HttpMethod → Option (List ℕ) → Loop W → Option (ℕ × Loop W)
  request method input s = do
    link ← load s.link s.memory
    (ex, w) ← peer.exchange method input link s.world
    some (result_of ex, take_answer ex (record s { world = w }))

  -- A request whose failure ends the loop.
  unfoldable pub plain_request : HttpMethod → Option (List ℕ) → Loop W → Option (Loop W)
  plain_request method input s = do
    (r, s') ← request method input s
    let s'' = record s' { ret = r }
    if r == rootpa_ok then some s'' else some (fail true s'')

  -- What RELATION_SYSTEMINFO asks for, with the results as `ret` and `tmp_ret` have them.
  unfoldable pub collect_system_info : Loop W → Loop W
  collect_system_info s =
      let ((r₁, info), w₁) = peer.get_sys_info s.world in
      let ((r₂, version), w₂) = peer.get_version w₁ in
      let ((r₃, response), w₃) = peer.build_xml_system_info version info w₂ in
      record s {
        world = w₃;
        response = response;
        tmp_ret = r₃;
        ret = keep_error r₃ (keep_error r₂ (keep_error r₁ s.ret));
      }

  unfoldable pub on_system_info : Loop W → Option (Loop W)
  on_system_info s =
      let s' = collect_system_info s in
      elim s'.response [
        | none ↦ some (
            report_system_info (
              if s'.ret == rootpa_ok
              then record s' { work_to_do = false; ret = rootpa_error_out_of_memory }
              else s'))
        | some response ↦ (do
          (r, s'') ← request http_put (some response) s'
          some (report_system_info (record s'' { tmp_ret = r; ret = keep_error r s''.ret })))
      ]

  unfoldable pub on_result : Loop W → Option (Loop W)
  on_result s = do
    command ← load s.command s.memory
    let ((r, response), w) = peer.handle_xml_message command (peer.set_callback true s.world)
    let s' = record s { world = peer.set_callback false w; response = response; ret = r }
    elim response [
      | none ↦ some (
          report_result (record s' {
            ret = if r == rootpa_ok then rootpa_error_xml else r;
            link = null;
            rel = null;
            command = null;
          }))
      | some text ↦ (do
        (r', s'') ← request http_post (some text) s'
        some (report_result (record s'' { tmp_ret = r'; ret = keep_error r' r })))
    ]

  unfoldable pub on_self : Loop W → Option (Loop W)
  on_self s =
      if not (same s.rel s.used_rel)
        && (not (same s.link s.used_link) && not (same s.command s.used_command))
      then (do
        mem ← cleanup s.link s.rel s.command s.memory
        some (record s {
          memory = mem;
          rel = s.used_rel;
          link = s.used_link;
          command = s.used_command;
        }))
      else some s

  -- The branches that use the pointers, which are kept in the used ones.
  unfoldable pub on_relation : Relation → Loop W → Option (Loop W)
  on_relation relation_self s = on_self s
  on_relation relation_system_info s = on_system_info (keep_used s)
  on_relation relation_initial_delete s = plain_request http_delete none (keep_used s)
  on_relation relation_initial_post s = plain_request http_post s.response (keep_used s)
  on_relation relation_result s = on_result (keep_used s)
  on_relation relation_next s = plain_request http_get none (keep_used s)
  on_relation relation_other s =
      some (fail true (record (keep_used s) { ret = rootpa_error_illegal_argument }))
