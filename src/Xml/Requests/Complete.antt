-- ===== src/Xml/Requests/Complete.antt =====
-- The requests of rootpa/Code/Common/xmlmessagehandler.c are complete.
use tee_mobicore_driver_daem.Base.{ℕ, ◌≡◌, refl, true, List, [], ◌∷◌, some}
use tee_mobicore_driver_daem.Cmp.{rootpa_ok}
use tee_mobicore_driver_daem.State.{Sys}
use tee_mobicore_driver_daem.Xml.Results.{Tools}
use tee_mobicore_driver_daem.Xml.Requests.{
  Attributes, OsInfo, McVersionInfo, SystemInformation, os_attributes, version_attributes,
  add_props, fill_system_info, fill_mc_version, build_xml_system_info,
}

module _ {W : Type 0} (tools : Tools W) (grows : (w : W) → (tools.grows w).0 ≡ true) where
  add_props-all : (rest : Attributes) (s : Sys W) → (add_props tools rest s).0 ≡ (true, rest)
  unfolding add_props
  add_props-all [] s = refl
  add_props-all (a ∷ rest) s =
      rw (grows s.world, add_props-all rest (record s { world = (tools.grows s.world).1 })) refl

  -- What is printed is the information that was given.
  pub build_xml_system_info-printed :
      (shown : SystemInformation → List ℕ) (version : McVersionInfo) (info : OsInfo) (s : Sys W)
      → (build_xml_system_info tools
          (λ information w. (some (shown information), w))
          version
          info
          s).0
        ≡ (
          rootpa_ok,
          some (
              shown (record {
                attributes = os_attributes info;
                mc_version = version_attributes version;
              })),
        )
  unfolding build_xml_system_info fill_system_info fill_mc_version
  build_xml_system_info-printed shown version info s =
      let w₁ = (tools.grows s.world).1 in
      let s₂ = record s { world = (tools.grows w₁).1 } in
      let s₃ = (add_props tools (os_attributes info) s₂).1 in
      rw
        (
          grows s.world,
          grows w₁,
          add_props-all (os_attributes info) s₂,
          add_props-all (version_attributes version) s₃,
        )
        refl
