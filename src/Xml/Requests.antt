-- ===== src/Xml/Requests.antt =====
-- The requests that rootpa/Code/Common/xmlmessagehandler.c builds: `buildXmlSystemInfo` and
-- `buildXmlTrustletInstallationRequest`.
pub mod Complete
use Prim.Native.String.{String}
use tee_mobicore_driver_daem.Base.{
  ℕ, Bool, true, false, List, [], ◌∷◌, ◌++◌, Option, none, some, if◌then◌else◌, ◌==◌, length,
}
use tee_mobicore_driver_daem.Cmp.{rootpa_ok, rootpa_error_internal, rootpa_error_xml}
use tee_mobicore_driver_daem.State.{M, ◌>>=◌, ◌>>◌, pure, when◌then◌else◌, option, silently}
use tee_mobicore_driver_daem.CommandHandler.Provision.{TrustletInstallationData}
use tee_mobicore_driver_daem.Xml.Results.{Tools}

-- The value of an attribute: a text, or a number that is printed.
pub data Value : Type 0 where
  text : String → Value
  number : ℕ → Value

abbrev pub Attributes : Type 0
Attributes = List (String × Value)

-- osInfo_t
pub record OsInfo : Type 0 where
  pub imei_esn : Option String
  pub mno : Option String
  pub brand : Option String
  pub manufacturer : Option String
  pub hardware : Option String
  pub model : Option String
  pub version : Option String

-- mcVersionInfo_t
pub record McVersionInfo : Type 0 where
  pub product_id : String
  pub version_mci : ℕ
  pub version_so : ℕ
  pub version_mclf : ℕ
  pub version_container : ℕ
  pub version_mc_config : ℕ
  pub version_tl_api : ℕ
  pub version_dr_api : ℕ
  pub version_cmp : ℕ

-- The attribute, if there is a text for it, in front of others.
abbrev pub present : String → Option String → Attributes → Attributes
present name none more = more
present name (some value) more = (name, text value) ∷ more

abbrev pub os_attributes : OsInfo → Attributes
os_attributes info = present "imei" info.imei_esn (
    present "mno" info.mno (
      present "brand" info.brand (
        present "manufacturer" info.manufacturer (
          present "hardware" info.hardware
            (present "model" info.model (present "version" info.version []))))))

abbrev pub version_attributes : McVersionInfo → Attributes
version_attributes version =
    ("productId", text version.product_id)
    ∷ ("versionMci", number version.version_mci)
    ∷ ("versionSo", number version.version_so)
    ∷ ("versionMclf", number version.version_mclf)
    ∷ ("versionContainer", number version.version_container)
    ∷ ("versionMcConfig", number version.version_mc_config)
    ∷ ("versionTlApi", number version.version_tl_api)
    ∷ ("versionDrApi", number version.version_dr_api)
    ∷ ("versionCmp", number version.version_cmp)
    ∷ []

-- `systemInformation` with its attributes, and those of `mcVersion` in it.
pub record SystemInformation : Type 0 where
  pub attributes : Attributes
  pub mc_version : Attributes

-- The element in `tltInstallationRequest`, with what is in it.
pub record InstallationRequest : Type 0 where
  pub name : String
  pub encoded : String
  pub attributes : Attributes

-- Only what is not the default.
abbrev pub unless_default : String → ℕ → ℕ → Attributes → Attributes
unless_default name default value more =
    if value == default then more else (name, number value) ∷ more

-- REQUEST_DATA_TLT
abbrev pub request_data_tlt : ℕ
request_data_tlt = 1

abbrev pub element_name : ℕ → String
element_name data_type =
    if data_type == request_data_tlt then "trustletAxf" else "trustletEncryptionKey"

-- The attributes before the hash: EXTERNAL_MEMORY, one instance and no flags are the defaults.
abbrev pub data_attributes : TrustletInstallationData → Attributes
data_attributes d =
    let last = ("minTltVersion", number d.min_tlt_version) ∷ [] in
    if d.data_type == request_data_tlt
    then unless_default "memoryType" 2 d.memory_type (
        unless_default "numberOfInstances" 1 d.number_of_instances
          (unless_default "flags" 0 d.flags last))
    else last

abbrev bytes_behind : Option (List ℕ) → List ℕ
bytes_behind none = []
bytes_behind (some bytes) = bytes

module _ {W : Type 0} (tools : Tools W) where
  -- One attribute after the other: whether all were added, and those that were.
  unfoldable pub add_props : Attributes → M W (Bool × Attributes)
  add_props [] = pure (true, [])
  add_props (a ∷ rest) = do
    added ← silently tools.grows
    when added then (do (all, more) ← add_props rest; pure (all, a ∷ more)) else pure (false, [])

  abbrev xml_result : Bool → ℕ
  xml_result ok = if ok then rootpa_ok else rootpa_error_xml

  unfoldable pub fill_system_info : OsInfo → M W (ℕ × Attributes)
  fill_system_info info = do
    (all, attributes) ← add_props (os_attributes info)
    pure (xml_result all, attributes)

  unfoldable pub fill_mc_version : McVersionInfo → M W (ℕ × Attributes)
  fill_mc_version version = do
    (all, attributes) ← add_props (version_attributes version)
    pure (xml_result all, attributes)

  -- The result of `fillSystemInfo` is replaced by that of `fillMcVersion`.
  unfoldable pub build_xml_system_info :
      (SystemInformation → W → Option (List ℕ) × W)
      → McVersionInfo
      → OsInfo
      → M W (ℕ × Option (List ℕ))
  build_xml_system_info dump version info = do
    has_info ← silently tools.grows
    when has_info
        then (do
          has_version ← silently tools.grows
          when has_version
              then (do
                (first, attributes) ← fill_system_info info
                (ret, mc_version) ← fill_mc_version version
                when ret == rootpa_ok
                    then (do
                      response ←
                          silently
                            (dump (record { attributes = attributes; mc_version = mc_version }))
                      pure (ret, response))
                    else pure (ret, none))
              else pure (rootpa_error_xml, none))
        else pure (rootpa_error_xml, none)

  -- With the data in base64, from the element on.
  unfoldable pub build_request_with :
      (InstallationRequest → W → Option (List ℕ) × W)
      → TrustletInstallationData
      → String
      → M W (ℕ × Option (List ℕ))
  build_request_with dump d encoded = do
    has_element ← silently tools.grows
    (all, attributes) ← add_props (data_attributes d)
    when all
        then (option
            (tools.encode (bytes_behind d.tlt_puk_hash) (length (bytes_behind d.tlt_puk_hash)))
            (pure (rootpa_error_internal, none))
            λ hash. do
              has_hash ← silently tools.grows
              when has_hash
                  then (when has_element
                      then (do
                        response ← silently (
                            dump (record {
                              name = element_name d.data_type;
                              encoded = encoded;
                              attributes = attributes ++ (("tltPukHash", text hash) ∷ []);
                            }))
                        pure (rootpa_ok, response))
                      else pure (rootpa_error_xml, none))
                  else pure (rootpa_error_xml, none))
        else pure (rootpa_error_xml, none)

  unfoldable pub build_xml_trustlet_installation_request :
      (InstallationRequest → W → Option (List ℕ) × W)
      → TrustletInstallationData
      → M W (ℕ × Option (List ℕ))
  build_xml_trustlet_installation_request dump d = do
    has_request ← silently tools.grows
    when has_request
        then (option (tools.encode (bytes_behind d.bytes) (length (bytes_behind d.bytes)))
            (pure (rootpa_error_internal, none)) λ encoded. build_request_with dump d encoded)
        else pure (rootpa_error_xml, none)
