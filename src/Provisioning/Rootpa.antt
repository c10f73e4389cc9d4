-- ===== src/Provisioning/Rootpa.antt =====
-- The loop of rootpa/Code/Common/provisioningengine.c with what rootpa gives it: the requests of
-- seclient.c, the messages of xmlmessagehandler.c and the state of pacmp3.c.
use Prim.Native.String.{String}
use tee_mobicore_driver_daem.Base.{
  ℕ, ◌≡◌, refl, Bool, true, false, List, Option, none, some, is_some, is_some→some, ◌==◌, arith,
  Bool-cases, inl, inr,
}
use tee_mobicore_driver_daem.Cmp.{rootpa_ok}
use tee_mobicore_driver_daem.State.{Sys}
use tee_mobicore_driver_daem.World.{Platform}
use tee_mobicore_driver_daem.Pacmp3.Prepare.{set_callback}
use tee_mobicore_driver_daem.SeClient.Options.{Curl}
use tee_mobicore_driver_daem.SeClient.Communicate.{
  HttpMethod, http_get, http_post, http_put, http_delete, Exchange, CertPaths,
}
use tee_mobicore_driver_daem.SeClient.Communicate.{HasInput}
use tee_mobicore_driver_daem.Xml.Document.{Node}
use tee_mobicore_driver_daem.Xml.Results.{Tools}
use tee_mobicore_driver_daem.Xml.Message.{Library, handle_xml_message}
use tee_mobicore_driver_daem.Xml.Message.Complete.{handle_xml_message-total}
use tee_mobicore_driver_daem.Xml.Requests.{
  OsInfo, McVersionInfo, SystemInformation, fill_system_info, fill_mc_version,
  build_xml_system_info,
}
use tee_mobicore_driver_daem.Provisioning.Peer.{Peer}
use tee_mobicore_driver_daem.Provisioning.Laws.{
  Tame, tame_refused, tame_failed, tame_answered, Lawful,
}
use tee_mobicore_driver_daem.SeClient.Http.{
  http_post_and_receive_command, http_put_and_receive_command, http_get_and_receive_command,
  http_delete_and_receive_command,
}

-- The request of a method.
unfoldable pub se_exchange :
    {W : Type 0}
    → Curl W
    → (ℕ → Bool)
    → CertPaths
    → HttpMethod
    → Option (List ℕ)
    → Option (List ℕ)
    → W
    → Option (Exchange × W)
se_exchange curl enough paths http_get input link =
    http_get_and_receive_command curl enough paths link
se_exchange curl enough paths http_post input link =
    http_post_and_receive_command curl enough paths input link
se_exchange curl enough paths http_put input link =
    http_put_and_receive_command curl enough paths input link
se_exchange curl enough paths http_delete input link =
    http_delete_and_receive_command curl enough paths link

-- What is beside the requests: the platform, libxml2 with base64, and the callbacks of the
-- application, over a state of the device.
pub record Device (V : Type 0) : Type 0 where
  pub platform : Platform V
  pub tools : Tools V
  pub library : Library V
  pub get_content : Node → Option String
  pub dump_information : SystemInformation → V → Option (List ℕ) × V
  pub get_sys_info : V → (ℕ × OsInfo) × V
  pub get_version : V → (ℕ × McVersionInfo) × V

-- The state of the device stays as it is in an exchange.
abbrev pub beside : {S U : Type 0} → S → Option (Exchange × U) → Option (Exchange × (S × U))
beside s none = none
beside s (some (exchange, u)) = some (exchange, (s, u))

module _ {V : Type 0} (device : Device V) where
  -- A message is handled to its end.
  unfoldable pub handle_message : Option (List ℕ) → Sys V → (ℕ × Option (List ℕ)) × Sys V
  handle_message command s =
      let done =
        handle_xml_message device.platform device.tools device.library s.callback_set
          device.get_content command s in
      (
        (is_some→some {0} done.0 (
            handle_xml_message-total device.platform device.tools s.callback_set device.get_content
              device.library command s)).0,
        done.1,
      )

  unfoldable pub rootpa_peer : {U : Type 0} → Curl U → (ℕ → Bool) → CertPaths → Peer (Sys V × U)
  rootpa_peer curl enough paths = record {
    exchange = λ method input at w. beside w.0 (se_exchange curl enough paths method input at w.1);
    handle_xml_message = λ command w. let (r, s) = handle_message command w.0 in (r, (s, w.1));
    get_sys_info =
        λ w. let (r, v) = device.get_sys_info w.0.world in (r, (record w.0 { world = v }, w.1));
    get_version =
        λ w. let (r, v) = device.get_version w.0.world in (r, (record w.0 { world = v }, w.1));
    build_xml_system_info = λ version info w.
        let (r, s) = build_xml_system_info device.tools device.dump_information version info w.0 in
        (r, (s, w.1));
    set_callback = λ callback_set w. ((set_callback callback_set w.0).1, w.1);
  }

beside-Tame :
    {S U : Type 0} (budget : U → ℕ) (s : S) (u : U) (r : Option (Exchange × U))
    → Tame budget u r
    → Tame (λ w. budget w.1) (s, u) (beside s r)
beside-Tame budget s u r (tame_refused u' e l) = tame_refused (s, u') (rw (e) refl) l
beside-Tame budget s u r (tame_failed u' e l) = tame_failed (s, u') (rw (e) refl) l
beside-Tame budget s u r (tame_answered status link rel command u' e known other l) =
    tame_answered status link rel command (s, u') (rw (e) refl) known other l

module _ {V : Type 0} (device : Device V)
    (dumps : (i : SystemInformation) (v : V) → is_some (device.dump_information i v).0 ≡ true) where
  -- Without a text there is an error.
  build_xml_system_info-silent :
      (version : McVersionInfo) (info : OsInfo) (s : Sys V)
      → (build_xml_system_info device.tools device.dump_information version info s).0.1 ≡ none
      → ((build_xml_system_info device.tools device.dump_information version info s).0.0
          == rootpa_ok)
        ≡ false
  unfolding build_xml_system_info
  build_xml_system_info-silent version info s =
      let tools = device.tools in
      let w₁ = (tools.grows s.world).1 in
      let s₂ = record s { world = (tools.grows w₁).1 } in
      let first = fill_system_info tools info s₂ in
      let second = fill_mc_version tools version first.1 in
      let shown : SystemInformation = record { attributes = first.0.1; mc_version = second.0.1 } in
      let printed = device.dump_information shown second.1.world in
      elim (Bool-cases (tools.grows s.world).0) [
        | inr lacks ↦ rw (lacks) (λ h. refl)
        | inl has ↦ elim (Bool-cases (tools.grows w₁).0) [
          | inr lacks ↦ rw (has, lacks) (λ h. refl)
          | inl grown ↦ elim (Bool-cases (second.0.0 == rootpa_ok)) [
            | inr bad ↦ rw (has, grown, bad, bad) (λ h. refl)
            | inl good ↦
                let (text, e) = is_some→some {0} printed.0 (dumps shown second.1.world) in
                rw (has, grown, good, e) (λ h. cc)
          ]
        ]
      ]

  -- What rootpa gives the loop keeps its laws when the exchanges do: handling a message, collecting
  -- the information and setting the callback cost nothing of the budget, and information that
  -- cannot be built is an error; given that what is built can be printed.
  rootpa_peer-Lawful :
      {U : Type 0} (curl : Curl U) (enough : ℕ → Bool) (paths : CertPaths) (budget : U → ℕ)
      → ((method : HttpMethod) (input link : Option (List ℕ)) (u : U)
          → HasInput method input
          → Tame budget u (se_exchange curl enough paths method input link u))
      → Lawful (rootpa_peer device curl enough paths) (λ w. budget w.1)
  unfolding rootpa_peer
  rootpa_peer-Lawful curl enough paths budget tame = record {
    exchange_tame = λ method input at w h.
        beside-Tame budget w.0 w.1 (se_exchange curl enough paths method input at w.1)
          (tame method input at w.1 h);
    handle_xml_budget = λ command w. omega arith;
    system_info_budget = λ version info w. omega arith;
    system_info_fails = λ version info w. build_xml_system_info-silent version info w.0;
  }
