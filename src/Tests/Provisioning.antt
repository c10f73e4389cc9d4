-- ===== src/Tests/Provisioning.antt =====
-- The theorems about provisioning at concrete inputs.
use tee_mobicore_driver_daem.Base.{
  ℕ, zero, suc, ◌≡◌, refl, true, false, List, [], ◌∷◌, Option, none, some, arith,
}
use tee_mobicore_driver_daem.Cmp.{rootpa_ok}
use tee_mobicore_driver_daem.State.{connecting_service_enabler}
use tee_mobicore_driver_daem.SeClient.Text.{◌>>=◌, str_str}
use tee_mobicore_driver_daem.SeClient.Communicate.{Exchange, answered}
use tee_mobicore_driver_daem.CommandHandler.Provision.{initial_rel_post}
use tee_mobicore_driver_daem.Uri.{
  create_basic_link, add_bytes_to_uri, add_bytes_from, add_byte, put_char,
}
use tee_mobicore_driver_daem.Provisioning.Memory.{
  load, null, initial_post, block, initial_post_text,
}
use tee_mobicore_driver_daem.Xml.Requests.{OsInfo, McVersionInfo}
use tee_mobicore_driver_daem.Provisioning.Peer.{Peer, Loop, self_text, next_text, contains}
use tee_mobicore_driver_daem.Provisioning.Round.{round}
use tee_mobicore_driver_daem.Provisioning.Laws.{Tame, tame_answered, Lawful, told, no_self, text_of}
use tee_mobicore_driver_daem.Provisioning.Faults.{round-self_dangles}
use tee_mobicore_driver_daem.Provisioning.Start.{
  Frame, Order, first_rel, loop_with, put_off, start, prepare, recover, first_link, initial_url_of,
  do_provisioning_with_se,
}
use tee_mobicore_driver_daem.Provisioning.Start.Told.{do_provisioning_with_se-told}
use tee_mobicore_driver_daem.Provisioning.Start.Recovery.{Yields, put_off-forgets_request}

abbrev link : List ℕ
link = 104 ∷ 58 ∷ []

-- A server that asks for as many requests as it is told.
abbrev asks : ℕ → Option (Exchange × ℕ)
asks zero = some (answered 0 (some link) none (some []), 0)
asks (suc w) = some (answered 0 (some link) (some next_text) (some []), w)

abbrev info : OsInfo
info = record {
  imei_esn = none;
  mno = none;
  brand = none;
  manufacturer = none;
  hardware = none;
  model = none;
  version = none;
}

abbrev version : McVersionInfo
version = record {
  product_id = "";
  version_mci = 0;
  version_so = 0;
  version_mclf = 0;
  version_container = 0;
  version_mc_config = 0;
  version_tl_api = 0;
  version_dr_api = 0;
  version_cmp = 0;
}

abbrev peer : Peer ℕ
peer = record {
  exchange = λ method input at w. asks w;
  handle_xml_message = λ command w. ((0, some []), w);
  get_sys_info = λ w. ((0, info), w);
  get_version = λ w. ((0, version), w);
  build_xml_system_info = λ v i w. ((0, some []), w);
  set_callback = λ set w. w;
}

abbrev budget : ℕ → ℕ
budget w = w

asks-Tame : (w : ℕ) → Tame budget w (asks w)
unfolding str_str
asks-Tame zero = tame_answered 0 (some link) none [] 0 refl refl refl (omega arith)
asks-Tame (suc w) = tame_answered 0 (some link) (some next_text) [] w refl refl refl (omega arith)

some-none : {A : Type 0} {a : A} → some a ≡ none → ⊥
some-none h = cc

peer-Lawful : Lawful peer budget
peer-Lawful = record {
  exchange_tame = λ method input at w h. asks-Tame w;
  handle_xml_budget = λ command w. omega arith;
  system_info_budget = λ v i w. omega arith;
  system_info_fails = λ v i w h. absurd (some-none h);
}

abbrev frame : Frame ℕ
frame = record {
  open_se_client = λ w. (0, w);
  close_se_client = λ w. w;
  build_installation_request = λ w. ((0, some []), w);
  factory_reset_assumed = λ w. (false, w);
}

-- The root container, without a service provider.
abbrev order : Order
order = record { spid = 0; suid = 171 ∷ []; initial_rel = initial_rel_post; uuid = none }

-- "hab"
abbrev begun : Loop ℕ
begun =
    loop_with 3 (104 ∷ 97 ∷ 98 ∷ []) (first_rel initial_rel_post) none 0 true
      ((connecting_service_enabler, rootpa_ok) ∷ [])

start-begun : start frame order (104 ∷ []) 3 ≡ some begun
unfolding start prepare recover first_link initial_url_of create_basic_link add_bytes_to_uri
    add_bytes_from add_byte put_char
start-begun = refl

do_provisioning_with_se-told_example :
    (s : Loop ℕ) × ((do_provisioning_with_se frame peer 10 order (104 ∷ []) 3 ≡ some s)
      × ((s.work_to_do ≡ false) × (told s.reports ≡ true)))
do_provisioning_with_se-told_example =
    do_provisioning_with_se-told frame peer budget peer-Lawful 10 order (104 ∷ []) 3 begun
      start-begun (omega arith)

-- The state behind an answer of `relation/self` to the first request.
abbrev asked_again : Loop ℕ
asked_again = record {
  world = 0;
  memory = record { next = 4; freed = [] };
  link = block 1 link;
  rel = block 2 self_text;
  command = block 3 [];
  pending_link = null;
  pending_rel = null;
  used_link = block 0 link;
  used_rel = initial_post;
  used_command = null;
  response = none;
  ret = 0;
  tmp_ret = 0;
  work_to_do = true;
  reports = [];
}

self-contained : contains self_text self_text ≡ true
unfolding str_str
self-contained = refl

initial_post-other : no_self (text_of initial_post) ≡ true
unfolding str_str initial_post_text
initial_post-other = refl

round-self_dangles_example :
    (s' : Loop ℕ) × ((round peer asked_again ≡ some s')
      × (((s'.link ≡ asked_again.used_link)
            × ((s'.rel ≡ asked_again.used_rel) × (s'.command ≡ asked_again.used_command)))
          × ((s'.work_to_do ≡ true) × ((load s'.link s'.memory ≡ none) × (round peer s' ≡ none)))))
round-self_dangles_example =
    round-self_dangles peer asked_again 2 0 self_text link refl refl self-contained refl refl refl
      refl refl refl initial_post-other refl refl refl

put_off-forgets_request_example :
    Yields
      (λ s. (s.rel ≡ initial_post) × ((s.link ≡ block 0 link) × (s.response ≡ none)))
      (do
        s₁ ← round peer (
            put_off link (loop_with 0 link (first_rel initial_rel_post) (some (60 ∷ [])) 0 true []))
        round peer s₁)
put_off-forgets_request_example =
    put_off-forgets_request peer 0 0 link link [] (some link) (some (60 ∷ [])) 0 [] refl
