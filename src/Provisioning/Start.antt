-- ===== src/Provisioning/Start.antt =====
-- `doProvisioningWithSe` of rootpa/Code/Common/provisioningengine.c around its loop: the address of
-- the first request, the recovery from a factory reset, and the end.
pub mod Told
pub mod Recovery
use tee_mobicore_driver_daem.Base.{
  ℕ, zero, suc, ◌+◌, Bool, true, false, ◌&&◌, ◌||◌, not, List, [], ◌∷◌, ◌++◌, Option, none, some,
  if◌then◌else◌, ◌==◌,
}
use tee_mobicore_driver_daem.Cmp.{rootpa_ok, rootpa_error_xml}
use tee_mobicore_driver_daem.State.{ProvisioningState, error_state, connecting_service_enabler}
use tee_mobicore_driver_daem.SeClient.Text.{◌>>=◌}
use tee_mobicore_driver_daem.Uri.{
  create_basic_link, add_int_to_uri, add_slash_to_uri, add_bytes_to_uri,
}
use tee_mobicore_driver_daem.CommandHandler.Provision.{
  InitialRel, initial_rel_post, initial_rel_delete,
}
use tee_mobicore_driver_daem.Provisioning.Memory.{
  Pointer, Memory, null, initial_post, initial_delete, block, free,
}
use tee_mobicore_driver_daem.Provisioning.Peer.{Peer, Loop}
use tee_mobicore_driver_daem.Provisioning.Round.{rounds}

-- What the function calls outside its loop.
pub record Frame (W : Type 0) : Type 0 where
  pub open_se_client : W → ℕ × W
  pub close_se_client : W → W
  pub build_installation_request : W → (ℕ × Option (List ℕ)) × W
  pub factory_reset_assumed : W → Bool × W

-- The arguments; the uuid is that of the trustlet to install.
pub record Order : Type 0 where
  pub spid : ℕ
  pub suid : List ℕ
  pub initial_rel : InitialRel
  pub uuid : Option (List ℕ)

-- SE_URL
unfoldable pub se_url : List ℕ
se_url =
    104 ∷ 116 ∷ 116 ∷ 112 ∷ 115 ∷ 58 ∷ 47 ∷ 47 ∷ 115 ∷ 101 ∷ 46 ∷ 99 ∷ 103 ∷ 98 ∷ 101 ∷ 46 ∷ 116
    ∷ 114 ∷ 117 ∷ 115 ∷ 116 ∷ 111 ∷ 110 ∷ 105 ∷ 99 ∷ 46 ∷ 99 ∷ 111 ∷ 109 ∷ 58 ∷ 56 ∷ 52 ∷ 52 ∷ 51
    ∷ 47 ∷ 115 ∷ 101 ∷ 114 ∷ 118 ∷ 105 ∷ 99 ∷ 101 ∷ 45 ∷ 101 ∷ 110 ∷ 97 ∷ 98 ∷ 108 ∷ 101 ∷ 114 ∷ 47
    ∷ 101 ∷ 110 ∷ 114 ∷ 111 ∷ 108 ∷ 108 ∷ 109 ∷ 101 ∷ 110 ∷ 116 ∷ 47 ∷ []

-- `if(empty(initialUrl_))`
unfoldable pub initial_url_of : List ℕ → List ℕ
initial_url_of [] = se_url
initial_url_of (c ∷ cs) = c ∷ cs

-- The text before the zero of a buffer.
abbrev pub text_before_zero : List ℕ → List ℕ
text_before_zero [] = []
text_before_zero (zero ∷ buffer) = []
text_before_zero (suc c ∷ buffer) = suc c ∷ text_before_zero buffer

abbrev pub first_rel : InitialRel → Pointer
first_rel initial_rel_delete = initial_delete
first_rel initial_rel_post = initial_post

abbrev pub is_delete : InitialRel → Bool
is_delete initial_rel_delete = true
is_delete initial_rel_post = false

-- The link's buffer with the service provider in it.
unfoldable pub first_link : Order → List ℕ → Option (List ℕ)
first_link order url = do
  link ← create_basic_link order.suid url
  elim order.initial_rel [
    | initial_rel_delete ↦ some link
    | initial_rel_post ↦ if order.spid == 0 then some link else add_int_to_uri link order.spid
  ]

-- The link's buffer with the trustlet in it.
unfoldable pub trustlet_in_link : List ℕ → List ℕ → Option (List ℕ)
trustlet_in_link link uuid = do link' ← add_slash_to_uri link; add_bytes_to_uri link' uuid true

module _ {W : Type 0} where
  -- The variables with these values, and the link in the first block.
  abbrev pub loop_with :
      W → List ℕ → Pointer → Option (List ℕ) → ℕ → Bool → List (ProvisioningState × ℕ) → Loop W
  loop_with w link rel response ret work reports = record {
    world = w;
    memory = record { next = 1; freed = [] };
    link = block 0 link;
    rel = rel;
    command = null;
    pending_link = null;
    pending_rel = null;
    used_link = null;
    used_rel = null;
    used_command = null;
    response = response;
    ret = ret;
    tmp_ret = rootpa_ok;
    work_to_do = work;
    reports = reports;
  }

  -- Recovery from a factory reset: the request is put off until a delete has gone out.
  unfoldable pub put_off : List ℕ → Loop W → Loop W
  put_off delete_link s = record s {
    memory = record s.memory { next = 2 };
    pending_link = s.link;
    pending_rel = s.rel;
    rel = initial_delete;
    link = block 1 delete_link;
  }

  -- With the request for an installation, or without.
  unfoldable pub install :
      InitialRel
      → List ℕ
      → List ℕ
      → W
      → ℕ
      → Option (List ℕ)
      → Option (List ℕ)
      → Bool
      → List (ProvisioningState × ℕ)
      → Option (Loop W)
  install rel uuid link w r response none work reports =
      let r' = if r == rootpa_ok then rootpa_error_xml else r in
      some (
        loop_with w (text_before_zero link) (first_rel rel) response r' false
          ((error_state, r') ∷ reports))
  install rel uuid link w r response (some request) work reports = do
    link' ← trustlet_in_link link uuid
    some (loop_with w (text_before_zero link') (first_rel rel) (some request) r work reports)

-- `ROOTPA_OK!=ret || NULL==responseP`
abbrev request_of : ℕ → Option (List ℕ) → Option (List ℕ)
request_of r response = if r == rootpa_ok then response else none

module _ {W : Type 0} (frame : Frame W) where
  -- The response to send first, the link, and whether there is work.
  unfoldable pub prepare :
      InitialRel
      → Option (List ℕ)
      → List ℕ
      → W
      → ℕ
      → Bool
      → List (ProvisioningState × ℕ)
      → Option (Loop W)
  prepare rel none link w ret work reports =
      some (loop_with w (text_before_zero link) (first_rel rel) none ret work reports)
  prepare rel (some uuid) link w ret work reports = do
    let ((r, response), w') = frame.build_installation_request w
    install rel uuid link w' r response (request_of r response) work reports

  -- "recovery from factory reset 1"
  unfoldable pub recover : Order → List ℕ → Loop W → Option (Loop W)
  recover order url s = do
    let (assumed, w) = frame.factory_reset_assumed s.world
    if assumed && (not (is_delete order.initial_rel) && s.work_to_do)
        then (do
          delete_link ← create_basic_link order.suid url
          some (put_off (text_before_zero delete_link) (record s { world = w })))
        else some (record s { world = w })

  -- Everything before the loop.
  unfoldable pub start : Order → List ℕ → W → Option (Loop W)
  start order initial_url w = do
    let url = initial_url_of initial_url
    link ← first_link order url
    let (ret, w') = frame.open_se_client w
    let connecting = (connecting_service_enabler, rootpa_ok) ∷ []
    s ←
        (if ret == rootpa_ok
          then prepare order.initial_rel order.uuid link w' ret true connecting
          else prepare order.initial_rel order.uuid link w' ret false
              ((error_state, ret) ∷ connecting))
    recover order url s

  -- The end of the function: the connection is closed, and the link freed.
  unfoldable pub finish : Loop W → Option (Loop W)
  finish s = do
    mem ← free s.link s.memory
    some (record s {
      world = frame.close_se_client s.world;
      memory = mem;
      link = null;
      response = none;
    })

  unfoldable pub do_provisioning_with_se : Peer W → ℕ → Order → List ℕ → W → Option (Loop W)
  do_provisioning_with_se peer fuel order initial_url w = do
    s ← start order initial_url w
    s' ← rounds peer fuel s
    finish s'
