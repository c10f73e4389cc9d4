-- ===== src/Tests/Platforms.antt =====
-- A world of one state: memory is there, the driver and the registry succeed, and the trustlet
-- answers a command with its response id.
use tee_mobicore_driver_daem.Base.{
  ℕ, ◌+◌, List, [], ◌∷◌, Bool, true, false, Option, none, get_or, replicate,
}
use tee_mobicore_driver_daem.Cmp.{CmpMessage, cmp_version, rsp_id_mask}
use tee_mobicore_driver_daem.World.{Platform, BulkMap}
use tee_mobicore_driver_daem.State.{Sys, Cmt}

abbrev pub World : Type 0
World = Unit {0}

abbrev fine : World → ℕ × World
fine w = (0, w)

abbrev pub small_map : BulkMap
small_map = record { s_virtual_addr = 4096; s_virtual_len = 256 }

-- The response to a command: one element of 24 bytes.
abbrev answer : List ℕ → List ℕ
answer wsm = cmp_version ∷ (get_or wsm 1 0 + rsp_id_mask) ∷ 0 ∷ 0 ∷ 24 ∷ 0 ∷ 0 ∷ 0 ∷ 0 ∷ 0 ∷ []

abbrev pub root_bytes : List ℕ
root_bytes = 1 ∷ 2 ∷ 3 ∷ []

abbrev pub sp_bytes : List ℕ
sp_bytes = 4 ∷ 5 ∷ []

-- Memory, and the result of removing the authentication token, as given.
abbrev pub platform : Bool → ℕ → Platform World
platform memory deleted = record {
  alloc = λ n w. (memory, w);
  stale_bytes = λ w. [];
  open_device = fine;
  close_device = fine;
  malloc_wsm = λ n. fine;
  free_wsm = fine;
  open_session = λ uuid. fine;
  open_trustlet = λ spid binary. fine;
  close_session = fine;
  map_buffer = λ n w. ((0, small_map), w);
  unmap_buffer = λ info. fine;
  notify = fine;
  wait_notification = λ wsm bytes w. ((0, answer wsm, bytes), w);
  read_auth_token = λ w. ((0, 9 ∷ []), w);
  store_auth_token = λ bytes. fine;
  delete_auth_token = λ w. (deleted, w);
  read_root = λ w. ((0, root_bytes), w);
  store_root = λ bytes. fine;
  cleanup_root = fine;
  read_sp = λ spid w. ((0, sp_bytes), w);
  store_sp = λ spid bytes. fine;
  cleanup_sp = λ spid. fine;
  read_tlt = λ uuid spid w. ((0, 6 ∷ []), w);
  store_tlt = λ uuid spid bytes. fine;
  cleanup_tlt = λ uuid spid. fine;
  store_ta_blob = λ spid bytes. fine;
  init_attributes = fine;
  create_thread = fine;
}

abbrev pub working : Platform World
working = platform true 0

abbrev pub without_memory : Platform World
without_memory = platform false 0

abbrev pub idle : Sys World
idle = record { world = tt; log = []; spid = 0; tlt_uuid = []; callback_set = false; handle = none }

-- A handle with a mapped buffer of this size.
abbrev pub handle_of : ℕ → Cmt
handle_of size = record {
  wsm = replicate 10 0;
  mapped = replicate size 0;
  mapped_size = size;
  map_info = small_map;
  last_error = 0;
  reallocs = 0;
}

abbrev pub message : ℕ → Option (List ℕ) → Bool → CmpMessage
message length content ignore_error = record {
  length = length;
  content = content;
  hdr = record { ignore_error = ignore_error; ret = 0; int_ret = 0; id = 5 };
}

abbrev pub no_response : CmpMessage
no_response = message 0 none false
