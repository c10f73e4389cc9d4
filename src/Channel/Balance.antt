-- ===== src/Channel/Balance.antt =====
-- What `taChannelOpen` and `tltChannelClose` (rootpa/Code/Common/trustletchannel.c) acquire and
-- release: the device, the shared buffer and the session.
use tee_mobicore_driver_daem.Base.{
  ℕ, ◌+◌, ◌≡◌, List, [], ◌∷◌, Option, none, some, arith, if◌then◌else◌, ◌==◌,
}
use tee_mobicore_driver_daem.Cmp.{mc_drv_ok}
use tee_mobicore_driver_daem.World.{Platform}
use tee_mobicore_driver_daem.State.{Event, Sys, Cmt}
use tee_mobicore_driver_daem.State
use tee_mobicore_driver_daem.Channel.{open_by, open_on_device, ta_channel_open, tlt_channel_close}

pub data Resource : Type 0 where
  device shared_buffer session : Resource

-- 1 if the call succeeded.
abbrev one_if_ok : ℕ → ℕ
one_if_ok r = if r == mc_drv_ok then 1 else 0

abbrev acquires : Event → Resource → ℕ
acquires (State.open_device r) device = one_if_ok r
acquires (State.malloc_wsm r) shared_buffer = one_if_ok r
acquires (State.open_session r) session = one_if_ok r
acquires _ _ = 0

abbrev releases : Event → Resource → ℕ
releases (State.close_device r) device = 1
releases (State.free_wsm r) shared_buffer = 1
releases (State.close_session r) session = 1
releases _ _ = 0

-- How often a resource was acquired, and how often it was released.
abbrev pub acquired : Resource → List Event → ℕ
acquired k [] = 0
acquired k (e ∷ log) = acquires e k + acquired k log

abbrev pub released : Resource → List Event → ℕ
released k [] = 0
released k (e ∷ log) = releases e k + released k log

-- How many handles there are: one or none.
abbrev pub handles : Option Cmt → ℕ
handles none = 0
handles (some h) = 1

-- From the old log to the new one, this many more were acquired than released.
abbrev pub Kept : ℕ → List Event → List Event → Type 0
Kept n old new =
    (k : Resource) → acquired k new + released k old ≡ n + (acquired k old + released k new)

module _ {W : Type 0} (p : Platform W) where
  -- Opening a channel leaves the device, the shared buffer and the session acquired once more
  -- than released if it returns a handle, and as often if it does not.
  pub ta_channel_open-Kept :
      (words : ℕ) (uuid : List ℕ) (ta_binary : Option (List ℕ)) (spid : ℕ) (s : Sys W)
      → let (opened, s') = ta_channel_open p words uuid ta_binary spid s in
        Kept (handles opened.0) s.log s'.log
  unfolding ta_channel_open open_on_device open_by
  ta_channel_open-Kept words uuid ta_binary spid s device = ground arith
  ta_channel_open-Kept words uuid ta_binary spid s shared_buffer = ground arith
  ta_channel_open-Kept words uuid ta_binary spid s session = ground arith

  pub tlt_channel_close-Kept :
      (h : Option Cmt) (s : Sys W)
      → (k : Resource)
      → let s' = (tlt_channel_close p h s).1 in
        handles h + (acquired k s'.log + released k s.log) ≡ acquired k s.log + released k s'.log
  unfolding tlt_channel_close
  tlt_channel_close-Kept none s k = omega arith
  tlt_channel_close-Kept (some h) s device = ground arith
  tlt_channel_close-Kept (some h) s shared_buffer = ground arith
  tlt_channel_close-Kept (some h) s session = ground arith
