-- ===== src/Wifi/Approval.antt =====
-- A Wi-Fi configuration is begun only by an approval on the device.
use m5stack_core_s3se_dmx_co.Base.{ℕ, ◌≡◌, ◌≢◌, Bool, List, arith, refl, u64, ◌+◌}
use m5stack_core_s3se_dmx_co.SoftAp.{no_credentials}
use m5stack_core_s3se_dmx_co.Wifi.{
  WifiConfiguration, WifiBackend, Phase, Work, propose, cancel, cancel_physical, dismiss, approve,
  poll, published, discard, accept, wait, finish, work,
}

-- What is done to the configuration, with the times.
pub data Event : Type 0 where
  proposing : List ℕ → List ℕ → ℕ → ℕ → ℕ → ℕ → Event
  cancelling : ℕ → ℕ → Event
  cancelling_here : Event
  dismissing : Event
  approving : ℕ → Event
  publishing : Event
  polling : ℕ → Event

-- No secret is kept: a candidate is held only while the device is asked to approve it.
unfoldable pub KeepsNoSecret : {B : Type 0} → WifiConfiguration B → Type 0
KeepsNoSecret w = (w.phase ≢ Phase.approval) → w.candidate ≡ no_credentials

module _ {B : Type 0} (backend : WifiBackend B) where
  pub handle : Event → WifiConfiguration B → WifiConfiguration B
  handle (proposing ssid password base generation id now) w =
      (propose backend ssid password base generation id now w).0
  handle (cancelling generation request) w = (cancel generation request w).0
  handle cancelling_here w = cancel_physical w
  handle dismissing w = dismiss w
  handle (approving now) w = (approve backend now w).0
  handle publishing w = published backend w
  handle (polling now) w = poll backend now w

  finish-KeepsNoSecret :
      (r : Work) (w : WifiConfiguration B) → KeepsNoSecret w → KeepsNoSecret (finish backend r w)
  unfolding finish discard KeepsNoSecret
  finish-KeepsNoSecret Work.pending w h = h
  finish-KeepsNoSecret Work.done w h = λ k. refl
  finish-KeepsNoSecret Work.storage_error w h = λ k. refl
  finish-KeepsNoSecret Work.radio_error w h = λ k. refl
  finish-KeepsNoSecret Work.rollback_error w h = λ k. refl

  wait-KeepsNoSecret :
      (now : ℕ) (w : WifiConfiguration B)
      → w.phase ≡ Phase.approval
      → KeepsNoSecret (wait backend now w)
  unfolding wait discard KeepsNoSecret
  wait-KeepsNoSecret now w h = ground arith

  work-KeepsNoSecret :
      (is_ready : Bool) (now : ℕ) (w : WifiConfiguration B)
      → KeepsNoSecret w
      → KeepsNoSecret (work backend is_ready now w)
  unfolding work KeepsNoSecret
  work-KeepsNoSecret is_ready now w h = ground (
    arith,
    wait-KeepsNoSecret now w,
    finish-KeepsNoSecret (backend.progress w.backend).0
        (record w { backend = (backend.progress w.backend).1 }),
  )

  noted-KeepsNoSecret :
      (w : WifiConfiguration B)
      → KeepsNoSecret w
      → KeepsNoSecret
          (record w { available = backend.available w.backend; revision = u64 (w.revision + 1) })
  unfolding KeepsNoSecret
  noted-KeepsNoSecret w h = h

  poll-KeepsNoSecret :
      (now : ℕ) (w : WifiConfiguration B) → KeepsNoSecret w → KeepsNoSecret (poll backend now w)
  unfolding poll
  poll-KeepsNoSecret now w h = ground (
    arith,
    work-KeepsNoSecret (backend.available w.backend) now w h,
    work-KeepsNoSecret (backend.available w.backend) now
        (record w { available = backend.available w.backend; revision = u64 (w.revision + 1) })
        (noted-KeepsNoSecret w h),
  )

  -- Every operation keeps the promise that no secret is held outside an approval.
  pub handle-KeepsNoSecret :
      (e : Event) (w : WifiConfiguration B) → KeepsNoSecret w → KeepsNoSecret (handle e w)
  unfolding handle KeepsNoSecret propose accept cancel cancel_physical dismiss approve published
      discard
  handle-KeepsNoSecret (proposing ssid password base generation id now) w h = ground arith
  handle-KeepsNoSecret (cancelling generation request) w h = ground arith
  handle-KeepsNoSecret cancelling_here w h = ground arith
  handle-KeepsNoSecret dismissing w h = ground arith
  handle-KeepsNoSecret (approving now) w h = ground arith
  handle-KeepsNoSecret publishing w h = ground arith
  handle-KeepsNoSecret (polling now) w h = poll-KeepsNoSecret now w h
