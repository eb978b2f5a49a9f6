-- ===== src/Maintenance/Countdown.antt =====
-- The countdown before a maintenance action: its cancellation, and the point of no return after it.
use m5stack_core_s3se_dmx_co.Base.{ℕ, ◌≡◌, ◌<◌, true, List, [], ◌∷◌, arith, sub32}
use m5stack_core_s3se_dmx_co.Maintenance.{
  DeviceMaintenance, MaintenanceBackend, MaintenanceResult, Action, Phase, is_committed, request,
  cancel, cancel_physical, active, countdown_ms,
}
use m5stack_core_s3se_dmx_co.Maintenance.Phases.{Event, follows, handle, handle-follows}

module _ {B : Type 0} (backend : MaintenanceBackend B) where
  -- A request that was accepted, and that its owner cancels in less than five seconds, leaves the
  -- device idle and the transport and the hardware untouched.
  pub request_cancel :
      (action : Action) (owner id now later : ℕ) (m m' : DeviceMaintenance B)
      → request backend action owner id now m ≡ (m', MaintenanceResult.accepted)
      → sub32 later now < countdown_ms
      → ((cancel owner id later m').1 ≡ MaintenanceResult.cancelled)
        × ((cancel owner id later m').0.phase ≡ Phase.idle)
        × ((cancel owner id later m').0.action ≡ Action.none_asked)
        × ((cancel owner id later m').0.backend ≡ m.backend)
  unfolding request cancel cancel_physical active
  request_cancel action owner id now later m m' e h = ground arith

  pub handles : List Event → DeviceMaintenance B → DeviceMaintenance B
  handles [] m = m
  handles (e ∷ es) m = handles es (handle backend e m)

  follows-committed :
      (p q : Phase) → follows p q ≡ true → is_committed p ≡ true → is_committed q ≡ true
  follows-committed p q h k = ground arith

  -- Once an action is committed, no sequence of requests, cancellations and turns brings the device
  -- back to a phase in which the action could still be called off.
  pub committed_forever :
      (es : List Event) (m : DeviceMaintenance B)
      → is_committed m.phase ≡ true
      → is_committed (handles es m).phase ≡ true
  unfolding handles
  committed_forever [] m h = h
  committed_forever (e ∷ es) m h =
      committed_forever es (handle backend e m)
        (follows-committed m.phase (handle backend e m).phase (handle-follows backend e m) h)
