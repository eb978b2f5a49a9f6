-- ===== src/Maintenance.antt =====
-- include/device_maintenance.h: a restart or a power-off, after a countdown that can be cancelled.
pub mod Phases
pub mod Countdown
pub mod Progress
pub mod Adapter
use m5stack_core_s3se_dmx_co.Base.{
  ℕ, ◌+◌, ◌-◌, ◌*◌, ◌/◌, Bool, true, false, not, ◌&&◌, ◌||◌, ◌==◌, ltb, leb, if◌then◌else◌, u32,
  u64, sub32,
}

abbrev pub countdown_ms : ℕ
countdown_ms = 5000

pub data Action : Type 0 where
  none_asked restart power_off : Action

pub data Phase : Type 0 where
  idle countdown zeroing quiescing executing failed : Phase

pub data Reason : Type 0 where
  no_reason busy cancelled transport deadline returned : Reason

pub data MaintenanceResult : Type 0 where
  invalid accepted cancelled unauthorized busy unsupported : MaintenanceResult

pub data Step : Type 0 where
  pending ready failed : Step

-- `DeviceMaintenance::Backend`, an interface to the transport and the hardware. Times in microseconds
-- are passed through.
pub record MaintenanceBackend (B : Type 0) : Type 0 where
  pub is_busy : B → Bool
  pub begin : Bool → B → B
  pub zero_frame : ℕ → B → Step × B
  pub quiesce : ℕ → B → Step × B
  pub execute : Action → B → B

-- The members of `DeviceMaintenance`, those of its snapshot among them.
pub record DeviceMaintenance (B : Type 0) : Type 0 where
  pub backend : B
  pub revision : ℕ
  pub request_id : ℕ
  pub remaining_ms : ℕ
  pub action : Action
  pub phase : Phase
  pub reason : Reason
  pub owner : ℕ
  pub started : ℕ
  pub zeros : ℕ

abbrev pub is_valid : Action → Bool
is_valid Action.none_asked = false
is_valid _ = true

abbrev pub is_idle : Phase → Bool
is_idle Phase.idle = true
is_idle _ = false

abbrev pub is_countdown : Phase → Bool
is_countdown Phase.countdown = true
is_countdown _ = false

-- `phase >= zeroing`
abbrev pub is_committed : Phase → Bool
is_committed Phase.idle = false
is_committed Phase.countdown = false
is_committed _ = true

abbrev is_power_off : Action → Bool
is_power_off Action.power_off = true
is_power_off _ = false

module _ {B : Type 0} where
  pub active : DeviceMaintenance B → Bool
  active m = not (is_idle m.phase)

  pub committed : DeviceMaintenance B → Bool
  committed m = is_committed m.phase

  pub remaining_seconds : ℕ → DeviceMaintenance B → ℕ
  remaining_seconds now m =
      if not (is_countdown m.phase)
      then 0
      else let elapsed = sub32 now m.started in
        if leb countdown_ms elapsed then 0 else (countdown_ms - elapsed + 999) / 1000

  -- `++revision`
  abbrev next : DeviceMaintenance B → DeviceMaintenance B
  next m = record m { revision = u64 (m.revision + 1) }

  fail : Reason → DeviceMaintenance B → DeviceMaintenance B
  fail reason m = next (record m { phase = Phase.failed; reason = reason })

  pub cancel_physical : ℕ → DeviceMaintenance B → DeviceMaintenance B × MaintenanceResult
  cancel_physical now m =
      if not (is_countdown m.phase) || leb countdown_ms (sub32 now m.started)
      then (m, MaintenanceResult.busy)
      else (
        next (record m {
          phase = Phase.idle;
          action = Action.none_asked;
          reason = Reason.cancelled;
          request_id = 0;
          remaining_ms = 0;
          owner = 0;
        }),
        MaintenanceResult.cancelled,
      )

  pub cancel : ℕ → ℕ → ℕ → DeviceMaintenance B → DeviceMaintenance B × MaintenanceResult
  cancel owner request_id now m =
      if not (owner == m.owner) || not (request_id == m.request_id)
      then (m, MaintenanceResult.unauthorized)
      else cancel_physical now m

module _ {B : Type 0} (backend : MaintenanceBackend B) where
  open backend use {is_busy, begin, zero_frame, quiesce, execute}

  unfoldable pub request :
      Action → ℕ → ℕ → ℕ → DeviceMaintenance B → DeviceMaintenance B × MaintenanceResult
  unfolding active
  request action owner id now m =
      if owner == 0 || id == 0 || not (is_valid action)
      then (m, MaintenanceResult.invalid)
      else if active m || is_busy m.backend
      then (m, MaintenanceResult.busy)
      else (
        next (record m {
          action = action;
          request_id = id;
          phase = Phase.countdown;
          reason = Reason.no_reason;
          remaining_ms = countdown_ms;
          owner = owner;
          started = now;
        }),
        MaintenanceResult.accepted,
      )

  commit : ℕ → Bool → DeviceMaintenance B → DeviceMaintenance B
  commit now sender m =
      let m1 : DeviceMaintenance B = record m {
        started = now;
        zeros = 0;
        reason = Reason.no_reason;
        remaining_ms = 0;
      } in
      next (
        if is_power_off m.action then record m1 { phase = Phase.executing } else record m1 {
          phase = if sender then Phase.zeroing else Phase.quiescing;
          backend = begin sender m.backend;
        })

  -- `local`
  pub ask_local : Action → ℕ → Bool → DeviceMaintenance B → DeviceMaintenance B × MaintenanceResult
  unfolding active commit
  ask_local action now sender m =
      if not (is_valid action)
      then (m, MaintenanceResult.invalid)
      else if active m || is_busy m.backend
      then (m, MaintenanceResult.busy)
      else (
        commit now sender (record m { action = action; request_id = 0; owner = 0 }),
        MaintenanceResult.accepted,
      )

  -- The last part of `poll`, in the phase `quiescing`.
  settle : ℕ → DeviceMaintenance B → DeviceMaintenance B
  unfolding fail
  settle now_us m =
      let (step, b) = quiesce now_us m.backend in
      let m1 : DeviceMaintenance B = record m { backend = b } in
      elim step [
        | Step.failed ↦ fail Reason.transport m1
        | Step.ready ↦ next (record m1 { phase = Phase.executing })
        | Step.pending ↦ m1
      ]

  -- The part of `poll` in the phase `zeroing`: the third frame of zeros leads on in the same turn.
  zero : ℕ → DeviceMaintenance B → DeviceMaintenance B
  unfolding fail settle
  zero now_us m =
      let (step, b) = zero_frame now_us m.backend in
      let m1 : DeviceMaintenance B = record m { backend = b } in
      elim step [
        | Step.failed ↦ fail Reason.transport m1
        | Step.pending ↦ m1
        | Step.ready ↦
            let m2 : DeviceMaintenance B = record m1 { zeros = u32 (m.zeros + 1) } in
            if ltb m2.zeros 3
            then m2
            else settle now_us (next (record m2 { phase = Phase.quiescing }))
      ]

  -- `poll`, by the phase.
  poll_in : Phase → ℕ → ℕ → Bool → DeviceMaintenance B → DeviceMaintenance B
  unfolding fail commit settle zero remaining_seconds
  poll_in Phase.idle now now_us sender m = m
  poll_in Phase.countdown now now_us sender m =
      let seconds = remaining_seconds now m in
      if seconds == 0
      then commit now sender m
      else if m.remaining_ms == seconds * 1000
      then m
      else next (record m { remaining_ms = seconds * 1000 })
  poll_in Phase.zeroing now now_us sender m =
      if leb 2000 (sub32 now m.started) then fail Reason.deadline m else zero now_us m
  poll_in Phase.quiescing now now_us sender m =
      if leb 2000 (sub32 now m.started) then fail Reason.deadline m else settle now_us m
  poll_in Phase.executing now now_us sender m =
      fail Reason.returned (record m { backend = execute m.action m.backend })
  poll_in Phase.failed now now_us sender m = m

  pub poll : ℕ → ℕ → Bool → DeviceMaintenance B → DeviceMaintenance B
  unfolding poll_in
  poll now now_us sender m = poll_in m.phase now now_us sender m
