-- ===== src/Maintenance/Phases.antt =====
-- The phases of a maintenance action: which may follow which, and that the hardware call is the last.
use m5stack_core_s3se_dmx_co.Base.{ℕ, ◌+◌, ◌≡◌, Bool, true, false, arith, refl, u32, u64}
use m5stack_core_s3se_dmx_co.Maintenance.{
  DeviceMaintenance, MaintenanceBackend, Action, Phase, is_committed, request, cancel,
  cancel_physical, ask_local, poll, active, commit, fail, settle, zero, poll_in,
}

-- What is asked of the maintenance, with the times of the asking.
pub data Event : Type 0 where
  ask : Action → ℕ → ℕ → ℕ → Event
  withdraw : ℕ → ℕ → ℕ → Event
  withdraw_here : ℕ → Event
  ask_here : Action → ℕ → Bool → Event
  turn : ℕ → ℕ → Bool → Event

-- The diagram of the phases. A committed action goes on to its end or fails; nothing leads out of `failed`.
abbrev pub follows : Phase → Phase → Bool
follows Phase.idle Phase.failed = false
follows Phase.idle _ = true
follows Phase.countdown Phase.failed = false
follows Phase.countdown _ = true
follows Phase.zeroing Phase.idle = false
follows Phase.zeroing Phase.countdown = false
follows Phase.zeroing _ = true
follows Phase.quiescing Phase.quiescing = true
follows Phase.quiescing Phase.executing = true
follows Phase.quiescing Phase.failed = true
follows Phase.quiescing _ = false
follows Phase.executing Phase.executing = true
follows Phase.executing Phase.failed = true
follows Phase.executing _ = false
follows Phase.failed Phase.failed = true
follows Phase.failed _ = false

module _ {B : Type 0} (backend : MaintenanceBackend B) where
  pub handle : Event → DeviceMaintenance B → DeviceMaintenance B
  handle (ask action owner id now) m = (request backend action owner id now m).0
  handle (withdraw owner id now) m = (cancel owner id now m).0
  handle (withdraw_here now) m = (cancel_physical now m).0
  handle (ask_here action now sender) m = (ask_local backend action now sender m).0
  handle (turn now now_us sender) m = poll backend now now_us sender m

  commit-follows :
      (now : ℕ) (sender : Bool) (m : DeviceMaintenance B)
      → is_committed m.phase ≡ false
      → follows m.phase (commit backend now sender m).phase ≡ true
  unfolding commit
  commit-follows now sender m p = ground arith

  settle-phase :
      (now_us : ℕ) (m : DeviceMaintenance B)
      → m.phase ≡ Phase.quiescing
      → follows Phase.quiescing (settle backend now_us m).phase ≡ true
  unfolding settle fail
  settle-phase now_us m e = ground (arith)

  zero-phase :
      (now_us : ℕ) (m : DeviceMaintenance B)
      → m.phase ≡ Phase.zeroing
      → follows Phase.zeroing (zero backend now_us m).phase ≡ true
  unfolding zero fail
  zero-phase now_us m e = ground (
    arith,
    settle-phase now_us (record m {
      backend = (backend.zero_frame now_us m.backend).1;
      zeros = u32 (m.zeros + 1);
      phase = Phase.quiescing;
      revision = u64 (m.revision + 1);
    }),
  )

  poll_in-follows :
      (p : Phase) (now now_us : ℕ) (sender : Bool) (m : DeviceMaintenance B)
      → m.phase ≡ p
      → follows p (poll_in backend p now now_us sender m).phase ≡ true
  unfolding poll_in fail
  poll_in-follows Phase.idle now now_us sender m e = ground arith
  poll_in-follows Phase.countdown now now_us sender m e =
      ground (arith, commit-follows now sender m (ground arith))
  poll_in-follows Phase.zeroing now now_us sender m e = ground (arith, zero-phase now_us m e)
  poll_in-follows Phase.quiescing now now_us sender m e = ground (arith, settle-phase now_us m e)
  poll_in-follows Phase.executing now now_us sender m e = refl
  poll_in-follows Phase.failed now now_us sender m e = ground arith

  -- Every request, cancellation and turn follows the diagram of the phases.
  pub handle-follows :
      (e : Event) (m : DeviceMaintenance B) → follows m.phase (handle e m).phase ≡ true
  unfolding handle request cancel cancel_physical ask_local poll active
  handle-follows (ask action owner id now) m = ground arith
  handle-follows (withdraw owner id now) m = ground arith
  handle-follows (withdraw_here now) m = ground arith
  handle-follows (ask_here action now sender) m =
      ground
        (arith, commit-follows now sender (record m { action = action; request_id = 0; owner = 0 }))
  handle-follows (turn now now_us sender) m = poll_in-follows m.phase now now_us sender m refl
