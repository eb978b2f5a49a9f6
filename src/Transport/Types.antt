-- ===== src/Transport/Types.antt =====
-- src/dmx_transport.h: the records of the transport and the driver that it is given. Times are
-- microseconds since the start, which are not negative.
use m5stack_core_s3se_dmx_co.Base.{ℕ, Bool, true, false, List, replicate, ◌==◌, if◌then◌else◌}

-- `dmx_tx_phase_t` and `dmx_tx_result_t` of patches/esp_dmx_v202/tx_core.h.
pub data Phase : Type 0 where
  ready preparing feeding draining retiring fault_stopped : Phase

pub data TxResult : Type 0 where
  pending complete underrun timeout cancelled start_failed collision : TxResult

-- What a poll of the driver tells (`Status`): of `dmx_tx_state_t`, the members that are read here, with
-- `fifo_seen` for `first_fifo_us >= 0`.
pub record Status : Type 0 where
  pub phase : Phase
  pub result : TxResult
  pub attempt : ℕ
  pub queued : ℕ
  pub fifo_seen : Bool
  pub write_mode : Bool
  pub can_start : Bool

-- `Driver`, an interface of hardware: each call may change it, `D`.
pub record Driver (D : Type 0) : Type 0 where
  pub poll : Status → D → Bool × Status × D
  pub set_sender : Bool → D → Bool × D
  pub write : List ℕ → D → Bool × D
  pub start : D → Bool × ℕ × D
  pub cancel : D → Bool × D

pub record Health : Type 0 where
  pub requested : ℕ
  pub published : ℕ
  pub accepted : ℕ
  pub started : ℕ
  pub completed : ℕ
  pub errors : ℕ
  pub cancelled_barriers : ℕ
  pub last_error : TxResult
  pub driver_phase : Phase
  pub consecutive_failures : ℕ
  pub fault_stopped : Bool

pub record Barrier : Type 0 where
  pub packet : List ℕ
  pub generation : ℕ

pub record DmxTransport (D : Type 0) : Type 0 where
  pub driver : D
  pub latest : List ℕ
  pub barriers : List Barrier
  pub head : ℕ
  pub count : ℕ
  pub health : Health
  pub status : Status
  pub active_generation : ℕ
  pub active_attempt : ℕ
  pub retry_after_us : ℕ
  pub want_sender : Bool
  pub have_packet : Bool
  pub inflight : Bool
  pub active_barrier : Bool

abbrev pub uint64_max : ℕ
uint64_max = 18446744073709551615

abbrev pub barrier_capacity : ℕ
barrier_capacity = 4

-- 513 slots of 44 us, the break and the mark after it.
abbrev pub nominal_frame_us : ℕ
nominal_frame_us = 22760

abbrev pub max_failed_attempts : ℕ
max_failed_attempts = 3

abbrev pub no_barrier : Barrier
no_barrier = record { packet = replicate 513 0; generation = 0 }

abbrev pub is_fault : Phase → Bool
is_fault Phase.fault_stopped = true
is_fault _ = false

abbrev pub is_ready : Phase → Bool
is_ready Phase.ready = true
is_ready _ = false

abbrev pub is_running : Phase → Bool
is_running Phase.feeding = true
is_running Phase.draining = true
is_running _ = false

abbrev pub is_complete : TxResult → Bool
is_complete TxResult.complete = true
is_complete _ = false

-- At the last generation all counters start over.
abbrev pub restarted : Health → Health
restarted h =
    if h.requested == uint64_max
    then record h { requested = 0; published = 0; accepted = 0; started = 0; completed = 0 }
    else h
