-- ===== src/TxCore.antt =====
-- patches/esp_dmx_v202/tx_core.h: the phases of one frame in the transmitter.
pub mod Complete
use m5stack_core_s3se_dmx_co.Base.{
  ℕ, ◌+◌, ◌-◌, ◌*◌, Bool, true, false, not, ◌&&◌, ◌||◌, ◌==◌, ltb, leb, if◌then◌else◌,
}
use m5stack_core_s3se_dmx_co.Transport.Types.{Phase, TxResult, is_fault, is_ready}

-- `dmx_tx_state_t`, less `first_fifo_us`, which only the driver writes.
pub record TxState : Type 0 where
  pub phase : Phase
  pub result : TxResult
  pub attempt : ℕ
  pub queued : ℕ
  pub requested : ℕ
  pub done_seen : Bool
  pub force_break : Bool
  pub started_us : ℕ
  pub retired_us : ℕ
  pub frame_us : ℕ

abbrev is_feeding : Phase → Bool
is_feeding Phase.feeding = true
is_feeding _ = false

abbrev is_draining : Phase → Bool
is_draining Phase.draining = true
is_draining _ = false

abbrev is_retiring : Phase → Bool
is_retiring Phase.retiring = true
is_retiring _ = false

abbrev is_pending : TxResult → Bool
is_pending TxResult.pending = true
is_pending _ = false

pub owned : TxState → Bool
owned s = not (is_ready s.phase)

pub fail : TxResult → ℕ → TxState → TxState
fail error now s =
    if is_retiring s.phase || is_fault s.phase
    then s
    else record s { phase = Phase.retiring; result = error; retired_us = now; force_break = true }

pub before_fill : Bool → ℕ → TxState → TxState × Bool
unfolding fail
before_fill raw_done now s =
    if not (is_feeding s.phase)
    then (s, false)
    else if raw_done
    then (fail TxResult.underrun now s, false)
    else (s, true)

-- `requested - queued` is not negative here, since the queued bytes were asked for.
pub after_fill : ℕ → Bool → ℕ → TxState → TxState
unfolding fail
after_fill written raw_done now s =
    let s1 : TxState = record s { queued = s.queued + written } in
    if not (is_feeding s.phase)
    then s
    else if written == 0 || ltb (s.requested - s.queued) written
    then fail TxResult.start_failed now s
    else if raw_done
    then fail TxResult.underrun now s1
    else if s1.queued == s1.requested
    then record s1 { phase = Phase.draining }
    else s1

pub observe_done : ℕ → TxState → TxState
unfolding fail
observe_done now s =
    if is_feeding s.phase
    then fail TxResult.underrun now s
    else if is_draining s.phase
    then record s { done_seen = true }
    else s

-- The part of `advance` in the phase `retiring`.
retire : Bool → ℕ → TxState → TxState
retire idle now s =
    if not (is_retiring s.phase)
    then s
    else if idle
    then record s { phase = Phase.ready }
    else if leb (s.frame_us * 2) (now - s.retired_us)
    then record s { phase = Phase.fault_stopped }
    else s

pub advance : Bool → ℕ → TxState → TxState
unfolding fail retire
advance idle now s =
    if is_draining s.phase && s.done_seen && idle && s.queued == s.requested && is_pending s.result
    then record s { result = TxResult.complete; phase = Phase.ready }
    else retire idle now (
        if (is_feeding s.phase || is_draining s.phase) && leb (s.frame_us * 4) (now - s.started_us)
        then fail TxResult.timeout now s
        else s)
