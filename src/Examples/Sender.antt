-- ===== src/Examples/Sender.antt =====
-- The theorems of the transport, with a driver that takes everything and never answers.
use m5stack_core_s3se_dmx_co.Base.{
  ℕ, ◌+◌, ◌≡◌, ◌⊎◌, true, false, List, [], ◌∷◌, arith, refl, replicate, length-replicate, get_or,
}
use m5stack_core_s3se_dmx_co.Controller.{zero_packet}
use m5stack_core_s3se_dmx_co.Transport.{may_start, poll, service_tx}
use m5stack_core_s3se_dmx_co.Transport.Types.{
  Driver, DmxTransport, Health, Phase, TxResult, no_barrier,
}
use m5stack_core_s3se_dmx_co.Transport.Barriers.{
  Handed, Takes, next_packet, IsValid, waiting, next_generation, service_tx_refines,
}
use m5stack_core_s3se_dmx_co.TxCore.{TxState}
use m5stack_core_s3se_dmx_co.TxCore.Complete.{IsWhole, Observation, observes, observes-IsWhole}
use m5stack_core_s3se_dmx_co.Transport.Safety.{Use, uses, stopped_forever}

abbrev silent : Driver ℕ
silent = record {
  poll = λ s n. (true, s, n);
  set_sender = λ b n. (true, n);
  write = λ p n. (true, n);
  start = λ n. (true, n + 1, n + 1);
  cancel = λ n. (true, n);
}

abbrev healthy : Health
healthy = record {
  requested = 0;
  published = 0;
  accepted = 0;
  started = 0;
  completed = 0;
  errors = 0;
  cancelled_barriers = 0;
  last_error = TxResult.complete;
  driver_phase = Phase.ready;
  consecutive_failures = 0;
  fault_stopped = false;
}

abbrev new_transport : DmxTransport ℕ
new_transport = record {
  driver = 0;
  latest = zero_packet;
  barriers = replicate 4 no_barrier;
  head = 0;
  count = 0;
  health = healthy;
  status = record {
    phase = Phase.ready;
    result = TxResult.complete;
    attempt = 0;
    queued = 0;
    fifo_seen = false;
    write_mode = true;
    can_start = true;
  };
  active_generation = 0;
  active_attempt = 0;
  retry_after_us = 0;
  want_sender = true;
  have_packet = false;
  inflight = false;
  active_barrier = false;
}

abbrev stopped_transport : DmxTransport ℕ
stopped_transport = record new_transport { health = record healthy { fault_stopped = true } }

new_transport-IsValid : IsValid new_transport
new_transport-IsValid = record {
  storage = length-replicate 4 no_barrier;
  head_in = omega arith;
  count_in = omega arith;
}

service_tx_refines_example :
    let (t', started) = service_tx silent 1000 new_transport in
    IsValid t'
    × ((waiting t' ≡ waiting new_transport)
        ⊎ ((false ≡ true)
            × (false ≡ true)
            × (waiting new_transport ≡ get_or new_transport.barriers 0 no_barrier ∷ waiting t')
            × ((get_or new_transport.barriers 0 no_barrier).generation
                ≡ new_transport.active_generation)))
    × (started ≡ true
        → ((poll silent 1000 new_transport).inflight ≡ false)
          × (t'.inflight ≡ true)
          × (t'.active_generation ≡ next_generation silent (poll silent 1000 new_transport))
          × (waiting (poll silent 1000 new_transport) ≡ waiting t')
          × Handed silent
              (next_packet silent (poll silent 1000 new_transport))
              (poll silent 1000 new_transport)
              t')
    × (may_start 1000 (poll silent 1000 new_transport) ≡ true
        → Takes silent
            (next_packet silent (poll silent 1000 new_transport))
            (poll silent 1000 new_transport)
        → started ≡ true)
service_tx_refines_example = service_tx_refines silent 1000 new_transport new_transport-IsValid

abbrev some_uses : List Use
some_uses = Use.stage_packet zero_packet true ∷ Use.serve_at 1000 ∷ Use.want false ∷ []

stopped_forever_example :
    let t' = uses silent some_uses stopped_transport in
    (t'.health.fault_stopped ≡ true)
    × (t'.inflight ≡ false)
    × (service_tx silent 2000 t' ≡ (poll silent 2000 t', false))
stopped_forever_example = stopped_forever silent some_uses stopped_transport 2000 refl refl

-- A frame of 513 bytes that has just been started.
abbrev started_frame : TxState
started_frame = record {
  phase = Phase.feeding;
  result = TxResult.pending;
  attempt = 1;
  queued = 0;
  requested = 513;
  done_seen = false;
  force_break = false;
  started_us = 0;
  retired_us = 0;
  frame_us = 22760;
}

started_frame-IsWhole : IsWhole started_frame
unfolding IsWhole
started_frame-IsWhole = ground arith

abbrev some_observations : List Observation
some_observations =
    Observation.filled 513 false 10 ∷ Observation.done 20000 ∷ Observation.turn true 22000 ∷ []

observes-IsWhole_example : IsWhole (observes some_observations started_frame)
observes-IsWhole_example = observes-IsWhole some_observations started_frame started_frame-IsWhole
