-- ===== src/Transport.antt =====
-- src/dmx_transport.h and src/dmx_transport.cpp: one owner stages packets and starts them on a driver
-- that reports its state at each poll.
pub mod Types
pub mod Safety
pub mod Barriers
use m5stack_core_s3se_dmx_co.Base.{
  ℕ, ◌+◌, ◌-◌, ◌%◌, Bool, true, false, not, ◌&&◌, ◌||◌, List, get_or, set, length, ◌==◌, ltb, leb,
  bool_eq, if◌then◌else◌, u32,
}
use m5stack_core_s3se_dmx_co.Transport.Types.{
  TxResult, Driver, Health, DmxTransport, uint64_max, barrier_capacity, nominal_frame_us,
  max_failed_attempts, no_barrier, is_fault, is_ready, is_running, is_complete, restarted,
}

module _ {D : Type 0} where
  pub can_stage : Bool → DmxTransport D → Bool
  can_stage barrier t =
      t.want_sender
      && (not barrier || ltb t.count barrier_capacity)
      && (not (t.health.requested == uint64_max) || (not t.inflight && t.count == 0))

  pub stage : List ℕ → Bool → DmxTransport D → DmxTransport D × Bool
  unfolding can_stage
  stage packet barrier t =
      if not (length packet == 513) || not (get_or packet 0 0 == 0) || not (can_stage barrier t)
      then (t, false)
      else let h = restarted t.health in
        let generation = h.requested + 1 in
        let staged : DmxTransport D = record t {
          health = record h { requested = generation };
          latest = packet;
          have_packet = true;
        } in
        (
          if barrier
              then (record staged {
                barriers =
                    set t.barriers ((t.head + t.count) % barrier_capacity)
                      (record { packet = packet; generation = generation });
                count = t.count + 1;
              })
              else staged,
          true,
        )

  pub request_sender : Bool → DmxTransport D → DmxTransport D
  request_sender sender t =
      if bool_eq t.want_sender sender
      then t
      else if sender
      then record t { want_sender = true }
      else record t {
        want_sender = false;
        health = record t.health {
          cancelled_barriers = u32 (t.health.cancelled_barriers + t.count);
        };
        count = 0;
        head = 0;
        have_packet = false;
      }

  -- One failure more; three in a row stop the output. A retry waits for a frame.
  abbrev failed : TxResult → ℕ → DmxTransport D → DmxTransport D
  failed result now t =
      let failures = u32 (t.health.consecutive_failures + 1) in
      record t {
        health = record t.health {
          errors = u32 (t.health.errors + 1);
          last_error = result;
          consecutive_failures = failures;
          fault_stopped = leb max_failed_attempts failures || t.health.fault_stopped;
        };
        retry_after_us = now + nominal_frame_us;
      }

  -- A failure after which nothing is sent any more.
  abbrev stop : TxResult → ℕ → DmxTransport D → DmxTransport D
  stop result now t =
      let t' = (if t.health.fault_stopped then t else failed result now t) in
      record t' { health = record t'.health { fault_stopped = true } }

  abbrev stop_always : TxResult → ℕ → DmxTransport D → DmxTransport D
  stop_always result now t =
      let t' = failed result now t in
      record t' { health = record t'.health { fault_stopped = true } }

  -- Whether a frame may be started now.
  pub may_start : ℕ → DmxTransport D → Bool
  may_start now t =
      t.want_sender
      && t.have_packet
      && not t.inflight
      && not t.health.fault_stopped
      && t.status.can_start
      && not (ltb now t.retry_after_us)

  -- The driver has begun to send the frame in flight.
  mark_started : DmxTransport D → DmxTransport D
  mark_started t =
      if t.inflight && not (t.status.queued == 0) && t.status.fifo_seen
      then record t { health = record t.health { started = t.active_generation } }
      else t

  -- A frame that was in flight and whose driver is ready again.
  retire : ℕ → DmxTransport D → DmxTransport D
  retire now t =
      if t.inflight && t.status.attempt == t.active_attempt && is_ready t.status.phase
      then (if is_complete t.status.result
          then (let t' : DmxTransport D = record t {
            inflight = false;
            health = record t.health { completed = t.active_generation; consecutive_failures = 0 };
          } in
              if t.active_barrier
                && not (t.count == 0)
                && (get_or t.barriers t.head no_barrier).generation == t.active_generation
              then record t' { head = (t.head + 1) % barrier_capacity; count = t.count - 1 }
              else t')
          else if t.want_sender
          then failed t.status.result now (record t { inflight = false })
          else record t { inflight = false })
      else t

module _ {D : Type 0} (drv : Driver D) where
  -- The last part of `poll`: the mode of the driver follows what is wanted.
  settle : ℕ → DmxTransport D → DmxTransport D
  settle now t =
      if not t.want_sender
      then (if is_running t.status.phase
          then (let (done, d) = drv.cancel t.driver in
              let t' : DmxTransport D = record t { driver = d } in
              if done then t' else stop_always TxResult.cancelled now t')
          else if not t.inflight && is_ready t.status.phase && t.status.write_mode
          then (let (done, d) = drv.set_sender false t.driver in
              let t' : DmxTransport D = record t { driver = d } in
              if done
              then record t' { status = record t.status { write_mode = false } }
              else stop_always TxResult.start_failed now t')
          else t)
      else if not t.health.fault_stopped && not t.status.write_mode && is_ready t.status.phase
      then (let (done, d) = drv.set_sender true t.driver in
          let t' : DmxTransport D = record t { driver = d } in
          if done then t' else stop_always TxResult.start_failed now t')
      else t

  -- `poll` once the driver has answered.
  advance : ℕ → DmxTransport D → DmxTransport D
  advance now t =
      let seen : DmxTransport D = record t {
        health = record t.health { driver_phase = t.status.phase };
      } in
      if t.inflight && not (t.status.attempt == t.active_attempt)
      then stop TxResult.start_failed now seen
      else let begun = mark_started seen in
        if is_fault t.status.phase
        then stop t.status.result now begun
        else settle now (retire now begun)

  pub poll : ℕ → DmxTransport D → DmxTransport D
  poll now t =
      let (alive, status, d) = drv.poll t.status t.driver in
      let t' : DmxTransport D = record t { status = status; driver = d } in
      if alive then advance now t' else stop TxResult.start_failed now t'

  -- `serviceTx` after its poll: the oldest barrier, or else the latest packet, is started.
  transmit : ℕ → DmxTransport D → DmxTransport D × Bool
  transmit now t =
      let oldest = get_or t.barriers t.head no_barrier in
      let packet = (if t.count == 0 then t.latest else oldest.packet) in
      let generation = (if t.count == 0 then t.health.requested else oldest.generation) in
      let (written, d1) = drv.write packet t.driver in
      let t1 : DmxTransport D = record t { driver = d1 } in
      if not written
      then (failed TxResult.start_failed now t1, false)
      else let (begun, attempt, d2) = drv.start d1 in
        let t2 : DmxTransport D = record t {
          driver = d2;
          health = record t.health { published = generation };
        } in
        if not begun || attempt == 0 then (failed TxResult.start_failed now t2, false) else (
          record t2 {
            inflight = true;
            active_barrier = not (t.count == 0);
            active_generation = generation;
            active_attempt = attempt;
            health = record t2.health { accepted = generation };
          },
          true,
        )

  pub service_tx : ℕ → DmxTransport D → DmxTransport D × Bool
  service_tx now t0 = let t = poll now t0 in if may_start now t then transmit now t else (t, false)
