-- ===== src/Transport/Safety.antt =====
-- The transport stops after three failures in a row, and a stopped transport never sends again.
use m5stack_core_s3se_dmx_co.Base.{ℕ, ◌≡◌, ◌≤◌, ◌<◌, Bool, true, false, List, [], ◌∷◌, arith}
use m5stack_core_s3se_dmx_co.Transport.{
  stage, request_sender, retire, settle, mark_started, advance, poll, may_start, service_tx,
}
use m5stack_core_s3se_dmx_co.Transport.Types.{Driver, DmxTransport, is_complete, is_ready}

pub data Use : Type 0 where
  stage_packet : List ℕ → Bool → Use
  want : Bool → Use
  poll_at serve_at : ℕ → Use

-- A stopped transport stays stopped, and nothing new is in flight.
record StaysStopped {D : Type 0} (t t' : DmxTransport D) : Type 0 where
  stopped : t.health.fault_stopped ≡ true → t'.health.fault_stopped ≡ true
  safe :
      (t.health.fault_stopped ≡ false → t.health.consecutive_failures < 3)
      → t'.health.fault_stopped ≡ false
      → t'.health.consecutive_failures < 3
  landed : t.health.fault_stopped ≡ true → t.inflight ≡ false → t'.inflight ≡ false

module _ {D : Type 0} (t : DmxTransport D) where
  stage-StaysStopped : (p : List ℕ) (barrier : Bool) → StaysStopped t (stage p barrier t).0
  unfolding stage
  stage-StaysStopped p barrier = ground arith

  request_sender-StaysStopped : (sender : Bool) → StaysStopped t (request_sender sender t)
  unfolding request_sender
  request_sender-StaysStopped sender = ground arith

  retire-StaysStopped : (now : ℕ) → StaysStopped t (retire now t)
  unfolding retire
  retire-StaysStopped now = ground arith

  mark_started-StaysStopped : StaysStopped t (mark_started t)
  unfolding mark_started
  mark_started-StaysStopped = ground arith

module _ {D : Type 0} (drv : Driver D) where
  settle-StaysStopped : (t : DmxTransport D) (now : ℕ) → StaysStopped t (settle drv now t)
  unfolding settle
  settle-StaysStopped t now = ground arith

  advance-StaysStopped : (t : DmxTransport D) (now : ℕ) → StaysStopped t (advance drv now t)
  unfolding advance
  advance-StaysStopped t now =
      let seen : DmxTransport D = record t {
        health = record t.health { driver_phase = t.status.phase };
      } in
      let begun = mark_started seen in
      ground (
        arith,
        mark_started-StaysStopped seen,
        retire-StaysStopped begun now,
        settle-StaysStopped (retire now begun) now,
      )

  poll-StaysStopped : (t : DmxTransport D) (now : ℕ) → StaysStopped t (poll drv now t)
  unfolding poll
  poll-StaysStopped t now =
      let (alive, status, d) = drv.poll t.status t.driver in
      ground (arith, advance-StaysStopped (record t { status = status; driver = d }) now)

  -- A stopped transport is polled and starts nothing.
  service_tx-stopped :
      (t : DmxTransport D) (now : ℕ)
      → t.health.fault_stopped ≡ true
      → service_tx drv now t ≡ (poll drv now t, false)
  unfolding service_tx may_start
  service_tx-stopped t now h = let p = poll-StaysStopped t now in ground (arith, p.stopped h)

  -- What the owner does with a transport, at the times that it likes.
  pub use_once : Use → DmxTransport D → DmxTransport D
  use_once (stage_packet p barrier) t = (stage p barrier t).0
  use_once (want sender) t = request_sender sender t
  use_once (poll_at now) t = poll drv now t
  use_once (serve_at now) t = (service_tx drv now t).0

  unfoldable pub uses : List Use → DmxTransport D → DmxTransport D
  uses [] t = t
  uses (u ∷ us) t = uses us (use_once u t)

  use_once-stopped :
      (u : Use) (t : DmxTransport D)
      → t.health.fault_stopped ≡ true
      → t.inflight ≡ false
      → ((use_once u t).health.fault_stopped ≡ true) × ((use_once u t).inflight ≡ false)
  unfolding use_once
  use_once-stopped (stage_packet p barrier) t h k =
      let r = stage-StaysStopped t p barrier in (r.stopped h, r.landed h k)
  use_once-stopped (want sender) t h k =
      let r = request_sender-StaysStopped t sender in (r.stopped h, r.landed h k)
  use_once-stopped (poll_at now) t h k =
      let r = poll-StaysStopped t now in (r.stopped h, r.landed h k)
  use_once-stopped (serve_at now) t h k =
      let r = poll-StaysStopped t now in
      rw (service_tx-stopped t now h, use_once) (r.stopped h, r.landed h k)

  -- A transport that is stopped with nothing in flight stays so whatever its owner and the driver do, and any
  -- later call to serve it only polls the driver and reports that nothing was started.
  pub stopped_forever :
      (us : List Use) (t : DmxTransport D) (now : ℕ)
      → t.health.fault_stopped ≡ true
      → t.inflight ≡ false
      → let t' = uses us t in
        (t'.health.fault_stopped ≡ true)
        × (t'.inflight ≡ false)
        × (service_tx drv now t' ≡ (poll drv now t', false))
  unfolding uses
  stopped_forever [] t now h k = (h, k, service_tx-stopped t now h)
  stopped_forever (u ∷ us) t now h k =
      let (h', k') = use_once-stopped u t h k in stopped_forever us (use_once u t) now h' k'

  -- A frame that was in flight has ended and is not complete, says the driver, while the sender is wanted.
  abbrev pub FrameLost : DmxTransport D → Type 0
  FrameLost t =
      let (alive, status, d) = drv.poll t.status t.driver in
      (alive ≡ true)
      × (t.want_sender ≡ true)
      × (t.inflight ≡ true)
      × (status.attempt ≡ t.active_attempt)
      × (is_ready status.phase ≡ true)
      × (is_complete status.result ≡ false)

  -- One failure more than `n`, which is the third in a row if two came before.
  abbrev pub Counted : ℕ → DmxTransport D → Type 0
  Counted n t = (n < t.health.consecutive_failures) × (2 ≤ n → t.health.fault_stopped ≡ true)

  -- What a frame that is lost looks like once the driver has answered.
  abbrev IsLost : DmxTransport D → Type 0
  IsLost t =
      (t.want_sender ≡ true)
      × (t.inflight ≡ true)
      × (t.status.attempt ≡ t.active_attempt)
      × (is_ready t.status.phase ≡ true)
      × (is_complete t.status.result ≡ false)
