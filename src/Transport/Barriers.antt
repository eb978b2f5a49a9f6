-- ===== src/Transport/Barriers.antt =====
-- The packets that have to be sent, in a circular array of four: none is lost or sent out of order.
use m5stack_core_s3se_dmx_co.Base.{
  ℕ, ◌+◌, ◌%◌, ◌≡◌, ◌≢◌, ◌≤◌, ◌<◌, ◌⊎◌, Bool, true, false, List, [], ◌∷◌, ◌++◌, arith, get_or,
  length, length-set, if◌then◌else◌, u32, ◌==◌, not, ◌&&◌,
}
use m5stack_core_s3se_dmx_co.Base.Ring.{window, window-enqueue, window-dequeue, IsCapacity-4}
use m5stack_core_s3se_dmx_co.Transport.{
  can_stage, stage, request_sender, retire, settle, mark_started, advance, poll, transmit,
  service_tx, may_start,
}
use m5stack_core_s3se_dmx_co.Transport.Types.{Driver, DmxTransport, Barrier, no_barrier, restarted}

pub record IsValid {D : Type 0} (t : DmxTransport D) : Type 0 where
  pub storage : length t.barriers ≡ 4
  pub head_in : t.head < 4
  pub count_in : t.count ≤ 4

-- The barriers that wait, oldest first.
abbrev pub waiting : {D : Type 0} → DmxTransport D → List Barrier
waiting t = window no_barrier 4 t.barriers t.head t.count

-- The barriers that wait are the same, and so is what says which frame is in flight.
record Keeps {D : Type 0} (t t' : DmxTransport D) : Type 0 where
  barriers : t'.barriers ≡ t.barriers
  head : t'.head ≡ t.head
  count : t'.count ≡ t.count
  generation : t'.active_generation ≡ t.active_generation

-- The oldest barrier has been sent whole, as the frame in flight, and waits no more.
pub record Sent {D : Type 0} (t t' : DmxTransport D) : Type 0 where
  pub in_flight : (t.inflight ≡ true) × (t.active_barrier ≡ true) × (t'.inflight ≡ false)
  pub order : waiting t ≡ get_or t.barriers t.head no_barrier ∷ waiting t'
  pub same : (get_or t.barriers t.head no_barrier).generation ≡ t.active_generation
  pub completed : t'.health.completed ≡ t.active_generation

module _ {D : Type 0} where
  -- A packet is staged exactly if it is 513 bytes with start code 0 and there is room; it is then the latest
  -- packet and, as a barrier, waits behind the others under the newest generation. A packet that is
  -- refused changes nothing.
  pub stage_refines :
      (packet : List ℕ) (barrier : Bool) (t : DmxTransport D)
      → IsValid t
      → let (t', staged) = stage packet barrier t in
        IsValid t'
        × (staged ≡ true
            → (length packet ≡ 513)
              × (get_or packet 0 0 ≡ 0)
              × (can_stage barrier t ≡ true)
              × (t'.latest ≡ packet)
              × (waiting t' ≡ (
                  if barrier
                  then waiting t
                    ++ (record { packet = packet; generation = t'.health.requested }) ∷ []
                  else waiting t)))
        × (staged ≡ false → t' ≡ t)
        × (length packet ≡ 513 → get_or packet 0 0 ≡ 0 → can_stage barrier t ≡ true → staged ≡ true)
  unfolding stage can_stage
  stage_refines packet barrier t v =
      let b : Barrier = record {
        packet = packet;
        generation = (restarted t.health).requested + 1;
      } in
      ground (
        arith,
        length-set t.barriers ((t.head + t.count) % 4) b,
        window-enqueue no_barrier 4 IsCapacity-4 t.barriers b t.head t.count,
      )

  retire-Sent :
      (now : ℕ) (t : DmxTransport D)
      → IsValid t
      → IsValid (retire now t) × (Keeps t (retire now t) ⊎ Sent t (retire now t))
  unfolding retire
  retire-Sent now t v =
      ground (arith, window-dequeue no_barrier 4 IsCapacity-4 t.barriers t.head t.count)

  mark_started-Keeps :
      (t : DmxTransport D)
      → Keeps t (mark_started t)
        × ((mark_started t).inflight ≡ t.inflight)
        × ((mark_started t).active_barrier ≡ t.active_barrier)
  unfolding mark_started
  mark_started-Keeps t = ground arith

module _ {D : Type 0} (drv : Driver D) where
  settle-Keeps :
      (now : ℕ) (t : DmxTransport D)
      → Keeps t (settle drv now t)
        × ((settle drv now t).health.completed ≡ t.health.completed)
        × ((settle drv now t).inflight ≡ t.inflight)
  unfolding settle
  settle-Keeps now t = ground arith

  -- What a turn may do to the barriers: nothing, or take off the oldest once it is sent.
  abbrev Turn : DmxTransport D → DmxTransport D → Type 0
  Turn t t' = IsValid t' × (Keeps t t' ⊎ Sent t t')

  advance-Turn : (now : ℕ) (t : DmxTransport D) → IsValid t → Turn t (advance drv now t)
  unfolding advance
  advance-Turn now t v =
      let seen : DmxTransport D = record t {
        health = record t.health { driver_phase = t.status.phase };
      } in
      let begun = mark_started seen in
      ground
        (arith, mark_started-Keeps seen, retire-Sent now begun, settle-Keeps now (retire now begun))

  poll-Turn : (now : ℕ) (t : DmxTransport D) → IsValid t → Turn t (poll drv now t)
  unfolding poll
  poll-Turn now t v =
      let (alive, status, d) = drv.poll t.status t.driver in
      ground (arith, advance-Turn now (record t { status = status; driver = d }))

  -- The generation that is sent next: that of the oldest barrier, or else of the latest packet.
  abbrev pub next_generation : DmxTransport D → ℕ
  next_generation t =
      if t.count == 0 then t.health.requested else (get_or t.barriers t.head no_barrier).generation

  -- The packet that is sent next.
  abbrev pub next_packet : DmxTransport D → List ℕ
  next_packet t = if t.count == 0 then t.latest else (get_or t.barriers t.head no_barrier).packet

  -- The driver takes the packet, and then begins an attempt.
  abbrev pub Takes : List ℕ → DmxTransport D → Type 0
  Takes packet t =
      let (written, d1) = drv.write packet t.driver in
      let (begun, attempt, d2) = drv.start d1 in (written ≡ true) × (begun ≡ true) × (attempt ≢ 0)

  -- The driver has taken the packet, has been told to start, and is left as that leaves it.
  abbrev pub Handed : List ℕ → DmxTransport D → DmxTransport D → Type 0
  Handed packet t t' =
      let (written, d1) = drv.write packet t.driver in
      let (begun, attempt, d2) = drv.start d1 in
      Takes packet t × (t'.active_attempt ≡ attempt) × (t'.driver ≡ d2)

  transmit-Keeps :
      (now : ℕ) (t : DmxTransport D)
      → let (t', started) = transmit drv now t in
        (t'.barriers ≡ t.barriers)
        × (t'.head ≡ t.head)
        × (t'.count ≡ t.count)
        × (started ≡ true
            → (t'.inflight ≡ true)
              × (t'.active_generation ≡ next_generation t)
              × (t'.health.accepted ≡ next_generation t)
              × (t'.active_barrier ≡ not (t.count == 0))
              × Handed (next_packet t) t t')
        × (started ≡ false → t'.inflight ≡ t.inflight)
  unfolding transmit
  transmit-Keeps now t = ground arith

  transmit-starts :
      (now : ℕ) (t : DmxTransport D) → Takes (next_packet t) t → (transmit drv now t).1 ≡ true
  unfolding transmit
  transmit-starts now t h = ground arith

  -- What a call to serve the transport does to the barriers that wait: it leaves them, or takes off the oldest,
  -- which was the frame in flight under its own generation. What it starts is the packet of the oldest that is
  -- left, or if none waits the latest packet, under its generation: the driver has taken these bytes and has
  -- begun, and nothing else was in flight. If a start is due and the driver takes that packet and begins, it is
  -- started.
  pub service_tx_refines :
      (now : ℕ) (t : DmxTransport D)
      → IsValid t
      → let (t', started) = service_tx drv now t in
        IsValid t'
        × ((waiting t' ≡ waiting t)
            ⊎ ((t.inflight ≡ true)
                × (t.active_barrier ≡ true)
                × (waiting t ≡ get_or t.barriers t.head no_barrier ∷ waiting t')
                × ((get_or t.barriers t.head no_barrier).generation ≡ t.active_generation)))
        × (started ≡ true
            → ((poll drv now t).inflight ≡ false)
              × (t'.inflight ≡ true)
              × (t'.active_generation ≡ next_generation (poll drv now t))
              × (waiting (poll drv now t) ≡ waiting t')
              × Handed (next_packet (poll drv now t)) (poll drv now t) t')
        × (may_start now (poll drv now t) ≡ true
            → Takes (next_packet (poll drv now t)) (poll drv now t)
            → started ≡ true)
  unfolding service_tx may_start
  service_tx_refines now t v = ground (
    arith,
    poll-Turn now t v,
    transmit-Keeps now (poll drv now t),
    transmit-starts now (poll drv now t),
  )

module _ {D : Type 0} where
  -- Leaving sender mode takes off all barriers that wait and adds their number to the cancelled ones (mod 2^32);
  -- asking for the mode that is wanted already, or for sender mode, keeps them.
  pub request_sender_refines :
      (sender : Bool) (t : DmxTransport D)
      → IsValid t
      → let t' = request_sender sender t in
        IsValid t'
        × (t'.want_sender ≡ sender)
        × (waiting t' ≡ (if not sender && t.want_sender then [] else waiting t))
        × (t'.health.cancelled_barriers ≡ (
            if not sender && t.want_sender
            then u32 (t.health.cancelled_barriers + t.count)
            else t.health.cancelled_barriers))
        × (t'.health.completed ≡ t.health.completed)
  unfolding request_sender
  request_sender_refines sender t v = ground arith
