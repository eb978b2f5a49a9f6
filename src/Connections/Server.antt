-- ===== src/Connections/Server.antt =====
-- src/websocket_bridge.cpp: what the task that serves the sockets does with the connections.
use m5stack_core_s3se_dmx_co.Base.{
  ℕ, suc, ◌+◌, ◌-◌, ◌%◌, Bool, true, false, not, ◌&&◌, ◌||◌, Option, none, some, List, [], ◌∷◌,
  get_or, set, codes, ◌==◌, ltb, leb, if◌then◌else◌, u32,
}
use m5stack_core_s3se_dmx_co.Command.{CommandStatus}
use m5stack_core_s3se_dmx_co.Websocket.{
  Event, Request, Stop, Token, inbox_capacity, max_clients, no_event, no_request, no_token,
  outbox_capacity,
}
use m5stack_core_s3se_dmx_co.Websocket.Decode.{Decoded, DecodeError, decode}
use m5stack_core_s3se_dmx_co.Connections.{
  larger, Client, Metrics, ClientInfo, Connections, place, is_live, put, is_update, drop, push,
}

-- The first place where no connection is open.
unfoldable pub free_place : List Client → Option ℕ
free_place [] = none
free_place (c ∷ cs) =
    let rest = free_place cs in
    if not c.active then some 0 else elim rest [ none ↦ none | some i ↦ some (suc i) ]

-- A request at the end of the inbox, which has room.
abbrev pub enqueue : Request → Connections → Connections
enqueue r h = record h {
  inbox = set h.inbox ((h.head + h.count) % inbox_capacity) r;
  count = h.count + 1;
  metrics = record h.metrics { inbox_high = larger h.metrics.inbox_high (h.count + 1) };
}

-- A connection that has just been opened, and what is counted of it.
abbrev pub opened : ℕ → ℕ → Client → Client
opened generation now c = record c {
  generation = generation;
  active = true;
  is_ready = false;
  settings = false;
  maintenance = false;
  wifi = false;
  head = 0;
  count = 0;
  last_id = 0;
  outstanding = 0;
  rate = 0;
  window = now;
  stop = Stop.none_yet;
  last_enqueued_revision = 0;
}

abbrev pub count_open : Metrics → Metrics
count_open m = record m { opened = u32 (m.opened + 1); clients = u32 (m.clients + 1) }

-- The part of `open` with the place of the new connection.
unfoldable pub open_at : ℕ → ℕ → Connections → Connections × Token
open_at slot now h =
    let t : Token = record { generation = h.generation + 1; slot = slot } in
    (
      enqueue (record no_request { token = t; snapshot = true; initial = true })
          (put slot (opened (h.generation + 1) now (place slot h))
            (record h { generation = h.generation + 1; metrics = count_open h.metrics })),
      t,
    )

unfoldable pub open_client : ℕ → Connections → Connections × Token
open_client now h =
    if h.count == inbox_capacity || h.generation == 4294967295
    then (h, no_token)
    else elim (free_place h.clients) [ none ↦ (h, no_token) | some slot ↦ open_at slot now h ]

unfoldable pub close : Token → Connections → Connections
close t h = if is_live t h then drop t.slot Stop.requested 0 h else h

-- `hasGeneration`
pub has_generation : ℕ → List Client → Bool
has_generation generation [] = false
has_generation generation (c ∷ cs) =
    (c.active && c.generation == generation) || has_generation generation cs

-- `clientInfo`
pub client_info : Token → Connections → ClientInfo
client_info t h =
    let c = place t.slot h in
    if leb max_clients t.slot || t.generation == 0 || not (c.generation == t.generation)
    then record {
      active = false;
      stop = Stop.none_yet;
      queued = 0;
      outstanding = 0;
      last_enqueued_revision = 0;
    }
    else record {
      active = c.active;
      stop = c.stop;
      queued = c.count;
      outstanding = c.outstanding;
      last_enqueued_revision = c.last_enqueued_revision;
    }

-- The sums of `metrics` over the open connections.
add_clients : List Client → Metrics → Metrics
add_clients [] m = m
add_clients (c ∷ cs) m = add_clients cs (
    if c.active
    then record m {
      outbox = u32 (m.outbox + c.count);
      outstanding = u32 (m.outstanding + c.outstanding);
    }
    else m)

pub metrics : Connections → Metrics
metrics h = add_clients h.clients (record h.metrics { inbox = h.count })

-- A connection without its oldest event, and what is counted of it.
abbrev pub taken : Client → Client
taken c = record c { head = (c.head + 1) % outbox_capacity; count = c.count - 1 }

abbrev pub count_take : Event → Metrics → Metrics
count_take e m =
    if is_update e.kind then record m { updates_taken = u32 (m.updates_taken + 1) } else m

unfoldable pub take_event : Token → Connections → Connections × Option Event
take_event t h =
    let c = place t.slot h in
    let e = get_or c.events c.head no_event in
    if not (is_live t h) || c.count == 0
    then (h, none)
    else (put t.slot (taken c) (record h { metrics = count_take e h.metrics }), some e)

abbrev pub count_failure : Metrics → Metrics
count_failure m = record m { send_failures = u32 (m.send_failures + 1) }

unfoldable pub send_failed : Token → Connections → Connections
send_failed t h =
    let h1 : Connections = record h { metrics = count_failure h.metrics } in
    if is_live t h then drop t.slot Stop.send_failure 0 h1 else h1

abbrev reason_of : DecodeError → List ℕ
reason_of DecodeError.invalid = codes "invalid"
reason_of DecodeError.version = codes "version"
reason_of DecodeError.kind = codes "type"

-- The answer to a request that is refused before it reaches the inbox.
abbrev refusal : ℕ → CommandStatus → List ℕ → Event
refusal id result reason = record no_event { id = id; result = result; reason = some reason }

-- The part of `receive` for a message that is refused.
abbrev pub count_refusal : Metrics → Metrics
count_refusal m = record m { rejected = u32 (m.rejected + 1) }

unfoldable pub refuse : ℕ → ℕ → CommandStatus → List ℕ → Connections → Connections
refuse slot id result reason h =
    push slot (refusal id result reason) (record h { metrics = count_refusal h.metrics })

-- A connection with one more request that is not answered yet.
abbrev pub asked : ℕ → Client → Client
asked id c = record c { last_id = id; outstanding = u32 (c.outstanding + 1) }

abbrev pub count_admission : Metrics → Metrics
count_admission m = record m { accepted = u32 (m.accepted + 1) }

unfoldable pub admit : ℕ → Request → Connections → Connections
admit slot r h =
    let c = place slot h in
    put slot (asked r.id c) (enqueue r (record h { metrics = count_admission h.metrics }))

-- The part of `receive` after the rate is counted.
unfoldable pub receive_decoded : Decoded → Token → Connections → Connections
receive_decoded (Decoded.refused id error) t h =
    refuse t.slot id CommandStatus.invalid (reason_of error) h
receive_decoded (Decoded.accepted r) t h =
    let c = place t.slot h in
    let late = put t.slot (record c { last_id = r.id }) h in
    if leb r.id c.last_id
    then refuse t.slot r.id CommandStatus.busy
        (codes (if c.is_ready then "id_order" else "sync_pending")) h
    else if not c.is_ready
    then refuse t.slot r.id CommandStatus.busy (codes "sync_pending") late
    else if leb 4 c.outstanding || h.count == inbox_capacity
    then refuse t.slot r.id CommandStatus.busy (codes "backpressure") late
    else admit t.slot (record r { token = t }) h

abbrev pub rated : ℕ → ℕ → Client → Client
rated window rate c = record c { window = window; rate = rate }

abbrev pub count_flood : Metrics → Metrics
count_flood m = record m { rejected = u32 (m.rejected + 1); slow_closes = u32 (m.slow_closes + 1) }

unfoldable pub receive : Token → List ℕ → ℕ → Connections → Connections
receive t message now h =
    let c = place t.slot h in
    let fresh = leb 1000 ((now + 18446744073709551616 - c.window) % 18446744073709551616) in
    let rate = u32 ((if fresh then 0 else c.rate) + 1) in
    let h1 = put t.slot (rated (if fresh then now else c.window) rate c) h in
    if not (is_live t h)
    then h
    else if ltb 20 rate
    then drop t.slot Stop.rate_limit 0 (record h1 { metrics = count_flood h1.metrics })
    else receive_decoded (decode message) t h1

-- What the task that serves the sockets does with the connections.
pub data Operation : Type 0 where
  opening : (now : ℕ) → Operation
  closing : (t : Token) → Operation
  receiving : (t : Token) (message : List ℕ) (now : ℕ) → Operation
  taking : (t : Token) → Operation
  failing : (t : Token) → Operation

unfoldable pub operate : Operation → Connections → Connections
operate (Operation.opening now) h = (open_client now h).0
operate (Operation.closing t) h = close t h
operate (Operation.receiving t message now) h = receive t message now h
operate (Operation.taking t) h = (take_event t h).0
operate (Operation.failing t) h = send_failed t h

unfoldable pub operate_all : List Operation → Connections → Connections
operate_all [] h = h
operate_all (o ∷ os) h = operate_all os (operate o h)
