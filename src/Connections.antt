-- ===== src/Connections.antt =====
-- src/websocket_bridge.cpp: the members of `Bridge` that its lock protects, and the operations of the task that
-- serves the sockets. The clock stands still during an operation: `clock` is what `nowMs` answers.
pub mod Server
pub mod Invariant
pub mod Receive
pub mod Tokens
use m5stack_core_s3se_dmx_co.Base.{
  ℕ, zero, suc, ◌+◌, ◌-◌, ◌%◌, Bool, true, false, not, ◌&&◌, ◌||◌, Option, none, some, List, [],
  ◌∷◌, get_or, set, codes, ◌==◌, ltb, leb, if◌then◌else◌, u32,
}
use m5stack_core_s3se_dmx_co.Command.{CommandStatus}
use m5stack_core_s3se_dmx_co.Websocket.{
  Event, Kind, Request, Stop, Token, inbox_capacity, max_clients, no_event, no_request, no_token,
  outbox_capacity,
}
use m5stack_core_s3se_dmx_co.Websocket.Decode.{Decoded, DecodeError, decode}

pub record Client : Type 0 where
  pub generation : ℕ
  pub last_id : ℕ
  pub count : ℕ
  pub head : ℕ
  pub outstanding : ℕ
  pub rate : ℕ
  pub window : ℕ
  pub active : Bool
  pub is_ready : Bool
  pub settings : Bool
  pub maintenance : Bool
  pub wifi : Bool
  pub stop : Stop
  pub last_enqueued_revision : ℕ
  pub events : List Event

-- `Failure`, once it is present: the first connection that was lost, and why.
pub record Failure : Type 0 where
  pub token : Token
  pub stop : Stop
  pub ms : ℕ
  pub queued : ℕ
  pub outstanding : ℕ
  pub last_enqueued_revision : ℕ
  pub rejected_revision : ℕ

pub record Metrics : Type 0 where
  pub clients : ℕ
  pub inbox : ℕ
  pub inbox_high : ℕ
  pub outbox_high : ℕ
  pub accepted : ℕ
  pub rejected : ℕ
  pub applied : ℕ
  pub broadcasts : ℕ
  pub send_failures : ℕ
  pub slow_closes : ℕ
  pub opened : ℕ
  pub closed : ℕ
  pub outbox : ℕ
  pub outstanding : ℕ
  pub updates_enqueued : ℕ
  pub updates_taken : ℕ
  pub queue_full : ℕ
  pub controller_events : ℕ
  pub last_controller_revision : ℕ
  pub first : Option Failure

pub record ClientInfo : Type 0 where
  pub active : Bool
  pub stop : Stop
  pub queued : ℕ
  pub outstanding : ℕ
  pub last_enqueued_revision : ℕ

pub record Connections : Type 0 where
  pub clients : List Client
  pub inbox : List Request
  pub head : ℕ
  pub count : ℕ
  pub generation : ℕ
  pub metrics : Metrics
  pub clock : ℕ

-- What a place holds before a connection is first opened in it.
unfoldable pub no_client : Client
no_client = record {
  generation = 0;
  last_id = 0;
  count = 0;
  head = 0;
  outstanding = 0;
  rate = 0;
  window = 0;
  active = false;
  is_ready = false;
  settings = false;
  maintenance = false;
  wifi = false;
  stop = Stop.none_yet;
  last_enqueued_revision = 0;
  events =
      no_event ∷ no_event ∷ no_event ∷ no_event ∷ no_event ∷ no_event ∷ no_event ∷ no_event ∷ [];
}

abbrev pub place : ℕ → Connections → Client
place slot h = get_or h.clients slot no_client

-- Whether a token is that of the connection which is open in its place: `client(t) != nullptr`.
unfoldable pub is_live : Token → Connections → Bool
is_live t h =
    not (leb max_clients t.slot)
    && not (t.generation == 0)
    && (place t.slot h).active
    && (place t.slot h).generation == t.generation

abbrev pub put : ℕ → Client → Connections → Connections
put slot c h = record h { clients = set h.clients slot c }

abbrev is_requested : Stop → Bool
is_requested Stop.requested = true
is_requested _ = false

abbrev pub larger : ℕ → ℕ → ℕ
larger a b = if ltb a b then b else a

-- `update`, of a kind.
abbrev pub is_update : Kind → Bool
is_update Kind.channel = true
is_update Kind.universe = true
is_update Kind.mode = true
is_update _ = false

-- The first failure, which is kept.
abbrev first_failure : ℕ → Client → Stop → ℕ → Connections → Option Failure
first_failure slot c stop rejected_revision h = elim h.metrics.first [
  | some f ↦ some f
  | none ↦
      if is_requested stop
      then none
      else some (record {
        token = record { generation = c.generation; slot = slot };
        stop = stop;
        ms = h.clock;
        queued = c.count;
        outstanding = c.outstanding;
        last_enqueued_revision = c.last_enqueued_revision;
        rejected_revision = rejected_revision;
      })
]

pub drop : ℕ → Stop → ℕ → Connections → Connections
drop slot stop rejected_revision h =
    let c = place slot h in
    put slot (record c { stop = stop; active = false; count = 0; outstanding = 0 })
      (record h {
        metrics = record h.metrics {
          first = first_failure slot c stop rejected_revision h;
          clients = u32 (h.metrics.clients + 4294967295);
          closed = u32 (h.metrics.closed + 1);
        };
      })

-- A connection with one more event that waits, and what is counted of it.
abbrev pub pushed : Event → Client → Client
pushed e c = record c {
  events = set c.events ((c.head + c.count) % outbox_capacity) e;
  count = c.count + 1;
  last_enqueued_revision = if is_update e.kind then e.revision else c.last_enqueued_revision;
}

abbrev pub count_push : Event → Client → Metrics → Metrics
count_push e c m = record m {
  outbox_high = larger m.outbox_high (c.count + 1);
  updates_enqueued = if is_update e.kind then u32 (m.updates_enqueued + 1) else m.updates_enqueued;
}

abbrev pub count_full : Metrics → Metrics
count_full m = record m {
  slow_closes = u32 (m.slow_closes + 1);
  queue_full = u32 (m.queue_full + 1);
}

unfoldable pub push : ℕ → Event → Connections → Connections
push slot e h =
    let c = place slot h in
    if c.count == outbox_capacity
    then drop slot Stop.queue_full e.revision (record h { metrics = count_full h.metrics })
    else put slot (pushed e c) (record h { metrics = count_push e c h.metrics })
