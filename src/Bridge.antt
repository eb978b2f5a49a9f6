-- ===== src/Bridge.antt =====
-- src/websocket_bridge.cpp: `Bridge`, with what the application task does for the connections of browsers: the state
-- of the controller, the settings, the maintenance and the network as events, and the answers to requests.
pub mod Transfer
pub mod Publish
pub mod Requests
pub mod Poll
pub mod Pushes
pub mod Valid
pub mod Serving
pub mod Turns
pub mod Bounds
pub mod Flight
pub mod Answers
pub mod Reads
use m5stack_core_s3se_dmx_co.Base.{
  ℕ, zero, suc, ◌+◌, ◌-◌, ◌*◌, Bool, true, false, not, ◌&&◌, ◌||◌, Option, none, some, List, [],
  ◌∷◌, ◌++◌, get_or, set, take, drop, length, replicate, ◌==◌, ltb, leb, if◌then◌else◌, u32, u64,
  to_bit, pos,
}
use m5stack_core_s3se_dmx_co.Command.{CommandStatus}
use m5stack_core_s3se_dmx_co.Connections.{Client, Connections, Metrics, is_live, place, push, put}
use m5stack_core_s3se_dmx_co.Controller.{DmxController}
use m5stack_core_s3se_dmx_co.Controller.Presets.{preset_state}
use m5stack_core_s3se_dmx_co.Controller.Types.{DmxPresetStorage, SlotState}
use m5stack_core_s3se_dmx_co.Dispatcher.Types.{CommandDispatcher}
use m5stack_core_s3se_dmx_co.Maintenance as Maintenance
use m5stack_core_s3se_dmx_co.Maintenance.{DeviceMaintenance, MaintenanceBackend}
use m5stack_core_s3se_dmx_co.Settings.{DeviceSettings, DeviceSettingsBackend, Each}
use m5stack_core_s3se_dmx_co.Websocket.{
  Event, Kind, MaintenanceSnapshot, Request, Token, WifiSnapshot, max_clients, no_event,
  no_maintenance, no_wifi,
}
use m5stack_core_s3se_dmx_co.Wifi as Wifi
use m5stack_core_s3se_dmx_co.Wifi.{WifiBackend, WifiConfiguration}

-- What the bridge is built on, and does not contain itself.
pub record Interfaces (S B M W : Type 0) : Type 0 where
  pub store : DmxPresetStorage S
  pub settings : DeviceSettingsBackend B
  pub maintenance : MaintenanceBackend M
  pub wifi : WifiBackend W

-- `Archive`, the transfer of presets that is under way: none, an export, an import, or its commit. `buffer` has the
-- bytes of the caller's memory, none if it gave none.
pub record Archive : Type 0 where
  pub buffer : List ℕ
  pub mode : ℕ
  pub count : ℕ
  pub owner : ℕ
  pub token : ℕ
  pub counter : ℕ
  pub total : ℕ
  pub received : ℕ
  pub started : ℕ
  pub touched : ℕ
  pub base : ℕ

-- The other members of `Bridge`, with the objects it refers to.
pub record Bridge (S E B M W : Type 0) : Type 0 where
  pub connections : Connections
  pub dispatcher : CommandDispatcher S E
  pub settings : Option (DeviceSettings B)
  pub maintenance : Option (DeviceMaintenance M)
  pub wifi : Option (WifiConfiguration W)
  pub flight : Request
  pub in_flight : Bool
  pub sender : Bool
  pub internal_id : ℕ
  pub sequence : ℕ
  pub presets : List ℕ
  pub presets_ready : Bool
  pub archive : Archive
  pub wifi_revision : ℕ
  pub maintenance_revision : ℕ
  pub settings_revision : ℕ

-- The values of `SlotState`.
abbrev slot_code : SlotState → ℕ
slot_code SlotState.missing = 0
slot_code SlotState.valid = 1
slot_code SlotState.corrupt = 2
slot_code SlotState.error = 3

-- Whether every slot could be read.
abbrev pub all_known : List ℕ → Bool
all_known [] = true
all_known (p ∷ ps) = not (p == 3) && all_known ps

-- The snapshots of the three components; one that is absent has the values of its declaration.
abbrev pub maintenance_snapshot : {M : Type 0} → Option (DeviceMaintenance M) → MaintenanceSnapshot
maintenance_snapshot none = no_maintenance
maintenance_snapshot (some m) = record {
  revision = m.revision;
  request = m.request_id;
  remaining_ms = m.remaining_ms;
  action = m.action;
  phase = m.phase;
  reason = m.reason;
}

abbrev pub wifi_snapshot : {W : Type 0} → Option (WifiConfiguration W) → WifiSnapshot
wifi_snapshot none = no_wifi
wifi_snapshot (some w) = record {
  revision = w.revision;
  base = w.base;
  request = w.request;
  remaining_ms = w.remaining_ms;
  ssid = w.ssid;
  proposed = w.proposed;
  origin = w.origin;
  phase = w.phase;
  reason = w.reason;
  password_change = w.password_change;
  available = w.available;
}

-- The values, the mask of what is stored, and the revision of the settings.
abbrev pub settings_snapshot : {B : Type 0} → Option (DeviceSettings B) → List ℕ × ℕ × ℕ
settings_snapshot none = (3 ∷ 3 ∷ 2 ∷ [], 0, 1)
settings_snapshot (some d) = (
  d.values.of_brightness ∷ d.values.of_timeout ∷ d.values.of_volume ∷ [],
  to_bit d.persisted.of_brightness
      + 2 * to_bit d.persisted.of_timeout
      + 4 * to_bit d.persisted.of_volume,
  d.revision,
)

-- Whether the component is there and busy.
abbrev pub maintenance_active : {M : Type 0} → Option (DeviceMaintenance M) → Bool
maintenance_active none = false
maintenance_active (some m) = Maintenance.active m

abbrev pub wifi_active : {W : Type 0} → Option (WifiConfiguration W) → Bool
wifi_active none = false
wifi_active (some w) = Wifi.active w

-- The loops over the connections: an event for each open one that is ready and asked for its kind.
abbrev pub for_all : Client → Bool
for_all c = true

abbrev pub for_settings : Client → Bool
for_settings c = c.settings

abbrev pub for_maintenance : Client → Bool
for_maintenance c = c.maintenance

abbrev pub for_wifi : Client → Bool
for_wifi c = c.wifi

pub push_from : ℕ → ℕ → (Client → Bool) → Event → Connections → Connections
push_from zero slot asked e h = h
push_from (suc n) slot asked e h =
    let c = place slot h in
    push_from n (slot + 1) asked e (if c.active && c.is_ready && asked c then push slot e h else h)

pub push_to : (Client → Bool) → Event → Connections → Connections
unfolding push_from
push_to asked e h = push_from max_clients 0 asked e h

-- A connection with one request fewer to answer.
abbrev pub answered : Client → Client
answered c = record c { outstanding = c.outstanding - 1 }

-- The answer to a request, if its connection is still open.
pub answer : Token → Event → Connections → Connections
answer t e h = if is_live t h then push t.slot e (put t.slot (answered (place t.slot h)) h) else h

abbrev pub is_done : CommandStatus → Bool
is_done CommandStatus.applied = true
is_done CommandStatus.no_change = true
is_done _ = false

abbrev pub shows_levels : Kind → Bool
shows_levels Kind.snapshot = true
shows_levels Kind.universe = true
shows_levels _ = false

module _ {S E B M W : Type 0} where
  abbrev pub with_connections : Connections → Bridge S E B M W → Bridge S E B M W
  with_connections h b = record b { connections = h }

  abbrev pub with_controller : DmxController S → Bridge S E B M W → Bridge S E B M W
  with_controller c b = record b { dispatcher = record b.dispatcher { controller = c } }

  -- `broadcast`
  pub broadcast : Event → Bridge S E B M W → Bridge S E B M W
  broadcast e b =
      let h = b.connections in
      with_connections
        (push_to for_all e
          (record h { metrics = record h.metrics { broadcasts = u32 (h.metrics.broadcasts + 1) } }))
        b

  -- `broadcastSettings`, `broadcastMaintenance` and `broadcastWifi`
  abbrev pub broadcast_to : (Client → Bool) → Event → Bridge S E B M W → Bridge S E B M W
  broadcast_to asked e b = with_connections (push_to asked e b.connections) b

  -- `++sequence_`
  abbrev pub numbered : Bridge S E B M W → Bridge S E B M W
  numbered b = record b { sequence = u64 (b.sequence + 1) }

  -- `settingsState`, `maintenanceState` and `wifiState`; they number the event, as `numbered` does.
  pub settings_state : Kind → ℕ → Bridge S E B M W → Event
  settings_state kind id b =
      let (values, persisted, revision) = settings_snapshot b.settings in
      record no_event {
        kind = kind;
        id = id;
        sequence = u64 (b.sequence + 1);
        values = values ++ replicate 509 0;
        domain = persisted;
        revision = revision;
      }

  pub maintenance_state : Kind → ℕ → Bridge S E B M W → Event
  maintenance_state kind id b =
      let s = maintenance_snapshot b.maintenance in
      record no_event {
        kind = kind;
        id = id;
        sequence = u64 (b.sequence + 1);
        maintenance = s;
        revision = s.revision;
      }

  pub wifi_state : Kind → ℕ → Bridge S E B M W → Event
  wifi_state kind id b =
      let s = wifi_snapshot b.wifi in
      record no_event {
        kind = kind;
        id = id;
        sequence = u64 (b.sequence + 1);
        wifi = s;
        revision = s.revision;
      }

  -- What every event about the controller has.
  pub controller_event : Kind → ℕ → Bridge S E B M W → Event
  controller_event kind id b =
      let c = b.dispatcher.controller in
      record no_event {
        kind = kind;
        id = id;
        revision = c.revision;
        sequence = u64 (b.sequence + 1);
        blackout = c.blackout;
        sender = b.sender;
        loaded = c.loaded_preset;
        modified = c.loaded_modified;
      }

-- The loop of `state` over the slots of the presets.
inspect_from : {S : Type 0} → DmxPresetStorage S → ℕ → ℕ → S → List ℕ × S
inspect_from store zero slot s = ([], s)
inspect_from store (suc n) slot s =
    let (found, s1) = preset_state store slot s in
    let (later, s2) = inspect_from store n (slot + 1) s1 in (slot_code found ∷ later, s2)

module _ {S E B M W : Type 0} (interfaces : Interfaces S B M W) where
  -- The states of the presets are read when they may have changed.
  pub refresh_presets : Bridge S E B M W → Bridge S E B M W
  unfolding inspect_from
  refresh_presets b =
      let c = b.dispatcher.controller in
      let (presets, s) = inspect_from interfaces.store 8 0 c.storage in
      if b.presets_ready
      then b
      else with_controller (record c { storage = s })
          (record b { presets = presets; presets_ready = all_known presets })

  pub state : Kind → ℕ → Bridge S E B M W → Bridge S E B M W × Event
  unfolding refresh_presets controller_event
  state kind id b =
      let e = controller_event kind id b in
      let b1 = numbered b in
      let b2 = refresh_presets b1 in
      if shows_levels kind
      then (
        b2,
        record e {
          values = take 512 (drop 1 b.dispatcher.controller.working);
          presets = b2.presets;
        },
      )
      else (b1, e)

  pub reply : Request → CommandStatus → ℕ → Bridge S E B M W → Bridge S E B M W
  unfolding state answer
  reply r status domain b =
      let (b1, e) = state (if is_done status then Kind.ack else Kind.error) r.id b in
      let h = b1.connections in
      let m = h.metrics in
      with_connections
        (answer r.token (record e { result = status; domain = domain })
          (record h {
            metrics =
                if is_done status
                then record m { applied = u32 (m.applied + 1) }
                else record m { rejected = u32 (m.rejected + 1) };
          }))
        b1
