-- ===== src/Bridge/Requests.antt =====
-- src/websocket_bridge.cpp: the parts of `ownerPoll` that serve a request of each kind.
use m5stack_core_s3se_dmx_co.Base.{
  ◌+◌, ◌-◌, Bool, true, false, not, ◌&&◌, ◌||◌, Option, none, some, bytes_eq, ◌==◌, if◌then◌else◌,
  u32, codes,
}
use m5stack_core_s3se_dmx_co.Bridge.{
  Bridge, Interfaces, answer, broadcast, maintenance_active, maintenance_state, numbered, reply,
  settings_state, state, wifi_active, wifi_state, with_connections,
}
use m5stack_core_s3se_dmx_co.Bridge.Transfer.{abort_archive, archive_reply, archive_request}
use m5stack_core_s3se_dmx_co.Command.{CommandStatus}
use m5stack_core_s3se_dmx_co.Connections.{Client, Connections, is_live, place, push, put}
use m5stack_core_s3se_dmx_co.Dispatcher.{submit}
use m5stack_core_s3se_dmx_co.Dispatcher.Rules.{is_accepted}
use m5stack_core_s3se_dmx_co.Maintenance as Maintenance
use m5stack_core_s3se_dmx_co.Maintenance.{DeviceMaintenance, MaintenanceResult}
use m5stack_core_s3se_dmx_co.Settings as Settings
use m5stack_core_s3se_dmx_co.Settings.{DeviceSettings, SettingsEdit, SettingsResult}
use m5stack_core_s3se_dmx_co.Websocket.{Event, Kind, Request, Token}
use m5stack_core_s3se_dmx_co.Wifi as Wifi
use m5stack_core_s3se_dmx_co.Wifi.{WifiConfiguration, WifiResult}
use m5stack_core_s3se_dmx_co.Bridge.Publish.{publish_maintenance, publish_settings, publish_wifi}

-- The place of a token, its mark changed, and whether it had the mark.
abbrev pub mark : Token → (Client → Client) → Connections → Connections
mark t change h = if is_live t h then put t.slot (change (place t.slot h)) h else h

abbrev pub has_mark : Token → (Client → Bool) → Connections → Bool
has_mark t marked h = is_live t h && marked (place t.slot h)

-- The snapshot that a connection waits for: from then on it is ready for what is broadcast.
abbrev pub settled : Client → Client
settled c = record c { is_ready = true; outstanding = c.outstanding - 1 }

unfoldable pub deliver : Token → Bool → Event → Event → Connections → Connections
deliver t initial hello e h =
    let h1 = if initial then push t.slot hello h else h in
    let h2 = if (place t.slot h1).active then push t.slot e h1 else h1 in
    if not (is_live t h)
    then h
    else if (place t.slot h2).active
    then put t.slot (settled (place t.slot h2)) h2
    else h2

abbrev is_plain : SettingsEdit → Bool
is_plain SettingsEdit.none_asked = true
is_plain _ = false

abbrev is_absent : {B : Type 0} → Option (DeviceSettings B) → Bool
is_absent none = true
is_absent (some d) = false

abbrev pub is_committed : {M : Type 0} → Option (DeviceMaintenance M) → Bool
is_committed none = false
is_committed (some m) = Maintenance.committed m

module _ {S E B M W : Type 0} (interfaces : Interfaces S B M W) where
  -- The part of `ownerPoll` for a snapshot. Presets found changed are broadcast before it.
  unfoldable pub snapshot_request : Request → Bridge S E B M W → Bridge S E B M W
  unfolding deliver
  snapshot_request r b =
      let greeted = state interfaces Kind.hello 0 b in
      let b1 = if r.initial then greeted.0 else b in
      let (b2, e) = state interfaces Kind.snapshot r.id b1 in
      let same = bytes_eq b1.presets e.presets in
      let b3 =
        if same then b2 else numbered (broadcast (record e { kind = Kind.universe; id = 0 }) b2) in
      let e3 = if same then e else record e { sequence = b3.sequence } in
      with_connections (deliver r.token r.initial greeted.1 e3 b3.connections) b3

  -- What the network does about a request, and its result.
  unfoldable pub wifi_work :
      Bool → Request → Bridge S E B M W → Option (WifiConfiguration W) × WifiResult
  wifi_work subscribed r b = elim b.wifi [
    | none ↦ (none, WifiResult.unavailable)
    | some w ↦
        if r.wifi == 1
        then (some w, WifiResult.unavailable)
        else if not subscribed
        then (some w, WifiResult.unauthorized)
        else if maintenance_active b.maintenance
        then (some w, WifiResult.busy)
        else (let (w1, result) =
              if r.wifi == 2
              then Wifi.propose interfaces.wifi r.wifi_ssid r.wifi_password r.wifi_base
                  r.token.generation r.id b.connections.clock w
              else Wifi.cancel r.token.generation r.maintenance_request w in
            (some w1, result))
  ]

  -- The part of `ownerPoll` for the network.
  unfoldable pub wifi_request : Request → Bridge S E B M W → Bridge S E B M W
  unfolding wifi_work
  wifi_request r b =
      let h = b.connections in
      let subscribed = has_mark r.token (λ c. c.wifi) h in
      let b1 =
        with_connections (if r.wifi == 1 then mark r.token (λ c. record c { wifi = true }) h else h)
          b in
      let (w, result) = wifi_work subscribed r b1 in
      let b2 = publish_wifi (record b1 { wifi = w }) in
      let e = wifi_state (if r.wifi == 1 then Kind.wifi_snapshot else Kind.wifi_result) r.id b2 in
      with_connections (answer r.token (record e { wifi_result = result }) b2.connections)
        (numbered b2)

  -- A preview gives way to a maintenance that is accepted.
  abbrev pub cancel_for_maintenance : MaintenanceResult → Bridge S E B M W → Bridge S E B M W
  cancel_for_maintenance MaintenanceResult.accepted b = elim b.settings [
    | none ↦ b
    | some d ↦
        publish_settings
          (record b { settings = some (Settings.cancel_preview interfaces.settings d) })
  ]
  cancel_for_maintenance _ b = b

  -- What the maintenance does about a request, and its result.
  unfoldable pub maintenance_work :
      Bool → Request → Bridge S E B M W → Bridge S E B M W × MaintenanceResult
  maintenance_work subscribed r b = elim b.maintenance [
    | none ↦ (b, MaintenanceResult.unsupported)
    | some m ↦
        if r.maintenance == 1
        then (b, MaintenanceResult.unsupported)
        else if not subscribed
        then (b, MaintenanceResult.unauthorized)
        else if not b.sender
        then (b, MaintenanceResult.unsupported)
        else if wifi_active b.wifi
        then (b, MaintenanceResult.busy)
        else if r.maintenance == 2
        then (let (m1, result) =
              Maintenance.request interfaces.maintenance r.maintenance_action r.token.generation
                r.id b.connections.clock m in
            (cancel_for_maintenance result (record b { maintenance = some m1 }), result))
        else (let (m1, result) =
              Maintenance.cancel r.token.generation r.maintenance_request b.connections.clock m in
            (record b { maintenance = some m1 }, result))
  ]

  -- The part of `ownerPoll` for the maintenance.
  unfoldable pub maintenance_request : Request → Bridge S E B M W → Bridge S E B M W
  unfolding maintenance_work
  maintenance_request r b =
      let h = b.connections in
      let subscribed = has_mark r.token (λ c. c.maintenance) h in
      let b1 =
        with_connections
          (if r.maintenance == 1 then mark r.token (λ c. record c { maintenance = true }) h else h)
          b in
      let (b2, result) = maintenance_work subscribed r b1 in
      let b3 = publish_maintenance b2 in
      let e =
        maintenance_state
          (if r.maintenance == 1 then Kind.maintenance_snapshot else Kind.maintenance_result) r.id
          b3 in
      with_connections (answer r.token (record e { maintenance_result = result }) b3.connections)
        (numbered b3)

  -- What the settings do about a request, and its result.
  unfoldable pub settings_work :
      Bool → Request → Bridge S E B M W → Option (DeviceSettings B) × SettingsResult
  settings_work subscribed r b = elim b.settings [
    | none ↦ (none, SettingsResult.invalid)
    | some d ↦
        if not (r.settings_write && subscribed)
        then (some d, SettingsResult.invalid)
        else (let (d1, result) =
              if is_plain r.settings_edit
              then Settings.set interfaces.settings r.setting r.setting_value true d
              else Settings.edit interfaces.settings r.settings_edit r.token.generation
                  r.settings_gesture r.setting r.setting_value r.settings_base b.connections.clock
                  (r.settings_gesture == r.id) d in
            (some d1, result))
  ]

  -- The part of `ownerPoll` for the settings.
  unfoldable pub settings_request : Request → Bridge S E B M W → Bridge S E B M W
  unfolding settings_work
  settings_request r b =
      let h = b.connections in
      let subscribed = has_mark r.token (λ c. c.settings) h in
      let b1 =
        with_connections
          (if r.settings_write then h else mark r.token (λ c. record c { settings = true }) h) b in
      let (d, result) = settings_work subscribed r b1 in
      let b2 = publish_settings (record b1 { settings = d }) in
      let kind =
        (if r.settings_write || is_absent b2.settings
          then Kind.settings_result
          else Kind.settings_snapshot) in
      let e = record (settings_state kind r.id b2) {
        setting = r.setting;
        settings_result = result;
        settings_edit = r.settings_edit;
        settings_gesture = r.settings_gesture;
      } in
      with_connections (answer r.token e b2.connections) (numbered b2)

  -- The end of `ownerPoll`: a request for the controller goes to the dispatcher, under an id of the bridge.
  unfoldable pub command_request : Request → Bridge S E B M W → Bridge S E B M W
  command_request r b =
      let id = (if u32 (b.internal_id + 1) == 0 then 1 else u32 (b.internal_id + 1)) in
      let r1 : Request = record r { command = record r.command { request_id = id } } in
      let (d, submission) = submit r1.command b.dispatcher in
      let b1 : Bridge S E B M W = record b { internal_id = id; dispatcher = d } in
      if is_accepted submission.status
      then record b1 { flight = r1; in_flight = true }
      else if not (r1.archive == 0)
      then abort_archive (archive_reply interfaces r1 (codes "busy") 0 b1)
      else reply interfaces r1 submission.status 0 b1

  -- A request that is not for a snapshot, and which the archive does not answer.
  unfoldable pub other_request : Request → Bridge S E B M W → Bridge S E B M W
  unfolding wifi_request maintenance_request settings_request command_request
  other_request r b =
      if not (r.wifi == 0)
      then wifi_request r b
      else if not (r.maintenance == 0)
      then maintenance_request r b
      else if is_committed b.maintenance && (not r.settings || r.settings_write)
      then reply interfaces r CommandStatus.busy 0 b
      else if r.settings
      then settings_request r b
      else command_request r b

  unfoldable pub serve_request : Request → Bridge S E B M W → Bridge S E B M W
  unfolding snapshot_request other_request
  serve_request r b =
      if r.snapshot
      then snapshot_request r b
      else if r.archive == 0
      then other_request r b
      else if not b.sender || maintenance_active b.maintenance || wifi_active b.wifi
      then archive_reply interfaces r (codes "busy") 0 b
      else (let (b1, on) = archive_request interfaces r b in
          elim on [ none ↦ b1 | some r1 ↦ other_request r1 b1 ])
