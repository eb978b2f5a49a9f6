-- ===== src/Bridge/Publish.antt =====
-- src/websocket_bridge.cpp: the blocks of `ownerPoll` that publish what has changed, before it looks at the inbox.
use m5stack_core_s3se_dmx_co.Base.{
  Bool, not, ◌&&◌, ◌||◌, none, some, bool_eq, ◌==◌, leb, if◌then◌else◌, sub32,
}
use m5stack_core_s3se_dmx_co.Bridge.{
  Bridge, Interfaces, broadcast, broadcast_to, for_maintenance, for_settings, for_wifi,
  maintenance_state, numbered, settings_state, state, wifi_state,
}
use m5stack_core_s3se_dmx_co.Bridge.Transfer.{abort_archive, archive_allowed}
use m5stack_core_s3se_dmx_co.Connections.Server.{has_generation}
use m5stack_core_s3se_dmx_co.Settings as Settings
use m5stack_core_s3se_dmx_co.Settings.{DeviceSettings, SettingsEdit, SettingsResult}
use m5stack_core_s3se_dmx_co.Websocket.{Kind}
use m5stack_core_s3se_dmx_co.Wifi as Wifi
use m5stack_core_s3se_dmx_co.Wifi.{WifiConfiguration, WifiResult}

module _ {S E B M W : Type 0} where
  -- The blocks that publish a component whose revision has changed, for those that asked for it.
  unfoldable pub publish_settings : Bridge S E B M W → Bridge S E B M W
  publish_settings b =
      let e = settings_state Kind.settings_update 0 b in
      elim b.settings [
        | none ↦ b
        | some d ↦
            if d.revision == b.settings_revision
            then b
            else broadcast_to for_settings e
                (record (numbered b) { settings_revision = e.revision })
      ]

  unfoldable pub publish_maintenance : Bridge S E B M W → Bridge S E B M W
  publish_maintenance b =
      let e = maintenance_state Kind.maintenance_update 0 b in
      elim b.maintenance [
        | none ↦ b
        | some m ↦
            if m.revision == b.maintenance_revision
            then b
            else broadcast_to for_maintenance e
                (record (numbered b) { maintenance_revision = e.revision })
      ]

  unfoldable pub publish_wifi : Bridge S E B M W → Bridge S E B M W
  publish_wifi b =
      let e = wifi_state Kind.wifi_update 0 b in
      elim b.wifi [
        | none ↦ b
        | some w ↦
            if w.revision == b.wifi_revision
            then b
            else broadcast_to for_wifi e (record (numbered b) { wifi_revision = e.revision })
      ]

  -- A transfer ends when the mode is left, when it is not allowed any more, and after ten idle seconds or two minutes.
  unfoldable pub expire_archive : Bool → Bridge S E B M W → Bridge S E B M W
  expire_archive sender b =
      let a = b.archive in
      if not (a.mode == 0)
        && (not sender
            || not (archive_allowed b)
            || leb 10000 (sub32 b.connections.clock a.touched)
            || leb 120000 (sub32 b.connections.clock a.started))
      then abort_archive b
      else b

module _ {S E B M W : Type 0} (interfaces : Interfaces S B M W) where
  -- The network's turn: what it publishes is reported to it.
  unfoldable pub poll_wifi : Bridge S E B M W → Bridge S E B M W
  unfolding publish_wifi
  poll_wifi b = elim b.wifi [
    | none ↦ b
    | some w ↦
        let w1 = Wifi.poll interfaces.wifi b.connections.clock w in
        let b1 : Bridge S E B M W = record b { wifi = some w1 } in
        if w1.revision == b.wifi_revision
        then b1
        else record (publish_wifi b1) { wifi = some (Wifi.published interfaces.wifi w1) }
  ]

  -- A preview lasts as long as its owner is connected.
  unfoldable pub poll_preview : Bridge S E B M W → Bridge S E B M W
  poll_preview b = elim b.settings [
    | none ↦ b
    | some d ↦
        let owner = d.preview.owner in
        let connected = owner == 0 || has_generation owner b.connections.clients in
        record b {
          settings =
              some (Settings.service_preview interfaces.settings b.connections.clock connected d);
        }
  ]

  unfoldable pub publish_mode : Bool → Bridge S E B M W → Bridge S E B M W
  publish_mode sender b =
      let (b1, e) = state interfaces Kind.mode 0 (record b { sender = sender }) in
      if bool_eq b.sender sender then b else broadcast e b1

  -- The blocks of `ownerPoll` before it looks at the inbox.
  unfoldable pub publish : Bool → Bridge S E B M W → Bridge S E B M W
  unfolding expire_archive poll_wifi poll_preview publish_settings publish_maintenance publish_mode
  publish sender b =
      publish_mode sender (
        publish_maintenance (publish_settings (poll_preview (poll_wifi (expire_archive sender b)))))
