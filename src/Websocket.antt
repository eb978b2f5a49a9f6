-- ===== src/Websocket.antt =====
-- include/websocket_bridge.h: the messages between browsers and the device, as requests and events.
pub mod Fields
pub mod Decode
pub mod Names
pub mod Encode
use m5stack_core_s3se_dmx_co.Base.{
  ℕ, ◌+◌, ◌-◌, ◌*◌, Bool, true, false, not, ◌&&◌, ◌||◌, Option, none, List, [], replicate, ◌==◌,
  ltb, leb,
}
use m5stack_core_s3se_dmx_co.Command.{Command, CommandSource, CommandStatus, ControllerCommand}
use m5stack_core_s3se_dmx_co.Settings.{DeviceSetting, SettingsEdit, SettingsResult}
use m5stack_core_s3se_dmx_co.Maintenance as Maintenance
use m5stack_core_s3se_dmx_co.Maintenance.{MaintenanceResult}
use m5stack_core_s3se_dmx_co.Wifi as Wifi
use m5stack_core_s3se_dmx_co.Wifi.{WifiResult}

abbrev pub max_clients : ℕ
max_clients = 4

abbrev pub inbox_capacity : ℕ
inbox_capacity = 16

abbrev pub outbox_capacity : ℕ
outbox_capacity = 8

abbrev pub max_message : ℕ
max_message = 256

-- A connection: its place and the generation that tells it from others in the same place.
pub record Token : Type 0 where
  pub generation : ℕ
  pub slot : ℕ

abbrev pub no_token : Token
no_token = record { generation = 0; slot = 0 }

pub data Stop : Type 0 where
  none_yet requested queue_full rate_limit send_failure : Stop

pub data Kind : Type 0 where
  hello snapshot channel universe mode ack error : Kind
  settings_snapshot settings_update settings_result : Kind
  maintenance_snapshot maintenance_update maintenance_result : Kind
  wifi_snapshot wifi_update wifi_result archive_result : Kind

-- `DeviceMaintenance::Snapshot` and `WifiConfiguration::Snapshot`.
pub record MaintenanceSnapshot : Type 0 where
  pub revision : ℕ
  pub request : ℕ
  pub remaining_ms : ℕ
  pub action : Maintenance.Action
  pub phase : Maintenance.Phase
  pub reason : Maintenance.Reason

pub record WifiSnapshot : Type 0 where
  pub revision : ℕ
  pub base : ℕ
  pub request : ℕ
  pub remaining_ms : ℕ
  pub ssid : List ℕ
  pub proposed : List ℕ
  pub origin : ℕ
  pub phase : Wifi.Phase
  pub reason : Wifi.Reason
  pub password_change : Bool
  pub available : Bool

-- `reason` is one of the protocol's literals, by its ASCII codes.
pub record Event : Type 0 where
  pub kind : Kind
  pub revision : ℕ
  pub sequence : ℕ
  pub id : ℕ
  pub result : CommandStatus
  pub domain : ℕ
  pub blackout : Bool
  pub sender : Bool
  pub loaded : ℕ
  pub modified : Bool
  pub channel : ℕ
  pub value : ℕ
  pub values : List ℕ
  pub presets : List ℕ
  pub archive_token : ℕ
  pub archive_total : ℕ
  pub archive_offset : ℕ
  pub archive_length : ℕ
  pub archive_count : ℕ
  pub reason : Option (List ℕ)
  pub setting : DeviceSetting
  pub settings_result : SettingsResult
  pub settings_edit : SettingsEdit
  pub settings_gesture : ℕ
  pub maintenance : MaintenanceSnapshot
  pub maintenance_result : MaintenanceResult
  pub wifi : WifiSnapshot
  pub wifi_result : WifiResult

pub no_maintenance : MaintenanceSnapshot
no_maintenance = record {
  revision = 1;
  request = 0;
  remaining_ms = 0;
  action = Maintenance.Action.none_asked;
  phase = Maintenance.Phase.idle;
  reason = Maintenance.Reason.no_reason;
}

pub no_wifi : WifiSnapshot
no_wifi = record {
  revision = 1;
  base = 1;
  request = 0;
  remaining_ms = 0;
  ssid = replicate 33 0;
  proposed = replicate 33 0;
  origin = 0;
  phase = Wifi.Phase.idle;
  reason = Wifi.Reason.no_reason;
  password_change = false;
  available = false;
}

unfoldable pub no_event : Event
no_event = record {
  kind = Kind.error;
  revision = 0;
  sequence = 0;
  id = 0;
  result = CommandStatus.invalid;
  domain = 0;
  blackout = false;
  sender = false;
  loaded = 0;
  modified = false;
  channel = 0;
  value = 0;
  values = replicate 512 0;
  presets = replicate 8 0;
  archive_token = 0;
  archive_total = 0;
  archive_offset = 0;
  archive_length = 0;
  archive_count = 0;
  reason = none;
  setting = DeviceSetting.brightness;
  settings_result = SettingsResult.invalid;
  settings_edit = SettingsEdit.none_asked;
  settings_gesture = 0;
  maintenance = no_maintenance;
  maintenance_result = MaintenanceResult.invalid;
  wifi = no_wifi;
  wifi_result = WifiResult.invalid;
}

-- What a browser asks. `archive`, `maintenance` and `wifi` number the requests of their kind, 0 being none.
pub record Request : Type 0 where
  pub archive : ℕ
  pub archive_token : ℕ
  pub archive_total : ℕ
  pub archive_offset : ℕ
  pub archive_data : List ℕ
  pub token : Token
  pub id : ℕ
  pub snapshot : Bool
  pub initial : Bool
  pub settings : Bool
  pub settings_write : Bool
  pub setting : DeviceSetting
  pub setting_value : ℕ
  pub settings_edit : SettingsEdit
  pub settings_gesture : ℕ
  pub settings_base : ℕ
  pub maintenance : ℕ
  pub maintenance_action : Maintenance.Action
  pub maintenance_request : ℕ
  pub wifi : ℕ
  pub wifi_base : ℕ
  pub wifi_ssid : List ℕ
  pub wifi_password : List ℕ
  pub command : ControllerCommand

unfoldable pub no_request : Request
no_request = record {
  archive = 0;
  archive_token = 0;
  archive_total = 0;
  archive_offset = 0;
  archive_data = [];
  token = no_token;
  id = 0;
  snapshot = false;
  initial = false;
  settings = false;
  settings_write = false;
  setting = DeviceSetting.brightness;
  setting_value = 0;
  settings_edit = SettingsEdit.none_asked;
  settings_gesture = 0;
  settings_base = 0;
  maintenance = 0;
  maintenance_action = Maintenance.Action.none_asked;
  maintenance_request = 0;
  wifi = 0;
  wifi_base = 0;
  wifi_ssid = replicate 33 0;
  wifi_password = replicate 64 0;
  command = record { command = Command.invalid; source = CommandSource.touch; request_id = 0 };
}

-- `validFrame`, of src/websocket_protocol.cpp.
pub valid_frame : ℕ → Bool → ℕ → Bool
valid_frame opcode final length =
    final
    && ((opcode == 1 && ltb 0 length && leb length max_message)
        || ((opcode == 8 || opcode == 9 || opcode == 10)
            && leb length 125
            && (not (opcode == 8) || not (length == 1))))
