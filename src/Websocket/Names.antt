-- ===== src/Websocket/Names.antt =====
-- src/websocket_protocol.cpp: the names in the events that are sent to browsers.
use m5stack_core_s3se_dmx_co.Base.{ℕ, Bool, true, false, List, [], codes, ◌==◌, if◌then◌else◌}
use m5stack_core_s3se_dmx_co.Command.{CommandStatus}
use m5stack_core_s3se_dmx_co.Maintenance as Maintenance
use m5stack_core_s3se_dmx_co.Maintenance.{MaintenanceResult}
use m5stack_core_s3se_dmx_co.Settings.{DeviceSetting, SettingsEdit, SettingsResult}
use m5stack_core_s3se_dmx_co.Websocket.{Kind}
use m5stack_core_s3se_dmx_co.Wifi as Wifi
use m5stack_core_s3se_dmx_co.Wifi.{WifiResult}

-- `statusName`
pub status_name : CommandStatus → List ℕ
status_name CommandStatus.accepted = codes "accepted"
status_name CommandStatus.applied = codes "applied"
status_name CommandStatus.no_change = codes "no_change"
status_name CommandStatus.busy = codes "busy"
status_name CommandStatus.storage_error = codes "storage_error"
status_name CommandStatus.unsupported_mode = codes "unsupported_mode"
status_name CommandStatus.rejected = codes "rejected"
status_name CommandStatus.transport_error = codes "transport_error"
status_name CommandStatus.invalid = codes "invalid"

-- `maintenanceAction`, `maintenancePhase`, `maintenanceReason` and `maintenanceResult`
pub action_name : Maintenance.Action → List ℕ
action_name Maintenance.Action.none_asked = codes "none"
action_name Maintenance.Action.restart = codes "restart"
action_name Maintenance.Action.power_off = codes "power_off"

pub maintenance_phase : Maintenance.Phase → List ℕ
maintenance_phase Maintenance.Phase.idle = codes "idle"
maintenance_phase Maintenance.Phase.countdown = codes "countdown"
maintenance_phase Maintenance.Phase.zeroing = codes "zeroing"
maintenance_phase Maintenance.Phase.quiescing = codes "quiescing"
maintenance_phase Maintenance.Phase.executing = codes "executing"
maintenance_phase Maintenance.Phase.failed = codes "failed"

pub maintenance_reason : Maintenance.Reason → List ℕ
maintenance_reason Maintenance.Reason.no_reason = codes "none"
maintenance_reason Maintenance.Reason.busy = codes "busy"
maintenance_reason Maintenance.Reason.cancelled = codes "cancelled"
maintenance_reason Maintenance.Reason.transport = codes "transport"
maintenance_reason Maintenance.Reason.deadline = codes "deadline"
maintenance_reason Maintenance.Reason.returned = codes "returned"

pub maintenance_status : MaintenanceResult → List ℕ
maintenance_status MaintenanceResult.invalid = codes "invalid"
maintenance_status MaintenanceResult.accepted = codes "accepted"
maintenance_status MaintenanceResult.cancelled = codes "cancelled"
maintenance_status MaintenanceResult.unauthorized = codes "unauthorized"
maintenance_status MaintenanceResult.busy = codes "busy"
maintenance_status MaintenanceResult.unsupported = codes "unsupported"

-- The names of the network's phases, reasons and results, and of the origins by their number.
pub wifi_phase : Wifi.Phase → List ℕ
wifi_phase Wifi.Phase.idle = codes "idle"
wifi_phase Wifi.Phase.approval = codes "approval"
wifi_phase Wifi.Phase.applying = codes "applying"
wifi_phase Wifi.Phase.failed = codes "failed"

pub wifi_reason : Wifi.Reason → List ℕ
wifi_reason Wifi.Reason.no_reason = codes "none"
wifi_reason Wifi.Reason.cancelled = codes "cancelled"
wifi_reason Wifi.Reason.expired = codes "expired"
wifi_reason Wifi.Reason.disconnected = codes "disconnected"
wifi_reason Wifi.Reason.storage = codes "storage"
wifi_reason Wifi.Reason.radio = codes "radio"
wifi_reason Wifi.Reason.rollback = codes "rollback"
wifi_reason Wifi.Reason.unavailable = codes "unavailable"

pub wifi_status : WifiResult → List ℕ
wifi_status WifiResult.accepted = codes "accepted"
wifi_status WifiResult.cancelled = codes "cancelled"
wifi_status WifiResult.no_change = codes "no_change"
wifi_status WifiResult.invalid = codes "invalid"
wifi_status WifiResult.conflict = codes "conflict"
wifi_status WifiResult.busy = codes "busy"
wifi_status WifiResult.unauthorized = codes "unauthorized"
wifi_status WifiResult.unavailable = codes "unavailable"

pub origin_name : ℕ → List ℕ
origin_name origin =
    if origin == 0 then codes "legacy" else if origin == 1 then codes "factory" else codes "custom"

pub setting_name : DeviceSetting → List ℕ
setting_name DeviceSetting.brightness = codes "brightness"
setting_name DeviceSetting.timeout = codes "timeout"
setting_name DeviceSetting.volume = codes "volume"

pub settings_status : SettingsResult → List ℕ
settings_status SettingsResult.applied = codes "applied"
settings_status SettingsResult.no_change = codes "no_change"
settings_status SettingsResult.storage_error = codes "storage_error"
settings_status SettingsResult.invalid = codes "invalid"
settings_status SettingsResult.conflict = codes "conflict"

pub truth : Bool → List ℕ
truth true = codes "true"
truth false = codes "false"

-- The part of an edit that is told; a request has no other.
pub edit_name : SettingsEdit → List ℕ
edit_name SettingsEdit.preview = codes "preview"
edit_name SettingsEdit.commit_it = codes "commit"
edit_name SettingsEdit.cancel_it = codes "cancel"
edit_name _ = []

-- The types of the events.
pub kind_name : Kind → List ℕ
kind_name Kind.hello = codes "hello"
kind_name Kind.snapshot = codes "state.snapshot"
kind_name Kind.channel = codes "state.update"
kind_name Kind.universe = codes "state.update"
kind_name Kind.mode = codes "state.update"
kind_name Kind.ack = codes "command.ack"
kind_name Kind.error = codes "command.error"
kind_name Kind.settings_snapshot = codes "settings.snapshot"
kind_name Kind.settings_update = codes "settings.update"
kind_name Kind.settings_result = codes "settings.result"
kind_name Kind.maintenance_snapshot = codes "maintenance.snapshot"
kind_name Kind.maintenance_update = codes "maintenance.update"
kind_name Kind.maintenance_result = codes "maintenance.result"
kind_name Kind.wifi_snapshot = codes "wifi.snapshot"
kind_name Kind.wifi_update = codes "wifi.update"
kind_name Kind.wifi_result = codes "wifi.result"
kind_name Kind.archive_result = codes "presets.result"
