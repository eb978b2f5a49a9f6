-- ===== src/Websocket/Decode.antt =====
-- src/websocket_protocol.cpp: `decode`, from the fields of a message to the request that it makes.
pub mod Sound
use m5stack_core_s3se_dmx_co.Base.{
  ℕ, zero, suc, ◌+◌, ◌-◌, ◌*◌, ◌/◌, Bool, true, false, not, ◌&&◌, ◌||◌, Option, none, some, List,
  [], ◌∷◌, length, get_or, bytes_eq, codes, pos, ◌==◌, ltb, leb, if◌then◌else◌, to_bit, ◌%◌,
}
use m5stack_core_s3se_dmx_co.Archive.{max_file}
use m5stack_core_s3se_dmx_co.Archive.Wire.{unbase64}
use m5stack_core_s3se_dmx_co.Command.{Command, CommandSource}
use m5stack_core_s3se_dmx_co.Maintenance.{Action}
use m5stack_core_s3se_dmx_co.Settings
use m5stack_core_s3se_dmx_co.Settings.{DeviceSetting, SettingsEdit}
use m5stack_core_s3se_dmx_co.SoftAp.{padded, text}
use m5stack_core_s3se_dmx_co.Websocket.{Request, max_message, no_request}
use m5stack_core_s3se_dmx_co.Websocket.Fields.{Fields, message_fields}
use m5stack_core_s3se_dmx_co.Wifi.Wire as Wire

-- The types of messages.
pub data Message : Type 0 where
  presets_export presets_read presets_import presets_chunk presets_commit presets_cancel : Message
  wifi_get wifi_propose wifi_cancel : Message
  maintenance_get maintenance_request maintenance_cancel : Message
  settings_request : Message
  settings_write : SettingsEdit → Message
  state_request channel_set blackout_set : Message
  preset_load preset_save preset_clear preset_copy : Message
  unknown : Message

unfoldable pub message_of : List ℕ → Message
message_of kind =
    if bytes_eq kind (codes "presets.export")
    then Message.presets_export
    else if bytes_eq kind (codes "presets.read")
    then Message.presets_read
    else if bytes_eq kind (codes "presets.import")
    then Message.presets_import
    else if bytes_eq kind (codes "presets.chunk")
    then Message.presets_chunk
    else if bytes_eq kind (codes "presets.commit")
    then Message.presets_commit
    else if bytes_eq kind (codes "presets.cancel")
    then Message.presets_cancel
    else if bytes_eq kind (codes "wifi.get")
    then Message.wifi_get
    else if bytes_eq kind (codes "wifi.propose")
    then Message.wifi_propose
    else if bytes_eq kind (codes "wifi.cancel")
    then Message.wifi_cancel
    else if bytes_eq kind (codes "maintenance.get")
    then Message.maintenance_get
    else if bytes_eq kind (codes "maintenance.request")
    then Message.maintenance_request
    else if bytes_eq kind (codes "maintenance.cancel")
    then Message.maintenance_cancel
    else if bytes_eq kind (codes "settings.request")
    then Message.settings_request
    else if bytes_eq kind (codes "settings.set")
    then Message.settings_write SettingsEdit.none_asked
    else if bytes_eq kind (codes "settings.preview")
    then Message.settings_write SettingsEdit.preview
    else if bytes_eq kind (codes "settings.commit")
    then Message.settings_write SettingsEdit.commit_it
    else if bytes_eq kind (codes "settings.cancel")
    then Message.settings_write SettingsEdit.cancel_it
    else if bytes_eq kind (codes "state.request")
    then Message.state_request
    else if bytes_eq kind (codes "channel.set")
    then Message.channel_set
    else if bytes_eq kind (codes "blackout.set")
    then Message.blackout_set
    else if bytes_eq kind (codes "preset.load")
    then Message.preset_load
    else if bytes_eq kind (codes "preset.save")
    then Message.preset_save
    else if bytes_eq kind (codes "preset.clear")
    then Message.preset_clear
    else if bytes_eq kind (codes "preset.copy")
    then Message.preset_copy
    else Message.unknown

pub data DecodeError : Type 0 where
  invalid version kind : DecodeError

-- A message that is refused has as its id what was read of it, or 0.
pub data Decoded : Type 0 where
  refused : ℕ → DecodeError → Decoded
  accepted : Request → Decoded

-- A field that is a number, by its place in the list of keys.
abbrev number_of : ℕ → Fields → ℕ
number_of k f = get_or f.nums k 0

-- The loop over `base`: decimal digits of a number of 64 bits.
base_loop : ℕ → List ℕ → Option ℕ
base_loop value [] = some value
base_loop value (c ∷ s) =
    elim (ltb c b'0' || ltb b'9' c || ltb ((18446744073709551615 - (c - b'0')) / 10) value) [
      | true ↦ none
      | false ↦ base_loop (value * 10 + (c - b'0')) s
    ]

-- A revision of 64 bits, with no leading zero.
pub base_number : List ℕ → Option ℕ
unfolding base_loop
base_number [] = none
base_number (c ∷ s) = if c == b'0' then none else base_loop 0 (c ∷ s)

pub setting_of : List ℕ → Option DeviceSetting
setting_of name =
    if bytes_eq name (codes "brightness")
    then some DeviceSetting.brightness
    else if bytes_eq name (codes "timeout")
    then some DeviceSetting.timeout
    else if bytes_eq name (codes "volume")
    then some DeviceSetting.volume
    else none

abbrev is_empty : List ℕ → Bool
is_empty [] = true
is_empty (c ∷ s) = false

-- The part of `decode` for a request: the fields that it must have besides the first three, as the bits
-- of a mask, and the request.
abbrev Body : Type 0
Body = Option (ℕ × Request)

abbrev ask : Command → Request → Request
ask command r = record r {
  command = record { command = command; source = CommandSource.external; request_id = 0 };
}

wifi_body : Fields → Request → Body
wifi_body f r = elim (base_number f.base) [
  | none ↦ none
  | some base ↦ elim (Wire.decode f.wifi_ssid 33) [
    | none ↦ none
    | some ssid ↦ elim (Wire.decode f.wifi_password 64) [
      | none ↦ none
      | some password ↦
          if is_empty ssid || (not (is_empty password) && not (text (padded 64 password) 64 8 63))
          then none
          else some (
            25600,
            record r {
              wifi = 2;
              wifi_base = base;
              wifi_ssid = padded 33 ssid;
              wifi_password = padded 64 password;
            },
          )
    ]
  ]
]

-- What a preview, a commit or a cancel has besides a `set`: its gesture and its base.
gesture_body : SettingsEdit → Fields → Request → Body
gesture_body SettingsEdit.none_asked f r = some (0, r)
gesture_body edit f r = elim (base_number f.base) [
  | none ↦ none
  | some base ↦
      let gesture = number_of 9 f in
      if gesture == 0 || ltb r.id gesture
      then none
      else some (
        1536,
        record r { settings_edit = edit; settings_gesture = gesture; settings_base = base },
      )
]

-- Whether the setting has a value.
abbrev has_value : SettingsEdit → Bool
has_value SettingsEdit.none_asked = true
has_value SettingsEdit.preview = true
has_value _ = false

settings_body : SettingsEdit → Fields → Request → Body
unfolding gesture_body
settings_body edit f r =
    elim (gesture_body edit f (record r { settings = true; settings_write = true })) [
      | none ↦ none
      | some (fields, r1) ↦ elim (setting_of f.setting) [
        | none ↦ none
        | some setting ↦
            let value = number_of 4 f in
            if has_value edit && not (Settings.valid setting value)
            then none
            else some (
              fields + 256 + (if has_value edit then 16 else 0),
              record r1 { setting = setting; setting_value = value },
            )
      ]
    ]

abbrev slot_in : ℕ → Bool
slot_in slot = not (ltb slot 1) && not (ltb 8 slot)

unfoldable pub body : Message → Fields → Request → Body
unfolding wifi_body settings_body
body Message.presets_export f r = some (0, record r { archive = 1 })
body Message.presets_read f r = some (196608, record r { archive = 2 })
body Message.presets_import f r =
    let total = number_of 15 f in
    if total == 0 || ltb max_file total then none else some (32768, record r { archive = 3 })
body Message.presets_chunk f r = elim (unbase64 f.archive_data) [
  | none ↦ none
  | some bytes ↦ some (458752, record r { archive = 4; archive_data = bytes })
]
body Message.presets_commit f r = some (131072, record r { archive = 5 })
body Message.presets_cancel f r = some (131072, record r { archive = 6 })
body Message.wifi_get f r = some (0, record r { wifi = 1 })
body Message.wifi_propose f r = wifi_body f r
body Message.wifi_cancel f r =
    if number_of 12 f == 0
    then none
    else some (4096, record r { wifi = 3; maintenance_request = number_of 12 f })
body Message.maintenance_get f r = some (0, record r { maintenance = 1 })
body Message.maintenance_request f r =
    if bytes_eq f.action (codes "restart")
    then some (2048, record r { maintenance = 2; maintenance_action = Action.restart })
    else if bytes_eq f.action (codes "power_off")
    then some (2048, record r { maintenance = 2; maintenance_action = Action.power_off })
    else none
body Message.maintenance_cancel f r =
    if number_of 12 f == 0
    then none
    else some (4096, record r { maintenance = 3; maintenance_request = number_of 12 f })
body Message.settings_request f r = some (0, record r { settings = true })
body (Message.settings_write edit) f r = settings_body edit f r
body Message.state_request f r = some (0, record r { snapshot = true })
body Message.channel_set f r =
    let channel = number_of 3 f in
    let value = number_of 4 f in
    if ltb channel 1 || ltb 512 channel || ltb 255 value
    then none
    else some
        (24, ask (Command.set_channel (record { channel = pos channel; value = pos value })) r)
body Message.blackout_set f r =
    some (32, ask (Command.set_blackout (pos (to_bit (not (number_of 5 f == 0))))) r)
body Message.preset_load f r =
    if not (slot_in (number_of 6 f))
    then none
    else some (64, ask (Command.load_preset (pos (number_of 6 f - 1))) r)
body Message.preset_save f r =
    if not (slot_in (number_of 6 f))
    then none
    else some (64, ask (Command.save_preset (pos (number_of 6 f - 1))) r)
body Message.preset_clear f r =
    if not (slot_in (number_of 6 f))
    then none
    else some (64, ask (Command.clear_preset (pos (number_of 6 f - 1))) r)
body Message.preset_copy f r =
    if not (slot_in (number_of 6 f)) || not (slot_in (number_of 7 f))
    then none
    else some (192, ask (Command.copy_preset (pos (number_of 6 f - 1)) (pos (number_of 7 f - 1))) r)
body Message.unknown f r = none

-- The end of `decode`: the members of an archive request, the source, and that no field is missing or left over.
unfoldable pub complete : Fields → ℕ → Request → Decoded
complete f fields r =
    let r1 : Request = if r.archive == 0 then r else record r {
      archive_token = number_of 17 f;
      archive_total = number_of 15 f;
      archive_offset = number_of 16 f;
    } in
    if not (r.archive == 0) && not (r.archive == 1) && not (r.archive == 3) && r1.archive_token == 0
    then Decoded.refused r.id DecodeError.invalid
    else if not (f.seen == 7 + fields)
    then Decoded.refused r.id DecodeError.invalid
    else Decoded.accepted
        (record r1 { command = record r1.command { source = CommandSource.external } })

abbrev is_unknown : Message → Bool
is_unknown Message.unknown = true
is_unknown _ = false

-- `decode` once the fields are read.
unfoldable pub request_of : Fields → Decoded
request_of f =
    let id = number_of 1 f in
    let message = message_of f.kind in
    if not (f.seen % 8 == 7) || id == 0
    then Decoded.refused 0 DecodeError.invalid
    else if not (number_of 0 f == 1)
    then Decoded.refused id DecodeError.version
    else elim (body message f (record no_request { id = id })) [
      | none ↦
          Decoded.refused id (if is_unknown message then DecodeError.kind else DecodeError.invalid)
      | some (fields, r) ↦ complete f fields r
    ]

unfoldable pub decode : List ℕ → Decoded
decode message =
    if length message == 0 || ltb max_message (length message)
    then Decoded.refused 0 DecodeError.invalid
    else elim (message_fields message) [
      | none ↦ Decoded.refused 0 DecodeError.invalid
      | some f ↦ request_of f
    ]
