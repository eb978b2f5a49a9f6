-- ===== src/Websocket/Decode/Sound.antt =====
-- What holds of every request that is accepted, so that the components behind it need not ask again.
use m5stack_core_s3se_dmx_co.Base.{
  ℕ, ◌≡◌, ◌≢◌, ◌≤◌, true, false, Option, none, some, List, arith, refl, length, get_or,
  if◌then◌else◌,
}
use m5stack_core_s3se_dmx_co.Command.{CommandSource}
use m5stack_core_s3se_dmx_co.Controller.{DmxController}
use m5stack_core_s3se_dmx_co.Dispatcher.Rules.{
  valid_channel, valid_payload, valid_slot, valid_value,
}
use m5stack_core_s3se_dmx_co.Settings
use m5stack_core_s3se_dmx_co.Settings.{SettingsEdit}
use m5stack_core_s3se_dmx_co.Websocket.{Request, no_request}
use m5stack_core_s3se_dmx_co.Websocket.Fields.{Fields, message_fields}
use m5stack_core_s3se_dmx_co.Websocket.Decode.{
  is_unknown, Decoded, DecodeError, Message, body, complete, decode, gesture_body, message_of,
  request_of, settings_body,
}

-- The request is for the controller, not for the archive, the network, the maintenance or the settings.
abbrev pub IsCommand : Request → Type 0
IsCommand r =
    (r.archive ≡ 0)
    × (r.wifi ≡ 0)
    × (r.maintenance ≡ 0)
    × (r.settings ≡ false)
    × (r.snapshot ≡ false)

pub record IsSound {S : Type 0} (c : DmxController S) (r : Request) : Type 0 where
  pub named : r.id ≢ 0
  pub fresh : r.initial ≡ false
  pub source : r.command.source ≡ CommandSource.external
  pub command : IsCommand r → valid_payload r.command.command CommandSource.external c ≡ true
  pub announced : r.archive ≡ 3 → r.archive_total ≤ 32768
  pub setting :
      r.settings_write ≡ true
      → r.settings_edit ≡ SettingsEdit.none_asked
      → Settings.valid r.setting r.setting_value ≡ true

-- What the body of a message makes of the request with its id alone.
Made : {S : Type 0} → DmxController S → Fields → ℕ → Request → Type 0
Made c f id r =
    (r.id ≡ id)
    × (r.initial ≡ false)
    × (r.archive ≡ 3 → get_or f.nums 15 0 ≤ 32768)
    × (IsCommand r → valid_payload r.command.command CommandSource.external c ≡ true)
    × (r.settings_write ≡ true
        → r.settings_edit ≡ SettingsEdit.none_asked
        → Settings.valid r.setting r.setting_value ≡ true)

module _ {S : Type 0} (c : DmxController S) (f : Fields) (id n : ℕ) (r : Request) where
  settings_body-Made :
      (edit : SettingsEdit)
      → settings_body edit f (record no_request { id = id }) ≡ some (n, r)
      → Made c f id r
  unfolding settings_body gesture_body no_request Made
  settings_body-Made SettingsEdit.none_asked h = ground arith
  settings_body-Made SettingsEdit.preview h = ground arith
  settings_body-Made SettingsEdit.commit_it h = ground arith
  settings_body-Made SettingsEdit.cancel_it h = ground arith
  settings_body-Made SettingsEdit.unknown h = ground arith

  body-Made : (m : Message) → body m f (record no_request { id = id }) ≡ some (n, r) → Made c f id r
  unfolding body no_request valid_payload valid_channel valid_value valid_slot Made
  body-Made Message.presets_export h = ground arith
  body-Made Message.presets_read h = ground arith
  body-Made Message.presets_import h = ground arith
  body-Made Message.presets_chunk h = ground arith
  body-Made Message.presets_commit h = ground arith
  body-Made Message.presets_cancel h = ground arith
  body-Made Message.wifi_get h = ground arith
  body-Made Message.wifi_propose h = ground arith
  body-Made Message.wifi_cancel h = ground arith
  body-Made Message.maintenance_get h = ground arith
  body-Made Message.maintenance_request h = ground arith
  body-Made Message.maintenance_cancel h = ground arith
  body-Made Message.settings_request h = ground arith
  body-Made Message.state_request h = ground arith
  body-Made Message.channel_set h = ground arith
  body-Made Message.blackout_set h = ground arith
  body-Made Message.preset_load h = ground arith
  body-Made Message.preset_save h = ground arith
  body-Made Message.preset_clear h = ground arith
  body-Made Message.preset_copy h = ground arith
  body-Made Message.unknown h = ground arith
  body-Made (Message.settings_write edit) h = settings_body-Made edit h

  complete-IsSound :
      (out : Request)
      → complete f n r ≡ Decoded.accepted out
      → id ≢ 0
      → Made c f id r
      → IsSound c out
  unfolding complete Made
  complete-IsSound out h nonzero made = record {
    named = ground arith;
    fresh = ground arith;
    source = ground arith;
    command = λ k. ground arith;
    announced = λ k. ground arith;
    setting = λ k l. ground arith;
  }

module _ {S : Type 0} (c : DmxController S) where
  of_body-IsSound :
      (f : Fields) (id : ℕ) (e : DecodeError) (b : Option (ℕ × Request)) (out : Request)
      → body (message_of f.kind) f (record no_request { id = id }) ≡ b
      → id ≢ 0
      → (elim b [ none ↦ Decoded.refused id e | some (n, r) ↦ complete f n r ])
        ≡ Decoded.accepted out
      → IsSound c out
  of_body-IsSound f id e none out h k l = cc
  of_body-IsSound f id e (some (n, r)) out h k l =
      complete-IsSound c f id n r out l k (body-Made c f id n r (message_of f.kind) h)

  request_of-IsSound :
      (f : Fields) (out : Request) → request_of f ≡ Decoded.accepted out → IsSound c out
  unfolding request_of
  request_of-IsSound f out h = ground (
    arith,
    of_body-IsSound f (get_or f.nums 1 0)
        (if is_unknown (message_of f.kind) then DecodeError.kind else DecodeError.invalid)
        (body (message_of f.kind) f (record no_request { id = get_or f.nums 1 0 })) out refl,
  )

  of_fields-IsSound :
      (r : Option Fields) (out : Request)
      → (elim r [ none ↦ Decoded.refused 0 DecodeError.invalid | some f ↦ request_of f ])
        ≡ Decoded.accepted out
      → IsSound c out
  of_fields-IsSound none out h = cc
  of_fields-IsSound (some f) out h = request_of-IsSound f out h

  -- A message that is accepted is one of 1 to 256 bytes, and the request in it has an id and comes from outside. A
  -- request for the controller has a command that the dispatcher's checks do not find invalid, whatever
  -- the state of the controller is; one that writes a setting with no preview has a value in its range; one that
  -- announces an import announces at most 32768 bytes.
  pub decode-IsSound :
      (message : List ℕ) (r : Request)
      → decode message ≡ Decoded.accepted r
      → (1 ≤ length message) × (length message ≤ 256) × IsSound c r
  unfolding decode
  decode-IsSound message r h = ground (arith, of_fields-IsSound (message_fields message) r)
