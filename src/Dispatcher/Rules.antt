-- ===== src/Dispatcher/Rules.antt =====
-- src/command_dispatcher.cpp: the checks of `validate`, the controller's method for each command, and what
-- its result means to the producer.
use m5stack_core_s3se_dmx_co.Base.{
  ℕ, Bool, true, false, not, ◌&&◌, List, [], ◌∷◌, length, ◌==◌, ltb, if◌then◌else◌, u8, ℤ, pos,
  to_ℕ, within, eq_ℤ,
}
use m5stack_core_s3se_dmx_co.Command.{
  Command, CommandSource, CommandStatus, DmxChannelValue, dmx_max_patch_channels,
}
use m5stack_core_s3se_dmx_co.Controller.{
  DmxController, reset, set_channel, adjust_channel, set_channels, set_blackout, repeats,
}
use m5stack_core_s3se_dmx_co.Controller.Types.{Result, DmxPresetStorage, channel_count}
use m5stack_core_s3se_dmx_co.Controller.Presets.{
  load_preset, save_preset, copy_preset, clear_preset, replace_archive, archive_valid,
}

unfoldable pub valid_channel : ℤ → Bool
valid_channel channel = within 1 channel_count channel

unfoldable pub valid_value : ℤ → Bool
valid_value value = within 0 255 value

unfoldable pub valid_slot : ℤ → Bool
valid_slot slot = within 0 7 slot

-- The loop over a patch, `earlier` being the entries before.
unfoldable pub valid_patch : List DmxChannelValue → List DmxChannelValue → Bool
unfolding valid_channel valid_value
valid_patch earlier [] = true
valid_patch earlier (v ∷ vs) =
    (valid_channel v.channel && valid_value v.value && not (repeats v.channel earlier))
    && valid_patch (v ∷ earlier) vs

abbrev pub is_source : CommandSource → Bool
is_source CommandSource.unknown = false
is_source _ = true

abbrev pub is_system : CommandSource → Bool
is_system CommandSource.system = true
is_system _ = false

-- The `switch` of `validate`.
unfoldable pub valid_payload : {S : Type 0} → Command → CommandSource → DmxController S → Bool
unfolding valid_channel valid_value valid_slot valid_patch
valid_payload (Command.set_channel v) source c = valid_channel v.channel && valid_value v.value
valid_payload (Command.adjust_channel v) source c = valid_channel v.channel
valid_payload (Command.set_channels vs) source c =
    not (length vs == 0) && not (ltb dmx_max_patch_channels (length vs)) && valid_patch [] vs
valid_payload (Command.set_blackout b) source c = within 0 1 b
valid_payload (Command.load_preset slot) source c = valid_slot slot
valid_payload (Command.save_preset slot) source c = valid_slot slot
valid_payload (Command.clear_preset slot) source c = valid_slot slot
valid_payload (Command.copy_preset slot target) source c = valid_slot slot && valid_slot target
valid_payload (Command.replace_presets token) source c = archive_valid token c
valid_payload Command.reset_sender source c = is_system source
valid_payload Command.invalid source c = false

-- The controller's method for a command that is valid.
unfoldable pub perform :
    {S : Type 0}
    → DmxPresetStorage S
    → (ℕ → Bool)
    → Command
    → DmxController S
    → DmxController S × Result
perform store answers (Command.set_channel v) c = set_channel v.channel v.value c
perform store answers (Command.adjust_channel v) c = adjust_channel v.channel v.value c
perform store answers (Command.set_channels vs) c = set_channels vs c
perform store answers (Command.set_blackout b) c =
    (set_blackout (not (eq_ℤ b (pos 0))) c, Result.ok)
perform store answers (Command.load_preset slot) c = load_preset store (u8 (to_ℕ slot)) c
perform store answers (Command.save_preset slot) c = save_preset store (u8 (to_ℕ slot)) c
perform store answers (Command.copy_preset slot target) c =
    copy_preset store (u8 (to_ℕ slot)) (u8 (to_ℕ target)) c
perform store answers (Command.clear_preset slot) c = clear_preset store (u8 (to_ℕ slot)) c
perform store answers (Command.replace_presets token) c = replace_archive store token answers c
perform store answers Command.reset_sender c = (reset c, Result.ok)
perform store answers Command.invalid c = (c, Result.ok)

abbrev pub domain_status : Bool → Result → CommandStatus
domain_status changed Result.ok = if changed then CommandStatus.applied else CommandStatus.no_change
domain_status changed Result.corrupt = CommandStatus.storage_error
domain_status changed Result.read_failed = CommandStatus.storage_error
domain_status changed Result.storage_full = CommandStatus.storage_error
domain_status changed Result.write_failed = CommandStatus.storage_error
domain_status changed Result.metadata_failed = CommandStatus.storage_error
domain_status changed Result.archive_uncertain = CommandStatus.storage_error
domain_status changed _ = CommandStatus.rejected

abbrev pub is_ok : Result → Bool
is_ok Result.ok = true
is_ok _ = false

-- Whether a command that went well has the transport told of the new output.
abbrev pub publishes : Bool → Command → Bool
publishes changed (Command.load_preset slot) = true
publishes changed (Command.set_channel v) = changed
publishes changed (Command.adjust_channel v) = changed
publishes changed (Command.set_channels vs) = changed
publishes changed (Command.set_blackout b) = changed
publishes changed _ = false

abbrev pub is_accepted : CommandStatus → Bool
is_accepted CommandStatus.accepted = true
is_accepted _ = false
