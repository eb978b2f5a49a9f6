-- ===== src/Command.antt =====
-- include/controller_types.h: the commands that a producer hands to the dispatcher.
use m5stack_core_s3se_dmx_co.Base.{ℕ, ℤ, pos, List, Bool, to_bit}

pub record DmxChannelValue : Type 0 where
  pub channel : ℤ
  pub value : ℤ

abbrev pub dmx_max_patch_channels : ℕ
dmx_max_patch_channels = 8

-- `CommandType` with the member of the payload's union that it selects. A patch is the list of the
-- first `count` values; numbers of type `int32_t` are integers.
pub data Command : Type 0 where
  set_channel adjust_channel : DmxChannelValue → Command
  set_channels : List DmxChannelValue → Command
  set_blackout : ℤ → Command
  load_preset save_preset : ℤ → Command
  copy_preset : ℤ → ℤ → Command
  clear_preset : ℤ → Command
  reset_sender : Command
  replace_presets : ℕ → Command
  invalid : Command

-- `unknown` stands for every other value of the `uint8_t`.
pub data CommandSource : Type 0 where
  touch external system unknown : CommandSource

pub record ControllerCommand : Type 0 where
  pub command : Command
  pub source : CommandSource
  pub request_id : ℕ

unfoldable pub blackout_command : Bool → ControllerCommand
blackout_command active = record {
  command = set_blackout (pos (to_bit active));
  source = touch;
  request_id = 0;
}

unfoldable pub reset_sender_command : ControllerCommand
reset_sender_command = record { command = reset_sender; source = system; request_id = 0 }

pub data CommandStatus : Type 0 where
  accepted applied no_change invalid busy storage_error : CommandStatus
  unsupported_mode rejected transport_error : CommandStatus
