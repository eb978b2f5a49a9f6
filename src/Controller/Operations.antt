-- ===== src/Controller/Operations.antt =====
-- All operations of the controller as data, and what holds after any sequence of them.
pub mod Notify
pub mod Valid
use m5stack_core_s3se_dmx_co.Base.{ℕ, Bool, List, [], ◌∷◌, ℤ}
use m5stack_core_s3se_dmx_co.Archive.{Gate}
use m5stack_core_s3se_dmx_co.Command.{DmxChannelValue}
use m5stack_core_s3se_dmx_co.Controller.{
  DmxController, reset, set_channel, adjust_channel, set_channels, set_blackout,
}
use m5stack_core_s3se_dmx_co.Controller.Types.{DmxPresetStorage}
use m5stack_core_s3se_dmx_co.Controller.Presets.{
  load_preset, save_preset, copy_preset, clear_preset, capture_archive, stage_archive,
  replace_archive, discard_archive,
}

pub data Operation : Type 0 where
  clear_all : Operation
  set_one adjust_one : ℤ → ℤ → Operation
  set_many : List DmxChannelValue → Operation
  set_dark : Bool → Operation
  load_slot save_slot clear_slot : ℕ → Operation
  copy_slot : ℕ → ℕ → Operation
  capture discard : Operation
  stage : List ℕ → ℕ → Gate → Bool → Operation
  replace : ℕ → (ℕ → Bool) → Operation

module _ {S : Type 0} (store : DmxPresetStorage S) where
  pub perform : Operation → DmxController S → DmxController S
  perform clear_all c = reset c
  perform (set_one index value) c = (set_channel index value c).0
  perform (adjust_one index delta) c = (adjust_channel index delta c).0
  perform (set_many values) c = (set_channels values c).0
  perform (set_dark active) c = set_blackout active c
  perform (load_slot slot) c = (load_preset store slot c).0
  perform (save_slot slot) c = (save_preset store slot c).0
  perform (clear_slot slot) c = (clear_preset store slot c).0
  perform (copy_slot source target) c = (copy_preset store source target c).0
  perform capture c = (capture_archive store c).0
  perform discard c = discard_archive c
  perform (stage text base gate answer) c = (stage_archive text base gate answer c).0
  perform (replace token answers) c = (replace_archive store token answers c).0

  pub performs : List Operation → DmxController S → DmxController S
  performs [] c = c
  performs (o ∷ os) c = performs os (perform o c)
