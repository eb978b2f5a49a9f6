-- ===== src/Examples.antt =====
-- Concrete controllers, dispatchers and adapters, on which the theorems are tried.
pub mod Desk
pub mod Waiting
pub mod Sender
pub mod Device
pub mod Network
pub mod Browser
pub mod Turns
use m5stack_core_s3se_dmx_co.Base.{
  if◌then◌else◌, suc, ℕ, ◌+◌, ◌≡◌, ◌≤◌, ◌<◌, Bool, true, false, Option, none, some, List, [], ◌∷◌,
  replicate, length, length-replicate, All, All-replicate, get_or-replicate, get_or, arith, refl,
  ap, ℤ, pos, negsuc,
}
use m5stack_core_s3se_dmx_co.Archive.{Gate, Commit, no_presets}
use m5stack_core_s3se_dmx_co.Command.{
  Command, CommandSource, ControllerCommand, DmxChannelValue, reset_sender_command,
  blackout_command,
}
use m5stack_core_s3se_dmx_co.Controller.{DmxController, zero_packet}
use m5stack_core_s3se_dmx_co.Controller.Types.{DmxPresetStorage, SlotState}
use m5stack_core_s3se_dmx_co.Controller.Invariant
use m5stack_core_s3se_dmx_co.Controller.Operations.Valid.{LoadsPackets}
use m5stack_core_s3se_dmx_co.Dispatcher.Queue
use m5stack_core_s3se_dmx_co.Dispatcher.Types.{CommandDispatcher, Callbacks, no_entry}

-- A memory with one preset of zeros, which is there or not.
abbrev pub flash : DmxPresetStorage Bool
flash = record {
  inspect = λ slot s. (if s then SlotState.valid else SlotState.missing, s);
  load = λ slot s. (if s then some zero_packet else none, s);
  save = λ slot p s. (true, true);
  erase = λ slot s. (true, false);
  no_space = λ s. false;
  capture_collection = λ c s. (SlotState.missing, c, s);
  replace_all = λ c gate answers s. (Commit.ok, s);
}

abbrev pub desk : DmxController Bool
desk = record {
  archive = no_presets;
  archive_gate = record { check = false };
  archive_token = 1;
  archive_counter = 1;
  archive_base = 5;
  preset_revision = 5;
  storage = true;
  working = zero_packet;
  restore = zero_packet;
  blackout = false;
  loaded_preset = 0;
  restore_loaded_preset = 0;
  loaded_modified = false;
  restore_loaded_modified = false;
  revision = 0;
  observer = true;
  observed = [];
}

pub length-zero_packet : length zero_packet ≡ 513
length-zero_packet = Invariant.zero_packet-IsPacket.size

pub desk-IsValid : Invariant.IsValid desk
desk-IsValid = record {
  working_packet = Invariant.zero_packet-IsPacket;
  restore_packet = Invariant.zero_packet-IsPacket;
  slot_loaded = omega arith;
  slot_restored = omega arith;
  modified_loaded = λ h. cc;
  modified_restored = λ h. cc;
}

pub flash-LoadsPackets : LoadsPackets flash
flash-LoadsPackets slot true p h =
    let k = Invariant.zero_packet-IsPacket in ground (arith, k.size, k.bytes)
flash-LoadsPackets slot false p h = cc

abbrev pub level : ℤ → ℤ → DmxChannelValue
level channel value = record { channel = channel; value = value }

abbrev pub one_level : List DmxChannelValue
one_level = level (pos 7) (pos 200) ∷ []

-- Callbacks that are not set.
abbrev pub no_callbacks : Callbacks Bool ℕ
no_callbacks = record { publisher = none; admission = none; completion = none; gate = λ e i. true }

abbrev pub set_seven : ControllerCommand
set_seven = record {
  command = Command.set_channel (level (pos 7) (pos 200));
  source = CommandSource.touch;
  request_id = 1;
}

abbrev pub idle_dispatcher : CommandDispatcher Bool ℕ
idle_dispatcher = record {
  controller = desk;
  context = 0;
  queue = record { command = set_seven; ticket = 1 } ∷ replicate 31 no_entry;
  head = 0;
  count = 1;
  next_ticket = 1;
  sender_active = true;
  processing = false;
  local_execution = false;
}

pub idle_dispatcher-IsValid : Queue.IsValid idle_dispatcher
idle_dispatcher-IsValid = record {
  storage = ap suc (length-replicate 31 no_entry);
  head_in = omega arith;
  count_in = omega arith;
}
