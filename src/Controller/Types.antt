-- ===== src/Controller/Types.antt =====
-- src/dmx_controller.h: the types of the controller and the storage interface that it is given.
use m5stack_core_s3se_dmx_co.Base.{ℕ, Bool, Option, List}
use m5stack_core_s3se_dmx_co.Archive.{Collection, Gate, Commit}

abbrev pub packet_size : ℕ
packet_size = 513

abbrev pub channel_count : ℕ
channel_count = 512

abbrev pub preset_count : ℕ
preset_count = 8

-- A DMX packet: the start code, then 512 levels.
abbrev pub Packet : Type 0
Packet = List ℕ

pub data SlotState : Type 0 where
  missing valid corrupt error : SlotState

-- `DmxPresetStorage`: each call may change the adapter, `S`. A `bool load` with its packet is an
-- option; the check of a gate is asked again inside `replace_all`, with answers of its own.
pub record DmxPresetStorage (S : Type 0) : Type 0 where
  pub inspect : ℕ → S → SlotState × S
  pub load : ℕ → S → Option Packet × S
  pub save : ℕ → Packet → S → Bool × S
  pub erase : ℕ → S → Bool × S
  pub no_space : S → Bool
  pub capture_collection : Collection → S → SlotState × Collection × S
  pub replace_all : Collection → Gate → (ℕ → Bool) → S → Commit × S

pub data Result : Type 0 where
  ok invalid_channel invalid_value invalid_slot empty same_slot occupied corrupt : Result
  read_failed write_failed metadata_failed invalid_patch archive_conflict : Result
  archive_uncertain storage_full : Result

pub data ChangeKind : Type 0 where
  reset channel universe blackout preset : ChangeKind

pub record Change : Type 0 where
  pub revision : ℕ
  pub kind : ChangeKind
  pub channel : ℕ
  pub slot : ℕ
