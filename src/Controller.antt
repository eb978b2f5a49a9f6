-- ===== src/Controller.antt =====
-- src/dmx_controller.h and src/dmx_controller.cpp: the universe of 512 channels, blackout with the
-- packet to restore, and the presets behind a storage interface.
pub mod Types
pub mod Presets
pub mod Invariant
pub mod Patch
pub mod Levels
pub mod Blackout
pub mod Operations
pub mod Transaction
use m5stack_core_s3se_dmx_co.Base.{
  ℕ, suc, ◌+◌, ◌-◌, Bool, true, false, not, ◌&&◌, ◌||◌, Option, none, some, List, [], ◌∷◌, ◌++◌,
  get_or, set, replicate, bytes_eq, bool_eq, ◌==◌, ltb, leb, if◌then◌else◌, u32, u64, ℤ, pos,
  negsuc, to_ℕ, within, eq_ℤ, add_ℤ, length,
}
use m5stack_core_s3se_dmx_co.Archive.{Collection, Gate, Commit, allowed, no_presets}
use m5stack_core_s3se_dmx_co.Archive.Parse.{parse}
use m5stack_core_s3se_dmx_co.Command.{DmxChannelValue, dmx_max_patch_channels}
use m5stack_core_s3se_dmx_co.Controller.Types.{
  Packet, packet_size, channel_count, preset_count, SlotState, DmxPresetStorage, Result, ChangeKind,
  Change,
}

-- The members of `DmxController`. `observed` lists what an observer was called with, latest first;
-- `observer` says whether one is set.
pub record DmxController (S : Type 0) : Type 0 where
  pub archive : Collection
  pub archive_gate : Gate
  pub archive_token : ℕ
  pub archive_counter : ℕ
  pub archive_base : ℕ
  pub preset_revision : ℕ
  pub storage : S
  pub working : Packet
  pub restore : Packet
  pub blackout : Bool
  pub loaded_preset : ℕ
  pub restore_loaded_preset : ℕ
  pub loaded_modified : Bool
  pub restore_loaded_modified : Bool
  pub revision : ℕ
  pub observer : Bool
  pub observed : List Change

pub zero_packet : Packet
zero_packet = replicate packet_size 0

-- Whether a byte of the packet is not 0.
pub any_nonzero : Packet → Bool
any_nonzero [] = false
any_nonzero (b ∷ p) = not (b == 0) || any_nonzero p

-- The loop that checks a patch, `earlier` being the entries before.
abbrev pub repeats : ℤ → List DmxChannelValue → Bool
repeats c [] = false
repeats c (v ∷ vs) = eq_ℤ c v.channel || repeats c vs

unfoldable pub check_patch : List DmxChannelValue → List DmxChannelValue → Result
check_patch earlier [] = Result.ok
check_patch earlier (v ∷ vs) =
    let rest = check_patch (v ∷ earlier) vs in
    if not (within 1 channel_count v.channel)
    then Result.invalid_channel
    else if not (within 0 255 v.value)
    then Result.invalid_value
    else if repeats v.channel earlier
    then Result.invalid_patch
    else rest

-- The loop that writes a patch, with `dirty`.
pub write_patch : Bool → Packet → List DmxChannelValue → Bool × Packet
write_patch dirty p [] = (dirty, p)
write_patch dirty p (v ∷ vs) =
    write_patch (dirty || not (get_or p (to_ℕ v.channel) 0 == to_ℕ v.value))
      (set p (to_ℕ v.channel) (to_ℕ v.value)) vs

-- `value < 0` is 0 and `value > 255` is 255.
abbrev clamp_byte : ℤ → ℤ
clamp_byte (pos n) = if ltb 255 n then pos 255 else pos n
clamp_byte (negsuc n) = pos 0

module _ {S : Type 0} where
  abbrev pub changed : ChangeKind → ℕ → ℕ → DmxController S → DmxController S
  changed kind channel slot c =
      let revision = u64 (c.revision + 1) in
      record c {
        revision = revision;
        observed =
            if c.observer
            then (record { revision = revision; kind = kind; channel = channel; slot = slot })
              ∷ c.observed
            else c.observed;
      }

  pub reset : DmxController S → DmxController S
  reset c =
      let dirty =
        c.blackout
        || not (c.loaded_preset == 0)
        || not (c.restore_loaded_preset == 0)
        || (any_nonzero c.working || any_nonzero c.restore) in
      let cleared : DmxController S = record c {
        working = zero_packet;
        restore = zero_packet;
        blackout = false;
        loaded_preset = 0;
        restore_loaded_preset = 0;
        loaded_modified = false;
        restore_loaded_modified = false;
      } in
      if dirty then changed ChangeKind.reset 0 0 cleared else cleared

  -- `channel(index)`, the level of a channel, 0 for a number that is none.
  pub channel : DmxController S → ℤ → ℕ
  channel c index = if within 1 channel_count index then get_or c.working (to_ℕ index) 0 else 0

  unfoldable pub set_channel : ℤ → ℤ → DmxController S → DmxController S × Result
  set_channel index value c =
      if not (within 1 channel_count index)
      then (c, Result.invalid_channel)
      else if not (within 0 255 value)
      then (c, Result.invalid_value)
      else if get_or c.working (to_ℕ index) 0 == to_ℕ value
      then (c, Result.ok)
      else (
        changed ChangeKind.channel (to_ℕ index) 0 (record c {
          working = set c.working (to_ℕ index) (to_ℕ value);
          loaded_modified = not (c.loaded_preset == 0) || c.loaded_modified;
        }),
        Result.ok,
      )

  unfoldable pub adjust_channel : ℤ → ℤ → DmxController S → DmxController S × Result
  adjust_channel index delta c =
      if not (within 1 channel_count index)
      then (c, Result.invalid_channel)
      else set_channel index (clamp_byte (add_ℤ (get_or c.working (to_ℕ index) 0) delta)) c

  unfoldable pub set_channels : List DmxChannelValue → DmxController S → DmxController S × Result
  set_channels values c =
      if length values == 0 || ltb dmx_max_patch_channels (length values)
      then (c, Result.invalid_patch)
      else elim (check_patch [] values) [
        | Result.ok ↦
            let (dirty, working) = write_patch false c.working values in
            let written : DmxController S = record c { working = working } in
            (
              if dirty
                  then (changed ChangeKind.universe 0 0 (record written {
                    loaded_modified = not (c.loaded_preset == 0) || c.loaded_modified;
                  }))
                  else written,
              Result.ok,
            )
        | failure ↦ (c, failure)
      ]

  pub output_packet : DmxController S → Packet
  output_packet c = if c.blackout then zero_packet else c.working

  pub set_blackout : Bool → DmxController S → DmxController S
  set_blackout active c =
      if bool_eq active c.blackout
      then c
      else changed ChangeKind.blackout 0 0 (
          if active
          then (record c {
            restore = c.working;
            restore_loaded_preset = c.loaded_preset;
            restore_loaded_modified = c.loaded_modified;
            blackout = true;
          })
          else (record c {
            working = set c.restore 0 0;
            loaded_preset = c.restore_loaded_preset;
            loaded_modified = c.restore_loaded_modified;
            blackout = false;
          }))
