-- ===== src/PresetStore.antt =====
-- src/preset_store.h: the storage adapter of the controller, over the two banks of include/preset_archive_store.h.
use m5stack_core_s3se_dmx_co.Base.{
  ℕ, zero, suc, ◌+◌, ◌-◌, ◌^◌, Bool, true, false, not, ◌&&◌, ◌||◌, Option, none, some, List, ◌∷◌,
  set, drop, bytes_eq, leb, if◌then◌else◌,
}
use m5stack_core_s3se_dmx_co.Archive.{Collection, Commit, Gate, has_bit}
use m5stack_core_s3se_dmx_co.Archive.Store.{
  Kv, State, Store, load, mask, publish, replace, set_mask, set_values, values,
}
use m5stack_core_s3se_dmx_co.Controller.Types.{Packet, SlotState, preset_count}

-- The members of `PresetStore`, with the flash memory that each operation opens.
pub record PresetStore (K : Type 0) : Type 0 where
  pub archive : Store
  pub memory : K

abbrev no_gate : Gate
no_gate = record { check = false }

abbrev is_active : State → Bool
is_active State.active = true
is_active _ = false

abbrev is_readable : State → Bool
is_readable State.active = true
is_readable State.empty = true
is_readable _ = false

abbrev is_ok : Commit → Bool
is_ok Commit.ok = true
is_ok _ = false

-- The loop of `captureCollection`, from slot `i` on.
copy_values : ℕ → ℕ → Store → List (List ℕ) → List (List ℕ)
copy_values zero i a out = out
copy_values (suc n) i a out =
    copy_values n (i + 1) a (if has_bit (mask a) i then set out i (values i a) else out)

module _ {K : Type 0} (kv : Kv K) where
  abbrev loaded : PresetStore K → PresetStore K
  loaded s = record s { archive = load kv s.memory s.archive }

  -- `archive_.publish(kv, {}) == ok`, of the archive as it is changed.
  publish_change : Store → PresetStore K → Bool × PresetStore K
  publish_change a s =
      let ((k, b), result) = publish kv no_gate true true s.memory a in
      (is_ok result, record { archive = b; memory = k })

  pub inspect : ℕ → PresetStore K → SlotState × PresetStore K
  inspect slot s =
      let s1 = loaded s in
      if leb preset_count slot then (SlotState.error, s) else elim s1.archive.state [
        | State.corrupt ↦ (SlotState.corrupt, s1)
        | State.error ↦ (SlotState.error, s1)
        | other ↦
            (if has_bit (mask s1.archive) slot then SlotState.valid else SlotState.missing, s1)
      ]

  pub load_packet : ℕ → PresetStore K → Option Packet × PresetStore K
  load_packet slot s =
      let s1 = loaded s in
      if leb preset_count slot
      then (none, s)
      else if not (is_active s1.archive.state) || not (has_bit (mask s1.archive) slot)
      then (none, s1)
      else (some (0 ∷ values slot s1.archive), s1)

  pub save : ℕ → Packet → PresetStore K → Bool × PresetStore K
  save slot packet s =
      let s1 = loaded s in
      if leb preset_count slot
      then (false, s)
      else if not (is_readable s1.archive.state)
      then (false, s1)
      else if has_bit (mask s1.archive) slot && bytes_eq (values slot s1.archive) (drop 1 packet)
      then (true, s1)
      else publish_change (set_values slot (drop 1 packet) s1.archive) s1

  pub erase : ℕ → PresetStore K → Bool × PresetStore K
  erase slot s =
      let s1 = loaded s in
      if leb preset_count slot
      then (false, s)
      else if not (is_active s1.archive.state) || not (has_bit (mask s1.archive) slot)
      then (false, s1)
      else publish_change (set_mask (mask s1.archive - 2 ^ slot) s1.archive) s1

  pub capture_collection : Collection → PresetStore K → SlotState × (Collection × PresetStore K)
  capture_collection out s =
      let s1 = loaded s in
      elim s1.archive.state [
        | State.corrupt ↦ (SlotState.corrupt, (out, s1))
        | State.error ↦ (SlotState.error, (out, s1))
        | other ↦ (
          SlotState.valid,
          (
            record {
              present = mask s1.archive;
              values = copy_values preset_count 0 s1.archive out.values;
            },
            s1,
          ),
        )
      ]

  pub replace_all : Collection → Gate → Bool → Bool → PresetStore K → Commit × PresetStore K
  replace_all collection gate before after s =
      let ((k, b), result) = replace kv collection gate before after s.memory s.archive in
      (result, record { archive = b; memory = k })
