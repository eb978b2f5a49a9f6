-- ===== src/Controller/Presets.antt =====
-- src/dmx_controller.cpp: the presets, copied between the working packet and the storage adapter, and
-- the archive that replaces them all.
use m5stack_core_s3se_dmx_co.Base.{
  ℕ, ◌+◌, Bool, false, not, ◌&&◌, ◌||◌, none, some, List, set, bytes_eq, ◌==◌, leb, if◌then◌else◌,
  u32, u64,
}
use m5stack_core_s3se_dmx_co.Archive.{Gate, Commit, allowed, no_presets}
use m5stack_core_s3se_dmx_co.Archive.Parse.{parse}
use m5stack_core_s3se_dmx_co.Controller.{DmxController, changed}
use m5stack_core_s3se_dmx_co.Controller.Types.{
  Packet, preset_count, SlotState, DmxPresetStorage, Result, ChangeKind,
}

module _ {S : Type 0} where
  -- `invalidateLoaded`: no preset is the one loaded any more, if it was this one.
  pub invalidate_loaded : ℕ → DmxController S → DmxController S × Bool
  invalidate_loaded slot c =
      let here = c.loaded_preset == slot + 1 in
      let there = c.restore_loaded_preset == slot + 1 in
      (
        record c {
          loaded_preset = if here then 0 else c.loaded_preset;
          loaded_modified = not here && c.loaded_modified;
          restore_loaded_preset = if there then 0 else c.restore_loaded_preset;
          restore_loaded_modified = not there && c.restore_loaded_modified;
        },
        here || there,
      )

  abbrev with_storage : S → DmxController S → DmxController S
  with_storage s c = record c { storage = s }

  -- `++preset_revision_`
  abbrev touch_presets : DmxController S → DmxController S
  touch_presets c = record c { preset_revision = u64 (c.preset_revision + 1) }

  unfoldable pub discard_archive : DmxController S → DmxController S
  discard_archive c = record c { archive_token = 0 }

  unfoldable pub archive_valid : ℕ → DmxController S → Bool
  archive_valid token c = not (token == 0) && token == c.archive_token

  -- `stageArchive`, with the answer of the gate's check at this moment.
  unfoldable pub stage_archive :
      List ℕ → ℕ → Gate → Bool → DmxController S → DmxController S × Result
  unfolding discard_archive
  stage_archive text base gate answer c =
      let c1 = discard_archive c in
      if not (base == c.preset_revision)
      then (c1, Result.archive_conflict)
      else if not (allowed gate answer)
      then (c1, Result.invalid_patch)
      else let (parsed, archive) = parse text in
        if not parsed
        then (record c1 { archive = archive }, Result.invalid_patch)
        else let next = u32 (c.archive_counter + 1) in
          let counter = (if next == 0 then 1 else next) in
          (
            record c1 {
              archive = archive;
              archive_base = base;
              archive_gate = gate;
              archive_counter = counter;
              archive_token = counter;
            },
            Result.ok,
          )

-- The operations on presets, over a storage adapter.
module _ {S : Type 0} (store : DmxPresetStorage S) where
  open store use {inspect, load, save, erase, no_space, capture_collection, replace_all}

  -- `storage_.noSpace() ? storage_full : write_failed`
  abbrev write_failure : S → Result
  write_failure s = if no_space s then Result.storage_full else Result.write_failed

  pub preset_state : ℕ → S → SlotState × S
  preset_state slot s = if leb preset_count slot then (SlotState.error, s) else inspect slot s

  abbrev as_result : SlotState → Result
  as_result SlotState.valid = Result.ok
  as_result SlotState.missing = Result.empty
  as_result SlotState.corrupt = Result.corrupt
  as_result SlotState.error = Result.read_failed

  pub readable_preset : ℕ → S → Result × S
  unfolding preset_state
  readable_preset slot s =
      if leb preset_count slot
      then (Result.invalid_slot, s)
      else let (state, s') = preset_state slot s in (as_result state, s')

  -- The packet that a load puts in place, `dirty` or not.
  install : ℕ → Packet → DmxController S → DmxController S
  install slot packet c =
      let c1 : DmxController S = record c { loaded_preset = slot + 1; loaded_modified = false } in
      if not (bytes_eq c.working packet) || not (c.loaded_preset == slot + 1) || c.loaded_modified
      then changed ChangeKind.universe 0 0 (record c1 { working = packet })
      else c1

  unfoldable pub load_preset : ℕ → DmxController S → DmxController S × Result
  unfolding readable_preset install
  load_preset slot c =
      let (r, s1) = readable_preset slot c.storage in
      elim r [
        | Result.ok ↦
            let (loaded, s2) = load slot s1 in
            elim loaded [
              | none ↦ (with_storage s2 c, Result.read_failed)
              | some packet ↦ (install slot (set packet 0 0) (with_storage s2 c), Result.ok)
            ]
        | failure ↦ (with_storage s1 c, failure)
      ]

  -- What `savePreset` does once the slot has to be written.
  write_preset : ℕ → DmxController S → DmxController S × Result
  unfolding invalidate_loaded
  write_preset slot c =
      let (c1, invalidated) = invalidate_loaded slot (touch_presets c) in
      let (saved, s) = save slot c.working c.storage in
      let c2 = with_storage s c1 in
      if saved
      then (changed ChangeKind.preset 0 slot c2, Result.ok)
      else (if invalidated then changed ChangeKind.preset 0 slot c2 else c2, write_failure s)

  unfoldable pub save_preset : ℕ → DmxController S → DmxController S × Result
  unfolding preset_state write_preset
  save_preset slot c =
      if leb preset_count slot
      then (c, Result.invalid_slot)
      else let (state, s1) = preset_state slot c.storage in
        elim state [
          | SlotState.error ↦ (with_storage s1 c, Result.read_failed)
          | SlotState.valid ↦
              let (loaded, s2) = load slot s1 in
              elim loaded [
                | none ↦ (with_storage s2 c, Result.read_failed)
                | some saved ↦
                    if bytes_eq saved c.working
                    then (with_storage s2 c, Result.ok)
                    else write_preset slot (with_storage s2 c)
              ]
          | _ ↦ write_preset slot (with_storage s1 c)
        ]

  -- What `copyPreset` does once the target is found free.
  copy_to : ℕ → ℕ → DmxController S → DmxController S × Result
  copy_to source target c =
      let (loaded, s1) = load source c.storage in
      elim loaded [
        | none ↦ (with_storage s1 c, Result.read_failed)
        | some packet ↦
            let (saved, s2) = save target (set packet 0 0) s1 in
            let c1 = with_storage s2 (touch_presets c) in
            if saved
            then (changed ChangeKind.preset 0 target c1, Result.ok)
            else (c1, write_failure s2)
      ]

  unfoldable pub copy_preset : ℕ → ℕ → DmxController S → DmxController S × Result
  unfolding preset_state readable_preset copy_to
  copy_preset source target c =
      if leb preset_count source || leb preset_count target
      then (c, Result.invalid_slot)
      else let (r, s1) = readable_preset source c.storage in
        elim r [
          | Result.ok ↦
              if source == target
              then (with_storage s1 c, Result.same_slot)
              else let (state, s2) = preset_state target s1 in
                elim state [
                  | SlotState.valid ↦ (with_storage s2 c, Result.occupied)
                  | SlotState.error ↦ (with_storage s2 c, Result.read_failed)
                  | SlotState.corrupt ↦ (with_storage s2 c, Result.corrupt)
                  | SlotState.missing ↦ copy_to source target (with_storage s2 c)
                ]
          | failure ↦ (with_storage s1 c, failure)
        ]

  -- What `clearPreset` does once the slot is found readable.
  erase_preset : ℕ → DmxController S → DmxController S × Result
  unfolding invalidate_loaded
  erase_preset slot c =
      let (c1, invalidated) = invalidate_loaded slot (touch_presets c) in
      let (erased, s) = erase slot c.storage in
      let c2 = with_storage s c1 in
      if erased
      then (changed ChangeKind.preset 0 slot c2, Result.ok)
      else (if invalidated then changed ChangeKind.preset 0 slot c2 else c2, write_failure s)

  unfoldable pub clear_preset : ℕ → DmxController S → DmxController S × Result
  unfolding readable_preset erase_preset
  clear_preset slot c =
      let (r, s1) = readable_preset slot c.storage in
      elim r [
        | Result.ok ↦ erase_preset slot (with_storage s1 c)
        | failure ↦ (with_storage s1 c, failure)
      ]

  unfoldable pub capture_archive : DmxController S → DmxController S × Result
  unfolding discard_archive
  capture_archive c =
      let (state, archive, s) = capture_collection no_presets c.storage in
      (
        record (discard_archive c) { archive = archive; storage = s },
        elim state [
          | SlotState.valid ↦ Result.ok
          | SlotState.corrupt ↦ Result.corrupt
          | _ ↦ Result.read_failed
        ],
      )

  -- The slot table replaced by the storage: no preset counts as loaded any more.
  abbrev replaced : DmxController S → DmxController S
  replaced c = changed ChangeKind.preset 0 0 (record (touch_presets c) {
    loaded_preset = 0;
    restore_loaded_preset = 0;
    loaded_modified = false;
    restore_loaded_modified = false;
  })

  -- `replaceArchive`; `answers n` is the answer of the gate's check at its `n`-th question.
  unfoldable pub replace_archive : ℕ → (ℕ → Bool) → DmxController S → DmxController S × Result
  unfolding discard_archive archive_valid
  replace_archive token answers c =
      if not (archive_valid token c)
      then (c, Result.invalid_patch)
      else let c1 = discard_archive c in
        if not (c.archive_base == c.preset_revision)
        then (c1, Result.archive_conflict)
        else if not (allowed c.archive_gate (answers 0))
        then (c1, Result.invalid_patch)
        else let (commit, s) =
            replace_all c.archive c.archive_gate (λ n. answers (n + 1)) c.storage in
          let c2 = with_storage s c1 in
          elim commit [
            | Commit.failed ↦ (c2, write_failure s)
            | Commit.ok ↦ (replaced c2, Result.ok)
            | Commit.uncertain ↦ (replaced c2, Result.archive_uncertain)
          ]
