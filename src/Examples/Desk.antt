-- ===== src/Examples/Desk.antt =====
-- The theorems of the controller, at a desk with a dark universe.
use m5stack_core_s3se_dmx_co.Base.{
  ℕ, ◌≡◌, ◌≢◌, ◌≤◌, ◌<◌, ◌↔◌, inl, Bool, true, false, List, [], ◌∷◌, All-get_or, All-map, get_or,
  arith, refl, pos,
}
use m5stack_core_s3se_dmx_co.Controller.{set_channels, set_blackout, output_packet, zero_packet}
use m5stack_core_s3se_dmx_co.Controller.Types.{Result}
use m5stack_core_s3se_dmx_co.Controller.Presets.{
  archive_valid, load_preset, clear_preset, replace_archive,
}
use m5stack_core_s3se_dmx_co.Controller.Invariant.{IsValid, zero_packet-IsPacket}
use m5stack_core_s3se_dmx_co.Controller.Patch.{
  IsPatch, patched, set_channels-ok_iff, set_channels-levels,
}
use m5stack_core_s3se_dmx_co.Controller.Blackout.{Edit, edits, blackout_roundtrip}
use m5stack_core_s3se_dmx_co.Controller.Operations.{Operation, performs}
use m5stack_core_s3se_dmx_co.Controller.Operations.Notify.{Trail, revisions, performs-Trail}
use m5stack_core_s3se_dmx_co.Controller.Operations.Valid.{performs-IsValid}
use m5stack_core_s3se_dmx_co.Controller.Transaction.{
  replace_archive-once, replace_archive-conflict, load_preset-frame,
}
use m5stack_core_s3se_dmx_co.Examples.{
  desk, desk-IsValid, flash, flash-LoadsPackets, length-zero_packet, one_level,
}

set_channels-ok_iff_example :
    (((set_channels one_level desk).1 ≡ Result.ok) ↔ IsPatch one_level)
    × ((set_channels one_level desk).1 ≢ Result.ok → (set_channels one_level desk).0 ≡ desk)
set_channels-ok_iff_example = set_channels-ok_iff one_level desk

one_level-IsPatch : IsPatch one_level
one_level-IsPatch = record {
  some_entry = omega arith;
  bounded = omega arith;
  in_range = ((omega arith, omega arith, refl, omega arith, refl), tt);
  distinct = (tt, tt);
}

zero_packet-start : get_or zero_packet 0 0 ≡ 0
zero_packet-start = zero_packet-IsPacket.start_code

zero_packet-seven : get_or zero_packet 7 0 ≤ 255
zero_packet-seven =
    All-get_or (λ b. b ≤ 255) zero_packet 7 0
      (All-map (λ b. b < 256) (λ b. b ≤ 255) (λ x h. omega arith) zero_packet
        zero_packet-IsPacket.bytes)
      (omega arith)

set_channels-levels_example :
    get_or (set_channels one_level desk).0.working 7 0
    ≡ patched one_level 7 (get_or zero_packet 7 0)
set_channels-levels_example =
    set_channels-levels one_level desk length-zero_packet one_level-IsPatch 7

abbrev some_edits : List Edit
some_edits = Edit.set_one (pos 7) (pos 200) ∷ Edit.load_one 0 ∷ []

blackout_roundtrip_example :
    let during = edits flash some_edits (set_blackout true desk) in
    let after = set_blackout false during in
    (output_packet during ≡ zero_packet)
    × (after.working ≡ zero_packet)
    × (output_packet after ≡ zero_packet)
    × (after.loaded_preset ≡ 0)
    × (after.loaded_modified ≡ false)
    × (after.blackout ≡ false)
blackout_roundtrip_example = blackout_roundtrip flash some_edits desk refl zero_packet-start

abbrev some_operations : List Operation
some_operations =
    Operation.set_one (pos 7) (pos 200) ∷ Operation.load_slot 0 ∷ Operation.set_dark true ∷ []

performs-Trail_example :
    Trail 0
      (performs flash some_operations desk).revision
      (revisions (performs flash some_operations desk).observed)
performs-Trail_example = performs-Trail flash 0 some_operations desk refl refl

performs-IsValid_example : IsValid (performs flash some_operations desk)
performs-IsValid_example =
    performs-IsValid flash flash-LoadsPackets some_operations desk desk-IsValid

abbrev yes : ℕ → Bool
yes i = true

replace_archive-once_example :
    let c' = (replace_archive flash 1 yes desk).0 in
    (c'.working ≡ zero_packet)
    × (c'.restore ≡ zero_packet)
    × (output_packet c' ≡ output_packet desk)
    × (c'.blackout ≡ false)
    × (archive_valid 1 c' ≡ false)
    × (replace_archive flash 1 yes c' ≡ (c', Result.invalid_patch))
replace_archive-once_example = replace_archive-once flash 1 yes yes desk

clear_preset-desk : clear_preset flash 0 desk ≡ ((clear_preset flash 0 desk).0, Result.ok)
unfolding clear_preset
clear_preset-desk = refl

archive_valid-desk : archive_valid 1 desk ≡ true
unfolding archive_valid
archive_valid-desk = refl

replace_archive-conflict_example :
    let d = (clear_preset flash 0 desk).0 in
    let (d', r) = replace_archive flash 1 yes d in
    (r ≡ Result.archive_conflict)
    × (d'.storage ≡ d.storage)
    × (d'.preset_revision ≡ d.preset_revision)
replace_archive-conflict_example =
    replace_archive-conflict flash 1 0 1 yes desk (clear_preset flash 0 desk).0 refl (omega arith)
      archive_valid-desk (inl clear_preset-desk)

load_preset-frame_example :
    let (c', r) = load_preset flash 0 desk in
    (r ≢ Result.ok → c' ≡ record desk { storage = c'.storage })
    × (r ≡ Result.ok → (c'.loaded_preset ≡ 1) × (c'.loaded_modified ≡ false))
    × (c'.restore ≡ zero_packet)
    × (c'.blackout ≡ false)
load_preset-frame_example = load_preset-frame flash 0 desk
