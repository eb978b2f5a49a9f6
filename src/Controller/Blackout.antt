-- ===== src/Controller/Blackout.antt =====
-- Blackout: the output is zero, and leaving blackout brings back the packet that was there on entry,
-- whatever was edited or loaded meanwhile.
use m5stack_core_s3se_dmx_co.Base.{
  ℕ, ◌≡◌, refl, true, false, List, [], ◌∷◌, get_or, set, arith, ℤ, within, Bool-cases, inl, inr, ap,
  sym,
}
use m5stack_core_s3se_dmx_co.Command.{DmxChannelValue}
use m5stack_core_s3se_dmx_co.Controller.{
  DmxController, zero_packet, set_channel, adjust_channel, set_channels, set_blackout,
  output_packet,
}
use m5stack_core_s3se_dmx_co.Controller.Types.{Packet, DmxPresetStorage}
use m5stack_core_s3se_dmx_co.Controller.Presets.{load_preset}

-- What a producer may do to the working packet during blackout.
pub data Edit : Type 0 where
  set_one adjust_one : ℤ → ℤ → Edit
  set_many : List DmxChannelValue → Edit
  load_one : ℕ → Edit

-- What leaving blackout restores from.
record SameEntry {S : Type 0} (c d : DmxController S) : Type 0 where
  restore : d.restore ≡ c.restore
  loaded : d.restore_loaded_preset ≡ c.restore_loaded_preset
  modified : d.restore_loaded_modified ≡ c.restore_loaded_modified
  blackout : d.blackout ≡ c.blackout

module _ {S : Type 0} where
  set_channel-SameEntry :
      (index value : ℤ) (c : DmxController S) → SameEntry c (set_channel index value c).0
  unfolding set_channel
  set_channel-SameEntry index value c = ground arith

  adjust_channel-SameEntry :
      (index delta : ℤ) (c : DmxController S) → SameEntry c (adjust_channel index delta c).0
  unfolding adjust_channel
  adjust_channel-SameEntry index delta c = elim (Bool-cases (within 1 512 index)) [
    | inl e ↦ rw e (set_channel-SameEntry index _ c)
    | inr e ↦ rw e (ground arith)
  ]

  set_channels-SameEntry :
      (values : List DmxChannelValue) (c : DmxController S) → SameEntry c (set_channels values c).0
  unfolding set_channels
  set_channels-SameEntry values c = ground arith

set-start : (p : Packet) → get_or p 0 0 ≡ 0 → set p 0 0 ≡ p
set-start [] h = refl
set-start (b ∷ p) h = ap (λ x. x ∷ p) (sym h)

module _ {S : Type 0} (store : DmxPresetStorage S) where
  load_preset-SameEntry :
      (slot : ℕ) (c : DmxController S) → SameEntry c (load_preset store slot c).0
  unfolding load_preset
  load_preset-SameEntry slot c = ground arith

  pub edit : Edit → DmxController S → DmxController S
  edit (set_one index value) c = (set_channel index value c).0
  edit (adjust_one index delta) c = (adjust_channel index delta c).0
  edit (set_many values) c = (set_channels values c).0
  edit (load_one slot) c = (load_preset store slot c).0

  pub edits : List Edit → DmxController S → DmxController S
  edits [] c = c
  edits (e ∷ es) c = edits es (edit e c)

  edit-SameEntry : (e : Edit) (c : DmxController S) → SameEntry c (edit e c)
  unfolding edit
  edit-SameEntry (set_one index value) c = set_channel-SameEntry index value c
  edit-SameEntry (adjust_one index delta) c = adjust_channel-SameEntry index delta c
  edit-SameEntry (set_many values) c = set_channels-SameEntry values c
  edit-SameEntry (load_one slot) c = load_preset-SameEntry slot c

  edits-SameEntry : (es : List Edit) (c : DmxController S) → SameEntry c (edits es c)
  unfolding edits
  edits-SameEntry [] c = ground arith
  edits-SameEntry (e ∷ es) c = ground (arith, edits-SameEntry es (edit e c), edit-SameEntry e c)

  -- During blackout the output is the zero packet, whatever is edited or loaded; and when blackout ends the
  -- working packet, the loaded preset and its modified mark are those from before it began.
  pub blackout_roundtrip :
      (es : List Edit) (c : DmxController S)
      → c.blackout ≡ false
      → get_or c.working 0 0 ≡ 0
      → let during = edits es (set_blackout true c) in
        let after = set_blackout false during in
        (output_packet during ≡ zero_packet)
        × (after.working ≡ c.working)
        × (output_packet after ≡ c.working)
        × (after.loaded_preset ≡ c.loaded_preset)
        × (after.loaded_modified ≡ c.loaded_modified)
        × (after.blackout ≡ false)
  unfolding set_blackout output_packet
  blackout_roundtrip es c off start =
      ground (arith, edits-SameEntry es (set_blackout true c), set-start c.working start)
