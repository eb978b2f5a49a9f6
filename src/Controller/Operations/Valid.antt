-- ===== src/Controller/Operations/Valid.antt =====
-- The invariant of the controller over every sequence of operations, with a storage adapter that loads
-- whole packets.
use m5stack_core_s3se_dmx_co.Base.{
  ℕ, ◌<◌, ◌≡◌, Bool, List, [], ◌∷◌, All, All-set, length, length-set, get_or-set_self, set, arith,
  some,
}
use m5stack_core_s3se_dmx_co.Controller.{DmxController}
use m5stack_core_s3se_dmx_co.Controller.Invariant.{
  IsPacket, IsValid, reset-IsValid, set_channel-IsValid, adjust_channel-IsValid,
  set_channels-IsValid, set_blackout-IsValid,
}
use m5stack_core_s3se_dmx_co.Controller.Types.{Packet, DmxPresetStorage}
use m5stack_core_s3se_dmx_co.Controller.Presets.{
  load_preset, save_preset, copy_preset, clear_preset, capture_archive, stage_archive,
  replace_archive, discard_archive,
}
use m5stack_core_s3se_dmx_co.Controller.Operations.{Operation, perform, performs}

-- What a load hands over is 513 bytes; the start code may be any.
abbrev pub LoadsPackets : {S : Type 0} → DmxPresetStorage S → Type 0
LoadsPackets {S} store =
    (slot : ℕ) (s : S) (p : Packet)
    → (store.load slot s).0 ≡ some p
    → (length p ≡ 513) × All (λ b. b < 256) p

loaded-IsPacket : (p : Packet) → (length p ≡ 513) × All (λ b. b < 256) p → IsPacket (set p 0 0)
loaded-IsPacket p h = record {
  size = ground (arith, length-set p 0 0);
  bytes = All-set _ p 0 0 h.1 (omega arith);
  start_code = get_or-set_self p 0 0 0 (omega arith);
}

module _ {S : Type 0} (store : DmxPresetStorage S) (loads : LoadsPackets store)
    (c : DmxController S) (v : IsValid c) where
  load_preset-IsValid : (slot : ℕ) → IsValid (load_preset store slot c).0
  unfolding load_preset
  load_preset-IsValid slot = grind (arith, loaded-IsPacket, loads)

  save_preset-IsValid : (slot : ℕ) → IsValid (save_preset store slot c).0
  unfolding save_preset
  save_preset-IsValid slot = ground arith

  copy_preset-IsValid : (source target : ℕ) → IsValid (copy_preset store source target c).0
  unfolding copy_preset
  copy_preset-IsValid source target = ground arith

  clear_preset-IsValid : (slot : ℕ) → IsValid (clear_preset store slot c).0
  unfolding clear_preset
  clear_preset-IsValid slot = ground arith

  capture_archive-IsValid : IsValid (capture_archive store c).0
  unfolding capture_archive
  capture_archive-IsValid = ground arith

  replace_archive-IsValid :
      (token : ℕ) (answers : ℕ → Bool) → IsValid (replace_archive store token answers c).0
  unfolding replace_archive
  replace_archive-IsValid token answers = ground arith

  pub perform-IsValid : (o : Operation) → IsValid (perform store o c)
  unfolding perform stage_archive discard_archive
  perform-IsValid Operation.clear_all = reset-IsValid c
  perform-IsValid (Operation.set_one index value) = set_channel-IsValid index value c v
  perform-IsValid (Operation.adjust_one index delta) = adjust_channel-IsValid index delta c v
  perform-IsValid (Operation.set_many values) = set_channels-IsValid values c v
  perform-IsValid (Operation.set_dark active) = set_blackout-IsValid active c v
  perform-IsValid (Operation.load_slot slot) = load_preset-IsValid slot
  perform-IsValid (Operation.save_slot slot) = save_preset-IsValid slot
  perform-IsValid (Operation.clear_slot slot) = clear_preset-IsValid slot
  perform-IsValid (Operation.copy_slot source target) = copy_preset-IsValid source target
  perform-IsValid Operation.capture = capture_archive-IsValid
  perform-IsValid Operation.discard = ground arith
  perform-IsValid (Operation.stage text base gate answer) = ground arith
  perform-IsValid (Operation.replace token answers) = replace_archive-IsValid token answers

module _ {S : Type 0} (store : DmxPresetStorage S) (loads : LoadsPackets store) where
  -- With an adapter that loads packets of 513 bytes, any sequence of operations from a valid controller keeps
  -- the working and the restore packet at 513 bytes with start code 0, the loaded slots at most 8, and a
  -- modified mark only beside a loaded preset.
  pub performs-IsValid :
      (os : List Operation) (c : DmxController S) → IsValid c → IsValid (performs store os c)
  unfolding performs
  performs-IsValid [] c v = v
  performs-IsValid (o ∷ os) c v =
      performs-IsValid os (perform store o c) (perform-IsValid store loads c v o)
