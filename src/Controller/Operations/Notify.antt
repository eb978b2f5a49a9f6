-- ===== src/Controller/Operations/Notify.antt =====
-- The revision and the observer: each operation makes one new revision and tells it, or neither.
use m5stack_core_s3se_dmx_co.Base.{
  ℕ, ◌+◌, ◌≡◌, Bool, true, List, [], ◌∷◌, arith, ℤ, u64, within, Bool-cases, inl, inr, ◌⊎◌, refl,
}
use m5stack_core_s3se_dmx_co.Archive.{Gate}
use m5stack_core_s3se_dmx_co.Command.{DmxChannelValue}
use m5stack_core_s3se_dmx_co.Controller.{
  DmxController, reset, set_channel, adjust_channel, set_channels, set_blackout,
}
use m5stack_core_s3se_dmx_co.Controller.Types.{Change, DmxPresetStorage}
use m5stack_core_s3se_dmx_co.Controller.Presets.{
  load_preset, save_preset, copy_preset, clear_preset, capture_archive, stage_archive,
  replace_archive, discard_archive,
}
use m5stack_core_s3se_dmx_co.Controller.Operations.{Operation, perform, performs}

abbrev pub revisions : List Change → List ℕ
revisions [] = []
revisions (x ∷ xs) = x.revision ∷ revisions xs

-- Nothing was told and the revision is the old one, or one change was told, of the next revision.
abbrev Notified : {S : Type 0} → DmxController S → DmxController S → Type 0
Notified c d =
    (d.observer ≡ true)
    × (((d.revision ≡ c.revision) × (d.observed ≡ c.observed))
        ⊎ ((d.revision ≡ u64 (c.revision + 1))
            × (revisions d.observed ≡ d.revision ∷ revisions c.observed)))

module _ {S : Type 0} (c : DmxController S) (on : c.observer ≡ true) where
  reset-Notified : Notified c (reset c)
  unfolding reset
  reset-Notified = ground arith

  set_channel-Notified : (index value : ℤ) → Notified c (set_channel index value c).0
  unfolding set_channel
  set_channel-Notified index value = ground arith

  adjust_channel-Notified : (index delta : ℤ) → Notified c (adjust_channel index delta c).0
  unfolding adjust_channel
  adjust_channel-Notified index delta = elim (Bool-cases (within 1 512 index)) [
    | inl e ↦ rw e (set_channel-Notified index _)
    | inr e ↦ rw e (ground arith)
  ]

  set_channels-Notified : (values : List DmxChannelValue) → Notified c (set_channels values c).0
  unfolding set_channels
  set_channels-Notified values = ground arith

  set_blackout-Notified : (active : Bool) → Notified c (set_blackout active c)
  unfolding set_blackout
  set_blackout-Notified active = ground arith

  stage_archive-Notified :
      (text : List ℕ) (base : ℕ) (gate : Gate) (answer : Bool)
      → Notified c (stage_archive text base gate answer c).0
  unfolding stage_archive
  stage_archive-Notified text base gate answer = ground arith

  discard_archive-Notified : Notified c (discard_archive c)
  unfolding discard_archive
  discard_archive-Notified = ground arith

module _ {S : Type 0} (store : DmxPresetStorage S) (c : DmxController S)
    (on : c.observer ≡ true) where
  load_preset-Notified : (slot : ℕ) → Notified c (load_preset store slot c).0
  unfolding load_preset
  load_preset-Notified slot = ground arith

  save_preset-Notified : (slot : ℕ) → Notified c (save_preset store slot c).0
  unfolding save_preset
  save_preset-Notified slot = ground arith

  copy_preset-Notified : (source target : ℕ) → Notified c (copy_preset store source target c).0
  unfolding copy_preset
  copy_preset-Notified source target = ground arith

  clear_preset-Notified : (slot : ℕ) → Notified c (clear_preset store slot c).0
  unfolding clear_preset
  clear_preset-Notified slot = ground arith

  capture_archive-Notified : Notified c (capture_archive store c).0
  unfolding capture_archive
  capture_archive-Notified = ground arith

  replace_archive-Notified :
      (token : ℕ) (answers : ℕ → Bool) → Notified c (replace_archive store token answers c).0
  unfolding replace_archive
  replace_archive-Notified token answers = ground arith

  perform-Notified : (o : Operation) → Notified c (perform store o c)
  unfolding perform
  perform-Notified Operation.clear_all = reset-Notified c on
  perform-Notified (Operation.set_one index value) = set_channel-Notified c on index value
  perform-Notified (Operation.adjust_one index delta) = adjust_channel-Notified c on index delta
  perform-Notified (Operation.set_many values) = set_channels-Notified c on values
  perform-Notified (Operation.set_dark active) = set_blackout-Notified c on active
  perform-Notified (Operation.load_slot slot) = load_preset-Notified slot
  perform-Notified (Operation.save_slot slot) = save_preset-Notified slot
  perform-Notified (Operation.clear_slot slot) = clear_preset-Notified slot
  perform-Notified (Operation.copy_slot source target) = copy_preset-Notified source target
  perform-Notified Operation.capture = capture_archive-Notified
  perform-Notified Operation.discard = discard_archive-Notified c on
  perform-Notified (Operation.stage text base gate answer) =
      stage_archive-Notified c on text base gate answer
  perform-Notified (Operation.replace token answers) = replace_archive-Notified token answers

-- The revisions told since revision `start`, latest first, lead up to `now` one by one.
abbrev pub Trail : ℕ → ℕ → List ℕ → Type 0
Trail start now [] = now ≡ start
Trail start now (r ∷ rs) = (r ≡ now) × ((p : ℕ) × (now ≡ u64 (p + 1)) × Trail start p rs)

module _ {S : Type 0} (store : DmxPresetStorage S) (start : ℕ) where
  perform-Trail :
      (o : Operation) (c : DmxController S)
      → c.observer ≡ true
      → Trail start c.revision (revisions c.observed)
      → Trail start (perform store o c).revision (revisions (perform store o c).observed)
  perform-Trail o c on t = elim (perform-Notified store c on o).1 [
    | inl (r, e) ↦ rw (r, e) t
    | inr (r, e) ↦ rw e (refl, (c.revision, r, t))
  ]

  -- An observer that is set when the revision is `start` is told, after any sequence of operations, of each
  -- revision from there to the present one exactly once and in order.
  pub performs-Trail :
      (os : List Operation) (c : DmxController S)
      → c.observer ≡ true
      → Trail start c.revision (revisions c.observed)
      → Trail start (performs store os c).revision (revisions (performs store os c).observed)
  unfolding performs
  performs-Trail [] c on t = t
  performs-Trail (o ∷ os) c on t =
      performs-Trail os (perform store o c) (perform-Notified store c on o).0
        (perform-Trail o c on t)
