-- ===== src/DoubleTap/Pairs.antt =====
-- When the detector reports two taps.
use m5stack_core_s3se_dmx_co.Base.{◌≡◌, ◌≤◌, true, false, arith, sub32}
use m5stack_core_s3se_dmx_co.DoubleTap.{DoubleTap, Sample, sample, track, end_tap, begin_tap, far}

-- Two taps are reported only at the end of a tap, when a tap before it is held as a candidate that ended at
-- most 350 ms ago and not far away; the detector then neither tracks a tap nor holds a candidate.
pub sample-pair :
    (s : Sample) (t : DoubleTap)
    → (sample s t).1 ≡ true
    → (s.end ≡ true)
      × (t.candidate ≡ true)
      × (sub32 s.now t.last ≤ 350)
      × (far s.x t.last_x ≡ false)
      × (far s.y t.last_y ≡ false)
      × ((sample s t).0.candidate ≡ false)
      × ((sample s t).0.tracking ≡ false)
unfolding sample track end_tap begin_tap
sample-pair s t h = ground arith

-- The sample after one that reported two taps reports none, whatever it is.
pub sample-alone :
    (s s' : Sample) (t : DoubleTap) → (sample s t).1 ≡ true → (sample s' (sample s t).0).1 ≡ false
sample-alone s s' t h = ground (arith, sample-pair s t h, sample-pair s' (sample s t).0)
