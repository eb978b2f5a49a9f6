-- ===== src/DoubleTap.antt =====
-- include/preset_double_tap.h: the detector of two taps on the same preset.
use m5stack_core_s3se_dmx_co.Base.{
  ℕ, suc, ◌+◌, ◌-◌, Bool, true, false, not, ◌&&◌, ◌||◌, ◌==◌, ltb, leb, if◌then◌else◌, sub32, ℤ,
  pos, negsuc, eq_ℤ, within,
}
pub mod Pairs

pub record DoubleTap : Type 0 where
  pub tracking : Bool
  pub candidate : Bool
  pub slot : ℤ
  pub x : ℤ
  pub y : ℤ
  pub last_slot : ℤ
  pub last_x : ℤ
  pub last_y : ℤ
  pub began : ℕ
  pub last : ℕ

-- One sample of the touch panel.
pub record Sample : Type 0 where
  pub slot : ℤ
  pub begin : Bool
  pub down : Bool
  pub end : Bool
  pub x : ℤ
  pub y : ℤ
  pub now : ℕ

abbrev pub fresh : DoubleTap
fresh = record {
  tracking = false;
  candidate = false;
  slot = negsuc 0;
  x = pos 0;
  y = pos 0;
  last_slot = negsuc 0;
  last_x = pos 0;
  last_y = pos 0;
  began = 0;
  last = 0;
}

abbrev distance : ℤ → ℤ → ℕ
distance (pos a) (pos b) = if leb a b then b - a else a - b
distance (pos a) (negsuc b) = a + suc b
distance (negsuc a) (pos b) = b + suc a
distance (negsuc a) (negsuc b) = if leb a b then b - a else a - b

-- `a - b > 12 || b - a > 12`
pub far : ℤ → ℤ → Bool
far a b = ltb 12 (distance a b)

pub reset : DoubleTap → DoubleTap
reset t = record t { tracking = false; candidate = false }

-- The part of `sample` under `if (begin)`.
begin_tap : Sample → DoubleTap → DoubleTap
begin_tap s t =
    let inside = within 0 7 s.slot in
    record t {
      tracking = inside;
      candidate = inside && t.candidate;
      slot = s.slot;
      x = s.x;
      y = s.y;
      began = s.now;
    }

-- The part of `sample` after `tracking_ = false`: the tap has ended in its place and in time.
end_tap : Sample → DoubleTap → DoubleTap × Bool
unfolding far
end_tap s t =
    let pair =
      t.candidate
      && eq_ℤ t.last_slot s.slot
      && leb (sub32 s.now t.last) 350
      && not (far s.x t.last_x)
      && not (far s.y t.last_y) in
    (
      record t {
        tracking = false;
        candidate = not pair;
        last_slot = s.slot;
        last_x = s.x;
        last_y = s.y;
        last = s.now;
      },
      pair,
    )

-- The rest of `sample`.
track : Sample → DoubleTap → DoubleTap × Bool
unfolding far reset end_tap
track s t =
    if not t.tracking
    then (t, false)
    else if not (eq_ℤ s.slot t.slot) || far s.x t.x || far s.y t.y || ltb 350 (sub32 s.now t.began)
    then (reset t, false)
    else if not s.end
    then ((if not s.down then reset t else t), false)
    else end_tap s t

unfoldable pub sample : Sample → DoubleTap → DoubleTap × Bool
unfolding track begin_tap
sample s t = track s (if s.begin then begin_tap s t else t)
