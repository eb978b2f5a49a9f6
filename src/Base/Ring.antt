-- ===== src/Base/Ring.antt =====
-- A queue in a circular array: the entries in order, for any capacity whose remainders behave.
use Prim.Native.Nat.{ℕ, zero, suc, ◌+◌, ◌-◌, ◌%◌, ◌<◌}
use mathlib.Core.Path.{◌≡◌, refl, ap, ap₂, sym, ◌∙◌, subst}
use mathlib.Core.Logic.{◌≢◌}
use mathlib.Core.List.{List, [], ◌∷◌, ◌++◌}
use native.Mathlib.Nat.{add-zero}
use native.Mathlib.Numerals.{add-one}
use native.Mathlib.Omega.{arith}
use m5stack_core_s3se_dmx_co.Base.Lists.{get_or, set, length, get_or-set_self, get_or-set_ne}

-- Fewer than `cap` steps do not lead round, and a step depends on the place in the array alone.
pub record IsCapacity (cap : ℕ) : Type 0 where
  pub apart : (s n : ℕ) → suc n < cap → (s + suc n) % cap ≢ s % cap
  pub inside : (s : ℕ) → s % cap < cap
  pub small : (s : ℕ) → s < cap → s % cap ≡ s
  pub next : (s : ℕ) → suc (s % cap) % cap ≡ suc s % cap

module _ {A : Type 0} (d : A) (cap : ℕ) where
  -- The `n` entries from place `s` on.
  abbrev pub window : List A → ℕ → ℕ → List A
  window buf s zero = []
  window buf s (suc n) = get_or buf (s % cap) d ∷ window buf (suc s) n

  pub length-window : (buf : List A) (s n : ℕ) → length (window buf s n) ≡ n
  length-window buf s zero = refl
  length-window buf s (suc n) = ap suc (length-window buf (suc s) n)

  -- The window depends on its place in the array alone.
  pub window-wrap :
      IsCapacity cap
      → (buf : List A) (n s t : ℕ) → s % cap ≡ t % cap
      → window buf s n ≡ window buf t n
  window-wrap k buf zero s t e = refl
  window-wrap k buf (suc n) s t e =
      ap₂ ◌∷◌ (ap (λ i. get_or buf i d) e)
        (window-wrap k buf n (suc s) (suc t) (sym (k.next s) ∙ ap (λ i. suc i % cap) e ∙ k.next t))

  -- A write at the end of a window that is not full makes the entry its last.
  pub window-push :
      IsCapacity cap
      → (buf : List A) (x : A) (n s : ℕ) → length buf ≡ cap
      → n < cap
      → window (set buf ((s + n) % cap) x) s (suc n) ≡ window buf s n ++ x ∷ []
  window-push k buf x zero s size room =
      rw add-zero (ap (λ y. y ∷ []) (get_or-set_self buf (s % cap) x d (rw size (k.inside s))))
  window-push k buf x (suc n) s size room =
      let shift : suc s + n ≡ s + suc n = omega arith in
      ap₂ ◌∷◌ (get_or-set_ne buf ((s + suc n) % cap) (s % cap) x d (k.apart s n room)) (
        subst (λ i. window (set buf (i % cap) x) (suc s) (suc n) ≡ window buf (suc s) n ++ x ∷ [])
          shift (window-push k buf x n (suc s) size (omega arith)))

  -- Pushing counts one more, and popping one less.
  pub window-enqueue :
      IsCapacity cap
      → (buf : List A) (x : A) (s n : ℕ) → length buf ≡ cap
      → n < cap
      → window (set buf ((s + n) % cap) x) s (n + 1) ≡ window buf s n ++ x ∷ []
  window-enqueue k buf x s n size room = rw add-one (window-push k buf x n s size room)

  pub window-dequeue :
      IsCapacity cap
      → (buf : List A) (s n : ℕ) → n ≢ 0
      → s < cap
      → window buf s n ≡ get_or buf s d ∷ window buf ((s + 1) % cap) (n - 1)
  window-dequeue k buf s zero some_entry inside = absurd (some_entry refl)
  window-dequeue k buf s (suc n) some_entry inside =
      let fewer : suc n - 1 ≡ n = omega arith in
      let step : suc s % cap ≡ ((s + 1) % cap) % cap =
        rw add-one (sym (k.small (suc s % cap) (k.inside (suc s)))) in
      rw (k.small s inside, fewer)
        (ap (λ w. get_or buf s d ∷ w) (window-wrap k buf n (suc s) ((s + 1) % cap) step))

pub IsCapacity-32 : IsCapacity 32
IsCapacity-32 = record {
  apart = λ s n h e. omega arith;
  inside = λ s. omega arith;
  small = λ s h. omega arith;
  next = λ s. omega arith;
}

pub IsCapacity-4 : IsCapacity 4
IsCapacity-4 = record {
  apart = λ s n h e. omega arith;
  inside = λ s. omega arith;
  small = λ s h. omega arith;
  next = λ s. omega arith;
}

pub IsCapacity-16 : IsCapacity 16
IsCapacity-16 = record {
  apart = λ s n h e. omega arith;
  inside = λ s. omega arith;
  small = λ s h. omega arith;
  next = λ s. omega arith;
}

pub IsCapacity-8 : IsCapacity 8
IsCapacity-8 = record {
  apart = λ s n h e. omega arith;
  inside = λ s. omega arith;
  small = λ s h. omega arith;
  next = λ s. omega arith;
}
