-- ===== src/Archive.antt =====
-- include/preset_archive.h: the collection of all presets, the gate that a transaction asks, and the
-- JSON form of a collection.
pub mod Reader
pub mod Parse
pub mod Wire
pub mod Store
use m5stack_core_s3se_dmx_co.Base.{
  ℕ, zero, suc, ◌+◌, ◌/◌, ◌%◌, ◌^◌, Bool, true, false, not, ◌||◌, List, ◌==◌, if◌then◌else◌,
  replicate,
}

abbrev pub slots : ℕ
slots = 8

abbrev pub channels : ℕ
channels = 512

abbrev pub max_file : ℕ
max_file = 32768

-- `Collection`: bit `i` of `present` says that `values[i]` holds a preset.
pub record Collection : Type 0 where
  pub present : ℕ
  pub values : List (List ℕ)

-- `Gate`: whether a check is installed. What an installed check answers is an input of the
-- operation that asks it.
pub record Gate : Type 0 where
  pub check : Bool

abbrev pub allowed : Gate → Bool → Bool
allowed g answer = not g.check || answer

pub data Commit : Type 0 where
  ok failed uncertain : Commit

-- `mask & (1U << i)`
abbrev pub has_bit : ℕ → ℕ → Bool
has_bit mask i = (mask / 2 ^ i) % 2 == 1

-- `mask | (1U << i)`
abbrev pub with_bit : ℕ → ℕ → ℕ
with_bit mask i = if has_bit mask i then mask else mask + 2 ^ i

-- The loop of `count`, with the rounds left: a `uint8_t` has no bit left after eight.
count_loop : ℕ → ℕ → ℕ → ℕ
count_loop zero mask n = n
count_loop (suc rounds) mask n = count_loop rounds (mask / 2) (n + mask % 2)

pub count : ℕ → ℕ
unfolding count_loop
count mask = count_loop 8 mask 0

-- The collection that a parse or a capture starts from.
unfoldable pub no_presets : Collection
no_presets = record { present = 0; values = replicate slots (replicate channels 0) }
