-- ===== src/Controller/Levels.antt =====
-- `setChannel` and `adjustChannel`: the level that is written, and the revision.
use m5stack_core_s3se_dmx_co.Base.{
  ℕ, suc, ◌+◌, ◌-◌, ◌≤◌, ◌≡◌, get_or, length, get_or-set_ne, get_or-set_self, arith, ℤ, pos, negsuc,
  add_ℤ, ◌==◌, if◌then◌else◌, u64, leb,
}
use m5stack_core_s3se_dmx_co.Controller.{
  DmxController, channel, set_channel, adjust_channel, clamp_byte,
}
use m5stack_core_s3se_dmx_co.Controller.Types.{Result}

module _ {S : Type 0} (c : DmxController S) (size : length c.working ≡ 513) where
  -- A level in range on a channel in range is accepted; afterwards that channel has that level and every
  -- other channel the level it had, and the revision has grown by one (mod 2^64) exactly if the level is new.
  pub set_channel-levels :
      (index value : ℕ)
      → 1 ≤ index
      → index ≤ 512
      → value ≤ 255
      → let (c', r) = set_channel (pos index) (pos value) c in
        (r ≡ Result.ok)
        × ((other : ℕ)
            → channel c' (pos other) ≡ (if other == index then value else channel c (pos other)))
        × (c'.revision
            ≡ (if get_or c.working index 0 == value then c.revision else u64 (c.revision + 1)))
  unfolding set_channel channel
  set_channel-levels index value lo hi h = (
    ground arith,
    λ other. ground (
      arith,
      get_or-set_self c.working index value 0,
      get_or-set_ne c.working index other value 0,
    ),
    ground arith,
  )

-- The sum of a level and a change, held in 0..255.
pub saturated : ℕ → ℤ → ℕ
saturated level (pos d) = if leb (level + d) 255 then level + d else 255
saturated level (negsuc d) = level - suc d

clamp-add :
    (level : ℕ) (delta : ℤ)
    → level ≤ 255
    → clamp_byte (add_ℤ level delta) ≡ pos (saturated level delta)
unfolding saturated
clamp-add level (pos d) h = ground arith
clamp-add level (negsuc d) h = ground arith

saturated-le : (level : ℕ) (delta : ℤ) → level ≤ 255 → saturated level delta ≤ 255
unfolding saturated
saturated-le level (pos d) h = ground arith
saturated-le level (negsuc d) h = omega arith

adjust_channel_lem :
    {S : Type 0} (c : DmxController S) (index : ℕ) (delta : ℤ)
    → 1 ≤ index
    → index ≤ 512
    → get_or c.working index 0 ≤ 255
    → adjust_channel (pos index) delta c
      ≡ set_channel (pos index) (pos (saturated (get_or c.working index 0) delta)) c
unfolding adjust_channel
adjust_channel_lem c index delta lo hi byte =
    ground (arith, clamp-add (get_or c.working index 0) delta byte)

module _ {S : Type 0} (c : DmxController S) (size : length c.working ≡ 513) where
  -- An adjustment of a channel in range, by any amount of either sign, is accepted and sets it to the sum
  -- held in 0..255, if its level is a byte; every other channel keeps its level.
  pub adjust_channel-saturated :
      (index : ℕ) (delta : ℤ)
      → 1 ≤ index
      → index ≤ 512
      → get_or c.working index 0 ≤ 255
      → let (c', r) = adjust_channel (pos index) delta c in
        (r ≡ Result.ok)
        × ((other : ℕ)
            → channel c' (pos other) ≡ (
                if other == index
                then saturated (get_or c.working index 0) delta
                else channel c (pos other)))
  adjust_channel-saturated index delta lo hi byte =
      let v = saturated (get_or c.working index 0) delta in
      let (accepted, levels, counted) =
        set_channel-levels c size index v lo hi (saturated-le _ delta byte) in
      rw (adjust_channel_lem c index delta lo hi byte) (accepted, levels)
