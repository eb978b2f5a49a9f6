-- ===== src/Controller/Invariant.antt =====
-- What holds of a controller between two operations on channels and blackout.
use m5stack_core_s3se_dmx_co.Base.{
  ℕ, ◌≤◌, ◌<◌, ◌≡◌, ◌≢◌, Bool, true, false, List, [], ◌∷◌, get_or, set, length, length-set, All,
  All-set, All-replicate, length-replicate, get_or-replicate, get_or-set_ne, get_or-set_self, arith,
  ℤ, to_ℕ, within, Bool-cases, inl, inr,
}
use m5stack_core_s3se_dmx_co.Command.{DmxChannelValue}
use m5stack_core_s3se_dmx_co.Controller.{
  DmxController, zero_packet, reset, set_channel, adjust_channel, set_channels, set_blackout,
  check_patch, write_patch,
}
use m5stack_core_s3se_dmx_co.Controller.Types.{Packet, Result}

-- 513 bytes, of which the first, the start code, is 0.
pub record IsPacket (p : Packet) : Type 0 where
  pub size : length p ≡ 513
  pub bytes : All (λ b. b < 256) p
  pub start_code : get_or p 0 0 ≡ 0

pub record IsValid {S : Type 0} (c : DmxController S) : Type 0 where
  pub working_packet : IsPacket c.working
  pub restore_packet : IsPacket c.restore
  pub slot_loaded : c.loaded_preset ≤ 8
  pub slot_restored : c.restore_loaded_preset ≤ 8
  pub modified_loaded : c.loaded_modified ≡ true → c.loaded_preset ≢ 0
  pub modified_restored : c.restore_loaded_modified ≡ true → c.restore_loaded_preset ≢ 0

pub set-IsPacket : (p : Packet) (i v : ℕ) → IsPacket p → 1 ≤ i → v < 256 → IsPacket (set p i v)
set-IsPacket p i v h lo hi = record {
  size = ground (arith, length-set p i v);
  bytes = All-set _ p i v h.bytes hi;
  start_code = ground (arith, get_or-set_ne p i 0 v 0);
}

pub zero_packet-IsPacket : IsPacket zero_packet
unfolding zero_packet
zero_packet-IsPacket = record {
  size = length-replicate 513 0;
  bytes = All-replicate _ 513 0 (omega arith);
  start_code = get_or-replicate 513 0 0;
}

-- Clearing the start code of a packet that has it clear.
pub clear_start-IsPacket : (p : Packet) → IsPacket p → IsPacket (set p 0 0)
clear_start-IsPacket p h = record {
  size = ground (arith, length-set p 0 0);
  bytes = All-set _ p 0 0 h.bytes (omega arith);
  start_code = get_or-set_self p 0 0 0 (omega arith);
}

module _ {S : Type 0} where
  pub set_channel-IsValid :
      (index value : ℤ) (c : DmxController S) → IsValid c → IsValid (set_channel index value c).0
  unfolding set_channel
  set_channel-IsValid index value c v =
      ground (arith, set-IsPacket c.working (to_ℕ index) (to_ℕ value) v.working_packet)

  pub adjust_channel-IsValid :
      (index delta : ℤ) (c : DmxController S) → IsValid c → IsValid (adjust_channel index delta c).0
  unfolding adjust_channel
  adjust_channel-IsValid index delta c v = elim (Bool-cases (within 1 512 index)) [
    | inl e ↦ rw e (set_channel-IsValid index _ c v)
    | inr e ↦ rw e v
  ]

  pub set_blackout-IsValid :
      (active : Bool) (c : DmxController S) → IsValid c → IsValid (set_blackout active c)
  unfolding set_blackout
  set_blackout-IsValid active c v = ground (arith, clear_start-IsPacket c.restore v.restore_packet)

  pub reset-IsValid : (c : DmxController S) → IsValid (reset c)
  unfolding reset
  reset-IsValid c = ground (arith, zero_packet-IsPacket)

-- The entries of a patch that the checks let through are writable.
IsWritable : DmxChannelValue → Type 0
IsWritable v = (1 ≤ to_ℕ v.channel) × (to_ℕ v.value < 256)

check_patch-IsWritable :
    (earlier vs : List DmxChannelValue) → check_patch earlier vs ≡ Result.ok → All IsWritable vs
unfolding check_patch IsWritable
check_patch-IsWritable earlier [] h = tt
check_patch-IsWritable earlier (v ∷ vs) h =
    (ground arith, check_patch-IsWritable (v ∷ earlier) vs (ground arith))

write_patch-IsPacket :
    (vs : List DmxChannelValue) (dirty : Bool) (p : Packet)
    → All IsWritable vs
    → IsPacket p
    → IsPacket (write_patch dirty p vs).1
unfolding write_patch IsWritable
write_patch-IsPacket [] dirty p h v = v
write_patch-IsPacket (u ∷ us) dirty p h v =
    write_patch-IsPacket us _ _ h.1 (set-IsPacket p (to_ℕ u.channel) (to_ℕ u.value) v h.0.0 h.0.1)

module _ {S : Type 0} where
  pub set_channels-IsValid :
      (values : List DmxChannelValue) (c : DmxController S)
      → IsValid c
      → IsValid (set_channels values c).0
  unfolding set_channels
  set_channels-IsValid values c v =
      ground (arith, check_patch-IsWritable [] values, write_patch-IsPacket values false c.working)
