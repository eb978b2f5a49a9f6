-- ===== src/Controller/Patch.antt =====
-- `setChannels`: which patches are written, and that a patch is written whole or not at all.
use m5stack_core_s3se_dmx_co.Base.{
  ℕ, ◌≤◌, ◌<◌, ◌≡◌, ◌≢◌, ◌↔◌, refl, Bool, true, false, not, ◌||◌, List, [], ◌∷◌, get_or, set,
  length, length-set, All, get_or-set_ne, get_or-set_self, arith, ℤ, pos, negsuc, to_ℕ, eq_ℤ, ◌==◌,
  if◌then◌else◌, sym, All-map, All-zip,
}
use m5stack_core_s3se_dmx_co.Command.{DmxChannelValue}
use m5stack_core_s3se_dmx_co.Controller.{
  DmxController, set_channels, check_patch, write_patch, repeats,
}
use m5stack_core_s3se_dmx_co.Controller.Types.{Packet, Result}

-- A channel of the universe and a level.
abbrev InRange : DmxChannelValue → Type 0
InRange v =
    (1 ≤ to_ℕ v.channel)
    × (to_ℕ v.channel ≤ 512)
    × (v.channel ≡ pos (to_ℕ v.channel))
    × (to_ℕ v.value ≤ 255)
    × (v.value ≡ pos (to_ℕ v.value))

-- No entry is for the channel `c`.
abbrev Avoids : ℤ → List DmxChannelValue → Type 0
Avoids c vs = All (λ u. c ≢ u.channel) vs

abbrev Distinct : List DmxChannelValue → Type 0
Distinct [] = Unit
Distinct (v ∷ vs) = Avoids v.channel vs × Distinct vs

-- What `setChannels` accepts: one to eight entries, in range, for different channels.
pub record IsPatch (vs : List DmxChannelValue) : Type 0 where
  pub some_entry : 1 ≤ length vs
  pub bounded : length vs ≤ 8
  pub in_range : All InRange vs
  pub distinct : Distinct vs

-- The level that a patch leaves on a channel that had the level `old`.
pub patched : List DmxChannelValue → ℕ → ℕ → ℕ
patched [] channel old = old
patched (v ∷ vs) channel old =
    patched vs channel (if to_ℕ v.channel == channel then to_ℕ v.value else old)

repeats_iff : (c : ℤ) (vs : List DmxChannelValue) → (repeats c vs ≡ false) ↔ Avoids c vs
repeats_iff c [] = (λ h. tt, λ h. refl)
repeats_iff c (v ∷ vs) = (
  λ h. (ground arith, (repeats_iff c vs).0 (ground arith)),
  λ h. ground (arith, (repeats_iff c vs).1 h.1, eq_ℤ_sound c v.channel),
)
  where
    eq_ℤ_sound : (a b : ℤ) → eq_ℤ a b ≡ true → a ≡ b
    eq_ℤ_sound (pos a) (pos b) h = ground arith
    eq_ℤ_sound (pos a) (negsuc b) h = ground arith
    eq_ℤ_sound (negsuc a) (pos b) h = ground arith
    eq_ℤ_sound (negsuc a) (negsuc b) h = ground arith

-- The entries keep clear of the channels of `earlier`.
abbrev Clear : List DmxChannelValue → List DmxChannelValue → Type 0
Clear earlier vs = All (λ u. Avoids u.channel earlier) vs

check_patch_sound :
    (earlier vs : List DmxChannelValue)
    → check_patch earlier vs ≡ Result.ok
    → All InRange vs × Clear earlier vs × Distinct vs
unfolding check_patch
check_patch_sound earlier [] h = (tt, tt, tt)
check_patch_sound earlier (v ∷ vs) h =
    let (ranges, clear, distinct) = check_patch_sound (v ∷ earlier) vs (ground arith) in
    (
      (in_range, ranges),
      ((repeats_iff v.channel earlier).0 (ground arith), All-map _ _ (λ u k. k.1) vs clear),
      (All-map _ _ (λ u k e. k.0 (sym e)) vs clear, distinct),
    )
  where
    in_range : InRange v
    in_range = ground arith

check_patch_complete :
    (earlier vs : List DmxChannelValue)
    → All InRange vs
    → Clear earlier vs
    → Distinct vs
    → check_patch earlier vs ≡ Result.ok
unfolding check_patch
check_patch_complete earlier [] r c d = refl
check_patch_complete earlier (v ∷ vs) r c d = ground (
  arith,
  check_patch_complete (v ∷ earlier) vs r.1
      (All-zip _ _ vs (All-map _ _ (λ u k e. k (sym e)) vs d.0) c.1) d.1,
  (repeats_iff v.channel earlier).1 c.0,
)

length-write_patch :
    (vs : List DmxChannelValue) (dirty : Bool) (p : Packet)
    → length (write_patch dirty p vs).1 ≡ length p
unfolding write_patch
length-write_patch [] dirty p = refl
length-write_patch (v ∷ vs) dirty p = ground (
  arith,
  length-write_patch vs (dirty || not (get_or p (to_ℕ v.channel) 0 == to_ℕ v.value))
      (set p (to_ℕ v.channel) (to_ℕ v.value)),
  length-set p (to_ℕ v.channel) (to_ℕ v.value),
)

-- A written patch, channel by channel.
get_or-write_patch :
    (vs : List DmxChannelValue) (dirty : Bool) (p : Packet) (channel : ℕ)
    → All (λ v. to_ℕ v.channel < length p) vs
    → get_or (write_patch dirty p vs).1 channel 0 ≡ patched vs channel (get_or p channel 0)
unfolding write_patch patched
get_or-write_patch [] dirty p channel h = refl
get_or-write_patch (v ∷ vs) dirty p channel h =
    let i = to_ℕ v.channel in
    let x = to_ℕ v.value in
    ground (
      arith,
      get_or-write_patch vs (dirty || not (get_or p i 0 == x)) (set p i x) channel
          (All-map _ _ (λ u k. rw (length-set p i x) k) vs h.1),
      get_or-set_self p i x 0 h.0,
      get_or-set_ne p i channel x 0,
    )

module _ {S : Type 0} (values : List DmxChannelValue) (c : DmxController S) where
  -- A patch is taken exactly when it has one to eight entries, each a channel of the universe with a
  -- level, for different channels; a patch that is not taken leaves the controller as it was.
  pub set_channels-ok_iff :
      (((set_channels values c).1 ≡ Result.ok) ↔ IsPatch values)
      × ((set_channels values c).1 ≢ Result.ok → (set_channels values c).0 ≡ c)
  unfolding set_channels
  set_channels-ok_iff = (
    (
      λ h. record {
        some_entry = ground arith;
        bounded = ground arith;
        in_range = (check_patch_sound [] values (ground arith)).0;
        distinct = (check_patch_sound [] values (ground arith)).2;
      },
      λ h. ground (
        arith,
        check_patch_complete [] values h.in_range (All-map _ _ (λ u k. tt) values h.in_range)
            h.distinct,
      ),
    ),
    ground arith,
  )

  -- An accepted patch sets every channel that it names to its level and no other, for every packet
  -- of 513 bytes, whether blackout is active or not.
  pub set_channels-levels :
      length c.working ≡ 513
      → IsPatch values
      → (channel : ℕ)
      → get_or (set_channels values c).0.working channel 0
        ≡ patched values channel (get_or c.working channel 0)
  unfolding set_channels
  set_channels-levels size h channel = ground (
    arith,
    check_patch_complete [] values h.in_range (All-map _ _ (λ u k. tt) values h.in_range)
        h.distinct,
    get_or-write_patch values false c.working channel
        (All-map _ _ (λ u k. omega arith) values h.in_range),
  )
