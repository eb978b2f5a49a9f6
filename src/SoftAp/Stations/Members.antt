-- ===== src/SoftAp/Stations/Members.antt =====
-- The stations are a set: an event that is repeated changes nothing.
use m5stack_core_s3se_dmx_co.Base.{
  ℕ, zero, suc, ◌+◌, ◌-◌, ◌≡◌, ◌≢◌, ◌<◌, ◌≤◌, Bool, true, false, Option, none, some, List, [], ◌∷◌,
  arith, refl, get_or, set, length, bytes_eq, bytes_eq_sound, bytes_eq_refl, length-set,
  get_or-set_self, get_or-set_ne, if◌then◌else◌, sym, ap,
}
use m5stack_core_s3se_dmx_co.SoftAp.Stations.{
  Stations, connect, disconnect, find_mac, connect_at, disconnect_at, max_stations,
}

-- No station stands twice in the first `n` places.
unfoldable pub IsDistinct : ℕ → List (List ℕ) → Type 0
IsDistinct n macs = (i j : ℕ) → i < n → j < n → get_or macs i [] ≡ get_or macs j [] → i ≡ j

-- The array has its size, and no station stands in it twice.
unfoldable pub IsSound : Stations → Type 0
IsSound s = (length s.macs ≡ max_stations) × (s.count ≤ max_stations) × IsDistinct s.count s.macs

found_first :
    (b : Bool) (r : Option ℕ)
    → (if b then some 0 else elim r [ none ↦ none | some n ↦ some (suc n) ]) ≡ some 0
    → b ≡ true
found_first b none h = ground arith
found_first b (some n) h = ground arith

found_later :
    (b : Bool) (n : ℕ) (r : Option ℕ)
    → (if b then some 0 else elim r [ none ↦ none | some n ↦ some (suc n) ]) ≡ some (suc n)
    → r ≡ some n
found_later b n none h = ground arith
found_later b n (some m) h = ground arith

found_none :
    (b : Bool) (r : Option ℕ)
    → (if b then some 0 else elim r [ none ↦ none | some n ↦ some (suc n) ]) ≡ none
    → (b ≡ false) × (r ≡ none)
found_none b none h = ground arith
found_none b (some m) h = ground arith

find_mac-some :
    (mac : List ℕ) (n : ℕ) (macs : List (List ℕ)) (i : ℕ)
    → find_mac mac n macs ≡ some i
    → (i < n) × (get_or macs i [] ≡ mac)
unfolding find_mac
find_mac-some mac zero macs i h = cc
find_mac-some mac (suc n) [] i h = cc
find_mac-some mac (suc n) (m ∷ macs) zero h =
    ground (arith, bytes_eq_sound m mac (found_first (bytes_eq m mac) (find_mac mac n macs) h))
find_mac-some mac (suc n) (m ∷ macs) (suc i) h =
    ground
      (arith, find_mac-some mac n macs i (found_later (bytes_eq m mac) i (find_mac mac n macs) h))

find_mac-none :
    (mac : List ℕ) (n : ℕ) (macs : List (List ℕ))
    → find_mac mac n macs ≡ none
    → n ≤ length macs
    → (i : ℕ) → i < n
    → get_or macs i [] ≢ mac
unfolding find_mac
find_mac-none mac zero macs h k i l e = absurd (omega arith)
find_mac-none mac (suc n) [] h k i l e = absurd (omega arith)
find_mac-none mac (suc n) (m ∷ macs) h k zero l e =
    let f = (found_none (bytes_eq m mac) (find_mac mac n macs) h).0 in
    ground (arith, sym (ap (λ x. bytes_eq x mac) e), bytes_eq_refl mac)
find_mac-none mac (suc n) (m ∷ macs) h k (suc i) l e =
    find_mac-none mac n macs (found_none (bytes_eq m mac) (find_mac mac n macs) h).1 (omega arith) i
      (omega arith) e

add-IsDistinct :
    (n : ℕ) (macs : List (List ℕ)) (mac : List ℕ)
    → IsDistinct n macs
    → ((i : ℕ) → i < n → get_or macs i [] ≢ mac)
    → n < length macs
    → IsDistinct (n + 1) (set macs n mac)
unfolding IsDistinct
add-IsDistinct n macs mac h k l i j p q e = ground (
  arith,
  h i j,
  k i,
  k j,
  get_or-set_self macs n mac [] l,
  get_or-set_ne macs n i mac [],
  get_or-set_ne macs n j mac [],
)

connect_at-IsSound :
    (r : Option ℕ) (mac : List ℕ) (s : Stations)
    → find_mac mac s.count s.macs ≡ r
    → IsSound s
    → IsSound (connect_at r mac s).0
unfolding connect_at IsSound
connect_at-IsSound (some i) mac s e h = h
connect_at-IsSound none mac s e h =
    let fits : s.count ≤ length s.macs = omega (arith, h.0, h.1) in
    ground (
      arith,
      length-set s.macs s.count mac,
      add-IsDistinct s.count s.macs mac h.2 (find_mac-none mac s.count s.macs e fits),
    )

-- The last place is given up, and its station takes the place `k`.
drop-IsDistinct :
    (n k : ℕ) (macs : List (List ℕ))
    → k < n
    → n ≤ length macs
    → IsDistinct n macs
    → IsDistinct (n - 1) (set macs k (get_or macs (n - 1) []))
unfolding IsDistinct
drop-IsDistinct n k macs b l h i j p q e =
    let last = get_or macs (n - 1) [] in
    ground (
      arith,
      h i j,
      h (n - 1) j,
      h i (n - 1),
      get_or-set_self macs k last [],
      get_or-set_ne macs k i last [],
      get_or-set_ne macs k j last [],
    )

disconnect_at-IsSound :
    (r : Option ℕ) (mac : List ℕ) (s : Stations)
    → find_mac mac s.count s.macs ≡ r
    → IsSound s
    → IsSound (disconnect_at r s).0
unfolding disconnect_at IsSound
disconnect_at-IsSound none mac s e h = h
disconnect_at-IsSound (some i) mac s e h =
    let found = find_mac-some mac s.count s.macs i e in
    let fits : s.count ≤ length s.macs = omega (arith, h.0, h.1) in
    ground (
      arith,
      length-set s.macs i (get_or s.macs (s.count - 1) []),
      drop-IsDistinct s.count i s.macs found.0 fits h.2,
    )

-- A connection and a disconnection, of a station that is in the set or not, each keep the set without
-- duplicates and within its capacity.
pub stations-IsSound :
    (mac : List ℕ) (s : Stations)
    → IsSound s
    → IsSound (connect mac s).0 × IsSound (disconnect mac s).0
unfolding connect disconnect
stations-IsSound mac s h = (
  connect_at-IsSound (find_mac mac s.count s.macs) mac s refl h,
  disconnect_at-IsSound (find_mac mac s.count s.macs) mac s refl h,
)
