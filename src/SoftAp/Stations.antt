-- ===== src/SoftAp/Stations.antt =====
-- `softap_policy::Stations`: the set of the connected stations, an array and a count.
pub mod Members
use m5stack_core_s3se_dmx_co.Base.{
  ℕ, zero, suc, ◌+◌, ◌-◌, Bool, true, false, not, ◌&&◌, ◌||◌, Option, none, some, List, [], ◌∷◌,
  get_or, set, replicate, bytes_eq, ◌==◌, if◌then◌else◌,
}

-- `DMX_WIFI_MAX_STATIONS`
abbrev pub max_stations : ℕ
max_stations = 4

pub record Stations : Type 0 where
  pub macs : List (List ℕ)
  pub count : ℕ

-- `for(i = 0; i < n; ++i) if(!memcmp(macs[i], mac, 6))`: the first `i`, if there is one.
pub find_mac : List ℕ → ℕ → List (List ℕ) → Option ℕ
find_mac mac zero macs = none
find_mac mac (suc n) [] = none
find_mac mac (suc n) (m ∷ macs) =
    let rest = find_mac mac n macs in
    if bytes_eq m mac then some 0 else elim rest [ none ↦ none | some i ↦ some (suc i) ]

-- `connect` and `disconnect`, with the place where the station was found.
connect_at : Option ℕ → List ℕ → Stations → Stations × Bool
connect_at (some i) mac s = (s, false)
connect_at none mac s =
    if s.count == max_stations
    then (s, false)
    else (record s { macs = set s.macs s.count mac; count = s.count + 1 }, true)

pub connect : List ℕ → Stations → Stations × Bool
connect mac s = connect_at (find_mac mac s.count s.macs) mac s

disconnect_at : Option ℕ → Stations → Stations × Bool
disconnect_at none s = (s, false)
disconnect_at (some i) s =
    let count = s.count - 1 in
    (record s { macs = set s.macs i (get_or s.macs count []); count = count }, true)

pub disconnect : List ℕ → Stations → Stations × Bool
disconnect mac s = disconnect_at (find_mac mac s.count s.macs) s

pub clear : Stations → Stations
clear s = record { macs = replicate max_stations (replicate 6 0); count = 0 }
