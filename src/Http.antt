-- ===== src/Http.antt =====
-- src/http_policy.cpp: what the web server answers, and the budget of a session.
pub mod Sessions
use m5stack_core_s3se_dmx_co.Base.{
  ℕ, zero, suc, ◌+◌, ◌-◌, ◌*◌, ◌/◌, Bool, true, false, not, ◌&&◌, ◌||◌, Option, none, some, List,
  [], ◌∷◌, ◌++◌, length, codes, bytes_eq, ◌==◌, ltb, leb, if◌then◌else◌, ◌>>=◌, ℤ, pos, negsuc,
  eq_ℤ,
}

abbrev pub session_us : ℕ
session_us = 3000000

abbrev pub max_rx_bytes : ℕ
max_rx_bytes = 2048

abbrev pub max_tx_bytes : ℕ
max_tx_bytes = 20480

abbrev pub max_icon_bytes : ℕ
max_icon_bytes = 32768

abbrev pub max_header_value : ℕ
max_header_value = 256

pub record Budget : Type 0 where
  pub opened : ℕ
  pub received : ℕ
  pub sent : ℕ
  pub icon_response : Bool

unfoldable pub tx_limit : Budget → ℕ
tx_limit b = if b.icon_response then max_icon_bytes + 1024 else max_tx_bytes

-- `allow`; the clock of the device never runs below zero.
pub allow : ℕ → ℕ → Bool → Budget → Budget × Bool
unfolding tx_limit
allow now bytes writing b =
    let used = if writing then b.sent else b.received in
    let limit = if writing then tx_limit b else max_rx_bytes in
    if ltb now b.opened || leb session_us (now - b.opened)
    then (b, false)
    else if ltb limit used || ltb (limit - used) bytes
    then (b, false)
    else (
      if writing then record b { sent = used + bytes } else record b { received = used + bytes },
      true,
    )

-- `allowedHost`, of no header or its value.
pub allowed_host : Option (List ℕ) → Bool
allowed_host none = false
allowed_host (some host) =
    bytes_eq host (codes "192.168.4.1") || bytes_eq host (codes "192.168.4.1:80")

pub allowed_origin : Option (List ℕ) → Bool
allowed_origin none = true
allowed_origin (some origin) =
    bytes_eq origin []
    || bytes_eq origin (codes "http://192.168.4.1")
    || bytes_eq origin (codes "http://192.168.4.1:80")

abbrev lower : ℕ → ℕ
lower c = if leb b'A' c && leb c b'Z' then c + 32 else c

-- `token`
token : List ℕ → List ℕ → Bool
token [] [] = true
token (a ∷ name) (b ∷ word) = lower a == b && token name word
token _ _ = false

spaces : List ℕ → List ℕ
spaces [] = []
spaces (c ∷ s) = elim (c == b' ' || c == 9) [ true ↦ spaces s | false ↦ c ∷ s ]

-- The name of a coding: the characters up to a separator, and the rest.
name_of : List ℕ → List ℕ × List ℕ
name_of [] = ([], [])
name_of (c ∷ s) =
    let (name, rest) = name_of s in
    if c == b';' || c == b',' || c == b' ' || c == 9 then ([], c ∷ s) else (c ∷ name, rest)

abbrev is_digit : ℕ → Bool
is_digit c = leb b'0' c && leb c b'9'

-- The loop over the decimals of a weight.
decimals : Bool → ℕ → ℕ → ℕ → List ℕ → Option (ℕ × List ℕ)
decimals one q scale count [] = if count == 0 then none else some (q, [])
decimals one q scale count (c ∷ s) =
    let q1 = if one then q else q + (c - b'0') * scale in
    let rest = decimals one q1 (scale / 10) (count + 1) s in
    if not (is_digit c)
    then (if count == 0 then none else some (q, c ∷ s))
    else if ltb 3 (count + 1) || (one && not (c == b'0'))
    then none
    else rest

-- A weight after its `;`, in thousandths.
weight : List ℕ → Option (ℕ × List ℕ)
weight (q ∷ e ∷ n ∷ s) =
    let one = n == b'1' in
    let value = if one then 1000 else 0 in
    if not (lower q == b'q') || not (e == b'=') || (not (n == b'0') && not one)
    then none
    else elim s [
      | [] ↦ some (value, [])
      | c ∷ s1 ↦ if c == b'.' then decimals one value 100 0 s1 else some (value, c ∷ s1)
    ]
weight _ = none

abbrev weight_if : List ℕ → Option (ℕ × List ℕ)
weight_if [] = some (1000, [])
weight_if (c ∷ s) = if c == b';' then weight (spaces s) else some (1000, c ∷ s)

-- `gzip` or `star` after one coding of that name, which may be given once.
abbrev noted : Bool → ℤ → ℕ → Option ℤ
noted here old q =
    if not here then some old else (if eq_ℤ old (negsuc 0) then some (pos q) else none)

abbrev is_empty : List ℕ → Bool
is_empty [] = true
is_empty (c ∷ s) = false

-- What follows a coding: the end, or a comma with more behind it.
abbrev next_coding : List ℕ → Option (List ℕ)
next_coding [] = some []
next_coding (c ∷ s) = if c == b',' && not (is_empty s) then some s else none

-- One round of the loop of `acceptsGzip`.
coding : ℤ → ℤ → List ℕ → Option (ℤ × (ℤ × List ℕ))
coding gzip star s =
    let (name, rest) = name_of (spaces s) in
    weight_if (spaces rest) >>= λ w. noted (token name (codes "gzip")) gzip w.0 >>= λ gzip1.
    noted (token name (codes "*")) star w.0 >>= λ star1.
    next_coding (spaces w.1) >>= λ s1. if is_empty name then none else some (gzip1, (star1, s1))

-- The loop, with the rounds left: a round takes a character, so that one for each is enough.
codings : ℕ → ℤ → ℤ → List ℕ → Option (ℤ × ℤ)
codings zero gzip star s = none
codings (suc rounds) gzip star [] = some (gzip, star)
codings (suc rounds) gzip star (c ∷ s) = elim (coding gzip star (c ∷ s)) [
  | none ↦ none
  | some r ↦ codings rounds r.0 r.1.0 r.1.1
]

abbrev positive : ℤ × ℤ → Bool
positive (pos gzip, star) = ltb 0 gzip
positive (negsuc n, pos star) = ltb 0 star
positive (negsuc n, negsuc m) = false

pub accepts_gzip : Option (List ℕ) → Bool
unfolding codings
accepts_gzip none = false
accepts_gzip (some value) =
    if ltb max_header_value (length value)
    then false
    else elim (codings (suc (length value)) (negsuc 0) (negsuc 0) value) [
      | none ↦ false
      | some r ↦ positive r
    ]
