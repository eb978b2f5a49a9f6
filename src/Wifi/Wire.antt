-- ===== src/Wifi/Wire.antt =====
-- include/wifi_wire.h: printable text in base 64, and include/status_ssid.h: the name of the network in JSON.
use m5stack_core_s3se_dmx_co.Base.{
  ℕ, ◌+◌, ◌*◌, ◌/◌, ◌%◌, Bool, true, false, not, ◌&&◌, ◌||◌, Option, none, some, List, [], ◌∷◌,
  ◌++◌, length, ◌==◌, ltb, leb, if◌then◌else◌, ◌>>=◌, ◌-◌,
}

pub digit : ℕ → Option ℕ
digit c =
    if leb b'A' c && leb c b'Z'
    then some (c - b'A')
    else if leb b'a' c && leb c b'z'
    then some (c - b'a' + 26)
    else if leb b'0' c && leb c b'9'
    then some (c - b'0' + 52)
    else if c == b'+'
    then some 62
    else if c == b'/'
    then some 63
    else none

abbrev digit_or_pad : ℕ → Option ℕ
digit_or_pad c = if c == b'=' then some 0 else digit c

-- The characters of a word, less the padding.
word_text : ℕ → ℕ → List ℕ
word_text word pad =
    let a = (word / 65536) % 256 in
    let b = (word / 256) % 256 in
    let c = word % 256 in
    if pad == 0 then a ∷ b ∷ c ∷ [] else if pad == 1 then a ∷ b ∷ [] else a ∷ []

all_printable : List ℕ → Bool
all_printable [] = true
all_printable (c ∷ s) = leb 32 c && leb c 126 && all_printable s

is_empty : List ℕ → Bool
is_empty [] = true
is_empty (c ∷ s) = false

-- The loop of `decode`, `used` being the characters that are out; the last place is for the end.
decode_loop : ℕ → ℕ → List ℕ → Option (List ℕ)
decode_loop capacity used [] = some []
decode_loop capacity used (w ∷ x ∷ y ∷ z ∷ s) =
    let pad = if y == b'=' then 2 else (if z == b'=' then 1 else 0) in
    digit w >>= λ a. digit x >>= λ b. digit_or_pad y >>= λ c. digit_or_pad z >>= λ d.
    let chars = word_text (a * 262144 + b * 4096 + c * 64 + d) pad in
    let out = used + length chars in
    if (not (pad == 0) && not (is_empty s))
      || (pad == 2 && not (z == b'='))
      || (pad == 2 && not (b % 16 == 0))
      || (pad == 1 && not (c % 4 == 0))
      || leb capacity out
      || not (all_printable chars)
    then none
    else decode_loop capacity out s >>= λ rest. some (chars ++ rest)
decode_loop capacity used _ = none

-- `decode`, of a text without its end; an empty text is decoded to an empty one.
pub decode : List ℕ → ℕ → Option (List ℕ)
decode text capacity = if not (length text % 4 == 0) then none else decode_loop capacity 0 text

-- The loop of `ssidJson`.
ssid_loop : List ℕ → Option (List ℕ)
ssid_loop [] = some (b'"' ∷ [])
ssid_loop (c ∷ s) =
    let rest = ssid_loop s in
    if ltb c 32 || ltb 126 c
    then none
    else rest >>= λ r. some (if c == b'"' || c == 92 then 92 ∷ c ∷ r else c ∷ r)

pub ssid_json : List ℕ → Option (List ℕ)
ssid_json bytes =
    if length bytes == 0 || ltb 32 (length bytes)
    then none
    else ssid_loop bytes >>= λ r. some (b'"' ∷ r)
