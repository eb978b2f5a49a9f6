-- ===== src/Archive/Wire.antt =====
-- include/preset_archive.h: the text of a collection, and the base 64 of its pieces.
pub mod Decoding
use m5stack_core_s3se_dmx_co.Base.{
  ℕ, zero, suc, ◌+◌, ◌-◌, ◌*◌, ◌/◌, ◌%◌, ◌^◌, Bool, true, false, not, ◌&&◌, ◌||◌, Option, none,
  some, List, [], ◌∷◌, ◌++◌, length, get_or, codes, ◌==◌, ltb, leb, if◌then◌else◌, ◌>>=◌,
}
use m5stack_core_s3se_dmx_co.Archive.{Collection, slots, channels, has_bit}

abbrev pub chunk_size : ℕ
chunk_size = 96

-- The digits of `number`, the most significant first, with the rounds left: four are enough for a byte.
pub digits : ℕ → ℕ → List ℕ
digits zero value = []
digits (suc rounds) value =
    let rest = digits rounds (value / 10) in
    if ltb value 10 then (48 + value) ∷ [] else rest ++ ((48 + value % 10) ∷ [])

pub number_text : ℕ → List ℕ
unfolding digits
number_text value = digits 4 value

-- The channels of a preset, from the channel `ch` on.
values_text : ℕ → List ℕ → List ℕ
values_text ch [] = []
values_text ch (v ∷ vs) =
    (if ch == 0 then [] else codes ",") ++ (number_text v ++ values_text (ch + 1) vs)

-- The rounds of the loop over the slots, from `slot` on.
slots_text : Bool → ℕ → ℕ → List (List ℕ) → List ℕ
slots_text first slot mask [] = []
slots_text first slot mask (vs ∷ rest) =
    let later = slots_text first (slot + 1) mask rest in
    let after = slots_text false (slot + 1) mask rest in
    if has_bit mask slot
    then (if first then [] else codes ",")
      ++ (codes "{\"slot\":"
          ++ (number_text (slot + 1)
              ++ (codes ",\"name\":\"P"
                  ++ (number_text (slot + 1)
                      ++ (codes "\",\"values\":["
                          ++ (values_text 0 vs ++ (codes "]}" ++ after)))))))
    else later

-- The text of a collection.
file_text : Collection → List ℕ
file_text c =
    codes "{\"format\":\"cores3se-dmx-presets\",\"version\":1,\"presets\":["
    ++ (slots_text true 0 c.present c.values ++ codes "]}")

-- `serialize`: the text, or nothing when it does not fit (`n` is 0).
pub serialize : Collection → ℕ → List ℕ
serialize c capacity = let s = file_text c in if ltb capacity (length s) then [] else s

pub digit : ℕ → Option ℕ
digit c =
    if leb b'A' c && leb c b'Z'
    then some (c - b'A')
    else if leb b'a' c && leb c b'z'
    then some (c - b'a' + 26)
    else if leb b'0' c && leb c b'9'
    then some (c - b'0' + 52)
    else if c == b'+'
    then some 62
    else if c == b'/'
    then some 63
    else none

-- `input[i] == '=' ? 0 : digit(input[i])`
abbrev digit_or_pad : ℕ → Option ℕ
digit_or_pad c = if c == b'=' then some 0 else digit c

-- The bytes of a word of 24 bits, less the padding.
abbrev word_bytes : ℕ → ℕ → List ℕ
word_bytes word pad =
    let a = (word / 65536) % 256 in
    let b = (word / 256) % 256 in
    let c = word % 256 in
    if pad == 0 then a ∷ b ∷ c ∷ [] else if pad == 1 then a ∷ b ∷ [] else a ∷ []

-- One round of `unbase64`: four characters, and whether they are the last.
pub decode_four : ℕ → ℕ → ℕ → ℕ → Bool → Option (List ℕ)
decode_four w x y z is_last =
    let pad = if y == b'=' then 2 else (if z == b'=' then 1 else 0) in
    digit w >>= λ a. digit x >>= λ b. digit_or_pad y >>= λ c. digit_or_pad z >>= λ d.
    if (not (pad == 0) && not is_last)
      || (pad == 2 && (not (z == b'=') || not (b % 16 == 0)))
      || (pad == 1 && not (c % 4 == 0))
    then none
    else some (word_bytes (a * 262144 + b * 4096 + c * 64 + d) pad)

is_empty : List ℕ → Bool
is_empty [] = true
is_empty (c ∷ s) = false

-- The loop of `unbase64`, with the bytes that are already out: a byte past `chunk_size` fails.
decode_loop : ℕ → List ℕ → Option (List ℕ)
decode_loop used [] = some []
decode_loop used (w ∷ x ∷ y ∷ z ∷ s) = decode_four w x y z (is_empty s) >>= λ bytes.
    if ltb chunk_size (used + length bytes)
    then none
    else decode_loop (used + length bytes) s >>= λ rest. some (bytes ++ rest)
decode_loop used _ = none

pub unbase64 : List ℕ → Option (List ℕ)
unbase64 input =
    let n = length input in
    if n == 0 || not (n % 4 == 0) || ltb 128 n then none else decode_loop 0 input

-- `a[n]`, of the alphabet.
pub letter : ℕ → ℕ
letter n =
    if ltb n 26
    then b'A' + n
    else if ltb n 52
    then b'a' + (n - 26)
    else if ltb n 62
    then b'0' + (n - 52)
    else if n == 62
    then b'+'
    else b'/'

pub base64 : List ℕ → List ℕ
base64 [] = []
base64 (a ∷ []) = letter (a / 4) ∷ letter (a % 4 * 16) ∷ b'=' ∷ b'=' ∷ []
base64 (a ∷ b ∷ []) =
    letter (a / 4) ∷ letter (a % 4 * 16 + b / 16) ∷ letter (b % 16 * 4) ∷ b'=' ∷ []
base64 (a ∷ b ∷ c ∷ s) =
    letter (a / 4)
    ∷ letter (a % 4 * 16 + b / 16)
    ∷ letter (b % 16 * 4 + c / 64)
    ∷ letter (c % 64)
    ∷ base64 s
