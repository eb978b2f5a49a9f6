-- ===== src/Archive/Reader.antt =====
-- `preset_archive::Reader`: the reader's place is the text that is left, and a failure is `none`.
use m5stack_core_s3se_dmx_co.Base.{
  ℕ, zero, suc, ◌+◌, ◌-◌, ◌*◌, ◌/◌, Bool, true, false, not, ◌&&◌, ◌||◌, Option, none, some, List,
  [], ◌∷◌, ◌++◌, length, ◌==◌, ltb, leb, if◌then◌else◌, ◌>>=◌,
}

abbrev pub is_space : ℕ → Bool
is_space c = c == 32 || c == 13 || c == 10 || c == 9

-- The constructor skips a byte order mark.
pub start : List ℕ → List ℕ
start (a ∷ b ∷ c ∷ s) = if a == 239 && b == 187 && c == 191 then s else a ∷ b ∷ c ∷ s
start s = s

unfoldable pub space : List ℕ → List ℕ
space [] = []
space (c ∷ s) = elim (is_space c) [ true ↦ space s | false ↦ c ∷ s ]

-- The character `c`, if it is the next one.
abbrev pub take_char : ℕ → List ℕ → Option (List ℕ)
take_char c [] = none
take_char c (x ∷ s) = if x == c then some s else none

unfoldable pub eat : ℕ → List ℕ → Option (List ℕ)
eat c s = take_char c (space s)

abbrev starts_with : ℕ → List ℕ → Bool
starts_with c [] = false
starts_with c (x ∷ s) = x == c

pub at : ℕ → List ℕ → Bool × List ℕ
at c s = let s' = space s in (starts_with c s', s')

abbrev is_empty : List ℕ → Bool
is_empty [] = true
is_empty (c ∷ s) = false

pub done : List ℕ → Bool
done s = is_empty (space s)

pub hex : ℕ → Option ℕ
hex c =
    if leb b'0' c && leb c b'9'
    then some (c - b'0')
    else if leb b'a' c && leb c b'f'
    then some (c - b'a' + 10)
    else if leb b'A' c && leb c b'F'
    then some (c - b'A' + 10)
    else none

hex_digits : ℕ → ℕ → List ℕ → Option (ℕ × List ℕ)
hex_digits zero value s = some (value, s)
hex_digits (suc n) value [] = none
hex_digits (suc n) value (c ∷ s) = hex c >>= λ x. hex_digits n (value * 16 + x) s

-- What follows a backslash.
escape : List ℕ → Option (ℕ × List ℕ)
unfolding hex_digits
escape [] = none
escape (c ∷ s) =
    if c == b'u'
    then (hex_digits 4 0 s >>= λ v. if ltb v.0 32 || ltb 126 v.0 then none else some v)
    else if not (c == 34) && not (c == 92) && not (c == b'/')
    then none
    else some (c, s)

-- One character of a text, an escape read as what it stands for.
character : List ℕ → Option (ℕ × List ℕ)
unfolding escape
character [] = none
character (c ∷ s) = (if c == 92 then escape s else some (c, s)) >>= λ v.
    if ltb v.0 32 || ltb 126 v.0 then none else some v

-- The loop of `text`; the quotation mark that ends it is taken too. Each round takes a character at
-- least, so the length of the text is fuel enough.
text_loop : ℕ → ℕ → List ℕ → List ℕ → Option (List ℕ × List ℕ)
unfolding character
text_loop zero cap out s = none
text_loop (suc fuel) cap out [] = none
text_loop (suc fuel) cap out (c ∷ s) = elim (c == 34) [
  | true ↦ some (out, s)
  | false ↦ character (c ∷ s) >>= λ v. elim (leb cap (length out + 1)) [
    | true ↦ none
    | false ↦ text_loop fuel cap (out ++ v.0 ∷ []) v.1
  ]
]

pub text : ℕ → List ℕ → Option (List ℕ × List ℕ)
unfolding text_loop
text cap s = eat 34 s >>= λ r. text_loop (suc (length r)) cap [] r

abbrev pub is_digit : ℕ → Bool
is_digit c = leb b'0' c && leb c b'9'

-- The loop of `number`: digits while the value fits 32 bits.
unfoldable pub digits_loop : ℕ → List ℕ → Option (ℕ × List ℕ)
digits_loop value [] = some (value, [])
digits_loop value (c ∷ s) = elim (is_digit c) [
  | true ↦ elim (ltb ((4294967295 - (c - b'0')) / 10) value) [
    | true ↦ none
    | false ↦ digits_loop (value * 10 + (c - b'0')) s
  ]
  | false ↦ some (value, c ∷ s)
]

-- No leading zero, but for the number 0 itself.
unfoldable pub number_at : List ℕ → Option (ℕ × List ℕ)
unfolding digits_loop
number_at [] = none
number_at (c ∷ s) =
    if is_digit c
    then (digits_loop 0 (c ∷ s) >>= λ v.
        if length s == length v.1 || not (c == b'0') then some v else none)
    else none

unfoldable pub number : List ℕ → Option (ℕ × List ℕ)
unfolding number_at
number s = number_at (space s)
