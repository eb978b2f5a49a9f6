-- ===== src/SoftAp.antt =====
-- src/softap_policy.cpp: the credentials of the access point, and the set of stations.
pub mod Usable
pub mod Stations
use m5stack_core_s3se_dmx_co.Base.{
  ℕ, zero, suc, ◌+◌, ◌-◌, ◌*◌, ◌/◌, ◌%◌, Bool, true, false, not, ◌&&◌, ◌||◌, Option, none, some,
  List, [], ◌∷◌, ◌++◌, length, take, drop, replicate, get_or, bytes_eq, codes, ◌==◌, ltb, leb,
  if◌then◌else◌,
}

-- A C string in an array: the bytes before the first 0 (`strlen`, `strcmp`, `memcpy` of a string).
pub c_string : List ℕ → List ℕ
c_string [] = []
c_string (c ∷ s) = elim (c == 0) [ true ↦ [] | false ↦ c ∷ c_string s ]

-- `memchr(p, 0, capacity)`: the place of the first 0, if the array has one.
unfoldable pub find_nul : List ℕ → Option ℕ
find_nul [] = none
find_nul (c ∷ s) =
    let rest = find_nul s in
    if c == 0 then some 0 else elim rest [ none ↦ none | some n ↦ some (suc n) ]

unfoldable pub printable : List ℕ → Bool
printable [] = true
printable (c ∷ s) = leb 32 c && leb c 126 && printable s

-- `text`, of a pointer that is not null.
unfoldable pub text : List ℕ → ℕ → ℕ → ℕ → Bool
text p capacity minimum maximum = elim (find_nul (take capacity p)) [
  | none ↦ false
  | some end ↦ leb minimum end && leb end maximum && printable (take end p)
]

unfoldable pub valid_password : List ℕ → ℕ → Bool
unfolding text
valid_password p capacity = text p capacity 8 63

-- A string in an array of `size` bytes that were zeros.
pub padded : ℕ → List ℕ → List ℕ
padded size s = s ++ replicate (size - length s) 0

pub data Origin : Type 0 where
  legacy factory_set custom : Origin

-- `Credentials`, its `origin` as the number stored.
pub record Credentials : Type 0 where
  pub version : ℕ
  pub origin : ℕ
  pub ssid : List ℕ
  pub pass : List ℕ

unfoldable pub no_credentials : Credentials
no_credentials = record { version = 0; origin = 0; ssid = replicate 33 0; pass = replicate 64 0 }

pub data Decision : Type 0 where
  invalid keep write_factory : Decision

abbrev hex_digit : ℕ → ℕ → ℕ
hex_digit letter n = if ltb n 10 then 48 + n else letter + (n - 10)

-- `%02X` with the letters from 65 on, `%02x` with those from 97 on.
abbrev hex_byte : ℕ → ℕ → List ℕ
hex_byte letter n = hex_digit letter (n / 16) ∷ hex_digit letter (n % 16) ∷ []

pub factory : List ℕ → Credentials
unfolding padded
factory mac =
    let a = get_or mac 4 0 in
    let b = get_or mac 5 0 in
    record {
      version = 2;
      origin = 1;
      ssid = padded 33 (codes "CoreS3SE-DMX-" ++ (hex_byte 65 a ++ hex_byte 65 b));
      pass = padded 64 (codes "espdmx-" ++ (hex_byte 97 a ++ hex_byte 97 b));
    }

-- A `uint32_t` at the head of a blob, the low byte first.
abbrev word : List ℕ → ℕ
word s = get_or s 0 0 + 256 * (get_or s 1 0 + 256 * (get_or s 2 0 + 256 * get_or s 3 0))

-- The part of `select` on a blob of 64 bytes: `LegacyCredentials` is a word and arrays of 33 and 25.
unfoldable pub select_legacy : List ℕ → Decision × Credentials
select_legacy blob =
    let ssid = take 33 (drop 4 blob) in
    let pass = take 25 (drop 37 blob) in
    if not (word blob == 1) || not (text ssid 33 1 32) || not (valid_password pass 25)
    then (Decision.invalid, no_credentials)
    else (Decision.keep, record { version = 2; origin = 0; ssid = ssid; pass = padded 64 pass })

-- The part of `select` on a blob of 108 bytes: two words and arrays of 33 and 64.
pub select_current : List ℕ → List ℕ → Decision × Credentials
select_current blob mac =
    let ssid = take 33 (drop 8 blob) in
    let pass = take 64 (drop 41 blob) in
    let origin = word (drop 4 blob) in
    let current : Credentials = record {
      version = word blob;
      origin = origin;
      ssid = ssid;
      pass = pass;
    } in
    let expected = factory mac in
    if not (word blob == 2) || not (text ssid 33 1 32) || not (valid_password pass 64)
    then (Decision.invalid, no_credentials)
    else if origin == 1
    then (if not (bytes_eq (c_string ssid) (c_string expected.ssid))
          || not (bytes_eq (c_string pass) (c_string expected.pass))
        then (Decision.invalid, no_credentials)
        else (Decision.keep, current))
    else if not (origin == 2)
    then (Decision.invalid, no_credentials)
    else (Decision.keep, current)

-- `select`, of a blob or of a null pointer.
unfoldable pub select : Option (List ℕ) → Bool → Bool → List ℕ → Decision × Credentials
select blob exists reset mac =
    if reset || not exists then (Decision.write_factory, factory mac) else elim blob [
      | none ↦ (Decision.invalid, no_credentials)
      | some b ↦
          if length b == 64
          then select_legacy b
          else if length b == 108
          then select_current b mac
          else (Decision.invalid, no_credentials)
    ]
