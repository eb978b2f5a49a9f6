-- ===== src/Archive/Store.antt =====
-- include/preset_archive_store.h: the presets in the flash memory, in two banks and a selector.
pub mod Banks
use m5stack_core_s3se_dmx_co.Base.{
  ℕ, zero, suc, ◌+◌, ◌-◌, ◌*◌, ◌/◌, ◌%◌, Bool, true, false, not, ◌&&◌, ◌||◌, List, [], ◌∷◌, ◌++◌,
  length, take, drop, get_or, set, replicate, bytes_eq, ◌==◌, ltb, leb, if◌then◌else◌,
}
use m5stack_core_s3se_dmx_co.Archive.{Collection, Commit, Gate, allowed, slots, channels, with_bit}

pub data Io : Type 0 where
  ok missing error : Io

-- `Kv`, an interface to the flash memory: a read gives its result and the bytes of the bank.
pub record Kv (K : Type 0) : Type 0 where
  pub selector : K → Io × ℕ
  pub select : ℕ → K → Bool × K
  pub read : ℕ → K → Io × List ℕ
  pub write : ℕ → List ℕ → K → Bool × K
  pub erase : ℕ → K → Bool × K
  pub commit : K → Bool × K

pub data State : Type 0 where
  empty active corrupt error : State

pub record Store : Type 0 where
  pub raw : List ℕ
  pub selected : ℕ
  pub state : State

abbrev pub size : ℕ
size = 4112

-- `a ^ b`, of numbers of as many bits as there are rounds.
xor : ℕ → ℕ → ℕ → ℕ
xor zero a b = 0
xor (suc rounds) a b = (a + b) % 2 + 2 * xor rounds (a / 2) (b / 2)

-- The rounds of the loop over the bits.
crc_bits : ℕ → ℕ → ℕ
crc_bits zero c = c
crc_bits (suc rounds) c = crc_bits rounds (if c % 2 == 1 then xor 32 (c / 2) 3988292384 else c / 2)

-- The loop over the bytes, from place `i` on: the checksum itself counts as zeros.
crc_loop : ℕ → List ℕ → ℕ → ℕ
crc_loop i [] c = c
crc_loop i (x ∷ xs) c =
    crc_loop (i + 1) xs (crc_bits 8 (xor 32 c (if leb 12 i && ltb i 16 then 0 else x)))

pub crc : List ℕ → ℕ
crc p = 4294967295 - crc_loop 0 p 4294967295

-- `word`, at a place.
word : ℕ → List ℕ → ℕ
word i p =
    get_or p i 0
    + 256 * (get_or p (i + 1) 0 + 256 * (get_or p (i + 2) 0 + 256 * get_or p (i + 3) 0))

set_word : ℕ → ℕ → List ℕ → List ℕ
set_word i n p =
    set (set (set (set p i (n % 256)) (i + 1) (n / 256 % 256)) (i + 2) (n / 65536 % 256)) (i + 3)
      (n / 16777216 % 256)

pub seal : List ℕ → List ℕ
seal raw = set_word 12 (crc raw) raw

-- `"DMP1"`
abbrev magic : List ℕ
magic = 68 ∷ 77 ∷ 80 ∷ 49 ∷ []

pub valid : List ℕ → Bool
valid raw =
    bytes_eq (take 4 raw) magic
    && get_or raw 4 0 == 1
    && get_or raw 5 0 == 0
    && get_or raw 6 0 == 0
    && get_or raw 7 0 == 0
    && get_or raw 9 0 == 0
    && get_or raw 10 0 == 0
    && get_or raw 11 0 == 0
    && word 12 raw == crc raw

-- The head of a buffer: the magic, the version and the mask of the presets.
abbrev header : ℕ → List ℕ
header present = magic ++ (1 ∷ 0 ∷ 0 ∷ 0 ∷ present ∷ 0 ∷ 0 ∷ 0 ∷ 0 ∷ 0 ∷ 0 ∷ 0 ∷ [])

flat : List (List ℕ) → List ℕ
flat [] = []
flat (v ∷ vs) = v ++ flat vs

abbrev is_usable : State → Bool
is_usable State.empty = true
is_usable State.active = true
is_usable _ = false

abbrev pub is_empty : State → Bool
is_empty State.empty = true
is_empty _ = false

abbrev is_ok : Io → Bool
is_ok Io.ok = true
is_ok _ = false

abbrev is_missing : Io → Bool
is_missing Io.missing = true
is_missing _ = false

-- `mask`, `values`, `mask` of a value, and `value`.
pub mask : Store → ℕ
mask s = get_or s.raw 8 0

pub values : ℕ → Store → List ℕ
values slot s = take channels (drop (16 + slot * channels) s.raw)

pub set_mask : ℕ → Store → Store
set_mask value s = record s { raw = set s.raw 8 value }

pub set_values : ℕ → List ℕ → Store → Store
set_values slot bytes s =
    let place = 16 + slot * channels in
    let raw = take place s.raw ++ (bytes ++ drop (place + channels) s.raw) in
    record s { raw = set raw 8 (with_bit (get_or raw 8 0) slot) }

-- `next`: the bank that is not in use.
abbrev pub next_bank : Store → ℕ
next_bank s = if is_empty s.state then 0 else 1 - s.selected

module _ {K : Type 0} (kv : Kv K) where
  pub load : K → Store → Store
  load k s =
      let (found, value) = kv.selector k in
      let (result, bytes) = kv.read value k in
      elim found [
        | Io.missing ↦ record s {
          raw = seal (header 0 ++ replicate (slots * channels) 0);
          selected = 0;
          state = State.empty;
        }
        | Io.error ↦ record s { state = State.error }
        | Io.ok ↦ if ltb 1 value then record s { state = State.corrupt } else elim result [
          | Io.error ↦ record s { raw = bytes; state = State.error }
          | Io.missing ↦ record s { raw = bytes; state = State.corrupt }
          | Io.ok ↦
              if not (length bytes == size) || not (valid bytes)
              then record s { raw = bytes; state = State.corrupt }
              else record { raw = bytes; selected = value; state = State.active }
        ]
      ]

  -- The part of `publish` that prepares the bank `next`: the chain of `||` stops at the first failure.
  prepare : ℕ → List ℕ → K → K × Bool
  prepare next raw k =
      let (erased, k1) = kv.erase next k in
      let (committed1, k2) = kv.commit k1 in
      let (written, k3) = kv.write next raw k2 in
      let (committed2, k4) = kv.commit k3 in
      if not erased
      then (k1, false)
      else if not committed1
      then (k2, false)
      else if not written
      then (k3, false)
      else (k4, committed2)

  -- The part of `publish` from the selection of the bank on.
  switch : Bool → ℕ → Store → K → (K × Store) × Commit
  switch first next s k =
      let (is_set, k1) = kv.select next k in
      let (done, k2) = kv.commit k1 in
      let k3 = if is_set then k2 else k1 in
      let (observed, actual) = kv.selector k3 in
      if is_ok observed && actual == next
      then (
        (k3, record s { selected = next; state = State.active }),
        if is_set && done then Commit.ok else Commit.uncertain,
      )
      else if (first && is_missing observed)
          || (not first && is_ok observed && actual == s.selected)
      then ((k3, s), Commit.failed)
      else ((k3, s), Commit.uncertain)

  -- `publish`; the answers are those of the gate at its two questions.
  pub publish : Gate → Bool → Bool → K → Store → (K × Store) × Commit
  publish gate before after k s =
      let raw = seal s.raw in
      let next = next_bank s in
      let s1 : Store = record s { raw = raw; state = State.error } in
      let (k1, prepared) = prepare next raw k in
      let (result, bytes) = kv.read next k1 in
      let s2 : Store = record s1 { raw = bytes } in
      if not (is_usable s.state) || not (allowed gate before)
      then ((k, s), Commit.failed)
      else if not prepared
      then ((k1, s1), Commit.failed)
      else if not (is_ok result)
          || not (length bytes == size)
          || not (valid bytes)
          || not (word 12 bytes == word 12 raw)
          || not (allowed gate after)
      then ((k1, s2), Commit.failed)
      else switch (is_empty s.state) next s2 k1

  pub replace : Collection → Gate → Bool → Bool → K → Store → (K × Store) × Commit
  replace input gate before after k s =
      let s1 = load k s in
      if not (is_usable s1.state)
      then ((k, s1), Commit.failed)
      else publish gate before after k
          (record s1 { raw = header input.present ++ flat input.values })
