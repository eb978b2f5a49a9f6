-- ===== src/Wifi/Journal.antt =====
-- include/wifi_credential_transaction.h: the undo journal around a change of the credentials.
use m5stack_core_s3se_dmx_co.Base.{
  ℕ, ◌+◌, ◌*◌, Bool, true, false, not, ◌&&◌, ◌||◌, some, List, [], ◌∷◌, ◌++◌, length, bytes_eq,
  ◌==◌, if◌then◌else◌, Option,
}
use m5stack_core_s3se_dmx_co.SoftAp.{Credentials, Decision, no_credentials, select}
use m5stack_core_s3se_dmx_co.Wifi.{Work}
pub mod Recovery

pub data Read : Type 0 where
  found missing error : Read

pub data Key : Type 0 where
  ap1 ap_try : Key

-- `Store`, an interface to the flash memory: a read gives its result, the bytes and their number.
pub record Store (S : Type 0) : Type 0 where
  pub read : Key → S → Read × List ℕ
  pub write : Key → List ℕ → S → Bool × S
  pub remove : Key → S → Bool × S

pub record Journal : Type 0 where
  pub magic : ℕ
  pub version : ℕ
  pub previous_size : ℕ
  pub previous : List ℕ
  pub candidate : Credentials
  pub checksum : ℕ

pub record Radio (R : Type 0) : Type 0 where
  pub notify_and_retire : R → Bool × R
  pub apply : Credentials → R → Bool × R
  pub ready : R → Bool × R
  pub committed : Credentials → R → R

abbrev is_found : Read → Bool
is_found Read.found = true
is_found _ = false

abbrev is_missing : Read → Bool
is_missing Read.missing = true
is_missing _ = false

abbrev is_keep : Decision → Bool
is_keep Decision.keep = true
is_keep _ = false

-- The bytes of the records as the flash memory holds them, the journal back from its bytes, and the
-- checksum over a journal's bytes: the compiler lays them out.
pub record Layout : Type 0 where
  pub credential_bytes : Credentials → List ℕ
  pub journal_bytes : Journal → List ℕ
  pub of_bytes : List ℕ → Journal
  pub checksum : Journal → ℕ

module _ (layout : Layout) {S : Type 0} (store : Store S) where
  open layout use {credential_bytes, journal_bytes, of_bytes}

  pub verify : Key → List ℕ → S → Bool
  verify key data_bytes s =
      let (result, copy) = store.read key s in
      is_found result && length copy == length data_bytes && bytes_eq copy data_bytes

  pub erase_verified : Key → S → S × Bool
  erase_verified key s =
      let (removed, s1) = store.remove key s in (s1, removed && is_missing (store.read key s1).0)

  pub valid : Journal → List ℕ → Bool
  valid j mac =
      j.magic == 1464419913
      && j.version == 1
      && j.checksum == layout.checksum j
      && (j.previous_size == 64 || j.previous_size == 108)
      && is_keep (select (some j.previous) true false mac).0
      && j.candidate.origin == 2
      && is_keep (select (some (credential_bytes j.candidate)) true false mac).0

  -- The writing of `ap1`, which is read back, and the erasure of the journal.
  settle : List ℕ → S → S × Bool
  unfolding verify erase_verified
  settle bytes s =
      let (written, s1) = store.write Key.ap1 bytes s in
      if not written || not (verify Key.ap1 bytes s1)
      then (s1, false)
      else erase_verified Key.ap_try s1

  pub rollback : Journal → S → S × Bool
  unfolding settle
  rollback j s = settle j.previous s

  pub recover : List ℕ → S → S × Bool
  unfolding valid rollback
  recover mac s =
      let (result, bytes) = store.read Key.ap_try s in
      let j = of_bytes bytes in
      if is_missing result
      then (s, true)
      else if not (is_found result) || not (length bytes == 232) || not (valid j mac)
      then (s, false)
      else rollback j s

  -- The journal of `stage`.
  abbrev journal_of : List ℕ → Credentials → Journal
  journal_of bytes candidate =
      let j : Journal = record {
        magic = 1464419913;
        version = 1;
        previous_size = length bytes;
        previous = bytes;
        candidate = candidate;
        checksum = 0;
      } in
      record j { checksum = layout.checksum j }

  pub stage : Credentials → List ℕ → S → S × (Bool × Journal)
  unfolding verify valid
  stage candidate mac s =
      let (result, bytes) = store.read Key.ap1 s in
      let j = journal_of bytes candidate in
      if not (is_found result) || not (valid j mac)
      then (s, (false, j))
      else let (written, s1) = store.write Key.ap_try (journal_bytes j) s in
        (s1, (written && verify Key.ap_try (journal_bytes j) s1, j))

  pub promote : Journal → S → S × Bool
  unfolding settle
  promote j s = settle (credential_bytes j.candidate) s

  module _ {R : Type 0} (radio : Radio R) where
    -- What is left of `execute` after a failure with the journal written.
    undo : Work → Bool → Bool → Credentials → Journal → S → R → S × (R × Work)
    unfolding rollback
    undo result healthy touched previous j s r =
        let (s1, saved) = rollback j s in
        let (applied, r1) = radio.apply previous r in
        let (is_ready, r2) = radio.ready r1 in
        let r3 = if not touched then r else (if applied then r2 else r1) in
        let restored = not touched || (applied && is_ready) in
        (s1, (r3, if healthy && saved && restored then result else Work.rollback_error))

    -- The part of `execute` with the journal written and the previous credentials known.
    change : Credentials → Credentials → Journal → S → R → S × (R × Work)
    unfolding promote undo
    change candidate previous j s r =
        let (retired, r1) = radio.notify_and_retire r in
        let (applied, r2) = radio.apply candidate r1 in
        let (is_ready, r3) = radio.ready r2 in
        let (s1, promoted) = promote j s in
        if not retired
        then undo Work.radio_error true false previous j s r1
        else if not applied
        then undo Work.radio_error true true previous j s r2
        else if not is_ready
        then undo Work.radio_error true true previous j s r3
        else if not promoted
        then undo Work.storage_error true true previous j s1 r3
        else (s1, (radio.committed candidate r3, Work.done))

    pub execute : Credentials → List ℕ → S → R → S × (R × Work)
    execute candidate mac s r =
        let (s1, (staged, j)) = stage candidate mac s in
        let (decision, previous) = select (some j.previous) true false mac in
        if not staged
        then (let (s2, healthy) = recover mac s1 in
            (s2, (r, if healthy then Work.storage_error else Work.rollback_error)))
        else if not (is_keep decision)
        then undo Work.storage_error false false previous j s1 r
        else change candidate previous j s1 r
