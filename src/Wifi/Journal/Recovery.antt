-- ===== src/Wifi/Journal/Recovery.antt =====
-- The journal is an undo log: an interrupted change is taken back when the device starts.
use m5stack_core_s3se_dmx_co.Base.{ℕ, ◌≡◌, true, false, some, List, arith, refl, bytes_eq_sound}
use m5stack_core_s3se_dmx_co.SoftAp.{Credentials, select}
use m5stack_core_s3se_dmx_co.Wifi.{Work}
use m5stack_core_s3se_dmx_co.Wifi.Journal.{
  Store, Read, Key, Journal, Layout, Radio, verify, erase_verified, rollback, promote, stage,
  execute, change, undo, settle,
}

module _ {S : Type 0} (store : Store S) where
  -- The flash memory answers a removal with nothing but that key changed.
  unfoldable pub RemovesOnly : Type 0
  RemovesOnly = (s : S) → store.read Key.ap1 (store.remove Key.ap_try s).1 ≡ store.read Key.ap1 s

module _ (layout : Layout) {S : Type 0} (store : Store S) where
  verify_sound :
      (key : Key) (bytes : List ℕ) (s : S)
      → verify layout store key bytes s ≡ true
      → store.read key s ≡ (Read.found, bytes)
  unfolding verify
  verify_sound key bytes s h = ground (arith, bytes_eq_sound (store.read key s).1 bytes)

  erase_sound :
      (key : Key) (s : S)
      → (erase_verified layout store key s).1 ≡ true
      → ((store.read key (erase_verified layout store key s).0).0 ≡ Read.missing)
        × ((erase_verified layout store key s).0 ≡ (store.remove key s).1)
  unfolding erase_verified
  erase_sound key s h = ground arith

  settle_sound :
      (bytes : List ℕ) (s : S)
      → RemovesOnly store
      → (settle layout store bytes s).1 ≡ true
      → (store.read Key.ap1 (settle layout store bytes s).0 ≡ (Read.found, bytes))
        × ((store.read Key.ap_try (settle layout store bytes s).0).0 ≡ Read.missing)
  unfolding settle RemovesOnly
  settle_sound bytes s r h = ground (
    arith,
    verify_sound Key.ap1 bytes (store.write Key.ap1 bytes s).1,
    erase_sound Key.ap_try (store.write Key.ap1 bytes s).1,
    r (store.write Key.ap1 bytes s).1,
  )

module _ (layout : Layout) {S : Type 0} (store : Store S) where
  -- A rollback that reports success leaves the previous credentials readable, byte for byte, and no journal,
  -- whatever the writes and removals of the memory did, provided that a removal changes its own key only.
  pub rollback-restores :
      (j : Journal) (s : S)
      → RemovesOnly store
      → (rollback layout store j s).1 ≡ true
      → (store.read Key.ap1 (rollback layout store j s).0 ≡ (Read.found, j.previous))
        × ((store.read Key.ap_try (rollback layout store j s).0).0 ≡ Read.missing)
  unfolding rollback
  rollback-restores j s r h = settle_sound layout store j.previous s r h

  promote-stores :
      (j : Journal) (s : S)
      → RemovesOnly store
      → (promote layout store j s).1 ≡ true
      → store.read Key.ap1 (promote layout store j s).0
        ≡ (Read.found, layout.credential_bytes j.candidate)
  unfolding promote
  promote-stores j s r h = (settle_sound layout store (layout.credential_bytes j.candidate) s r h).0

module _ (layout : Layout) {S : Type 0} (store : Store S) {R : Type 0} (radio : Radio R) where
  change-done :
      (candidate previous : Credentials) (j : Journal) (s : S) (r : R)
      → RemovesOnly store
      → (change layout store radio candidate previous j s r).1.1 ≡ Work.done
      → store.read Key.ap1 (change layout store radio candidate previous j s r).0
        ≡ (Read.found, layout.credential_bytes j.candidate)
  unfolding change undo
  change-done candidate previous j s r o h = ground (arith, promote-stores layout store j s o)

  change-radio :
      (candidate previous : Credentials) (j : Journal) (s : S) (r : R)
      → RemovesOnly store
      → (change layout store radio candidate previous j s r).1.1 ≡ Work.radio_error
      → store.read Key.ap1 (change layout store radio candidate previous j s r).0
        ≡ (Read.found, j.previous)
  unfolding change undo
  change-radio candidate previous j s r o h = ground (
    arith,
    rollback-restores layout store j s o,
    rollback-restores layout store j (promote layout store j s).0 o,
  )

  undo-unhealthy :
      (previous : Credentials) (j : Journal) (s : S) (r : R)
      → (undo layout store radio Work.storage_error false false previous j s r).1.1
        ≡ Work.rollback_error
  unfolding undo
  undo-unhealthy previous j s r = refl

  stage-journal :
      (candidate : Credentials) (mac : List ℕ) (s : S)
      → (stage layout store candidate mac s).1.0 ≡ true
      → ((stage layout store candidate mac s).1.1.candidate ≡ candidate)
        × (store.read Key.ap1 s ≡ (Read.found, (stage layout store candidate mac s).1.1.previous))
  unfolding stage
  stage-journal candidate mac s h = ground arith

  -- A change of the credentials that reports that it is done has stored the candidate; one that reports an
  -- error of the radio has left the credentials that were stored before. A removal from the memory is
  -- assumed to change its own key only; of its writes nothing is assumed, since they are read back.
  pub execute-stored :
      (candidate : Credentials) (mac : List ℕ) (s : S) (r : R)
      → RemovesOnly store
      → (((execute layout store radio candidate mac s r).1.1 ≡ Work.done)
          → store.read Key.ap1 (execute layout store radio candidate mac s r).0
            ≡ (Read.found, layout.credential_bytes candidate))
        × (((execute layout store radio candidate mac s r).1.1 ≡ Work.radio_error)
            → store.read Key.ap1 (execute layout store radio candidate mac s r).0
              ≡ store.read Key.ap1 s)
  unfolding execute
  execute-stored candidate mac s r o =
      let s1 = (stage layout store candidate mac s).0 in
      let j = (stage layout store candidate mac s).1.1 in
      let previous = (select (some j.previous) true false mac).1 in
      ground (
        arith,
        stage-journal candidate mac s,
        change-done candidate previous j s1 r o,
        change-radio candidate previous j s1 r o,
        undo-unhealthy previous j s1 r,
      )
