-- ===== src/Archive/Store/Banks.antt =====
-- The bank in use is never written: a publication that fails leaves the presets as they were.
use m5stack_core_s3se_dmx_co.Base.{ℕ, ◌≡◌, ◌≢◌, ◌≤◌, Bool, List, arith}
use m5stack_core_s3se_dmx_co.Archive.{Gate}
use m5stack_core_s3se_dmx_co.Archive.Store.{
  Kv, Store, State, publish, prepare, switch, next_bank, is_empty, seal,
}

-- What the memory promises of its keys: an erasure or a write changes its own bank only, and a commit and a
-- selection change none.
pub record HasBanks {K : Type 0} (kv : Kv K) : Type 0 where
  pub erase_other : (a b : ℕ) (k : K) → a ≢ b → kv.read b (kv.erase a k).1 ≡ kv.read b k
  pub write_other :
      (a b : ℕ) (bytes : List ℕ) (k : K) → a ≢ b → kv.read b (kv.write a bytes k).1 ≡ kv.read b k
  pub commit_all : (b : ℕ) (k : K) → kv.read b (kv.commit k).1 ≡ kv.read b k
  pub select_all : (a b : ℕ) (k : K) → kv.read b (kv.select a k).1 ≡ kv.read b k

module _ {K : Type 0} (kv : Kv K) where
  prepare-frame :
      (next b : ℕ) (raw : List ℕ) (k : K)
      → HasBanks kv
      → next ≢ b
      → kv.read b (prepare kv next raw k).0 ≡ kv.read b k
  unfolding prepare
  prepare-frame next b raw k banks h =
      let k1 = (kv.erase next k).1 in
      let k2 = (kv.commit k1).1 in
      let k3 = (kv.write next raw k2).1 in
      ground (
        arith,
        banks.erase_other next b k h,
        banks.commit_all b k1,
        banks.write_other next b raw k2 h,
        banks.commit_all b k3,
      )

  switch-frame :
      (first : Bool) (next b : ℕ) (s : Store) (k : K)
      → HasBanks kv
      → kv.read b (switch kv first next s k).0.0 ≡ kv.read b k
  unfolding switch
  switch-frame first next b s k banks =
      ground (arith, banks.select_all next b k, banks.commit_all b (kv.select next k).1)

  -- While presets are in use, a publication leaves the bank that holds them as it was, whatever it reports and
  -- wherever it stops, if the memory changes only the bank that it is told to erase or write.
  pub publish-frame :
      (gate : Gate) (before after : Bool) (k : K) (s : Store)
      → HasBanks kv
      → s.state ≡ State.active
      → s.selected ≤ 1
      → kv.read s.selected (publish kv gate before after k s).0.0 ≡ kv.read s.selected k
  unfolding publish
  publish-frame gate before after k s banks h l =
      let next = next_bank s in
      let other : next ≢ s.selected = ground arith in
      let k1 = (prepare kv next (seal s.raw) k).0 in
      let s2 : Store = record s { raw = (kv.read next k1).1; state = State.error } in
      ground (
        arith,
        prepare-frame next s.selected (seal s.raw) k banks other,
        switch-frame (is_empty s.state) next s.selected s2 k1 banks,
      )
