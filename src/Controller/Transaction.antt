-- ===== src/Controller/Transaction.antt =====
-- The archive transaction: a token is good once, a preset written meanwhile is a conflict, and the
-- output is not touched.
use m5stack_core_s3se_dmx_co.Base.{
  ℕ, ◌+◌, ◌<◌, ◌≡◌, ◌≢◌, ◌⊎◌, Bool, true, false, List, arith, inl, inr,
}
use m5stack_core_s3se_dmx_co.Archive.{Gate, allowed}
use m5stack_core_s3se_dmx_co.Controller.{DmxController, output_packet}
use m5stack_core_s3se_dmx_co.Controller.Types.{DmxPresetStorage, Result}
use m5stack_core_s3se_dmx_co.Controller.Presets.{
  clear_preset, copy_preset, stage_archive, replace_archive, archive_valid, load_preset,
}

module _ {S : Type 0} (store : DmxPresetStorage S) where
  -- Whatever its result, replacing all presets leaves the working, restore and output packets and the blackout
  -- state as they are, and the token that it was given is not valid any more: a second attempt is
  -- refused and touches nothing.
  pub replace_archive-once :
      (token : ℕ) (answers later : ℕ → Bool) (c : DmxController S)
      → let c' = (replace_archive store token answers c).0 in
        (c'.working ≡ c.working)
        × (c'.restore ≡ c.restore)
        × (output_packet c' ≡ output_packet c)
        × (c'.blackout ≡ c.blackout)
        × (archive_valid token c' ≡ false)
        × (replace_archive store token later c' ≡ (c', Result.invalid_patch))
  unfolding replace_archive output_packet
  replace_archive-once token answers later c = ground arith

  -- After a clear that succeeds, or a copy that succeeds, an archive staged before is a conflict: replacing by
  -- it changes neither the storage nor the preset revision, for any answers of the gate.
  pub replace_archive-conflict :
      (token slot target : ℕ) (answers : ℕ → Bool) (c d : DmxController S)
      → c.archive_base ≡ c.preset_revision
      → c.preset_revision < 18446744073709551616
      → archive_valid token c ≡ true
      → (clear_preset store slot c ≡ (d, Result.ok))
        ⊎ (copy_preset store slot target c ≡ (d, Result.ok))
      → let (d', r) = replace_archive store token answers d in
        (r ≡ Result.archive_conflict)
        × (d'.storage ≡ d.storage)
        × (d'.preset_revision ≡ d.preset_revision)
  unfolding clear_preset copy_preset replace_archive
  replace_archive-conflict token slot target answers c d base range valid (inl h) = ground arith
  replace_archive-conflict token slot target answers c d base range valid (inr h) = ground arith

  -- Staging succeeds only for the present preset revision and with the gate open, and then its token is new,
  -- not 0 and valid; when it fails no token is valid. The storage and the packets are not touched.
  pub stage_archive-token :
      (text : List ℕ) (base : ℕ) (gate : Gate) (answer : Bool) (c : DmxController S)
      → c.archive_counter < 4294967296
      → let (c', r) = stage_archive text base gate answer c in
        (r ≡ Result.ok
          → (base ≡ c.preset_revision)
            × (allowed gate answer ≡ true)
            × (c'.archive_token ≢ 0)
            × (c'.archive_token ≢ c.archive_counter)
            × (archive_valid c'.archive_token c' ≡ true))
        × (r ≢ Result.ok → c'.archive_token ≡ 0)
        × (c'.storage ≡ c.storage)
        × (c'.working ≡ c.working)
        × (c'.restore ≡ c.restore)
  unfolding stage_archive archive_valid
  stage_archive-token text base gate answer c range = ground arith

  -- Loading a preset either fails and changes nothing but the storage adapter, or marks that preset as
  -- loaded and not modified; the restore packet and the blackout state stay in both cases.
  pub load_preset-frame :
      (slot : ℕ) (c : DmxController S)
      → let (c', r) = load_preset store slot c in
        (r ≢ Result.ok → c' ≡ record c { storage = c'.storage })
        × (r ≡ Result.ok → (c'.loaded_preset ≡ slot + 1) × (c'.loaded_modified ≡ false))
        × (c'.restore ≡ c.restore)
        × (c'.blackout ≡ c.blackout)
  unfolding load_preset
  load_preset-frame slot c = ground arith
