-- ===== src/Settings/Valid.antt =====
-- What holds of the settings after any sequence of operations: values in range, and what is marked as
-- persisted is what is stored.
use m5stack_core_s3se_dmx_co.Base.{ℕ, ◌≡◌, ◌≢◌, Bool, true, false, List, [], ◌∷◌, arith}
use m5stack_core_s3se_dmx_co.Settings.{
  DeviceSetting, DeviceSettings, DeviceSettingsBackend, SettingsEdit, get, any, valid, repaired,
  cancel_preview, set, commit_pending, service_preview, edit,
}

-- A value that is marked as persisted is the one that is known to be stored.
abbrev Stored : Bool → Bool → ℕ → ℕ → Type 0
Stored persisted known durable value = persisted ≡ true → (known ≡ true) × (durable ≡ value)

pub record IsValid {B : Type 0} (d : DeviceSettings B) : Type 0 where
  pub brightness_in : valid DeviceSetting.brightness d.values.of_brightness ≡ true
  pub timeout_in : valid DeviceSetting.timeout d.values.of_timeout ≡ true
  pub volume_in : valid DeviceSetting.volume d.values.of_volume ≡ true
  pub brightness_stored :
      Stored d.persisted.of_brightness d.known.of_brightness d.durable.of_brightness
        d.values.of_brightness
  pub timeout_stored :
      Stored d.persisted.of_timeout d.known.of_timeout d.durable.of_timeout d.values.of_timeout
  pub volume_stored :
      Stored d.persisted.of_volume d.known.of_volume d.durable.of_volume d.values.of_volume
  pub preview_in : d.preview.owner ≢ 0 → valid d.preview.key d.preview.value ≡ true
  pub preview_stored :
      d.preview.owner ≢ 0
      → Stored d.preview.saved
          (get d.preview.key d.known)
          (get d.preview.key d.durable)
          d.preview.value
  pub preview_alone : d.preview.owner ≢ 0 → any d.pending ≡ false

module _ {B : Type 0} (backend : DeviceSettingsBackend B) where
  repaired-valid : (key : DeviceSetting) (n : ℕ) → valid key (repaired key n) ≡ true
  unfolding repaired
  repaired-valid DeviceSetting.brightness n = ground arith
  repaired-valid DeviceSetting.timeout n = ground arith
  repaired-valid DeviceSetting.volume n = ground arith

-- What may be asked of the settings, with the times and owners of the asking.
pub data SettingsOperation : Type 0 where
  flush : SettingsOperation
  assign : DeviceSetting → ℕ → Bool → SettingsOperation
  service : ℕ → Bool → SettingsOperation
  request : SettingsEdit → ℕ → ℕ → DeviceSetting → ℕ → ℕ → ℕ → Bool → SettingsOperation
  withdraw : SettingsOperation

module _ {B : Type 0} (backend : DeviceSettingsBackend B) where
  pub operate : SettingsOperation → DeviceSettings B → DeviceSettings B
  operate SettingsOperation.flush d = commit_pending backend d
  operate (SettingsOperation.assign key n persist) d = (set backend key n persist d).0
  operate (SettingsOperation.service now alive) d = service_preview backend now alive d
  operate (SettingsOperation.request operation owner gesture key n base now first) d =
      (edit backend operation owner gesture key n base now first d).0
  operate SettingsOperation.withdraw d = cancel_preview backend d

  pub operates : List SettingsOperation → DeviceSettings B → DeviceSettings B
  operates [] d = d
  operates (o ∷ os) d = operates os (operate o d)
