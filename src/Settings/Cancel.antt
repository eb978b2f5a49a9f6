-- ===== src/Settings/Cancel.antt =====
-- A preview that is cancelled, or that runs out, leaves the settings as they were before it began.
use m5stack_core_s3se_dmx_co.Base.{ℕ, ◌≡◌, ◌≢◌, Bool, true, false, List, [], ◌∷◌, ◌⊎◌}
use m5stack_core_s3se_dmx_co.Settings.{
  DeviceSetting, DeviceSettings, DeviceSettingsBackend, Each, SettingsEdit, put, edit, belongs,
}

-- Cancelling what is open now would give these values and these marks.
abbrev Brings : {B : Type 0} → Each ℕ → Each Bool → DeviceSettings B → Type 0
Brings values persisted d =
    ((d.preview.owner ≡ 0) × (d.values ≡ values) × (d.persisted ≡ persisted))
    ⊎ ((d.preview.owner ≢ 0)
        × (put d.preview.key d.preview.value d.values ≡ values)
        × (put d.preview.key d.preview.saved d.persisted ≡ persisted))

-- No preview is open, and the values and the marks are those of `before`.
abbrev pub Restored : {B : Type 0} → DeviceSettings B → DeviceSettings B → Type 0
Restored before after =
    (after.preview.owner ≡ 0)
    × (after.values ≡ before.values)
    × (after.persisted ≡ before.persisted)

-- A further edit of a preview: its value, the revision that it was made on and its time.
pub record FurtherEdit : Type 0 where
  pub wanted : ℕ
  pub base : ℕ
  pub now : ℕ

module _ {B : Type 0} (backend : DeviceSettingsBackend B) (owner gesture : ℕ)
    (key : DeviceSetting) where
  pub further : List FurtherEdit → DeviceSettings B → DeviceSettings B
  further [] d = d
  further (e ∷ es) d =
      further es
        (edit backend SettingsEdit.preview owner gesture key e.wanted e.base e.now false d).0

  -- A preview that is open is that of this owner, gesture and setting.
  abbrev Mine : DeviceSettings B → Type 0
  Mine d = d.preview.owner ≢ 0 → belongs backend owner gesture key d ≡ true
