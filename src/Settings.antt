-- ===== src/Settings.antt =====
-- include/device_settings.h: brightness, timeout and volume, with the value that is stored, and a
-- preview that a remote owner may hold.
pub mod Valid
pub mod Cancel
use m5stack_core_s3se_dmx_co.Base.{
  ℕ, ◌+◌, Bool, true, false, not, ◌&&◌, ◌||◌, Option, none, some, ◌==◌, ltb, leb, if◌then◌else◌,
  u64, sub32,
}

pub data DeviceSetting : Type 0 where
  brightness timeout volume : DeviceSetting

-- An array with an entry for each setting; a mask is one of Booleans.
pub record Each {ℓ} (A : Type ℓ) : Type ℓ where
  pub of_brightness : A
  pub of_timeout : A
  pub of_volume : A

abbrev pub get {ℓ} : {A : Type ℓ} → DeviceSetting → Each A → A
get DeviceSetting.brightness e = e.of_brightness
get DeviceSetting.timeout e = e.of_timeout
get DeviceSetting.volume e = e.of_volume

abbrev pub put {ℓ} : {A : Type ℓ} → DeviceSetting → A → Each A → Each A
put DeviceSetting.brightness a e = record e { of_brightness = a }
put DeviceSetting.timeout a e = record e { of_timeout = a }
put DeviceSetting.volume a e = record e { of_volume = a }

abbrev pub same_setting : DeviceSetting → DeviceSetting → Bool
same_setting DeviceSetting.brightness DeviceSetting.brightness = true
same_setting DeviceSetting.timeout DeviceSetting.timeout = true
same_setting DeviceSetting.volume DeviceSetting.volume = true
same_setting _ _ = false

-- `DeviceSettingsBackend`, an interface to the flash and the hardware; a read gives a `uint8_t` or
-- nothing.
pub record DeviceSettingsBackend (B : Type 0) : Type 0 where
  pub read : DeviceSetting → B → Option ℕ × B
  pub write : DeviceSetting → ℕ → B → Bool × B
  pub put_on : DeviceSetting → ℕ → B → B

-- `DeviceSettings::Result`
pub data SettingsResult : Type 0 where
  applied no_change storage_error invalid conflict : SettingsResult

-- `DeviceSettings::Edit`; `unknown` stands for every other value of the `uint8_t`.
pub data SettingsEdit : Type 0 where
  none_asked preview commit_it cancel_it unknown : SettingsEdit

pub record Preview : Type 0 where
  pub owner : ℕ
  pub gesture : ℕ
  pub started : ℕ
  pub touched : ℕ
  pub key : DeviceSetting
  pub value : ℕ
  pub saved : Bool

-- The members of `DeviceSettings`, those of its snapshot among them.
pub record DeviceSettings (B : Type 0) : Type 0 where
  pub backend : B
  pub revision : ℕ
  pub values : Each ℕ
  pub persisted : Each Bool
  pub durable : Each ℕ
  pub known : Each Bool
  pub pending : Each Bool
  pub preview : Preview

unfoldable pub valid : DeviceSetting → ℕ → Bool
valid DeviceSetting.brightness v = leb v 5 && leb 1 v
valid DeviceSetting.timeout v = leb v 4
valid DeviceSetting.volume v = leb v 4

-- What `begin` uses for a value that is read but not valid.
repaired : DeviceSetting → ℕ → ℕ
unfolding valid
repaired DeviceSetting.volume v = if ltb 4 v then 4 else v
repaired key v = if valid key v then v else 3

abbrev pub any : Each Bool → Bool
any e = e.of_brightness || e.of_timeout || e.of_volume

module _ {B : Type 0} where
  pub value : DeviceSetting → DeviceSettings B → ℕ
  value key d = get key d.values

  pub busy : DeviceSettings B → Bool
  busy d = not (d.preview.owner == 0) || any d.pending

module _ {B : Type 0} (backend : DeviceSettingsBackend B) where
  -- A round of the loop of `begin`.
  begin_one : DeviceSetting → DeviceSettings B → DeviceSettings B
  unfolding valid repaired
  begin_one key d =
      let (found, b) = backend.read key d.backend in
      let d1 : DeviceSettings B = elim found [
        | none ↦ record d { backend = b }
        | some v ↦ record d {
          backend = b;
          values = put key (repaired key v) d.values;
          durable = if valid key v then put key v d.durable else d.durable;
          known = if valid key v then put key true d.known else d.known;
          persisted = if valid key v then put key true d.persisted else d.persisted;
        }
      ] in
      record d1 { backend = backend.put_on key (get key d1.values) d1.backend }

  pub begin : DeviceSettings B → DeviceSettings B
  begin d =
      begin_one DeviceSetting.volume
        (begin_one DeviceSetting.timeout (begin_one DeviceSetting.brightness d))

  unfoldable pub cancel_preview : DeviceSettings B → DeviceSettings B
  cancel_preview d =
      let p = d.preview in
      if p.owner == 0 then d else record d {
        preview = record p { owner = 0 };
        backend =
            if get p.key d.values == p.value
            then d.backend
            else backend.put_on p.key p.value d.backend;
        values = put p.key p.value d.values;
        persisted = put p.key p.saved d.persisted;
        revision = u64 (d.revision + 1);
      }

  pub commit : DeviceSetting → DeviceSettings B → DeviceSettings B × SettingsResult
  commit key d =
      let v = get key d.values in
      let settled : DeviceSettings B = record d { pending = put key false d.pending } in
      let stored = get key d.known && get key d.durable == v in
      let (written, b) = (if stored then (true, d.backend) else backend.write key v d.backend) in
      if written
      then (
        record settled {
          backend = b;
          durable = put key v d.durable;
          known = put key true d.known;
          persisted = put key true d.persisted;
          revision = u64 (d.revision + 1);
        },
        SettingsResult.applied,
      )
      else (
        record settled { backend = b; known = put key false d.known },
        SettingsResult.storage_error,
      )

  -- A value put on, not yet stored.
  abbrev place : DeviceSetting → ℕ → DeviceSettings B → DeviceSettings B
  place key v d = record d {
    values = put key v d.values;
    persisted = put key false d.persisted;
    revision = u64 (d.revision + 1);
    backend = backend.put_on key v d.backend;
  }

  pub set : DeviceSetting → ℕ → Bool → DeviceSettings B → DeviceSettings B × SettingsResult
  unfolding valid
  set key v persist d =
      if not (valid key v)
      then (d, SettingsResult.invalid)
      else let d1 = cancel_preview d in
        if get key d1.values == v
        then (d1, SettingsResult.no_change)
        else let d2 : DeviceSettings B = record (place key v d1) {
          pending = put key true d1.pending;
        } in
          if persist then commit key d2 else (d2, SettingsResult.applied)

  abbrev commit_if_pending : DeviceSetting → DeviceSettings B → DeviceSettings B
  commit_if_pending key d = if get key d.pending then (commit key d).0 else d

  pub commit_pending : DeviceSettings B → DeviceSettings B
  commit_pending d =
      commit_if_pending DeviceSetting.volume
        (commit_if_pending DeviceSetting.timeout (commit_if_pending DeviceSetting.brightness d))

  -- A preview ends 10 s after its last edit, 30 s after its first, or with its owner.
  unfoldable pub service_preview : ℕ → Bool → DeviceSettings B → DeviceSettings B
  service_preview now owner_alive d =
      if not (d.preview.owner == 0)
        && (not owner_alive
            || leb 10000 (sub32 now d.preview.touched)
            || leb 30000 (sub32 now d.preview.started))
      then cancel_preview d
      else d

  -- The value of a preview put on.
  unfoldable pub show : DeviceSetting → ℕ → ℕ → DeviceSettings B → DeviceSettings B × SettingsResult
  show key v now d =
      let d1 : DeviceSettings B = record d { preview = record d.preview { touched = now } } in
      if get key d.values == v
      then (d1, SettingsResult.no_change)
      else (place key v d1, SettingsResult.applied)

  -- The preview that begins with a first edit.
  abbrev open_preview : ℕ → ℕ → DeviceSetting → ℕ → DeviceSettings B → DeviceSettings B
  open_preview owner gesture key now d = record d {
    preview = record {
      owner = owner;
      gesture = gesture;
      started = now;
      touched = now;
      key = key;
      value = get key d.values;
      saved = get key d.persisted;
    };
  }

  -- Whether an edit belongs to the preview that is open.
  abbrev pub belongs : ℕ → ℕ → DeviceSetting → DeviceSettings B → Bool
  belongs owner gesture key d =
      d.preview.owner == owner && d.preview.gesture == gesture && same_setting d.preview.key key

  -- `edit` once its arguments are valid and old previews have been cancelled.
  unfoldable pub edit_valid :
      SettingsEdit
      → ℕ
      → ℕ
      → DeviceSetting
      → ℕ
      → ℕ
      → ℕ
      → Bool
      → DeviceSettings B
      → DeviceSettings B × SettingsResult
  edit_valid SettingsEdit.preview owner gesture key v base now true d =
      if not (base == d.revision) || any d.pending
      then (d, SettingsResult.conflict)
      else show key v now (open_preview owner gesture key now (cancel_preview d))
  edit_valid SettingsEdit.cancel_it owner gesture key v base now first d =
      if not (belongs owner gesture key d)
      then (d, SettingsResult.conflict)
      else (cancel_preview d, SettingsResult.applied)
  edit_valid SettingsEdit.commit_it owner gesture key v base now first d =
      if not (belongs owner gesture key d) || not (base == d.revision)
      then (d, SettingsResult.conflict)
      else commit key (record d { preview = record d.preview { owner = 0 } })
  edit_valid _ owner gesture key v base now first d =
      if not (belongs owner gesture key d) || not (base == d.revision)
      then (d, SettingsResult.conflict)
      else show key v now d

  abbrev asks : SettingsEdit → DeviceSetting → ℕ → Bool
  asks SettingsEdit.preview key v = valid key v
  asks SettingsEdit.commit_it key v = true
  asks SettingsEdit.cancel_it key v = true
  asks _ key v = false

  unfoldable pub edit :
      SettingsEdit
      → ℕ
      → ℕ
      → DeviceSetting
      → ℕ
      → ℕ
      → ℕ
      → Bool
      → DeviceSettings B
      → DeviceSettings B × SettingsResult
  edit operation owner gesture key v base now first d =
      if owner == 0 || gesture == 0 || not (asks operation key v)
      then (d, SettingsResult.invalid)
      else edit_valid operation owner gesture key v base now first (service_preview now true d)
