-- ===== src/Wifi.antt =====
-- include/wifi_configuration.h: the proposal of a new Wi-Fi configuration, its approval on the device, and
-- its application.
pub mod Journal
pub mod Approval
pub mod Wire
use m5stack_core_s3se_dmx_co.Base.{
  ℕ, ◌+◌, ◌-◌, ◌*◌, ◌/◌, Bool, true, false, not, ◌&&◌, ◌||◌, List, [], ◌∷◌, replicate, get_or,
  bytes_eq, ◌==◌, leb, if◌then◌else◌, u32, u64, sub32,
}
use m5stack_core_s3se_dmx_co.SoftAp.{Credentials, no_credentials, c_string, padded, text}

pub data Phase : Type 0 where
  idle approval applying failed : Phase

pub data Reason : Type 0 where
  no_reason cancelled expired disconnected storage radio rollback unavailable : Reason

pub data WifiResult : Type 0 where
  accepted cancelled no_change invalid conflict busy unauthorized unavailable : WifiResult

pub data Work : Type 0 where
  pending done storage_error radio_error rollback_error : Work

-- `WifiConfiguration::Backend`, an interface to the network. `current` is what it writes to its argument.
pub record WifiBackend (B : Type 0) : Type 0 where
  pub available : B → Bool
  pub connected : ℕ → B → Bool
  pub current : B → Credentials
  pub begin : Credentials → B → Bool × B
  pub progress : B → Work × B
  pub published : B → B

-- The members of `WifiConfiguration`, those of its `Snapshot` among them. The store of the backend is
-- written out.
pub record WifiConfiguration (B : Type 0) : Type 0 where
  pub backend : B
  pub revision : ℕ
  pub base : ℕ
  pub request : ℕ
  pub remaining_ms : ℕ
  pub ssid : List ℕ
  pub proposed : List ℕ
  pub origin : ℕ
  pub phase : Phase
  pub reason : Reason
  pub password_change : Bool
  pub available : Bool
  pub candidate : Credentials
  pub owner : ℕ
  pub started : ℕ
  pub initialized : Bool

abbrev is_idle : Phase → Bool
is_idle Phase.idle = true
is_idle _ = false

abbrev is_approval : Phase → Bool
is_approval Phase.approval = true
is_approval _ = false

abbrev is_applying : Phase → Bool
is_applying Phase.applying = true
is_applying _ = false

abbrev is_failed : Phase → Bool
is_failed Phase.failed = true
is_failed _ = false

-- `password[0]`
abbrev given : List ℕ → Bool
given password = not (get_or password 0 0 == 0)

module _ {B : Type 0} where
  pub active : WifiConfiguration B → Bool
  active w = is_approval w.phase || is_applying w.phase

  pub owned : ℕ → WifiConfiguration B → Bool
  owned generation w = w.owner == generation && is_approval w.phase

  -- `++revision`
  abbrev next : WifiConfiguration B → WifiConfiguration B
  next w = record w { revision = u64 (w.revision + 1) }

  discard : Reason → WifiConfiguration B → WifiConfiguration B
  discard reason w = next (record w {
    candidate = no_credentials;
    owner = 0;
    request = 0;
    remaining_ms = 0;
    phase = Phase.idle;
    reason = reason;
    password_change = false;
    proposed = replicate 33 0;
  })

  pub cancel : ℕ → ℕ → WifiConfiguration B → WifiConfiguration B × WifiResult
  unfolding owned discard
  cancel generation request w =
      if not (owned generation w) || not (w.request == request)
      then (w, WifiResult.unauthorized)
      else (discard Reason.cancelled w, WifiResult.cancelled)

  pub dismiss : WifiConfiguration B → WifiConfiguration B
  unfolding discard
  dismiss w = if is_failed w.phase then discard w.reason w else w

  pub cancel_physical : WifiConfiguration B → WifiConfiguration B
  unfolding discard
  cancel_physical w = if is_approval w.phase then discard Reason.cancelled w else w

module _ {B : Type 0} (backend : WifiBackend B) where
  open backend use {available, connected, current, begin, progress}

  pub published : WifiConfiguration B → WifiConfiguration B
  published w =
      if is_applying w.phase then record w { backend = backend.published w.backend } else w

  -- The part of `propose` after the candidate is complete.
  accept : Credentials → Bool → ℕ → ℕ → ℕ → WifiConfiguration B → WifiConfiguration B
  accept candidate password_change generation id now w = next (record w {
    candidate = candidate;
    password_change = password_change;
    owner = generation;
    started = now;
    request = id;
    phase = Phase.approval;
    reason = Reason.no_reason;
    proposed = candidate.ssid;
    remaining_ms = 60000;
  })

  -- The candidate of `propose`: the current credentials with the name and, if it is given, the password.
  candidate_of : List ℕ → List ℕ → Credentials → Credentials
  candidate_of ssid password c = record {
    version = 2;
    origin = 2;
    ssid = padded 33 (c_string ssid);
    pass = padded 64 (c_string (if given password then password else c.pass));
  }

  valid_proposal : List ℕ → List ℕ → ℕ → ℕ → Bool
  valid_proposal ssid password generation id =
      not (generation == 0)
      && not (id == 0)
      && text ssid 33 1 32
      && text password 64 0 63
      && (not (given password) || text password 64 8 63)

  pub propose :
      List ℕ → List ℕ → ℕ → ℕ → ℕ → ℕ → WifiConfiguration B → WifiConfiguration B × WifiResult
  unfolding active valid_proposal accept candidate_of
  propose ssid password base generation id now w =
      let c = current w.backend in
      let change = given password && not (bytes_eq (c_string password) (c_string c.pass)) in
      if active w
      then (w, WifiResult.busy)
      else if not (valid_proposal ssid password generation id)
      then (w, WifiResult.invalid)
      else if not (base == w.base)
      then (w, WifiResult.conflict)
      else if not (available w.backend) || not (connected generation w.backend)
      then (w, WifiResult.unavailable)
      else if bytes_eq (c_string ssid) (c_string c.ssid) && not change
      then (record w { candidate = no_credentials; password_change = change }, WifiResult.no_change)
      else (accept (candidate_of ssid password c) change generation id now w, WifiResult.accepted)

  pub approve : ℕ → WifiConfiguration B → WifiConfiguration B × Bool
  unfolding discard
  approve now w =
      if not (is_approval w.phase)
      then (w, false)
      else if leb 60000 (sub32 now w.started)
      then (discard Reason.expired w, false)
      else if not (connected w.owner w.backend)
      then (discard Reason.disconnected w, false)
      else if not (available w.backend)
      then (record (discard Reason.unavailable w) { phase = Phase.failed }, false)
      else let (begun, b) = begin w.candidate w.backend in
        let w1 : WifiConfiguration B = record w { backend = b } in
        if not begun
        then (record (discard Reason.unavailable w1) { phase = Phase.failed }, false)
        else (
          next (record w1 { candidate = no_credentials; phase = Phase.applying; remaining_ms = 0 }),
          true,
        )

  -- The part of `poll` in the phase `approval`.
  wait : ℕ → WifiConfiguration B → WifiConfiguration B
  unfolding discard
  wait now w =
      let elapsed = sub32 now w.started in
      let left = ((60000 - elapsed + 999) / 1000) * 1000 in
      if not (connected w.owner w.backend)
      then discard Reason.disconnected w
      else if leb 60000 elapsed
      then discard Reason.expired w
      else if left == w.remaining_ms
      then w
      else next (record w { remaining_ms = left })

  -- The part of `poll` in the phase `applying`, with the end of the work.
  finish : Work → WifiConfiguration B → WifiConfiguration B
  unfolding discard
  finish result w =
      let c = current w.backend in
      let w1 : WifiConfiguration B = record w { ssid = c.ssid; origin = c.origin } in
      elim result [
        | Work.pending ↦ w
        | Work.done ↦ discard Reason.no_reason (record w1 { base = u64 (w.base + 1) })
        | Work.storage_error ↦ record (discard Reason.storage w1) { phase = Phase.failed }
        | Work.radio_error ↦ record (discard Reason.radio w1) { phase = Phase.failed }
        | Work.rollback_error ↦ record (discard Reason.rollback w1) { phase = Phase.failed }
      ]

  -- The rest of `poll`, after the availability is up to date.
  work : Bool → ℕ → WifiConfiguration B → WifiConfiguration B
  unfolding wait finish
  work is_ready now w =
      if is_approval w.phase
      then wait now w
      else if is_applying w.phase
      then (let (result, b) = progress w.backend in finish result (record w { backend = b }))
      else if not w.initialized && is_ready
      then (let c = current w.backend in
          next (record w { ssid = c.ssid; origin = c.origin; initialized = true }))
      else w

  pub poll : ℕ → WifiConfiguration B → WifiConfiguration B
  unfolding work
  poll now w =
      let is_ready = available w.backend in
      let same = (w.available && is_ready) || (not w.available && not is_ready) in
      work is_ready now (if same then w else next (record w { available = is_ready }))
