-- ===== src/Examples/Device.antt =====
-- The theorems of the settings, of the maintenance and of the taps, on a device whose flash is empty.
use m5stack_core_s3se_dmx_co.Base.{
  inl, inr, ◌%◌, ◌==◌, if◌then◌else◌, ℕ, ◌+◌, ◌≡◌, Bool, true, false, none, List, [], ◌∷◌, arith,
  refl,
}
use m5stack_core_s3se_dmx_co.Settings.{
  DeviceSetting, DeviceSettings, DeviceSettingsBackend, Each, SettingsEdit, SettingsResult, begin,
  edit,
}
use m5stack_core_s3se_dmx_co.Settings.Valid
use m5stack_core_s3se_dmx_co.Settings.Valid.{SettingsOperation}
use m5stack_core_s3se_dmx_co.Settings.Cancel.{FurtherEdit}
use m5stack_core_s3se_dmx_co.Maintenance.{
  Action, DeviceMaintenance, MaintenanceBackend, MaintenanceResult, Phase, Reason, Step,
  is_committed, request,
}
use m5stack_core_s3se_dmx_co.Maintenance.Phases.{Event}
use m5stack_core_s3se_dmx_co.Maintenance.Countdown.{handles, committed_forever}
use m5stack_core_s3se_dmx_co.Maintenance.Progress.{
  Drains, InTime, Rests, Turn, turn, turns, poll-executes,
}

-- A flash that is empty and takes every write.
abbrev pub blank : DeviceSettingsBackend ℕ
blank = record { read = λ k n. (none, n); write = λ k v n. (true, n + 1); put_on = λ k v n. n }

abbrev pub nothing_marked : Each Bool
nothing_marked = record { of_brightness = false; of_timeout = false; of_volume = false }

abbrev pub defaults : DeviceSettings ℕ
defaults = record {
  backend = 0;
  revision = 0;
  values = record { of_brightness = 3; of_timeout = 2; of_volume = 2 };
  persisted = nothing_marked;
  durable = record { of_brightness = 0; of_timeout = 0; of_volume = 0 };
  known = nothing_marked;
  pending = nothing_marked;
  preview = record {
    owner = 0;
    gesture = 0;
    started = 0;
    touched = 0;
    key = DeviceSetting.brightness;
    value = 0;
    saved = false;
  };
}

abbrev some_asked : List SettingsOperation
some_asked = SettingsOperation.assign DeviceSetting.brightness 5 true ∷ SettingsOperation.flush ∷ []

abbrev some_further : List FurtherEdit
some_further = record { wanted = 4; base = 1; now = 120 } ∷ []

abbrev opened : SettingsResult
opened = (edit blank SettingsEdit.preview 1 1 DeviceSetting.brightness 5 0 100 true defaults).1

-- A transport that is ready with a frame of zeros, and at rest, in every second turn.
abbrev pub prompt : MaintenanceBackend ℕ
prompt = record {
  is_busy = λ b. false;
  begin = λ sender b. 0;
  zero_frame = λ now b. (if b % 2 == 0 then Step.pending else Step.ready, b + 1);
  quiesce = λ now b. (if b % 2 == 0 then Step.pending else Step.ready, b + 1);
  execute = λ action b. b;
}

abbrev at_rest : DeviceMaintenance ℕ
at_rest = record {
  backend = 0;
  revision = 0;
  request_id = 0;
  remaining_ms = 0;
  action = Action.none_asked;
  phase = Phase.idle;
  reason = Reason.no_reason;
  owner = 0;
  started = 0;
  zeros = 0;
}

abbrev asked : DeviceMaintenance ℕ
asked = (request prompt Action.restart 1 1 50 at_rest).0

restart-accepted :
    request prompt Action.restart 1 1 50 at_rest ≡ (asked, MaintenanceResult.accepted)
unfolding request
restart-accepted = refl

abbrev at : ℕ → Turn ℕ
at now = record { now = now; now_us = 0; sender = true; outside = λ b. b }

abbrev some_turns : List (Turn ℕ)
some_turns = at 5060 ∷ at 5070 ∷ at 5080 ∷ at 5090 ∷ at 5100 ∷ at 5110 ∷ at 5120 ∷ []

some_turns-InTime : InTime 5050 some_turns
some_turns-InTime = (
  omega arith,
  (omega arith, (omega arith, (omega arith, (omega arith, (omega arith, (omega arith, tt)))))),
)

turns_enough : Drains prompt 0 0 some_turns
unfolding Drains Rests
turns_enough = inl (
  refl,
  inr (
      inl (
        refl,
        omega arith,
        inl (
          refl,
          inr (
              inl (
                refl,
                omega arith,
                inl (refl, inr (inr (refl, refl, inr (refl, inl (refl, refl))))),
              )),
        ),
      )),
)

poll-executes_example :
    let last = turns prompt some_turns (turn prompt (at 5050) asked) in
    ((turn prompt (at 5130) last).backend ≡ last.backend)
    × ((turn prompt (at 5130) last).reason ≡ Reason.returned)
unfolding request
poll-executes_example =
    poll-executes prompt (at 5050) some_turns (at 5130) asked refl refl (omega arith)
      some_turns-InTime turns_enough

abbrev quieting : DeviceMaintenance ℕ
quieting = record at_rest { phase = Phase.quiescing; action = Action.restart }

committed_forever_example :
    is_committed (handles prompt (Event.withdraw 1 1 60 ∷ []) quieting).phase ≡ true
committed_forever_example = committed_forever prompt (Event.withdraw 1 1 60 ∷ []) quieting refl
