-- ===== src/Maintenance/Progress.antt =====
-- A restart that is not cancelled is carried out: whatever turns the transport needs, if they are within the deadline and it
-- does not fail, the turn after them executes it.
use m5stack_core_s3se_dmx_co.Base.{
  ℕ, ◌+◌, ◌≡◌, ◌≤◌, ◌<◌, ◌⊎◌, inl, inr, Bool, true, false, List, [], ◌∷◌, All, arith, refl, sym,
  subst, sub32,
}
use m5stack_core_s3se_dmx_co.Maintenance.{
  Action, DeviceMaintenance, MaintenanceBackend, Phase, Reason, Step, commit, poll, poll_in,
  remaining_seconds, settle,
}
use m5stack_core_s3se_dmx_co.Maintenance as Maintenance

-- A turn of the owner: its times, whether the device is a sender, and what the outside has done to the transport since the turn
-- before.
pub record Turn (B : Type 0) : Type 0 where
  pub now : ℕ
  pub now_us : ℕ
  pub sender : Bool
  pub outside : B → B

-- Within the two seconds that a restart committed at `start` has.
abbrev pub InTime : {B : Type 0} → ℕ → List (Turn B) → Type 0
InTime start ts = All (λ t. sub32 t.now start < 2000) ts

module _ {B : Type 0} (backend : MaintenanceBackend B) where
  open backend use {begin, zero_frame, quiesce, execute}

  pub turn : Turn B → DeviceMaintenance B → DeviceMaintenance B
  turn t m = poll backend t.now t.now_us t.sender (record m { backend = t.outside m.backend })

  pub turns : List (Turn B) → DeviceMaintenance B → DeviceMaintenance B
  turns [] m = m
  turns (t ∷ ts) m = turns ts (turn t m)

  -- The transport has come to rest, and no turn is left, or it has not and `rest` holds of the turns that are left.
  abbrev pub Ends : Step → List (Turn B) → Type 0 → Type 0
  Ends step ts rest = ((step ≡ Step.ready) × (ts ≡ [])) ⊎ ((step ≡ Step.pending) × rest)

  -- The transport is asked to come to rest in each of the turns, and has in the last.
  unfoldable pub Rests : B → List (Turn B) → Type 0
  Rests b [] = true ≡ false
  Rests b (t ∷ ts) = let (step, b1) = quiesce t.now_us (t.outside b) in Ends step ts (Rests b1 ts)

  -- The transport sends zeros in turn after turn, of which `k` frames are sent before; with the third it is asked to come to
  -- rest, and has in the last turn.
  unfoldable pub Drains : ℕ → B → List (Turn B) → Type 0
  Drains k b [] = true ≡ false
  Drains k b (t ∷ ts) =
      let (step, b1) = zero_frame t.now_us (t.outside b) in
      let (step2, b2) = quiesce t.now_us b1 in
      ((step ≡ Step.pending) × Drains k b1 ts)
      ⊎ ((step ≡ Step.ready) × (k < 2) × Drains (k + 1) b1 ts)
      ⊎ ((step ≡ Step.ready) × (k ≡ 2) × Ends step2 ts (Rests b2 ts))

  -- What the transport has to do after the commitment: a sender drains, and a receiver rests.
  abbrev pub Finishes : Bool → B → List (Turn B) → Type 0
  Finishes true b ts = Drains 0 b ts
  Finishes false b ts = Rests b ts

  -- A restart committed at `start`.
  abbrev IsIn : Phase → ℕ → DeviceMaintenance B → Type 0
  IsIn phase start m = (m.phase ≡ phase) × (m.started ≡ start) × (m.action ≡ Action.restart)

  abbrev IsReady : DeviceMaintenance B → Type 0
  IsReady m = (m.phase ≡ Phase.executing) × (m.action ≡ Action.restart)

  rest-turn :
      (start : ℕ) (t : Turn B) (m : DeviceMaintenance B)
      → IsIn Phase.quiescing start m
      → sub32 t.now start < 2000
      → let (step, b) = quiesce t.now_us (t.outside m.backend) in
        (step ≡ Step.ready → IsReady (turn t m))
        × (step ≡ Step.pending → IsIn Phase.quiescing start (turn t m) × ((turn t m).backend ≡ b))
  unfolding turn poll poll_in settle
  rest-turn start t m i early = ground (arith, i)

  drain-turn :
      (start k : ℕ) (t : Turn B) (m : DeviceMaintenance B)
      → IsIn Phase.zeroing start m
      → m.zeros ≡ k
      → sub32 t.now start < 2000
      → let (step, b) = zero_frame t.now_us (t.outside m.backend) in
        let (step2, b2) = quiesce t.now_us b in
        let n = turn t m in
        (step ≡ Step.pending → IsIn Phase.zeroing start n × (n.zeros ≡ k) × (n.backend ≡ b))
        × (step ≡ Step.ready
            → k < 2
            → IsIn Phase.zeroing start n × (n.zeros ≡ k + 1) × (n.backend ≡ b))
        × (step ≡ Step.ready → k ≡ 2 → step2 ≡ Step.ready → IsReady n)
        × (step ≡ Step.ready
            → k ≡ 2
            → step2 ≡ Step.pending
            → IsIn Phase.quiescing start n × (n.backend ≡ b2))
  unfolding turn poll poll_in Maintenance.zero settle
  drain-turn start k t m i z early = ground (arith, i)

  executing_rested :
      (start : ℕ) (ts : List (Turn B)) (m : DeviceMaintenance B)
      → IsIn Phase.quiescing start m
      → InTime start ts
      → Rests m.backend ts
      → IsReady (turns ts m)
  unfolding turns Rests
  executing_rested start [] m i early r = cc
  executing_rested start (t ∷ ts) m i early (inl (ready, last)) =
      rw last ((rest-turn start t m i early.0).0 ready)
  executing_rested start (t ∷ ts) m i early (inr (pending, rest)) =
      let (next, same) = (rest-turn start t m i early.0).1 pending in
      executing_rested start ts (turn t m) next early.1 (subst (λ b. Rests b ts) (sym same) rest)

  executing_drained :
      (start k : ℕ) (ts : List (Turn B)) (m : DeviceMaintenance B)
      → IsIn Phase.zeroing start m
      → m.zeros ≡ k
      → InTime start ts
      → Drains k m.backend ts
      → IsReady (turns ts m)
  unfolding turns Drains
  executing_drained start k [] m i z early r = cc
  executing_drained start k (t ∷ ts) m i z early (inl (pending, rest)) =
      let (next, sent, same) = (drain-turn start k t m i z early.0).0 pending in
      executing_drained start k ts (turn t m) next sent early.1
        (subst (λ b. Drains k b ts) (sym same) rest)
  executing_drained start k (t ∷ ts) m i z early (inr (inl (ready, few, rest))) =
      let (next, sent, same) = (drain-turn start k t m i z early.0).1 ready few in
      executing_drained start (k + 1) ts (turn t m) next sent early.1
        (subst (λ b. Drains (k + 1) b ts) (sym same) rest)
  executing_drained start k (t ∷ ts) m i z early (inr (inr (ready, third, inl (rested, last)))) =
      rw last ((drain-turn start k t m i z early.0).2 ready third rested)
  executing_drained start k (t ∷ ts) m i z early (inr (inr (ready, third, inr (resting, rest)))) =
      let (next, same) = (drain-turn start k t m i z early.0).3 ready third resting in
      executing_rested start ts (turn t m) next early.1 (subst (λ b. Rests b ts) (sym same) rest)

  commit-turn :
      (t : Turn B) (m : DeviceMaintenance B)
      → IsIn Phase.countdown m.started m
      → 5000 ≤ sub32 t.now m.started
      → let n = turn t m in
        (n.backend ≡ begin t.sender (t.outside m.backend))
        × (t.sender ≡ true → IsIn Phase.zeroing t.now n × (n.zeros ≡ 0))
        × (t.sender ≡ false → IsIn Phase.quiescing t.now n)
  unfolding turn poll poll_in commit remaining_seconds
  commit-turn t m i late = ground (arith, i)

  executing_finished :
      (start : ℕ) (sender : Bool) (ts : List (Turn B)) (m : DeviceMaintenance B)
      → (sender ≡ true → IsIn Phase.zeroing start m × (m.zeros ≡ 0))
      → (sender ≡ false → IsIn Phase.quiescing start m)
      → InTime start ts
      → Finishes sender m.backend ts
      → IsReady (turns ts m)
  executing_finished start true ts m i j early r =
      executing_drained start 0 ts m (i refl).0 (i refl).1 early r
  executing_finished start false ts m i j early r = executing_rested start ts m (j refl) early r

  executed :
      (t : Turn B) (m : DeviceMaintenance B)
      → IsReady m
      → ((turn t m).backend ≡ execute Action.restart (t.outside m.backend))
        × ((turn t m).reason ≡ Reason.returned)
  unfolding turn poll poll_in Maintenance.fail
  executed t m i = ground (arith, i)

  -- A restart whose countdown of five seconds has passed is carried out. If the transport does not fail, and within two seconds
  -- of the turn `t` that commits it a turn finds it at rest, after three frames of zeros if the device was a sender,
  -- then the turn `u` after that hands it the action, which does not return on the device. In any of the turns it
  -- may not be done yet, and between two of them it may be changed from outside.
  pub poll-executes :
      (t : Turn B) (ts : List (Turn B)) (u : Turn B) (m : DeviceMaintenance B)
      → m.phase ≡ Phase.countdown
      → m.action ≡ Action.restart
      → 5000 ≤ sub32 t.now m.started
      → InTime t.now ts
      → Finishes t.sender (begin t.sender (t.outside m.backend)) ts
      → let last = turns ts (turn t m) in
        ((turn u last).backend ≡ execute Action.restart (u.outside last.backend))
        × ((turn u last).reason ≡ Reason.returned)
  poll-executes t ts u m p a late early r =
      let (same, sends, receives) = commit-turn t m (p, refl, a) late in
      executed u _ (
        executing_finished t.now t.sender ts (turn t m) sends receives early
          (subst (λ b. Finishes t.sender b ts) (sym same) r))
