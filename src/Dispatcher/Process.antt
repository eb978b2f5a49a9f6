-- ===== src/Dispatcher/Process.antt =====
-- `process` and `executeLocal`: which of the waiting commands are carried out, in which order, and when the
-- loop stops.
use m5stack_core_s3se_dmx_co.Base.{
  ℕ, zero, suc, ◌+◌, ◌-◌, ◌%◌, ◌≤◌, ◌<◌, ◌≡◌, ◌⊎◌, refl, ◌∙◌, Bool, true, false, not, ◌&&◌, ◌||◌,
  List, [], ◌∷◌, ◌++◌, arith, get_or, drop, take, ◌==◌, ltb, if◌then◌else◌, Bool-cases, inl, inr,
}
use m5stack_core_s3se_dmx_co.Command.{ControllerCommand, CommandStatus}
use m5stack_core_s3se_dmx_co.Controller.Types.{DmxPresetStorage}
use m5stack_core_s3se_dmx_co.Dispatcher.{
  validate, apply, publish, complete, process_one, process_loop, process, admits,
}
use m5stack_core_s3se_dmx_co.Dispatcher.Queue.{IsValid, contents, process_one-frame}
use m5stack_core_s3se_dmx_co.Dispatcher.Rules.{is_accepted}
use m5stack_core_s3se_dmx_co.Dispatcher.Types.{
  Entry, CommandDispatcher, Callbacks, no_entry, DispatchResult,
}

-- What the commands see and change of a dispatcher: all but the queue and its flags.
pub record SameCore {S E : Type 0} (d e : CommandDispatcher S E) : Type 0 where
  pub controller : d.controller ≡ e.controller
  pub context : d.context ≡ e.context
  pub sender : d.sender_active ≡ e.sender_active

module _ {S E : Type 0} (store : DmxPresetStorage S) (callbacks : Callbacks S E) where
  -- One command carried out, with its completion.
  pub carry_out : Entry → CommandDispatcher S E → CommandDispatcher S E
  carry_out e d =
      let (d', r) = apply store callbacks e.command e.ticket d in
      complete store callbacks e.command r d'

  -- The specification: the commands of a list carried out one after another.
  unfoldable pub serve : List Entry → CommandDispatcher S E → CommandDispatcher S E
  serve [] d = d
  serve (e ∷ es) d = serve es (carry_out e d)

  apply-SameCore :
      (cmd : ControllerCommand) (ticket : ℕ) (d e : CommandDispatcher S E)
      → SameCore d e
      → SameCore (apply store callbacks cmd ticket d).0 (apply store callbacks cmd ticket e).0
        × ((apply store callbacks cmd ticket d).1 ≡ (apply store callbacks cmd ticket e).1)
  unfolding apply publish validate
  apply-SameCore cmd ticket d e h = ground arith

  complete-SameCore :
      (cmd : ControllerCommand) (q r : DispatchResult) (d e : CommandDispatcher S E)
      → q ≡ r
      → SameCore d e
      → SameCore (complete store callbacks cmd q d) (complete store callbacks cmd r e)
  unfolding complete
  complete-SameCore cmd q r d e same h = ground arith

  pub carry_out-SameCore :
      (x : Entry) (d e : CommandDispatcher S E)
      → SameCore d e
      → SameCore (carry_out x d) (carry_out x e)
  unfolding carry_out
  carry_out-SameCore x d e h =
      let (core, same) = apply-SameCore x.command x.ticket d e h in
      complete-SameCore x.command _ _ _ _ same core

  serve-SameCore :
      (es : List Entry) (d e : CommandDispatcher S E)
      → SameCore d e
      → SameCore (serve es d) (serve es e)
  unfolding serve
  serve-SameCore [] d e h = h
  serve-SameCore (x ∷ xs) d e h = serve-SameCore xs _ _ (carry_out-SameCore x d e h)

  pub serve-append :
      (xs : List Entry) (x : Entry) (d : CommandDispatcher S E)
      → serve (xs ++ x ∷ []) d ≡ carry_out x (serve xs d)
  unfolding serve
  serve-append [] x d = refl
  serve-append (y ∷ ys) x d = serve-append ys x (carry_out y d)

  pub process_one-SameCore :
      (here : Bool) (d : CommandDispatcher S E)
      → SameCore
          (process_one store callbacks here d).0
          (carry_out (get_or d.queue d.head no_entry) d)
  unfolding process_one
  process_one-SameCore here d =
      let core =
        carry_out-SameCore (get_or d.queue d.head no_entry)
          (record d { head = (d.head + 1) % 32; count = d.count - 1; local_execution = here }) d
          (record { controller = refl; context = refl; sender = refl }) in
      unfold carry_out in
      record { controller = core.controller; context = core.context; sender = core.sender }

  -- The oldest command is valid and the admission test holds it back.
  abbrev pub HeldBack : CommandDispatcher S E → Type 0
  HeldBack d =
      let cmd = (get_or d.queue d.head no_entry).command in
      (1 ≤ d.count)
      × (validate cmd d ≡ CommandStatus.accepted)
      × (admits store callbacks cmd d ≡ false)

  -- What `n` rounds of the loop have done to `d`, of at most `rounds`.
  record Served (rounds n : ℕ) (d out : CommandDispatcher S E) : Type 0 where
    valid : IsValid out
    bounded : n ≤ rounds
    counted : n ≤ d.count
    waiting : contents out ≡ drop n (contents d)
    core : SameCore out (serve (take n (contents d)) d)
    stopped : n < rounds → (out.count ≡ 0) ⊎ HeldBack out
    ticket : out.next_ticket ≡ d.next_ticket

  -- The test by which the loop ends.
  abbrev stops : CommandDispatcher S E → Bool
  stops d =
      let cmd = (get_or d.queue d.head no_entry).command in
      d.count == 0 || (is_accepted (validate cmd d) && not (admits store callbacks cmd d))

  stops_why : (d : CommandDispatcher S E) → stops d ≡ true → (d.count ≡ 0) ⊎ HeldBack d
  stops_why d h = ground arith

  goes_on : (d : CommandDispatcher S E) → stops d ≡ false → 1 ≤ d.count
  goes_on d h = ground arith

  none-Served :
      (rounds : ℕ) (d : CommandDispatcher S E)
      → IsValid d
      → (0 < rounds → (d.count ≡ 0) ⊎ HeldBack d)
      → Served rounds 0 d d
  unfolding serve
  none-Served rounds d v h = record {
    valid = v;
    bounded = omega arith;
    counted = omega arith;
    waiting = refl;
    core = record { controller = refl; context = refl; sender = refl };
    stopped = h;
    ticket = refl;
  }

  one_more :
      (rounds n : ℕ) (d out : CommandDispatcher S E)
      → IsValid d
      → 1 ≤ d.count
      → Served rounds n (process_one store callbacks false d).0 out
      → Served (suc rounds) (suc n) d out
  unfolding serve
  one_more rounds n d out v some_entry s =
      let (valid, order, fewer, ticket, flag) =
        process_one-frame store callbacks false d v some_entry in
      record {
        valid = s.valid;
        bounded = omega (arith, s.bounded);
        counted = omega (arith, s.counted, fewer, some_entry);
        waiting = rw order (s.waiting);
        core = rw order (
            same_trans s.core (
              serve-SameCore (take n (contents (process_one store callbacks false d).0)) _ _
                (process_one-SameCore false d)));
        stopped = λ h. s.stopped (omega arith);
        ticket = s.ticket ∙ ticket;
      }
    where
      same_trans : {a b e : CommandDispatcher S E} → SameCore a b → SameCore b e → SameCore a e
      same_trans h k = record {
        controller = h.controller ∙ k.controller;
        context = h.context ∙ k.context;
        sender = h.sender ∙ k.sender;
      }

  process_loop-Served :
      (rounds done : ℕ) (d : CommandDispatcher S E)
      → IsValid d
      → (n : ℕ) × ((process_loop store callbacks rounds done d).1 ≡ done + n)
        × Served rounds n d (process_loop store callbacks rounds done d).0
  unfolding process_loop
  process_loop-Served zero done d v =
      (0, omega arith, none-Served 0 d v (λ h. absurd (omega arith)))
  process_loop-Served (suc rounds) done d v = elim (Bool-cases (stops d)) [
    | inl e ↦ rw e (0, omega arith, none-Served (suc rounds) d v (λ h. stops_why d e))
    | inr e ↦
        let (valid, order, fewer, ticket, flag) =
          process_one-frame store callbacks false d v (goes_on d e) in
        let (n, sum, served) =
          process_loop-Served rounds (done + 1) (process_one store callbacks false d).0 valid in
        rw e (suc n, omega (arith, sum), one_more rounds n d _ v (goes_on d e) served)
  ]

in_budget : (b n : ℕ) → n ≤ (if ltb 32 b then 32 else b) → (n ≤ b) × (n ≤ 32)
in_budget b n h = ground arith

room : (b n : ℕ) → n < b → n < 32 → n < (if ltb 32 b then 32 else b)
room b n h k = ground arith

-- What `process` has done to an idle dispatcher `d` when it has carried out `n` commands.
pub record Processed {S E : Type 0} (store : DmxPresetStorage S) (callbacks : Callbacks S E)
    (budget n : ℕ) (d out : CommandDispatcher S E) : Type 0 where
  pub valid : IsValid out
  pub idle : out.processing ≡ false
  pub within_budget : n ≤ budget
  pub within_capacity : n ≤ 32
  pub counted : n ≤ d.count
  pub waiting : contents out ≡ drop n (contents d)
  pub controller : out.controller ≡ (serve store callbacks (take n (contents d)) d).controller
  pub context : out.context ≡ (serve store callbacks (take n (contents d)) d).context
  pub sender : out.sender_active ≡ (serve store callbacks (take n (contents d)) d).sender_active
  pub stopped : n < budget → n < 32 → (out.count ≡ 0) ⊎ HeldBack store callbacks out
  pub ticket : out.next_ticket ≡ d.next_ticket

module _ {S E : Type 0} (store : DmxPresetStorage S) (callbacks : Callbacks S E) where
  HeldBack-idle :
      (d : CommandDispatcher S E)
      → HeldBack store callbacks d
      → HeldBack store callbacks (record d { processing = false })
  unfolding validate admits
  HeldBack-idle d h = h

  idle_stop :
      (d : CommandDispatcher S E)
      → (d.count ≡ 0) ⊎ HeldBack store callbacks d
      → (d.count ≡ 0) ⊎ HeldBack store callbacks (record d { processing = false })
  idle_stop d (inl h) = inl h
  idle_stop d (inr h) = inr (HeldBack-idle d h)

  process_idle :
      (budget : ℕ) (d : CommandDispatcher S E)
      → d.processing ≡ false
      → process store callbacks budget d ≡ (
          let (d', done) =
            process_loop store callbacks
              (if ltb 32 budget then 32 else budget)
              0
              (record d { processing = true }) in
          (record d' { processing = false }, done))
  unfolding process
  process_idle budget d idle = ground arith

  -- On a valid idle dispatcher `process` returns the number of commands that it carried out, at most the budget,
  -- at most 32 and at most as many as waited: the oldest that waited, in their order, as if they had been carried out one after another
  -- with no queue. The rest still waits in order. If it stopped short of the budget and of 32, the queue is
  -- empty or its oldest command is valid and held back by the admission test.
  pub process_refines :
      (budget : ℕ) (d : CommandDispatcher S E)
      → IsValid d
      → d.processing ≡ false
      → let (out, n) = process store callbacks budget d in Processed store callbacks budget n d out
  process_refines budget d v idle =
      let bounded = (if ltb 32 budget then 32 else budget) in
      let (n, sum, served) =
        process_loop-Served store callbacks bounded 0 (record d { processing = true })
          (record { storage = v.storage; head_in = v.head_in; count_in = v.count_in }) in
      let same =
        serve-SameCore store callbacks (take n (contents d)) (record d { processing = true }) d
          (record { controller = refl; context = refl; sender = refl }) in
      let e : (process_loop store callbacks bounded 0 (record d { processing = true })).1 ≡ n =
        omega (arith, sum) in
      rw (process_idle budget d idle, e)
        (record {
          valid = record {
            storage = served.valid.storage;
            head_in = served.valid.head_in;
            count_in = served.valid.count_in;
          };
          idle = refl;
          within_budget = (in_budget budget n served.bounded).0;
          within_capacity = (in_budget budget n served.bounded).1;
          counted = served.counted;
          waiting = served.waiting;
          controller = served.core.controller ∙ same.controller;
          context = served.core.context ∙ same.context;
          sender = served.core.sender ∙ same.sender;
          stopped = λ h k. idle_stop _ (served.stopped (room budget n h k));
          ticket = served.ticket;
        })
