-- ===== src/Dispatcher/Local.antt =====
-- `executeLocal`: a command of the owner runs behind all that wait, or not at all.
use m5stack_core_s3se_dmx_co.Base.{
  ℕ, zero, suc, ◌≡◌, ◌≢◌, ◌⊎◌, refl, sym, ◌∙◌, ap, Bool, true, false, not, ◌||◌, List, [], ◌∷◌,
  ◌++◌, arith, get_or, length, drop, take, ◌==◌, Bool-cases, inl, inr, subst,
}
use m5stack_core_s3se_dmx_co.Base.Ring.{length-window}
use m5stack_core_s3se_dmx_co.Command.{ControllerCommand, CommandStatus}
use m5stack_core_s3se_dmx_co.Controller.Types.{DmxPresetStorage}
use m5stack_core_s3se_dmx_co.Dispatcher.{
  validate, submit, apply, publish, process_one, process, execute_local, run_local, admits,
}
use m5stack_core_s3se_dmx_co.Dispatcher.Queue.{IsValid, contents, submit_refines, process_one-frame}
use m5stack_core_s3se_dmx_co.Dispatcher.Process.{
  SameCore, carry_out, carry_out-SameCore, process_one-SameCore, serve, serve-append,
  process_refines,
}
use m5stack_core_s3se_dmx_co.Dispatcher.Types.{
  Entry, CommandDispatcher, Callbacks, no_entry, DispatchResult,
}

take-all : {A : Type 0} (n : ℕ) (xs : List A) → drop n xs ≡ [] → take n xs ≡ xs
take-all zero xs h = sym h
take-all (suc n) [] h = refl
take-all (suc n) (x ∷ xs) h = ap (λ ys. x ∷ ys) (take-all n xs h)

module _ {S E : Type 0} (store : DmxPresetStorage S) (callbacks : Callbacks S E) where
  ticket-process_one :
      (here : Bool) (d : CommandDispatcher S E)
      → (process_one store callbacks here d).1.ticket ≡ (get_or d.queue d.head no_entry).ticket
  unfolding process_one apply publish
  ticket-process_one here d = ground arith

  submit-SameCore :
      (cmd : ControllerCommand) (d : CommandDispatcher S E)
      → SameCore (submit cmd d).0 d × ((submit cmd d).0.processing ≡ d.processing)
  unfolding submit
  submit-SameCore cmd d = ground arith

  -- What is left of a command that was accepted by an empty queue.
  record Ran (cmd : ControllerCommand) (ticket : ℕ) (d : CommandDispatcher S E)
      (out : CommandDispatcher S E × DispatchResult) : Type 0 where
    valid : IsValid out.0
    empty : contents out.0 ≡ []
    number : out.1.ticket ≡ ticket
    given : ticket ≢ 0
    core : SameCore out.0 (carry_out store callbacks (record { command = cmd; ticket = ticket }) d)

  -- One entry waits, and it is the one that the next command taken is.
  alone :
      (x : Entry) (d : CommandDispatcher S E)
      → IsValid d
      → contents d ≡ x ∷ []
      → x.ticket ≢ 0
      → Ran x.command x.ticket d (process_one store callbacks true d)
  alone x d v only given =
      let one : d.count ≡ 1 =
        sym (length-window no_entry 32 d.queue d.head d.count) ∙ ap length only in
      let (valid, order, fewer, next, flag) =
        process_one-frame store callbacks true d v (omega (arith, one)) in
      let oldest : get_or d.queue d.head no_entry ≡ x = cc (order, only) in
      record {
        valid = valid;
        empty = cc (order, only);
        number = ticket-process_one true d ∙ ap (λ (e : Entry). e.ticket) oldest;
        given = given;
        core = rw oldest at (process_one-SameCore store callbacks true d);
      }

  runs :
      (cmd : ControllerCommand) (d : CommandDispatcher S E)
      → IsValid d
      → d.count ≡ 0
      → (submit cmd d).1.status ≡ CommandStatus.accepted
      → let (d2, s) = submit cmd d in
        Ran cmd s.ticket d (process_one store callbacks true (record d2 { processing = true }))
  runs cmd d v none_waits h =
      let (d2, s) = submit cmd d in
      let (valid, accepted, refused, always) = submit_refines cmd d v in
      let none_there : contents d ≡ [] = rw none_waits in
      let entry : Entry = record { command = cmd; ticket = s.ticket } in
      let ran =
        alone entry (record d2 { processing = true })
          (record { storage = valid.storage; head_in = valid.head_in; count_in = valid.count_in })
          ((accepted h).0 ∙ ap (λ w. w ++ entry ∷ []) none_there) (accepted h).1 in
      let core =
        carry_out-SameCore store callbacks entry (record d2 { processing = true }) d
          (record {
            controller = (submit-SameCore cmd d).0.controller;
            context = (submit-SameCore cmd d).0.context;
            sender = (submit-SameCore cmd d).0.sender;
          }) in
      record {
        valid = ran.valid;
        empty = ran.empty;
        number = ran.number;
        given = ran.given;
        core = record {
          controller = ran.core.controller ∙ core.controller;
          context = ran.core.context ∙ core.context;
          sender = ran.core.sender ∙ core.sender;
        };
      }

  -- Commands wait, or the admission test or the validation refuses the command.
  abbrev pub Refuses : ControllerCommand → CommandDispatcher S E → Type 0
  Refuses cmd d =
      (d.count ≢ 0)
      ⊎ (admits store callbacks cmd d ≡ false)
      ⊎ (validate cmd d ≢ CommandStatus.accepted)

  -- What `executeLocal` has done to an idle dispatcher: `n` of the commands that waited, and its own if all
  -- of them.
  pub record Executed (cmd : ControllerCommand) (n : ℕ) (d : CommandDispatcher S E)
      (out : CommandDispatcher S E × DispatchResult) : Type 0 where
    pub valid : IsValid out.0
    pub idle : out.0.processing ≡ false
    pub waiting : contents out.0 ≡ drop n (contents d)
    pub not_run :
        out.1.ticket ≡ 0
        → (out.0.controller ≡ (serve store callbacks (take n (contents d)) d).controller)
          × Refuses cmd out.0
    pub run :
        out.1.ticket ≢ 0
        → (contents out.0 ≡ [])
          × (out.0.controller
              ≡ (serve store callbacks
                  (contents d ++ (record { command = cmd; ticket = out.1.ticket }) ∷ [])
                  d).controller)

  after_older :
      (cmd : ControllerCommand) (d : CommandDispatcher S E) (r : DispatchResult)
      → IsValid d
      → d.processing ≡ false
      → r.ticket ≡ 0
      → Refuses cmd (process store callbacks 32 d).0
      → let (out, n) = process store callbacks 32 d in Executed cmd n d (out, r)
  after_older cmd d r v idle none_given why =
      let p = process_refines store callbacks 32 d v idle in
      record {
        valid = p.valid;
        idle = p.idle;
        waiting = p.waiting;
        not_run = λ h. (p.controller, why);
        run = λ h. absurd (h none_given);
      }

  is_accepted? : (s : CommandStatus) → (s ≡ CommandStatus.accepted) ⊎ (s ≢ CommandStatus.accepted)
  is_accepted? s = grind arith

  -- The command has been refused for now, or it has run on an empty queue.
  Outcome :
      ControllerCommand → CommandDispatcher S E → CommandDispatcher S E × DispatchResult → Type 0
  Outcome cmd d out =
      ((out.0 ≡ d) × (out.1.ticket ≡ 0) × Refuses cmd d)
      ⊎ ((d.count ≡ 0) × (out.0.processing ≡ false) × Ran cmd out.1.ticket d out)

  stop_processing :
      (cmd : ControllerCommand) (t : ℕ) (d out : CommandDispatcher S E) (r : DispatchResult)
      → Ran cmd t d (out, r)
      → Ran cmd r.ticket d (record out { processing = false }, r)
  stop_processing cmd t d out r ran = record {
    valid = record {
      storage = ran.valid.storage;
      head_in = ran.valid.head_in;
      count_in = ran.valid.count_in;
    };
    empty = ran.empty;
    number = refl;
    given = λ e. ran.given (sym ran.number ∙ e);
    core = rw ran.number (record {
      controller = ran.core.controller;
      context = ran.core.context;
      sender = ran.core.sender;
    });
  }

  run_local-Outcome :
      (cmd : ControllerCommand) (before : ℕ) (d : CommandDispatcher S E)
      → IsValid d
      → d.processing ≡ false
      → Outcome cmd d (run_local store callbacks cmd before d)
  unfolding run_local Outcome
  run_local-Outcome cmd before d v idle =
      elim (Bool-cases (not (d.count == 0) || not (admits store callbacks cmd d))) [
        | inl e ↦ rw e (inl (refl, refl, ground arith))
        | inr e ↦ elim (is_accepted? (submit cmd d).1.status) [
          | inl h ↦
              rw (e, h)
                (inr
                  (ground arith, refl, stop_processing cmd _ d _ _ (runs cmd d v (ground arith) h)))
          | inr h ↦ rw e (inl (ground (arith, submit_refines cmd d v)))
        ]
      ]

  executed :
      (cmd : ControllerCommand) (d : CommandDispatcher S E)
      (out : CommandDispatcher S E × DispatchResult)
      → IsValid d
      → d.processing ≡ false
      → let (d1, n) = process store callbacks 32 d in Outcome cmd d1 out → Executed cmd n d out
  unfolding Outcome
  executed cmd d out v idle = elim [
    | inl (same, none_given, why) ↦
        subst (λ x. Executed cmd (process store callbacks 32 d).1 d (x, out.1)) (sym same)
          (after_older cmd d out.1 v idle none_given why)
    | inr (none_waits, stopped, ran) ↦
        let p = process_refines store callbacks 32 d v idle in
        let n = (process store callbacks 32 d).1 in
        let d1 = (process store callbacks 32 d).0 in
        let none_left : drop n (contents d) ≡ [] = sym p.waiting ∙ (rw none_waits) in
        let entry : Entry = record { command = cmd; ticket = out.1.ticket } in
        let core =
          carry_out-SameCore store callbacks entry d1
            (serve store callbacks (take n (contents d)) d)
            (record { controller = p.controller; context = p.context; sender = p.sender }) in
        record {
          valid = ran.valid;
          idle = stopped;
          waiting = ran.empty ∙ sym none_left;
          not_run = λ h. absurd (ran.given h);
          run = λ h. (
            ran.empty,
            rw serve-append (
                ran.core.controller
                ∙ subst
                    (λ w.
                      (carry_out store callbacks entry d1).controller
                      ≡ (carry_out store callbacks entry (serve store callbacks w d)).controller)
                    (take-all n (contents d) none_left) core.controller),
          );
        }
  ]

  execute_local-valid :
      (cmd : ControllerCommand) (d : CommandDispatcher S E)
      → d.processing ≡ false
      → validate cmd d ≡ CommandStatus.accepted
      → execute_local store callbacks cmd d
        ≡ run_local store callbacks cmd d.controller.revision (process store callbacks 32 d).0
  unfolding execute_local
  execute_local-valid cmd d idle h = ground arith

  execute_local-refused :
      (cmd : ControllerCommand) (d : CommandDispatcher S E)
      → d.processing ≡ false
      → validate cmd d ≢ CommandStatus.accepted
      → ((execute_local store callbacks cmd d).0 ≡ d)
        × ((execute_local store callbacks cmd d).1.ticket ≡ 0)
  unfolding execute_local
  execute_local-refused cmd d idle h = ground arith

  -- On a valid idle dispatcher a local command that is not valid changes nothing. One that is valid first has as many of
  -- the waiting commands carried out, in their order, as `process` with a budget of 32 carries out. If its
  -- result has a ticket, these were all, and the command itself was carried out behind them, and nothing
  -- waits. If the ticket is 0 the controller is as those left it, the rest still waits, and it is because commands wait or
  -- the admission test or the validation refuses the command now. The dispatcher is valid and idle again.
  pub execute_local_refines :
      (cmd : ControllerCommand) (d : CommandDispatcher S E)
      → IsValid d
      → d.processing ≡ false
      → let out = execute_local store callbacks cmd d in
        (validate cmd d ≢ CommandStatus.accepted → (out.0 ≡ d) × (out.1.ticket ≡ 0))
        × (validate cmd d ≡ CommandStatus.accepted
            → Executed cmd (process store callbacks 32 d).1 d out)
  execute_local_refines cmd d v idle = (
    execute_local-refused cmd d idle,
    λ h.
        let p = process_refines store callbacks 32 d v idle in
        rw (execute_local-valid cmd d idle h)
          (executed cmd d _ v idle (run_local-Outcome cmd _ _ p.valid p.idle)),
  )
