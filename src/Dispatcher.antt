-- ===== src/Dispatcher.antt =====
-- src/command_dispatcher.h and src/command_dispatcher.cpp: a queue of 32 commands in front of the
-- controller, with a publisher, an admission test and a completion callback.
pub mod Types
pub mod Rules
pub mod Queue
pub mod Process
pub mod Local
pub mod Agree
use m5stack_core_s3se_dmx_co.Base.{
  ℕ, zero, suc, ◌+◌, ◌-◌, ◌%◌, Bool, true, false, not, ◌&&◌, ◌||◌, Option, none, some, List, [],
  ◌∷◌, get_or, set, length, ◌==◌, ltb, if◌then◌else◌, u8, u32, ℤ, pos, negsuc, to_ℕ, within, eq_ℤ,
}
use m5stack_core_s3se_dmx_co.Command.{
  Command, ControllerCommand, CommandSource, CommandStatus, DmxChannelValue, dmx_max_patch_channels,
}
use m5stack_core_s3se_dmx_co.Controller.{
  DmxController, reset, set_channel, adjust_channel, set_channels, set_blackout, repeats,
}
use m5stack_core_s3se_dmx_co.Controller.Types.{
  Result, DmxPresetStorage, channel_count, preset_count,
}
use m5stack_core_s3se_dmx_co.Controller.Presets.{
  load_preset, save_preset, copy_preset, clear_preset, replace_archive, archive_valid,
}
use m5stack_core_s3se_dmx_co.Dispatcher.Types.{
  Entry, DispatchResult, CommandDispatcher, Callbacks, Submission, capacity, no_entry,
}
use m5stack_core_s3se_dmx_co.Dispatcher.Rules.{
  valid_payload, is_source, perform, domain_status, is_ok, publishes, is_accepted,
}

-- `++next_ticket_`, passing 0 over.
abbrev pub ticket_after : ℕ → ℕ
ticket_after t = if u32 (t + 1) == 0 then 1 else u32 (t + 1)

module _ {S E : Type 0} where
  pub set_sender_active : Bool → CommandDispatcher S E → CommandDispatcher S E
  set_sender_active active d = record d { sender_active = active }

  pub validate : ControllerCommand → CommandDispatcher S E → CommandStatus
  validate cmd d =
      if not (is_source cmd.source)
      then CommandStatus.invalid
      else if not (valid_payload cmd.command cmd.source d.controller)
      then CommandStatus.invalid
      else if d.sender_active
      then CommandStatus.accepted
      else CommandStatus.unsupported_mode

  pub submit : ControllerCommand → CommandDispatcher S E → CommandDispatcher S E × Submission
  unfolding validate
  submit cmd d =
      if d.processing
      then (d, record { status = CommandStatus.busy; ticket = 0 })
      else elim (validate cmd d) [
        | CommandStatus.accepted ↦
            if d.count == capacity
            then (d, record { status = CommandStatus.busy; ticket = 0 })
            else (
              record d {
                next_ticket = ticket_after d.next_ticket;
                queue =
                    set d.queue ((d.head + d.count) % capacity)
                      (record { command = cmd; ticket = ticket_after d.next_ticket });
                count = d.count + 1;
              },
              record { status = CommandStatus.accepted; ticket = ticket_after d.next_ticket },
            )
        | status ↦ (d, record { status = status; ticket = 0 })
      ]

module _ {S E : Type 0} (store : DmxPresetStorage S) (callbacks : Callbacks S E) where
  -- The last part of `apply`: the publisher is called where the output may have changed.
  publish :
      ControllerCommand
      → CommandDispatcher S E
      → DispatchResult
      → CommandDispatcher S E × DispatchResult
  publish cmd d r =
      if is_ok r.domain && publishes (not (r.revision_after == r.revision_before)) cmd.command
      then elim callbacks.publisher [
        | none ↦ (d, r)
        | some call ↦
            let (code, context) = call d.controller cmd d.context in
            (
              record d { context = context },
              record r {
                transport_result = code;
                status = if eq_ℤ code (pos 0) then r.status else CommandStatus.transport_error;
              },
            )
      ]
      else (d, r)

  pub apply : ControllerCommand → ℕ → CommandDispatcher S E → CommandDispatcher S E × DispatchResult
  apply cmd ticket d =
      let before = d.controller.revision in
      let refused : CommandStatus → CommandDispatcher S E × DispatchResult = λ status. (
        d,
        record {
          status = status;
          domain = Result.ok;
          ticket = ticket;
          revision_before = before;
          revision_after = before;
          transport_result = pos 0;
        },
      ) in
      elim (validate cmd d) [
        | CommandStatus.accepted ↦
            let (c, domain) = perform store (callbacks.gate d.context) cmd.command d.controller in
            publish cmd (record d { controller = c })
              (record {
                status = domain_status (not (c.revision == before)) domain;
                domain = domain;
                ticket = ticket;
                revision_before = before;
                revision_after = c.revision;
                transport_result = pos 0;
              })
        | status ↦ refused status
      ]

  -- The completion callback, if one is set.
  complete : ControllerCommand → DispatchResult → CommandDispatcher S E → CommandDispatcher S E
  complete cmd r d = elim callbacks.completion [
    | none ↦ d
    | some call ↦ record d { context = call d.controller cmd r d.context }
  ]

  pub process_one : Bool → CommandDispatcher S E → CommandDispatcher S E × DispatchResult
  unfolding apply complete
  process_one here d =
      let entry = get_or d.queue d.head no_entry in
      let taken : CommandDispatcher S E = record d {
        head = (d.head + 1) % capacity;
        count = d.count - 1;
        local_execution = here;
      } in
      let (d', r) = apply entry.command entry.ticket taken in
      (record (complete entry.command r d') { local_execution = false }, r)

  -- Whether the admission test, if one is set, lets a command through.
  pub admits : ControllerCommand → CommandDispatcher S E → Bool
  admits cmd d = elim callbacks.admission [
    | none ↦ true
    | some test ↦ test d.controller cmd d.context
  ]

  -- The loop of `process`, on the rounds left in the budget: it ends when the queue is empty or the
  -- oldest command is valid and not admitted.
  pub process_loop : ℕ → ℕ → CommandDispatcher S E → CommandDispatcher S E × ℕ
  unfolding process_one admits
  process_loop zero done d = (d, done)
  process_loop (suc rounds) done d =
      let cmd = (get_or d.queue d.head no_entry).command in
      let rest = process_loop rounds (done + 1) (process_one false d).0 in
      if d.count == 0 || (is_accepted (validate cmd d) && not (admits cmd d))
      then (d, done)
      else rest

  pub process : ℕ → CommandDispatcher S E → CommandDispatcher S E × ℕ
  unfolding process_loop
  process budget d =
      if d.processing
      then (d, 0)
      else let bounded = (if ltb capacity budget then capacity else budget) in
        let (d', done) = process_loop bounded 0 (record d { processing = true }) in
        (record d' { processing = false }, done)

  -- A result of `executeLocal` before the command has run.
  abbrev not_run : CommandStatus → ℕ → ℕ → DispatchResult
  not_run status before after = record {
    status = status;
    domain = Result.ok;
    ticket = 0;
    revision_before = before;
    revision_after = after;
    transport_result = pos 0;
  }

  -- `executeLocal` once the older commands have been processed.
  pub run_local :
      ControllerCommand → ℕ → CommandDispatcher S E → CommandDispatcher S E × DispatchResult
  run_local cmd before d =
      if not (d.count == 0) || not (admits cmd d)
      then (d, not_run CommandStatus.busy before d.controller.revision)
      else let (d2, submission) = submit cmd d in
        elim submission.status [
          | CommandStatus.accepted ↦
              let (d3, r) = process_one true (record d2 { processing = true }) in
              (record d3 { processing = false }, r)
          | status ↦ (d2, not_run status before d2.controller.revision)
        ]

  pub execute_local :
      ControllerCommand → CommandDispatcher S E → CommandDispatcher S E × DispatchResult
  execute_local cmd d =
      let before = d.controller.revision in
      elim (if d.processing then CommandStatus.busy else validate cmd d) [
        | CommandStatus.accepted ↦ run_local cmd before (process capacity d).0
        | status ↦ (d, not_run status before before)
      ]
