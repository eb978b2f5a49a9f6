-- ===== src/Examples/Waiting.antt =====
-- The theorems of the dispatcher, with one command that waits.
use m5stack_core_s3se_dmx_co.Base.{
  ℕ, ◌≡◌, ◌<◌, ◌+◌, ◌≢◌, Bool, true, false, [], ◌∷◌, ◌++◌, refl, pos,
}
use m5stack_core_s3se_dmx_co.Command.{Command, CommandSource, CommandStatus}
use m5stack_core_s3se_dmx_co.Controller.Types.{Result}
use m5stack_core_s3se_dmx_co.Dispatcher.{submit, validate, apply, process, execute_local}
use m5stack_core_s3se_dmx_co.Dispatcher.Rules.{perform, valid_payload, perform}
use m5stack_core_s3se_dmx_co.Dispatcher.Queue.{IsValid, contents, submit_refines}
use m5stack_core_s3se_dmx_co.Dispatcher.Process.{Processed, process_refines}
use m5stack_core_s3se_dmx_co.Dispatcher.Local.{Executed, execute_local_refines}
use m5stack_core_s3se_dmx_co.Dispatcher.Agree.{
  InDomain, Reported, apply_result, valid_payload-InDomain,
}
use m5stack_core_s3se_dmx_co.Examples.{
  desk, flash, no_callbacks, set_seven, idle_dispatcher, idle_dispatcher-IsValid, level,
}

submit_refines_example :
    let (d', s) = submit set_seven idle_dispatcher in
    IsValid d'
    × (s.status ≡ CommandStatus.accepted
        → (contents d'
            ≡ contents idle_dispatcher ++ (record { command = set_seven; ticket = s.ticket }) ∷ [])
          × (s.ticket ≢ 0)
          × (d'.next_ticket ≡ s.ticket)
          × (idle_dispatcher.next_ticket < 4294967295 → s.ticket ≡ idle_dispatcher.next_ticket + 1)
          × (idle_dispatcher.next_ticket ≡ 4294967295 → s.ticket ≡ 1))
    × (s.status ≢ CommandStatus.accepted → (d' ≡ idle_dispatcher) × (s.ticket ≡ 0))
    × (idle_dispatcher.processing ≡ false
        → idle_dispatcher.count ≢ 32
        → validate set_seven idle_dispatcher ≡ CommandStatus.accepted
        → s.status ≡ CommandStatus.accepted)
submit_refines_example = submit_refines set_seven idle_dispatcher idle_dispatcher-IsValid

process_refines_example :
    let (out, n) = process flash no_callbacks 4 idle_dispatcher in
    Processed flash no_callbacks 4 n idle_dispatcher out
process_refines_example =
    process_refines flash no_callbacks 4 idle_dispatcher idle_dispatcher-IsValid refl

execute_local_refines_example :
    let out = execute_local flash no_callbacks set_seven idle_dispatcher in
    (validate set_seven idle_dispatcher ≢ CommandStatus.accepted
      → (out.0 ≡ idle_dispatcher) × (out.1.ticket ≡ 0))
    × (validate set_seven idle_dispatcher ≡ CommandStatus.accepted
        → Executed flash no_callbacks set_seven
            (process flash no_callbacks 32 idle_dispatcher).1
            idle_dispatcher
            out)
execute_local_refines_example =
    execute_local_refines flash no_callbacks set_seven idle_dispatcher idle_dispatcher-IsValid refl

apply_result_example :
    let (d', r) = apply flash no_callbacks set_seven 9 idle_dispatcher in
    (r.ticket ≡ 9)
    × (r.revision_before ≡ 0)
    × (validate set_seven idle_dispatcher ≢ CommandStatus.accepted
        → (d' ≡ idle_dispatcher)
          × (r.status ≡ validate set_seven idle_dispatcher)
          × (r.revision_after ≡ r.revision_before))
    × (validate set_seven idle_dispatcher ≡ CommandStatus.accepted
        → let (c, result) =
            perform flash
              (no_callbacks.gate idle_dispatcher.context)
              set_seven.command
              idle_dispatcher.controller in
          (d'.controller ≡ c) × (r.domain ≡ result) × Reported flash no_callbacks d'.controller r)
apply_result_example = apply_result flash no_callbacks set_seven 9 idle_dispatcher

abbrev yes : ℕ → Bool
yes i = true

seven-valid :
    valid_payload (Command.set_channel (level (pos 7) (pos 200))) CommandSource.touch desk ≡ true
unfolding valid_payload
seven-valid = refl

valid_payload-InDomain_example :
    let r = (perform flash yes (Command.set_channel (level (pos 7) (pos 200))) desk).1 in
    InDomain r × (false ≡ false → r ≢ Result.invalid_patch)
valid_payload-InDomain_example =
    valid_payload-InDomain flash yes CommandSource.touch
      (Command.set_channel (level (pos 7) (pos 200))) desk seven-valid
