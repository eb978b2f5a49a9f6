-- ===== src/Dispatcher/Queue.antt =====
-- The queue of the dispatcher as a list: commands leave it in the order in which they were accepted.
use m5stack_core_s3se_dmx_co.Base.{
  ℕ, ◌+◌, ◌-◌, ◌%◌, ◌≤◌, ◌<◌, ◌≡◌, ◌≢◌, Bool, false, List, [], ◌∷◌, ◌++◌, arith, get_or, length,
  length-set,
}
use m5stack_core_s3se_dmx_co.Base.Ring.{window, window-enqueue, window-dequeue, IsCapacity-32}
use m5stack_core_s3se_dmx_co.Command.{ControllerCommand, CommandStatus}
use m5stack_core_s3se_dmx_co.Controller.Types.{DmxPresetStorage}
use m5stack_core_s3se_dmx_co.Dispatcher.{
  validate, submit, apply, publish, process_one, ticket_after,
}
use m5stack_core_s3se_dmx_co.Dispatcher.Types.{Entry, CommandDispatcher, Callbacks, no_entry}

pub record IsValid {S E : Type 0} (d : CommandDispatcher S E) : Type 0 where
  pub storage : length d.queue ≡ 32
  pub head_in : d.head < 32
  pub count_in : d.count ≤ 32

-- The commands that wait, oldest first.
abbrev pub contents : {S E : Type 0} → CommandDispatcher S E → List Entry
contents d = window no_entry 32 d.queue d.head d.count

module _ {S E : Type 0} where
  -- Submitting keeps the queue valid. An accepted command is the last to wait, behind those that waited; its
  -- ticket is the one after the last that was given, from 2^32 - 1 on to 1, so that it is not 0, and is the last
  -- one given now. A command that is not accepted changes nothing; one that is valid is, unless the dispatcher
  -- is processing or 32 commands wait.
  pub submit_refines :
      (cmd : ControllerCommand) (d : CommandDispatcher S E)
      → IsValid d
      → let (d', s) = submit cmd d in
        IsValid d'
        × (s.status ≡ CommandStatus.accepted
            → (contents d' ≡ contents d ++ (record { command = cmd; ticket = s.ticket }) ∷ [])
              × (s.ticket ≢ 0)
              × (d'.next_ticket ≡ s.ticket)
              × (d.next_ticket < 4294967295 → s.ticket ≡ d.next_ticket + 1)
              × (d.next_ticket ≡ 4294967295 → s.ticket ≡ 1))
        × (s.status ≢ CommandStatus.accepted → (d' ≡ d) × (s.ticket ≡ 0))
        × (d.processing ≡ false
            → d.count ≢ 32
            → validate cmd d ≡ CommandStatus.accepted
            → s.status ≡ CommandStatus.accepted)
  unfolding submit
  submit_refines cmd d v = ground (
    arith,
    length-set d.queue ((d.head + d.count) % 32)
        (record { command = cmd; ticket = ticket_after d.next_ticket }),
    window-enqueue no_entry 32 IsCapacity-32 d.queue
        (record { command = cmd; ticket = ticket_after d.next_ticket }) d.head d.count,
  )

module _ {S E : Type 0} (store : DmxPresetStorage S) (callbacks : Callbacks S E) where
  pub apply-frame :
      (cmd : ControllerCommand) (ticket : ℕ) (d : CommandDispatcher S E)
      → let d' = (apply store callbacks cmd ticket d).0 in
        (d'.queue ≡ d.queue)
        × (d'.head ≡ d.head)
        × (d'.count ≡ d.count)
        × (d'.next_ticket ≡ d.next_ticket)
        × (d'.processing ≡ d.processing)
        × (d'.sender_active ≡ d.sender_active)
  unfolding apply publish
  apply-frame cmd ticket d = ground arith

  -- Carrying out the oldest command takes it off the queue, and the rest keeps its order.
  pub process_one-frame :
      (here : Bool) (d : CommandDispatcher S E)
      → IsValid d
      → 1 ≤ d.count
      → let d' = (process_one store callbacks here d).0 in
        IsValid d'
        × (contents d ≡ get_or d.queue d.head no_entry ∷ contents d')
        × (d'.count ≡ d.count - 1)
        × (d'.next_ticket ≡ d.next_ticket)
        × (d'.processing ≡ d.processing)
  unfolding process_one
  process_one-frame here d v some_entry =
      let entry = get_or d.queue d.head no_entry in
      let taken : CommandDispatcher S E = record d {
        head = (d.head + 1) % 32;
        count = d.count - 1;
        local_execution = here;
      } in
      ground (
        arith,
        apply-frame entry.command entry.ticket taken,
        window-dequeue no_entry 32 IsCapacity-32 d.queue d.head d.count,
      )
