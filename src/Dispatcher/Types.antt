-- ===== src/Dispatcher/Types.antt =====
-- src/command_dispatcher.h: the records of the dispatcher and the callbacks that it is given.
use m5stack_core_s3se_dmx_co.Base.{ℕ, Bool, Option, List, ℤ}
use m5stack_core_s3se_dmx_co.Command.{Command, ControllerCommand, CommandSource, CommandStatus}
use m5stack_core_s3se_dmx_co.Controller.{DmxController}
use m5stack_core_s3se_dmx_co.Controller.Types.{Result}

abbrev pub capacity : ℕ
capacity = 32

abbrev pub default_budget : ℕ
default_budget = 4

pub record Submission : Type 0 where
  pub status : CommandStatus
  pub ticket : ℕ

-- `CommandDispatcher::Result`
pub record DispatchResult : Type 0 where
  pub status : CommandStatus
  pub domain : Result
  pub ticket : ℕ
  pub revision_before : ℕ
  pub revision_after : ℕ
  pub transport_result : ℤ

pub record Entry : Type 0 where
  pub command : ControllerCommand
  pub ticket : ℕ

-- What a slot of the queue holds before it is first written.
abbrev pub no_entry : Entry
no_entry = record {
  command = record { command = Command.invalid; source = CommandSource.touch; request_id = 0 };
  ticket = 0;
}

-- The callbacks that are set. They read the controller, and may change only their own context, `E`;
-- that they do not come back into the dispatcher is its documented condition. `gate` is what the
-- check of an archive's gate answers, question by question, while a command is carried out.
pub record Callbacks (S E : Type 0) : Type 0 where
  pub publisher : Option (DmxController S → ControllerCommand → E → ℤ × E)
  pub admission : Option (DmxController S → ControllerCommand → E → Bool)
  pub completion : Option (DmxController S → ControllerCommand → DispatchResult → E → E)
  pub gate : E → ℕ → Bool

-- The members of `CommandDispatcher`, with the controller that it refers to and the context of the
-- callbacks.
pub record CommandDispatcher (S E : Type 0) : Type 0 where
  pub controller : DmxController S
  pub context : E
  pub queue : List Entry
  pub head : ℕ
  pub count : ℕ
  pub next_ticket : ℕ
  pub sender_active : Bool
  pub processing : Bool
  pub local_execution : Bool
