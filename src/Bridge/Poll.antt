-- ===== src/Bridge/Poll.antt =====
-- src/websocket_bridge.cpp: `ownerPoll`, one turn of the application task, and `completed`, which the dispatcher
-- calls after each command. The clock stands still during a turn.
use m5stack_core_s3se_dmx_co.Base.{
  ℕ, ◌+◌, ◌-◌, ◌%◌, Bool, true, false, not, ◌&&◌, ◌||◌, Option, none, some, List, get_or, set, ◌==◌,
  if◌then◌else◌, u32, codes, to_ℕ, pos,
}
use m5stack_core_s3se_dmx_co.Bridge.{
  Bridge, Interfaces, broadcast, is_done, reply, state, with_connections,
}
use m5stack_core_s3se_dmx_co.Bridge.Transfer.{abort_archive, archive_reply}
use m5stack_core_s3se_dmx_co.Command.{Command, CommandSource, CommandStatus, ControllerCommand}
use m5stack_core_s3se_dmx_co.Connections.{Connections, is_live}
use m5stack_core_s3se_dmx_co.Controller.{channel}
use m5stack_core_s3se_dmx_co.Controller.Types.{Result}
use m5stack_core_s3se_dmx_co.Dispatcher.Rules.{is_ok}
use m5stack_core_s3se_dmx_co.Dispatcher.Types.{DispatchResult}
use m5stack_core_s3se_dmx_co.Websocket.{Kind, Request, inbox_capacity, no_request}
use m5stack_core_s3se_dmx_co.Bridge.Publish.{publish}
use m5stack_core_s3se_dmx_co.Bridge.Requests.{serve_request}

-- Whether a command can change the presets that are stored, and whether it reads or writes one of them.
abbrev pub replaces_presets : Command → Bool
replaces_presets (Command.load_preset s) = true
replaces_presets (Command.save_preset s) = true
replaces_presets (Command.copy_preset s t) = true
replaces_presets (Command.clear_preset s) = true
replaces_presets Command.reset_sender = true
replaces_presets (Command.replace_presets t) = true
replaces_presets _ = false

abbrev uses_preset : Command → Bool
uses_preset (Command.load_preset s) = true
uses_preset (Command.save_preset s) = true
uses_preset (Command.copy_preset s t) = true
uses_preset (Command.clear_preset s) = true
uses_preset _ = false

abbrev is_load : Command → Bool
is_load (Command.load_preset s) = true
is_load _ = false

-- The channel of a command for one.
abbrev pub channel_of : Command → Option ℕ
channel_of (Command.set_channel v) = some (to_ℕ v.channel % 65536)
channel_of (Command.adjust_channel v) = some (to_ℕ v.channel % 65536)
channel_of _ = none

abbrev is_storage_error : CommandStatus → Bool
is_storage_error CommandStatus.storage_error = true
is_storage_error _ = false

abbrev is_transport_error : CommandStatus → Bool
is_transport_error CommandStatus.transport_error = true
is_transport_error _ = false

abbrev is_external : CommandSource → Bool
is_external CommandSource.external = true
is_external _ = false

-- The values of `DmxController::Result`.
abbrev pub result_code : Result → ℕ
result_code Result.ok = 0
result_code Result.invalid_channel = 1
result_code Result.invalid_value = 2
result_code Result.invalid_slot = 3
result_code Result.empty = 4
result_code Result.same_slot = 5
result_code Result.occupied = 6
result_code Result.corrupt = 7
result_code Result.read_failed = 8
result_code Result.write_failed = 9
result_code Result.metadata_failed = 10
result_code Result.invalid_patch = 11
result_code Result.archive_conflict = 12
result_code Result.archive_uncertain = 13
result_code Result.storage_full = 14

-- What a browser is told of the end of its import.
abbrev archive_status : DispatchResult → List ℕ
archive_status result = elim result.domain [
  | Result.storage_full ↦ codes "storage_full"
  | Result.archive_conflict ↦ codes "conflict"
  | Result.archive_uncertain ↦ codes "uncertain"
  | _ ↦
      if is_done result.status
      then codes "applied"
      else if is_storage_error result.status
      then codes "storage_error"
      else codes "invalid"
]

-- `loaded` and `storage_refresh`: a load that succeeds supersedes older gestures, even if it changes nothing, and one that fails
-- may have found other presets.
abbrev pub is_loaded : ControllerCommand → DispatchResult → Bool
is_loaded cmd result =
    is_load cmd.command
    && is_ok result.domain
    && (is_done result.status || is_transport_error result.status)

abbrev pub is_refresh : ControllerCommand → DispatchResult → Bool
is_refresh cmd result = is_storage_error result.status && uses_preset cmd.command

-- The oldest request, taken out of the inbox.
unfoldable pub next_request : Connections → Connections × Request
next_request h = (
  record h {
    inbox = set h.inbox h.head no_request;
    head = (h.head + 1) % inbox_capacity;
    count = h.count - 1;
  },
  get_or h.inbox h.head no_request,
)

module _ {S E B M W : Type 0} (interfaces : Interfaces S B M W) where
  -- `ownerPoll`
  unfoldable pub owner_poll : Bool → Bridge S E B M W → Bridge S E B M W
  unfolding next_request
  owner_poll sender b =
      let b1 = publish interfaces sender b in
      let (h, r) = next_request b1.connections in
      let b2 = with_connections h b1 in
      if b1.in_flight || b1.connections.count == 0
      then b1
      else if not (is_live r.token h)
      then b2
      else serve_request interfaces r b2

  -- What `completed` broadcasts of a command: the channel it set, or the universe.
  unfoldable pub announce : Command → Bridge S E B M W → Bridge S E B M W
  announce command b = elim (channel_of command) [
    | none ↦ let (b1, e) = state interfaces Kind.universe 0 b in broadcast e b1
    | some n ↦
        let (b1, e) = state interfaces Kind.channel 0 b in
        broadcast (record e { channel = n; value = channel b1.dispatcher.controller (pos n) }) b1
  ]

  -- The end of `completed`: the answer to the request in flight.
  unfoldable pub finish : DispatchResult → Bridge S E B M W → Bridge S E B M W
  finish result b =
      let b1 : Bridge S E B M W = record b { in_flight = false } in
      if b.flight.archive == 0
      then reply interfaces b.flight result.status (result_code result.domain) b1
      else abort_archive (archive_reply interfaces b.flight (archive_status result) 0 b1)

  -- `completed`
  unfoldable pub completed :
      ControllerCommand → DispatchResult → Bridge S E B M W → Bridge S E B M W
  unfolding announce finish
  completed cmd result b =
      let changed = not (result.revision_after == result.revision_before) in
      let h = b.connections in
      let b1 : Bridge S E B M W = record b {
        presets_ready = b.presets_ready && not (replaces_presets cmd.command);
        connections =
            if changed
            then record h {
              metrics = record h.metrics {
                controller_events = u32 (h.metrics.controller_events + 1);
                last_controller_revision = result.revision_after;
              };
            }
            else h;
      } in
      let b2 =
        if changed || is_loaded cmd result || is_refresh cmd result
        then announce cmd.command b1
        else b1 in
      if b2.in_flight && is_external cmd.source && cmd.request_id == b2.flight.command.request_id
      then finish result b2
      else b2
