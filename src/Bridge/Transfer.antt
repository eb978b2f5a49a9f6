-- ===== src/Bridge/Transfer.antt =====
-- src/websocket_bridge.cpp: the transfer of presets as an archive, `archiveRequest` and what it calls. The buffer of
-- the caller is a list with its bytes. The hooks that measure time are left out.
use m5stack_core_s3se_dmx_co.Base.{
  ℕ, ◌+◌, ◌-◌, Bool, true, false, not, ◌&&◌, ◌||◌, Option, none, some, List, ◌++◌, take, drop,
  length, replicate, ◌==◌, ltb, leb, if◌then◌else◌, codes,
}
use m5stack_core_s3se_dmx_co.Archive as Presets
use m5stack_core_s3se_dmx_co.Archive.{Gate, max_file}
use m5stack_core_s3se_dmx_co.Archive.Wire.{serialize}
use m5stack_core_s3se_dmx_co.Bridge.{
  Archive, Bridge, Interfaces, answer, maintenance_active, state, wifi_active, with_connections,
  with_controller,
}
use m5stack_core_s3se_dmx_co.Command.{Command, CommandSource}
use m5stack_core_s3se_dmx_co.Connections.Server.{has_generation}
use m5stack_core_s3se_dmx_co.Controller.Presets.{capture_archive, discard_archive, stage_archive}
use m5stack_core_s3se_dmx_co.Controller.Types.{Result}
use m5stack_core_s3se_dmx_co.Dispatcher.Rules.{is_ok}
use m5stack_core_s3se_dmx_co.Websocket.{Kind, Request}

-- `memcpy` into a list of bytes, from a place on.
unfoldable pub splice : ℕ → List ℕ → List ℕ → List ℕ
splice i xs bytes = take i bytes ++ xs ++ drop (i + length xs) bytes

abbrev pub least : ℕ → ℕ → ℕ
least a b = if ltb b a then b else a

abbrev is_conflict : Result → Bool
is_conflict Result.archive_conflict = true
is_conflict _ = false

module _ {S E B M W : Type 0} where
  -- `abortArchive`
  unfoldable pub abort_archive : Bridge S E B M W → Bridge S E B M W
  unfolding splice
  abort_archive b =
      let a = b.archive in
      with_controller (discard_archive b.dispatcher.controller) (record b {
        archive = record a {
          buffer = splice 0 (replicate (least a.total (length a.buffer)) 0) a.buffer;
          mode = 0;
          owner = 0;
          total = 0;
          received = 0;
        };
      })

  -- `archiveAllowed`
  unfoldable pub archive_allowed : Bridge S E B M W → Bool
  archive_allowed b =
      b.sender
      && not (b.archive.mode == 0)
      && has_generation b.archive.owner b.connections.clients
      && not (maintenance_active b.maintenance)
      && not (wifi_active b.wifi)

  abbrev pub with_archive : Archive → Bridge S E B M W → Bridge S E B M W
  with_archive a b = record b { archive = a }

module _ {S E B M W : Type 0} (interfaces : Interfaces S B M W) where
  -- `archiveReply`, with the number of bytes that it brings from the buffer.
  unfoldable pub archive_reply : Request → List ℕ → ℕ → Bridge S E B M W → Bridge S E B M W
  unfolding splice
  archive_reply r status length b =
      let (b1, e) = state interfaces Kind.archive_result r.id b in
      let a = b1.archive in
      let e1 = record e { reason = some status } in
      let e2 =
        if a.owner == r.token.generation
        then record e1 {
          archive_token = a.token;
          archive_total = a.total;
          archive_offset = a.received;
          archive_count = a.count;
        }
        else e1 in
      let e3 = if length == 0 then e2 else record e2 {
        archive_offset = r.archive_offset;
        archive_length = length;
        values = splice 0 (take length (drop r.archive_offset a.buffer)) e2.values;
      } in
      with_connections (answer r.token e3 b1.connections) b1

  -- The answer that ends a transfer.
  abbrev pub ended : Request → List ℕ → Bridge S E B M W → Bridge S E B M W
  ended r status b = abort_archive (archive_reply r status 0 b)

  -- The transfer that a request begins, before its kind is looked at.
  abbrev pub begun : Request → Bridge S E B M W → Bridge S E B M W
  begun r b =
      let a = b.archive in
      record b {
        archive = record a {
          owner = r.token.generation;
          token = a.counter + 1;
          counter = a.counter + 1;
          started = b.connections.clock;
          touched = b.connections.clock;
          received = 0;
          count = 0;
          base = b.dispatcher.controller.preset_revision;
        };
      }

  -- The part of `archiveRequest` for an export: the presets are read and written out as text.
  unfoldable pub export : Request → Bridge S E B M W → Bridge S E B M W
  unfolding splice abort_archive archive_reply
  export r b =
      let (c, result) = capture_archive interfaces.store b.dispatcher.controller in
      let b1 = with_controller c b in
      let a = b1.archive in
      let text = serialize c.archive (length a.buffer) in
      let b2 = with_controller (discard_archive c) (
        with_archive
          (record a {
            buffer = splice 0 text a.buffer;
            total = length text;
            count = Presets.count c.archive.present;
          })
          b1) in
      if not (is_ok result)
      then ended r (codes "storage_error") b1
      else if length text == 0
      then ended r (codes "invalid") b2
      else archive_reply r (codes "ready") 0 (with_archive (record b2.archive { mode = 1 }) b2)

  -- The part of `archiveRequest` for the commit of an import that is complete: it goes on as a command.
  unfoldable pub commit : Request → Bridge S E B M W → Bridge S E B M W × Option Request
  unfolding archive_allowed abort_archive archive_reply
  commit r b =
      let a = b.archive in
      let (c, result) =
        stage_archive (take a.total a.buffer) a.base (record { check = true }) (archive_allowed b)
          b.dispatcher.controller in
      let b1 = with_controller c b in
      if not (is_ok result)
      then (ended r (codes (if is_conflict result then "conflict" else "invalid")) b1, none)
      else (
        with_archive (record a { count = Presets.count c.archive.present; mode = 3 }) b1,
        some (record r {
          command = record r.command {
            command = Command.replace_presets c.archive_token;
            source = CommandSource.external;
          };
        }),
      )

  -- The part of `archiveRequest` for a transfer that is under way, and its owner's.
  unfoldable pub continue : Request → Bridge S E B M W → Bridge S E B M W × Option Request
  unfolding export commit archive_reply
  continue r b =
      let a = b.archive in
      let n = length r.archive_data in
      if r.archive == 6
      then (ended r (codes "cancelled") b, none)
      else if r.archive == 2 && a.mode == 1 && ltb r.archive_offset a.total
      then (archive_reply r (codes "data") (least 512 (a.total - r.archive_offset)) b, none)
      else if r.archive == 4
          && a.mode == 2
          && r.archive_offset == a.received
          && not (n == 0)
          && leb n (a.total - a.received)
      then (
        archive_reply r (codes "staged") 0 (
            with_archive
              (record a {
                buffer = splice a.received r.archive_data a.buffer;
                received = a.received + n;
              })
              b),
        none,
      )
      else if r.archive == 5 && a.mode == 2 && a.received == a.total
      then commit r b
      else (ended r (codes "invalid") b, none)

  -- `archiveRequest`: what it returns `true` for goes on as a command, and is the request then.
  unfoldable pub archive_request : Request → Bridge S E B M W → Bridge S E B M W × Option Request
  unfolding export continue archive_reply
  archive_request r b =
      let a = b.archive in
      let b1 = begun r b in
      if ltb (length a.buffer) max_file
      then (archive_reply r (codes "unavailable") 0 b, none)
      else if r.archive == 1 || r.archive == 3
      then (
        if not (a.mode == 0)
            then archive_reply r (codes "busy") 0 b
            else if a.counter == 4294967295
            then archive_reply r (codes "unavailable") 0 b
            else if r.archive == 1
            then export r b1
            else archive_reply r (codes "ready") 0
                (with_archive (record b1.archive { mode = 2; total = r.archive_total }) b1),
        none,
      )
      else if a.mode == 0 || not (a.owner == r.token.generation) || not (a.token == r.archive_token)
      then (archive_reply r (codes "unauthorized") 0 b, none)
      else continue r (with_archive (record a { touched = b.connections.clock }) b)
