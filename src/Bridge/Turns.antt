-- ===== src/Bridge/Turns.antt =====
-- Every turn of the application task, and every command that completes, keeps what holds of the connections.
use m5stack_core_s3se_dmx_co.Base.{
  ◌+◌, Bool, not, ◌&&◌, ◌||◌, ◌==◌, List, [], ◌∷◌, arith, refl, if_intro, option_intro,
  if◌then◌else◌, u32,
}
use m5stack_core_s3se_dmx_co.Bridge.{Bridge, Interfaces, with_connections}
use m5stack_core_s3se_dmx_co.Bridge.Poll.{
  is_loaded, is_refresh, replaces_presets, channel_of, announce, completed, finish, next_request,
  owner_poll,
}
use m5stack_core_s3se_dmx_co.Bridge.Publish.{publish}
use m5stack_core_s3se_dmx_co.Bridge.Pushes.{next_request-IsValid}
use m5stack_core_s3se_dmx_co.Command.{Command, ControllerCommand}
use m5stack_core_s3se_dmx_co.Connections.Invariant.Steps.{operate-IsValid}
use m5stack_core_s3se_dmx_co.Connections.{is_live}
use m5stack_core_s3se_dmx_co.Connections.Server.{Operation, operate}
use m5stack_core_s3se_dmx_co.Connections.Invariant.{IsValid}
use m5stack_core_s3se_dmx_co.Connections.Invariant.Kept.{metrics-IsValid}
use m5stack_core_s3se_dmx_co.Dispatcher.Types.{DispatchResult}
use m5stack_core_s3se_dmx_co.Websocket.{Kind}
use m5stack_core_s3se_dmx_co.Bridge.Valid.{
  IsSound, broadcast-IsSound, publish-IsSound, reply-IsSound, state-IsSound,
}
use m5stack_core_s3se_dmx_co.Bridge.Serving.{ended-IsSound, serve_request-IsSound}

module _ {S E B M W : Type 0} (interfaces : Interfaces S B M W) where
  pub owner_poll-IsSound :
      (sender : Bool) (b : Bridge S E B M W) → IsSound b → IsSound (owner_poll interfaces sender b)
  unfolding owner_poll
  owner_poll-IsSound sender b v =
      let b1 = publish interfaces sender b in
      let v1 = publish-IsSound interfaces sender b v in
      let h = next_request b1.connections in
      if_intro IsSound (b1.in_flight || b1.connections.count == 0) _ _ (λ p. v1)
        (λ p.
          let v2 : IsSound (with_connections h.0 b1) = record {
            connections = next_request-IsValid b1.connections v1.connections (ground arith);
          } in
          if_intro IsSound (not (is_live h.1.token h.0)) _ _ (λ q. v2)
            (λ q. serve_request-IsSound interfaces h.1 _ v2))

  announce-IsSound :
      (command : Command) (b : Bridge S E B M W)
      → IsSound b
      → IsSound (announce interfaces command b)
  unfolding announce
  announce-IsSound command b v =
      option_intro IsSound (channel_of command) _ _
        (broadcast-IsSound _ _ (state-IsSound interfaces Kind.universe 0 b v))
        (λ n. broadcast-IsSound _ _ (state-IsSound interfaces Kind.channel 0 b v))

  finish-IsSound :
      (result : DispatchResult) (b : Bridge S E B M W)
      → IsSound b
      → IsSound (finish interfaces result b)
  unfolding finish
  finish-IsSound result b v =
      if_intro IsSound (b.flight.archive == 0) _ _
        (λ p. reply-IsSound interfaces b.flight _ _ _ (record { connections = v.connections }))
        (λ p. ended-IsSound interfaces b.flight _ _ (record { connections = v.connections }))

  pub completed-IsSound :
      (cmd : ControllerCommand) (result : DispatchResult) (b : Bridge S E B M W)
      → IsSound b
      → IsSound (completed interfaces cmd result b)
  unfolding completed
  completed-IsSound cmd result b v =
      let changed = not (result.revision_after == result.revision_before) in
      let h = b.connections in
      let b1 : Bridge S E B M W = record b {
        presets_ready = b.presets_ready && not (replaces_presets cmd.command);
        connections =
            if changed
            then record h {
              metrics = record h.metrics {
                controller_events = u32 (h.metrics.controller_events + 1);
                last_controller_revision = result.revision_after;
              };
            }
            else h;
      } in
      let v1 : IsSound b1 = record {
        connections =
            if_intro IsValid changed _ _ (λ p. metrics-IsValid h v.connections _ refl)
              (λ p. v.connections);
      } in
      let v2 =
        if_intro IsSound (changed || is_loaded cmd result || is_refresh cmd result)
          (announce interfaces cmd.command b1) b1 (λ p. announce-IsSound cmd.command b1 v1)
          (λ p. v1) in
      if_intro IsSound _ _ _ (λ p. finish-IsSound result _ v2) (λ p. v2)

-- What the two tasks do in turn: one turn of the application task, a command of its dispatcher that completes, or an
-- operation of the task that serves the sockets.
pub data Turn : Type 0 where
  polling : (sender : Bool) → Turn
  completing : (cmd : ControllerCommand) (result : DispatchResult) → Turn
  serving : (o : Operation) → Turn

module _ {S E B M W : Type 0} (interfaces : Interfaces S B M W) where
  pub run_turn : Turn → Bridge S E B M W → Bridge S E B M W
  run_turn (Turn.polling sender) b = owner_poll interfaces sender b
  run_turn (Turn.completing cmd result) b = completed interfaces cmd result b
  run_turn (Turn.serving o) b = with_connections (operate o b.connections) b

  unfoldable pub run_turns : List Turn → Bridge S E B M W → Bridge S E B M W
  unfolding run_turn
  run_turns [] b = b
  run_turns (t ∷ ts) b = run_turns ts (run_turn t b)

  -- However the turns of the application task, the commands that complete and the operations of the server follow each other,
  -- the connections keep their invariant: no queue and not the inbox is over its bound, at most four requests of a
  -- connection wait for an answer, an open connection is at most at its rate, a closed one has nothing left, no two open ones
  -- have one generation, and the metric of open connections is their number.
  pub run_turns-IsSound :
      (ts : List Turn) (b : Bridge S E B M W) → IsSound b → IsSound (run_turns ts b)
  unfolding run_turns
  run_turns-IsSound [] b v = v
  run_turns-IsSound (Turn.polling sender ∷ ts) b v =
      run_turns-IsSound ts _ (owner_poll-IsSound interfaces sender b v)
  run_turns-IsSound (Turn.completing cmd result ∷ ts) b v =
      run_turns-IsSound ts _ (completed-IsSound interfaces cmd result b v)
  run_turns-IsSound (Turn.serving o ∷ ts) b v =
      run_turns-IsSound ts _
        (record { connections = operate-IsValid o b.connections v.connections })
