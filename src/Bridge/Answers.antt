-- ===== src/Bridge/Answers.antt =====
-- The answer to the request in flight: its browser is handed one event more, with the id that it chose.
use m5stack_core_s3se_dmx_co.Base.{
  ℕ, ◌+◌, ◌≡◌, ◌≢◌, ◌<◌, true, false, not, ◌&&◌, ◌==◌, leb, List, [], ◌∷◌, ◌++◌, arith, refl, ap,
  ◌∙◌, sym, subst, if_intro, get_or, if◌then◌else◌, u32, get_or-set_self,
}
use m5stack_core_s3se_dmx_co.Base.Ring.{IsCapacity-8, window, window-enqueue}
use m5stack_core_s3se_dmx_co.Bridge.{
  Bridge, Interfaces, answer, answered, controller_event, is_done, refresh_presets, reply,
  shows_levels, state,
}
use m5stack_core_s3se_dmx_co.Bridge.Poll.{finish, result_code}
use m5stack_core_s3se_dmx_co.Bridge.Pushes.{softer-IsValid}
use m5stack_core_s3se_dmx_co.Command.{CommandStatus}
use m5stack_core_s3se_dmx_co.Connections.{
  Client, Connections, Metrics, count_push, is_live, no_client, place, push, pushed, put,
}
use m5stack_core_s3se_dmx_co.Connections.Invariant.{IsValid, place-IsClient}
use m5stack_core_s3se_dmx_co.Connections.Invariant.Kept.{is_live_lem, metrics-IsValid}
use m5stack_core_s3se_dmx_co.Connections.Invariant.Messages.{place-put}
use m5stack_core_s3se_dmx_co.Connections.Receive.{queued}
use m5stack_core_s3se_dmx_co.Dispatcher.Types.{DispatchResult}
use m5stack_core_s3se_dmx_co.Websocket.{Event, Kind, Request, Token, no_event}

-- The events that wait in a connection, oldest first.
abbrev pub events_of : Client → List Event
events_of c = window no_event 8 c.events c.head c.count

place-set :
    (slot : ℕ) (c : Client) (m : Metrics) (h : Connections)
    → IsValid h
    → slot < 4
    → place slot (put slot c (record h { metrics = m })) ≡ c
place-set slot c m h v inside = get_or-set_self h.clients slot c no_client (omega (arith, v.places))

push-events :
    (slot : ℕ) (e : Event) (h : Connections)
    → IsValid h
    → slot < 4
    → (place slot h).count ≢ 8
    → events_of (place slot (push slot e h)) ≡ events_of (place slot h) ++ e ∷ []
unfolding push
push-events slot e h v inside room =
    let c = place slot h in
    let k = place-IsClient slot h v in
    if_intro (λ (x : Connections). events_of (place slot x) ≡ events_of c ++ e ∷ []) (c.count == 8)
      _ _ (λ p. absurd (ground arith))
      (λ p.
        ap events_of (place-set slot (pushed e c) (count_push e c h.metrics) h v inside)
        ∙ window-enqueue no_event 8 IsCapacity-8 c.events e c.head c.count k.size
            (omega (arith, k.count_in)))

pub answer-events :
    (t : Token) (e : Event) (h : Connections)
    → IsValid h
    → is_live t h ≡ true
    → (place t.slot h).count ≢ 8
    → events_of (place t.slot (answer t e h)) ≡ events_of (place t.slot h) ++ e ∷ []
unfolding answer
answer-events t e h v live room =
    let c = place t.slot h in
    let inside = (is_live_lem t h live).0 in
    let h1 = put t.slot (answered c) h in
    let here : place t.slot h1 ≡ answered c =
      place-put h v t.slot inside (is_live_lem t h live).2 (answered c) in
    let v1 : IsValid h1 = softer-IsValid t.slot (answered c) h v inside (record {
      events = refl;
      head = refl;
      count = refl;
      outstanding = omega arith;
      rate = refl;
      generation = refl;
      active = refl;
    }) in
    if_intro (λ (x : Connections). events_of (place t.slot x) ≡ events_of c ++ e ∷ []) (is_live t h)
      _ _
      (λ p.
        push-events t.slot e h1 v1 inside (λ q. room (sym (ap (λ (d : Client). d.count) here) ∙ q))
        ∙ ap (λ (d : Client). events_of d ++ e ∷ []) here)
      (λ p. absurd (ground arith))

same_live : (t : Token) (h h' : Connections) → h'.clients ≡ h.clients → is_live t h' ≡ is_live t h
unfolding is_live
same_live t h h' e =
    ap
      (λ (cs : List Client).
        not (leb 4 t.slot)
        && not (t.generation == 0)
        && (get_or cs t.slot no_client).active
        && (get_or cs t.slot no_client).generation == t.generation)
      e

module _ {S E B M W : Type 0} (interfaces : Interfaces S B M W) where
  -- What an event about the controller says of the request, and that the connections are left alone.
  state_lem :
      (kind : Kind) (id : ℕ) (b : Bridge S E B M W)
      → let (b', e) = state interfaces kind id b in
        (b'.connections ≡ b.connections)
        × (b'.in_flight ≡ b.in_flight)
        × (e.kind ≡ kind)
        × (e.id ≡ id)
  unfolding state refresh_presets controller_event
  state_lem kind id b =
      if_intro
        (λ (x : Bridge S E B M W × Event).
          (x.0.connections ≡ b.connections)
          × (x.0.in_flight ≡ b.in_flight)
          × (x.1.kind ≡ kind)
          × (x.1.id ≡ id))
        (shows_levels kind) _ _
        (λ p.
          if_intro
            (λ (x : Bridge S E B M W).
              (x.connections ≡ b.connections)
              × (x.in_flight ≡ b.in_flight)
              × (kind ≡ kind)
              × (id ≡ id))
            b.presets_ready _ _ (λ q. (refl, refl, refl, refl)) (λ q. (refl, refl, refl, refl)))
        (λ p. (refl, refl, refl, refl))

  -- What a reply leaves: one event more for the browser, about its request.
  Answered : Request → CommandStatus → Bridge S E B M W → Bridge S E B M W → Type 0
  Answered r status b b' =
      (b'.in_flight ≡ b.in_flight)
      × ((e : Event) × (queued r.token.slot b'.connections
            ≡ queued r.token.slot b.connections ++ e ∷ [])
          × (e.id ≡ r.id)
          × (e.result ≡ status)
          × (e.kind ≡ (if is_done status then Kind.ack else Kind.error)))

  reply-Answered :
      (r : Request) (status : CommandStatus) (domain : ℕ) (b : Bridge S E B M W)
      → IsValid b.connections
      → is_live r.token b.connections ≡ true
      → (place r.token.slot b.connections).count ≢ 8
      → Answered r status b (reply interfaces r status domain b)
  unfolding reply queued Answered
  reply-Answered r status domain b v live room =
      let kind = (if is_done status then Kind.ack else Kind.error) in
      let s = state interfaces kind r.id b in
      let k = state_lem kind r.id b in
      let m = s.0.connections.metrics in
      let e : Event = record s.1 { result = status; domain = domain } in
      let h : Connections = record s.0.connections {
        metrics =
            if is_done status
            then record m { applied = u32 (m.applied + 1) }
            else record m { rejected = u32 (m.rejected + 1) };
      } in
      let v1 : IsValid s.0.connections = subst IsValid (sym k.0) v in
      let v2 : IsValid h = metrics-IsValid s.0.connections v1 _ (
        if_intro (λ (x : Metrics). x.clients ≡ m.clients) (is_done status) _ _ (λ p. refl)
          (λ p. refl)) in
      let alive : is_live r.token h ≡ true =
        same_live r.token s.0.connections h refl ∙ ap (is_live r.token) k.0 ∙ live in
      (
        k.1,
        (
          e,
          answer-events r.token e h v2 alive
                (λ q. room (sym (ap (λ (x : Connections). (place r.token.slot x).count) k.0) ∙ q))
              ∙ ap (λ (x : Connections). events_of (place r.token.slot x) ++ e ∷ []) k.0,
          k.3,
          refl,
          k.2,
        ),
      )

  -- The end of a command of a browser that is still connected, and whose queue has room, when the command is not the
  -- commit of an archive: nothing is in flight any
  -- more, and behind the events that waited for the browser stands one that has the id of its request, says whether
  -- the command was applied, and brings its status.
  pub finish-answers :
      (result : DispatchResult) (b : Bridge S E B M W)
      → IsValid b.connections
      → is_live b.flight.token b.connections ≡ true
      → (place b.flight.token.slot b.connections).count ≢ 8
      → b.flight.archive ≡ 0
      → let b' = finish interfaces result b in
        let slot = b.flight.token.slot in
        (b'.in_flight ≡ false)
        × ((e : Event) × (queued slot b'.connections ≡ queued slot b.connections ++ e ∷ [])
            × (e.id ≡ b.flight.id)
            × (e.result ≡ result.status)
            × (e.kind ≡ (if is_done result.status then Kind.ack else Kind.error)))
  unfolding finish Answered
  finish-answers result b v live room command =
      let b1 : Bridge S E B M W = record b { in_flight = false } in
      let P = λ (x : Bridge S E B M W). Answered b.flight result.status b1 x in
      if_intro P (b.flight.archive == 0) _ _
        (λ p. reply-Answered b.flight result.status (result_code result.domain) b1 v live room)
        (λ p. absurd (ground arith))
