-- ===== src/Connections/Receive.antt =====
-- Which messages become requests in the inbox, in which order, and which event a connection is handed next.
use m5stack_core_s3se_dmx_co.Base.{
  ℕ, ◌+◌, ◌-◌, ◌%◌, ◌≡◌, ◌≢◌, ◌<◌, ◌⊎◌, inl, inr, Bool, true, false, not, ◌&&◌, ◌||◌, ◌==◌, ltb,
  leb, Option, none, some, List, [], ◌∷◌, ◌++◌, All, All-map, arith, refl, ap, append-nil, ◌∙◌, sym,
  if_intro, Bool-cases, get_or, u32, if◌then◌else◌, get_or-set_self,
}
use m5stack_core_s3se_dmx_co.Base.Ring.{
  IsCapacity-8, IsCapacity-16, window, window-enqueue, window-dequeue,
}
use m5stack_core_s3se_dmx_co.Command.{CommandStatus}
use m5stack_core_s3se_dmx_co.Connections.{
  Client, Connections, Metrics, count_full, drop, is_live, no_client, place, push, put,
}
use m5stack_core_s3se_dmx_co.Connections.Server.{
  admit, count_take, count_flood, count_refusal, rated, receive, receive_decoded, refuse,
  take_event, taken,
}
use m5stack_core_s3se_dmx_co.Connections.Invariant.{IsValid, place-IsClient}
use m5stack_core_s3se_dmx_co.Connections.Invariant.Kept.{is_live_lem}
use m5stack_core_s3se_dmx_co.Connections.Invariant.Messages.{rated-IsValid, place-put}
use m5stack_core_s3se_dmx_co.Websocket.{Event, Request, Stop, Token, no_event, no_request}
use m5stack_core_s3se_dmx_co.Websocket.Decode.{Decoded, decode}

-- The requests of the inbox, oldest first.
pub waiting : Connections → List Request
waiting h = window no_request 16 h.inbox h.head h.count

-- The events that wait in a place, oldest first.
unfoldable pub queued : ℕ → Connections → List Event
queued slot h = window no_event 8 (place slot h).events (place slot h).head (place slot h).count

-- Whether the request may wait for its answer, and which one it is in the inbox.
abbrev may_wait : Client → ℕ → Request → Bool
may_wait c waiting_count r =
    c.is_ready && ltb c.last_id r.id && ltb c.outstanding 4 && ltb waiting_count 16

abbrev pub granted : Bool → Token → Request → List Request
granted true t r = record r { token = t } ∷ []
granted false t r = []

pub admitted_from : Client → ℕ → Token → Decoded → List Request
admitted_from c n t (Decoded.refused id error) = []
admitted_from c n t (Decoded.accepted r) = granted (may_wait c n r) t r

-- The messages of a connection in the last second of its clock, with this one.
rate_with : ℕ → Client → ℕ
rate_with now c = u32 (
    (if leb 1000 ((now + 18446744073709551616 - c.window) % 18446744073709551616)
      then 0
      else c.rate)
    + 1)

-- The request that a message becomes, if it becomes one: its connection is open, it is not the twenty-first of its
-- second, it is a message, and the connection may ask.
pub admitted : Token → List ℕ → ℕ → Connections → List Request
unfolding admitted_from rate_with
admitted t message now h =
    let c = place t.slot h in
    if is_live t h && not (ltb 20 (rate_with now c))
    then admitted_from c h.count t (decode message)
    else []

module _ (h : Connections) where
  waiting-drop : (slot : ℕ) (stop : Stop) (n : ℕ) → waiting (drop slot stop n h) ≡ waiting h
  unfolding waiting drop
  waiting-drop slot stop n = refl

pub waiting-changed :
    (h : Connections) (cs : List Client) (m : Metrics)
    → waiting (record h { clients = cs; metrics = m }) ≡ waiting h
unfolding waiting
waiting-changed h cs m = refl

pub waiting-push : (h : Connections) (slot : ℕ) (e : Event) → waiting (push slot e h) ≡ waiting h
unfolding waiting push
waiting-push h slot e =
    if_intro (λ (x : Connections). waiting x ≡ waiting h) ((place slot h).count == 8) _ _
      (λ p.
        waiting-drop (record h { metrics = count_full h.metrics }) slot Stop.queue_full e.revision)
      (λ p. refl)

waiting-refuse :
    (h : Connections) (slot id : ℕ) (result : CommandStatus) (reason : List ℕ)
    → waiting (refuse slot id result reason h) ≡ waiting h
unfolding waiting refuse
waiting-refuse h slot id result reason =
    waiting-push (record h { metrics = count_refusal h.metrics }) slot _

admitted_from-rated :
    (c : Client) (window_at rate n : ℕ) (t : Token) (d : Decoded)
    → admitted_from (rated window_at rate c) n t d ≡ admitted_from c n t d
unfolding admitted_from
admitted_from-rated c window_at rate n t (Decoded.refused id error) = refl
admitted_from-rated c window_at rate n t (Decoded.accepted r) = refl

module _ (h : Connections) (v : IsValid h) (t : Token) where
  not_granted :
      (r : Request) (x : Connections) (b : Bool)
      → b ≡ false
      → waiting x ≡ waiting h
      → waiting x ≡ waiting h ++ granted b t r
  not_granted r x true p e = cc
  not_granted r x false p e = e ∙ sym (append-nil (waiting h))

  late_refusal :
      (r : Request) (reason : List ℕ)
      → waiting (
          refuse t.slot r.id CommandStatus.busy reason
            (put t.slot (record (place t.slot h) { last_id = r.id }) h))
        ≡ waiting h
  unfolding waiting
  late_refusal r reason =
      waiting-refuse (put t.slot (record (place t.slot h) { last_id = r.id }) h) t.slot _ _ _

  admit-granted :
      (b : Bool) (r : Request)
      → b ≡ true
      → h.count < 16
      → waiting (admit t.slot (record r { token = t }) h) ≡ waiting h ++ granted b t r
  unfolding admit waiting
  admit-granted true r e room =
      window-enqueue no_request 16 IsCapacity-16 h.inbox (record r { token = t }) h.head h.count
        v.inbox_size room
  admit-granted false r e room = cc

  waiting-receive_decoded :
      (d : Decoded)
      → waiting (receive_decoded d t h) ≡ waiting h ++ admitted_from (place t.slot h) h.count t d
  unfolding receive_decoded admitted_from
  waiting-receive_decoded (Decoded.refused id error) =
      waiting-refuse h t.slot _ _ _ ∙ sym (append-nil (waiting h))
  waiting-receive_decoded (Decoded.accepted r) =
      let c = place t.slot h in
      let P = λ (x : Connections). waiting x ≡ waiting h ++ granted (may_wait c h.count r) t r in
      if_intro P (leb r.id c.last_id) _ _
        (λ p. not_granted r _ _ (ground arith) (waiting-refuse h t.slot _ _ _))
        (λ p.
          if_intro P (not c.is_ready) _ _ (λ q. not_granted r _ _ (ground arith) (late_refusal r _))
            (λ q.
              if_intro P (leb 4 c.outstanding || h.count == 16) _ _
                (λ s. not_granted r _ _ (ground arith) (late_refusal r _))
                (λ s.
                  admit-granted (may_wait c h.count r) r (ground (arith, v.count_in))
                    (ground (arith, v.count_in)))))

not_admitted :
    (x : Connections) (before ys : List Request) (b : Bool)
    → b ≡ false
    → waiting x ≡ before
    → waiting x ≡ before ++ (if b then ys else [])
not_admitted x before ys true p e = cc
not_admitted x before ys false p e = e ∙ sym (append-nil before)

is_admitted :
    {out : List Request} (before ys : List Request) (b : Bool)
    → b ≡ true
    → out ≡ before ++ ys
    → out ≡ before ++ (if b then ys else [])
is_admitted before ys true p e = e
is_admitted before ys false p e = cc

abbrev pub handed : Option Event → List Event
handed none = []
handed (some e) = e ∷ []

module _ (h : Connections) (v : IsValid h) where
  nothing :
      (t : Token)
      → (not (is_live t h) || (place t.slot h).count == 0) ≡ true
      → (is_live t h ≡ false) ⊎ (queued t.slot h ≡ [])
  unfolding queued
  nothing t p = elim (Bool-cases (is_live t h)) [
    | inl live ↦
        let empty : (place t.slot h).count ≡ 0 = ground arith in
        inr (ap (λ n. window no_event 8 (place t.slot h).events (place t.slot h).head n) empty)
    | inr dead ↦ inl dead
  ]

  queued-taken :
      (t : Token)
      → t.slot < 4
      → (place t.slot h).count ≢ 0
      → queued t.slot h
        ≡ get_or (place t.slot h).events (place t.slot h).head no_event
          ∷ queued t.slot (record (put t.slot (taken (place t.slot h)) h) {
            metrics =
                count_take
                  (get_or (place t.slot h).events (place t.slot h).head no_event)
                  h.metrics;
          })
  unfolding queued
  queued-taken t inside some_event =
      let c = place t.slot h in
      window-dequeue no_event 8 IsCapacity-8 c.events c.head c.count some_event
        (place-IsClient t.slot h v).head_in
      ∙ ap
          (λ (b : Client).
            get_or c.events c.head no_event ∷ window no_event 8 b.events b.head b.count)
          (sym (get_or-set_self h.clients t.slot (taken c) no_client (omega (arith, v.places))))

  -- What a message does to the inbox of valid connections: it becomes the last request that waits, under the token it came with, exactly
  -- if that token is of an open connection, fewer than twenty messages came before it in the second, it is a valid message, and the
  -- connection is ready, its id is over all before, fewer than four requests wait for an answer and the inbox has
  -- room. In every other case the requests that wait are what they were.
  pub receive-waiting :
      (t : Token) (message : List ℕ) (now : ℕ)
      → waiting (receive t message now h) ≡ waiting h ++ admitted t message now h
  unfolding receive admitted rate_with
  receive-waiting t message now =
      let c = place t.slot h in
      let fresh = leb 1000 ((now + 18446744073709551616 - c.window) % 18446744073709551616) in
      let d = rated (if fresh then now else c.window) (rate_with now c) c in
      let b = is_live t h && not (ltb 20 (rate_with now c)) in
      let ys = admitted_from c h.count t (decode message) in
      let P = λ (x : Connections). waiting x ≡ waiting h ++ (if b then ys else []) in
      if_intro P (not (is_live t h)) _ _ (λ p. not_admitted h (waiting h) ys b (ground arith) refl)
        (λ p.
          let live = is_live_lem t h (ground arith) in
          if_intro P (ltb 20 (rate_with now c)) _ _
            (λ q. not_admitted _ (waiting h) ys b (ground arith) (
              waiting-drop (record (put t.slot d h) { metrics = count_flood h.metrics }) t.slot
                Stop.rate_limit 0
              ∙ waiting-changed h (put t.slot d h).clients (count_flood h.metrics)))
            (λ q.
              let h1 = put t.slot d h in
              let v1 =
                rated-IsValid h v t.slot live.0 live.2 d.window d.rate h.metrics (ground arith)
                  refl in
              is_admitted (waiting h) ys b (ground arith) (
                waiting-receive_decoded h1 v1 t (decode message)
                ∙ ap
                    (λ (w : List Request).
                      w ++ admitted_from (place t.slot h1) h.count t (decode message))
                    (waiting-changed h h1.clients h.metrics)
                ∙ ap (λ (c : Client). waiting h ++ admitted_from c h.count t (decode message))
                    (place-put h v t.slot live.0 live.2 d)
                ∙ ap (λ (ys : List Request). waiting h ++ ys)
                    (admitted_from-rated c d.window d.rate h.count t (decode message)))))

  -- The events that wait for a connection are the one that is taken, if one is, and those that wait after that; none
  -- is taken only if the token is not of an open connection or nothing waits.
  pub take_event-queued :
      (t : Token)
      → (queued t.slot h ≡ handed (take_event t h).1 ++ queued t.slot (take_event t h).0)
        × ((take_event t h).1 ≡ none → (is_live t h ≡ false) ⊎ (queued t.slot h ≡ []))
  unfolding take_event
  take_event-queued t =
      let c = place t.slot h in
      let P = λ (x : Connections × Option Event).
        (queued t.slot h ≡ handed x.1 ++ queued t.slot x.0)
        × (x.1 ≡ none → (is_live t h ≡ false) ⊎ (queued t.slot h ≡ [])) in
      if_intro P (not (is_live t h) || c.count == 0) _ _ (λ p. (refl, λ e. nothing t p))
        (λ p.
          let live = is_live_lem t h (ground arith) in
          (queued-taken t live.0 (ground arith), λ e. cc))

granted-All :
    (P : Request → Type 0) (b : Bool) (t : Token) (r : Request)
    → (b ≡ true → P (record r { token = t }))
    → All P (granted b t r)
granted-All P true t r f = (f refl, tt)
granted-All P false t r f = tt

admitted_from-ordered :
    (c : Client) (n : ℕ) (t : Token) (d : Decoded)
    → All (λ r. c.last_id < r.id) (admitted_from c n t d)
unfolding admitted_from
admitted_from-ordered c n t (Decoded.refused id error) = tt
admitted_from-ordered c n t (Decoded.accepted r) =
    granted-All _ (may_wait c n r) t r (λ p. ground arith)

-- Every request that is granted is that of an open connection, with an id over the last one that it used.
pub admitted-ordered :
    (t : Token) (message : List ℕ) (now : ℕ) (h : Connections)
    → All (λ r. (is_live t h ≡ true) × ((place t.slot h).last_id < r.id)) (admitted t message now h)
unfolding admitted
admitted-ordered t message now h =
    let c = place t.slot h in
    let P = λ (r : Request). (is_live t h ≡ true) × ((place t.slot h).last_id < r.id) in
    if_intro (All P) (is_live t h && not (ltb 20 (rate_with now c))) _ _
      (λ p.
        All-map _ P (λ r q. ((ground arith), q)) _
          (admitted_from-ordered c h.count t (decode message)))
      (λ p. tt)
