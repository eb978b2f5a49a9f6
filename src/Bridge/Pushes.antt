-- ===== src/Bridge/Pushes.antt =====
-- What the bridge does to the connections keeps what holds of them: broadcasts, answers, snapshots and marks.
use m5stack_core_s3se_dmx_co.Base.{
  ℕ, zero, suc, ◌+◌, ◌≡◌, ◌≢◌, ◌≤◌, ◌<◌, Bool, not, ◌&&◌, arith, refl, ap, ◌∙◌, if_intro, length,
  length-set, if◌then◌else◌,
}
use m5stack_core_s3se_dmx_co.Bridge.{answer, answered, push_from, push_to}
use m5stack_core_s3se_dmx_co.Bridge.Poll.{next_request}
use m5stack_core_s3se_dmx_co.Bridge.Requests.{deliver, settled}
use m5stack_core_s3se_dmx_co.Connections.{Client, Connections, is_live, place, push, put}
use m5stack_core_s3se_dmx_co.Connections.Invariant.{IsClient, IsValid, place-IsClient}
use m5stack_core_s3se_dmx_co.Connections.Invariant.Kept.{is_live_lem, push-IsValid, touched-IsValid}
use m5stack_core_s3se_dmx_co.Connections.Invariant.Messages.{place-put}
use m5stack_core_s3se_dmx_co.Websocket.{Event, Token, no_request}

push_from-IsValid :
    (n slot : ℕ) (asked : Client → Bool) (e : Event) (h : Connections)
    → slot + n ≤ 4
    → IsValid h
    → IsValid (push_from n slot asked e h)
unfolding push_from
push_from-IsValid zero slot asked e h inside v = v
push_from-IsValid (suc n) slot asked e h inside v =
    let c = place slot h in
    push_from-IsValid n (slot + 1) asked e _ (omega arith) (
      if_intro IsValid (c.active && c.is_ready && asked c) _ _
        (λ p. push-IsValid slot e h v (omega arith) (ground arith)) (λ p. v))

pub push_to-IsValid :
    (asked : Client → Bool) (e : Event) (h : Connections) → IsValid h → IsValid (push_to asked e h)
unfolding push_to
push_to-IsValid asked e h v = push_from-IsValid 4 0 asked e h (omega arith) v

-- A connection with other marks, or with fewer requests to answer.
pub record Softer (c d : Client) : Type 0 where
  pub events : d.events ≡ c.events
  pub head : d.head ≡ c.head
  pub count : d.count ≡ c.count
  pub outstanding : d.outstanding ≤ c.outstanding
  pub rate : d.rate ≡ c.rate
  pub generation : d.generation ≡ c.generation
  pub active : d.active ≡ c.active

softer-IsClient : (g : ℕ) (c d : Client) → Softer c d → IsClient g c → IsClient g d
softer-IsClient g c d s k = record {
  size = ap length s.events ∙ k.size;
  head_in = omega (arith, s.head, k.head_in);
  count_in = omega (arith, s.count, k.count_in);
  outstanding_in = omega (arith, s.outstanding, k.outstanding_in);
  rate_in = λ p. ground (arith, k.rate_in, s.rate, s.active);
  old = omega (arith, s.generation, k.old);
  numbered = λ p. ground (arith, k.numbered, s.generation, s.active);
  closed = λ p. ground (arith, k.closed, s.count, s.outstanding, s.active);
}

pub softer-IsValid :
    (slot : ℕ) (d : Client) (h : Connections)
    → IsValid h
    → slot < 4
    → Softer (place slot h) d
    → IsValid (put slot d h)
softer-IsValid slot d h v inside s =
    touched-IsValid h v slot d h.metrics inside
      (softer-IsClient h.generation (place slot h) d s (place-IsClient slot h v)) s.generation
      s.active refl

pub answer-IsValid : (t : Token) (e : Event) (h : Connections) → IsValid h → IsValid (answer t e h)
unfolding answer
answer-IsValid t e h v =
    let c = place t.slot h in
    if_intro IsValid (is_live t h) _ _
      (λ p.
        let live = is_live_lem t h p in
        push-IsValid t.slot e (put t.slot (answered c) h)
          (softer-IsValid t.slot (answered c) h v live.0 (record {
            events = refl;
            head = refl;
            count = refl;
            outstanding = omega arith;
            rate = refl;
            generation = refl;
            active = refl;
          }))
          live.0
          (ap (λ (d : Client). d.active) (place-put h v t.slot live.0 live.2 (answered c))
            ∙ live.2))
      (λ p. v)

-- A request taken out of the inbox.
pub next_request-IsValid : (h : Connections) → IsValid h → h.count ≢ 0 → IsValid (next_request h).0
unfolding next_request
next_request-IsValid h v some_request = record {
  places = v.places;
  clients = v.clients;
  inbox_size = length-set h.inbox h.head no_request ∙ v.inbox_size;
  head_in = omega arith;
  count_in = omega (arith, v.count_in);
  generation_in = v.generation_in;
  distinct = v.distinct;
  counted = v.counted;
}

pub deliver-IsValid :
    (t : Token) (initial : Bool) (hello e : Event) (h : Connections)
    → IsValid h
    → IsValid (deliver t initial hello e h)
unfolding deliver
deliver-IsValid t initial hello e h v =
    let h1 = (if initial then push t.slot hello h else h) in
    let h2 = (if (place t.slot h1).active then push t.slot e h1 else h1) in
    if_intro IsValid (not (is_live t h)) _ _ (λ p. v)
      (λ p.
        let live = is_live_lem t h (ground arith) in
        let v1 =
          if_intro IsValid initial (push t.slot hello h) h
            (λ q. push-IsValid t.slot hello h v live.0 live.2) (λ q. v) in
        let v2 =
          if_intro IsValid (place t.slot h1).active (push t.slot e h1) h1
            (λ q. push-IsValid t.slot e h1 v1 live.0 q) (λ q. v1) in
        if_intro IsValid (place t.slot h2).active _ _
          (λ q. softer-IsValid t.slot (settled (place t.slot h2)) h2 v2 live.0 (record {
            events = refl;
            head = refl;
            count = refl;
            outstanding = omega arith;
            rate = refl;
            generation = refl;
            active = refl;
          }))
          (λ q. v2))
