-- ===== src/Connections/Tokens.antt =====
-- A token is for one connection only: whatever the server does after it is closed, no other connection answers to it.
use m5stack_core_s3se_dmx_co.Base.{
  ℕ, zero, suc, ◌+◌, ◌-◌, ◌%◌, ◌≡◌, ◌≤◌, ◌<◌, true, false, not, ◌||◌, ◌==◌, ltb, leb, Option, none,
  some, List, [], ◌∷◌, arith, refl, ◌∙◌, sym, if_intro, length, length-set, get_or, set, u32,
  if◌then◌else◌,
}
use m5stack_core_s3se_dmx_co.Command.{CommandStatus}
use m5stack_core_s3se_dmx_co.Connections.{
  Client, Connections, Metrics, count_full, drop, is_live, no_client, place, push, put,
}
use m5stack_core_s3se_dmx_co.Connections.Server.{
  Operation, operate, operate_all, admit, asked, close, count_failure, count_flood, count_refusal,
  free_place, open_at, open_client, opened, rated, receive, receive_decoded, refuse, send_failed,
  take_event,
}
use m5stack_core_s3se_dmx_co.Websocket.{Event, Stop, Token, no_token}
use m5stack_core_s3se_dmx_co.Websocket.Decode.{Decoded, decode}

-- A connection after an operation that no new connection took the place of: it is open only if it was, and the last id it used
-- is not lower.
pub record Same (c d : Client) : Type 0 where
  pub open_before : d.active ≡ true → c.active ≡ true
  pub generation : c.generation ≡ d.generation
  pub last_id : c.last_id ≤ d.last_id

Same-refl : (c : Client) → Same c c
Same-refl c = record { open_before = λ p. p; generation = refl; last_id = omega arith }

Same-trans : (a b c : Client) → Same a b → Same b c → Same a c
Same-trans a b c x y = record {
  open_before = λ p. x.open_before (y.open_before p);
  generation = x.generation ∙ y.generation;
  last_id = omega (arith, x.last_id, y.last_id);
}

-- Two states of the connections between which none was opened.
pub record Follows (h k : Connections) : Type 0 where
  pub generation : h.generation ≡ k.generation
  pub places : length h.clients ≡ length k.clients
  pub same : (i : ℕ) → Same (place i h) (place i k)

Follows-refl : (h : Connections) → Follows h h
Follows-refl h = record { generation = refl; places = refl; same = λ i. Same-refl (place i h) }

Follows-trans : (a b c : Connections) → Follows a b → Follows b c → Follows a c
Follows-trans a b c x y = record {
  generation = x.generation ∙ y.generation;
  places = x.places ∙ y.places;
  same = λ i. Same-trans (place i a) (place i b) (place i c) (x.same i) (y.same i);
}

set-Same :
    (cs : List Client) (slot : ℕ) (c : Client)
    → Same (get_or cs slot no_client) c
    → (i : ℕ) → Same (get_or cs i no_client) (get_or (set cs slot c) i no_client)
set-Same [] slot c e i = Same-refl (get_or [] i no_client)
set-Same (x ∷ cs) zero c e zero = e
set-Same (x ∷ cs) zero c e (suc i) = Same-refl (get_or cs i no_client)
set-Same (x ∷ cs) (suc slot) c e zero = Same-refl x
set-Same (x ∷ cs) (suc slot) c e (suc i) = set-Same cs slot c e i

put-Follows :
    (slot : ℕ) (c : Client) (m : Metrics) (h : Connections)
    → Same (place slot h) c
    → Follows h (put slot c (record h { metrics = m }))
put-Follows slot c m h e = record {
  generation = refl;
  places = sym (length-set h.clients slot c);
  same = set-Same h.clients slot c e;
}

-- A change that is of the queues, the marks and the rate only.
metrics-Follows : (m : Metrics) (h : Connections) → Follows h (record h { metrics = m })
metrics-Follows m h = record { generation = refl; places = refl; same = λ i. Same-refl (place i h) }

drop-Follows : (slot : ℕ) (stop : Stop) (n : ℕ) (h : Connections) → Follows h (drop slot stop n h)
unfolding drop
drop-Follows slot stop n h =
    put-Follows slot _ _ h
      (record { open_before = λ p. cc; generation = refl; last_id = omega arith })

push-Follows : (slot : ℕ) (e : Event) (h : Connections) → Follows h (push slot e h)
unfolding push
push-Follows slot e h =
    if_intro (Follows h) ((place slot h).count == 8) _ _
      (λ p.
        Follows-trans _ _ _ (metrics-Follows (count_full h.metrics) h)
          (drop-Follows slot Stop.queue_full e.revision _))
      (λ p.
        put-Follows slot _ _ h
          (record { open_before = λ p. p; generation = refl; last_id = omega arith }))

refuse-Follows :
    (slot id : ℕ) (result : CommandStatus) (reason : List ℕ) (h : Connections)
    → Follows h (refuse slot id result reason h)
unfolding refuse
refuse-Follows slot id result reason h =
    Follows-trans _ _ _ (metrics-Follows (count_refusal h.metrics) h) (push-Follows slot _ _)

receive_decoded-Follows :
    (d : Decoded) (t : Token) (h : Connections) → Follows h (receive_decoded d t h)
unfolding receive_decoded admit
receive_decoded-Follows (Decoded.refused id error) t h = refuse-Follows t.slot _ _ _ h
receive_decoded-Follows (Decoded.accepted r) t h =
    let c = place t.slot h in
    let late = put-Follows t.slot (record c { last_id = r.id }) h.metrics h in
    if_intro (Follows h) (leb r.id c.last_id) _ _ (λ p. refuse-Follows t.slot _ _ _ h)
      (λ p.
        let l = late (record { open_before = λ p. p; generation = refl; last_id = ground arith }) in
        if_intro (Follows h) (not c.is_ready) _ _
          (λ q. Follows-trans _ _ _ l (refuse-Follows t.slot _ _ _ _))
          (λ q.
            if_intro (Follows h) (leb 4 c.outstanding || h.count == 16) _ _
              (λ s. Follows-trans _ _ _ l (refuse-Follows t.slot _ _ _ _))
              (λ s. record {
                generation = refl;
                places = sym (length-set h.clients t.slot _);
                same =
                    set-Same h.clients t.slot (asked r.id c)
                      (record { open_before = λ p. p; generation = refl; last_id = ground arith });
              })))

receive-Follows :
    (t : Token) (message : List ℕ) (now : ℕ) (h : Connections) → Follows h (receive t message now h)
unfolding receive
receive-Follows t message now h =
    let c = place t.slot h in
    let fresh = leb 1000 ((now + 18446744073709551616 - c.window) % 18446744073709551616) in
    let rate = u32 ((if fresh then 0 else c.rate) + 1) in
    let d = rated (if fresh then now else c.window) rate c in
    let l = λ (m : Metrics).
      put-Follows t.slot d m h
        (record { open_before = λ p. p; generation = refl; last_id = omega arith }) in
    if_intro (Follows h) (not (is_live t h)) _ _ (λ p. Follows-refl h)
      (λ p.
        if_intro (Follows h) (ltb 20 rate) _ _
          (λ q.
            Follows-trans _ _ _ (l (count_flood h.metrics))
              (drop-Follows t.slot Stop.rate_limit 0 _))
          (λ q. Follows-trans _ _ _ (l h.metrics) (receive_decoded-Follows (decode message) t _)))

close-Follows : (t : Token) (h : Connections) → Follows h (close t h)
unfolding close
close-Follows t h =
    if_intro (Follows h) (is_live t h) _ _ (λ p. drop-Follows t.slot _ _ h) (λ p. Follows-refl h)

send_failed-Follows : (t : Token) (h : Connections) → Follows h (send_failed t h)
unfolding send_failed
send_failed-Follows t h =
    if_intro (Follows h) (is_live t h) _ _
      (λ p.
        Follows-trans _ _ _ (metrics-Follows (count_failure h.metrics) h)
          (drop-Follows t.slot _ _ _))
      (λ p. metrics-Follows (count_failure h.metrics) h)

take_event-Follows : (t : Token) (h : Connections) → Follows h (take_event t h).0
unfolding take_event
take_event-Follows t h =
    if_intro {A = Connections × Option Event} (λ x. Follows h x.0)
      (not (is_live t h) || (place t.slot h).count == 0) _ _ (λ p. Follows-refl h)
      (λ p.
        put-Follows t.slot _ _ h
          (record { open_before = λ p. p; generation = refl; last_id = omega arith }))

-- Two states of the connections, the second later: a place whose connection was there before has the same one.
pub record Later (h k : Connections) : Type 0 where
  pub grown : h.generation ≤ k.generation
  pub same : (i : ℕ) → (place i k).generation ≤ h.generation → Same (place i h) (place i k)

Later-trans : (a b c : Connections) → Later a b → Later b c → Later a c
Later-trans a b c x y = record {
  grown = omega (arith, x.grown, y.grown);
  same = λ i p.
      let s = y.same i (omega (arith, x.grown)) in
      Same-trans (place i a) (place i b) (place i c) (x.same i (omega (arith, s.generation))) s;
}

Follows-Later : (h k : Connections) → Follows h k → Later h k
Follows-Later h k f = record { grown = omega (arith, f.generation); same = λ i p. f.same i }

set-opened :
    (cs : List Client) (slot : ℕ) (c : Client) (g : ℕ)
    → g < c.generation
    → (i : ℕ) → (get_or (set cs slot c) i no_client).generation ≤ g
    → Same (get_or cs i no_client) (get_or (set cs slot c) i no_client)
set-opened [] slot c g e i p = Same-refl (get_or [] i no_client)
set-opened (x ∷ cs) zero c g e zero p = absurd (omega arith)
set-opened (x ∷ cs) zero c g e (suc i) p = Same-refl (get_or cs i no_client)
set-opened (x ∷ cs) (suc slot) c g e zero p = Same-refl x
set-opened (x ∷ cs) (suc slot) c g e (suc i) p = set-opened cs slot c g e i p

open_at-Later : (slot now : ℕ) (h : Connections) → Later h (open_at slot now h).0
unfolding open_at
open_at-Later slot now h = record {
  grown = omega arith;
  same =
      set-opened h.clients slot (opened (h.generation + 1) now (place slot h)) h.generation
        (omega arith);
}

open_client-Later : (now : ℕ) (h : Connections) → Later h (open_client now h).0
unfolding open_client
open_client-Later now h =
    if_intro {A = Connections × Token} (λ x. Later h x.0)
      (h.count == 16 || h.generation == 4294967295) _ _ (λ p. Follows-Later h h (Follows-refl h))
      (λ p. found-Later (free_place h.clients))
  where
    found-Later :
        (found : Option ℕ)
        → Later h
            (elim found as (λ x. Connections × Token) [
              | none ↦ (h, no_token)
              | some slot ↦ open_at slot now h
            ]).0
    found-Later none = Follows-Later h h (Follows-refl h)
    found-Later (some slot) = open_at-Later slot now h

operate-Later : (o : Operation) (h : Connections) → Later h (operate o h)
unfolding operate
operate-Later (Operation.opening now) h = open_client-Later now h
operate-Later (Operation.closing t) h = Follows-Later h _ (close-Follows t h)
operate-Later (Operation.receiving t message now) h =
    Follows-Later h _ (receive-Follows t message now h)
operate-Later (Operation.taking t) h = Follows-Later h _ (take_event-Follows t h)
operate-Later (Operation.failing t) h = Follows-Later h _ (send_failed-Follows t h)

operate_all-Later : (os : List Operation) (h : Connections) → Later h (operate_all os h)
unfolding operate_all
operate_all-Later [] h = Follows-Later h h (Follows-refl h)
operate_all-Later (o ∷ os) h =
    Later-trans h (operate o h) (operate_all os (operate o h)) (operate-Later o h)
      (operate_all-Later os (operate o h))

stays_dead :
    (os : List Operation) (h : Connections) (t : Token)
    → t.generation ≤ h.generation
    → is_live t h ≡ false
    → is_live t (operate_all os h) ≡ false
unfolding is_live
stays_dead os h t old dead = ground (arith, (operate_all-Later os h).same t.slot)

-- A token of a connection that was opened before, and is not open, is never that of an open connection again, whatever
-- sequence of operations the server makes: its place may be used again, and a late close or message for the old
-- connection changes nothing, it is handed no event, and a late failed send changes the metrics only.
pub operate_all-dead :
    (os : List Operation) (h : Connections) (t : Token) (message : List ℕ) (now : ℕ)
    → t.generation ≤ h.generation
    → is_live t h ≡ false
    → let k = operate_all os h in
      (is_live t k ≡ false)
      × (close t k ≡ k)
      × (receive t message now k ≡ k)
      × (take_event t k ≡ (k, none))
      × (send_failed t k ≡ record k { metrics = count_failure k.metrics })
operate_all-dead os h t message now old dead =
    let k = operate_all os h in
    let gone : is_live t k ≡ false = stays_dead os h t old dead in
    (
      gone,
      unfold close in ground arith,
      unfold receive in ground arith,
      unfold take_event in ground arith,
      unfold send_failed in ground arith,
    )
