-- ===== src/Connections/Invariant/Steps.antt =====
-- Every operation of the task that serves the sockets keeps what holds of the connections.
use m5stack_core_s3se_dmx_co.Base.{
  ℕ, zero, suc, ◌+◌, ◌≡◌, ◌≢◌, ◌<◌, true, false, Option, none, some, List, [], ◌∷◌, length, get_or,
  All-map, All-set, arith, refl, if_intro, length-set, get_or-set_self, get_or-set_ne, ◌||◌, ◌==◌,
}
use m5stack_core_s3se_dmx_co.Connections.{Client, Connections, is_live, no_client, place, put}
use m5stack_core_s3se_dmx_co.Connections.Server.{
  Operation, operate, operate_all, count_failure, count_open, enqueue, opened, close, free_place,
  open_at, open_client, send_failed,
}
use m5stack_core_s3se_dmx_co.Connections.Invariant.{
  IsClient, IsValid, active_count-le, active_count-set, place-IsClient,
}
use m5stack_core_s3se_dmx_co.Connections.Invariant.Kept.{
  drop-IsValid, enqueue-IsValid, is_live_lem, metrics-IsValid, take_event-IsValid,
}
use m5stack_core_s3se_dmx_co.Websocket.{Stop, Token, no_request, no_token}
use m5stack_core_s3se_dmx_co.Connections.Invariant.Messages.{receive-IsValid}

module _ (h : Connections) (v : IsValid h) where
  close-IsValid : (t : Token) → IsValid (close t h)
  unfolding close
  close-IsValid t = ground (arith, v, is_live_lem t h, drop-IsValid h v t.slot Stop.requested 0)

  send_failed-IsValid : (t : Token) → IsValid (send_failed t h)
  unfolding send_failed is_live
  send_failed-IsValid t =
      let h1 : Connections = record h { metrics = count_failure h.metrics } in
      ground (
        arith,
        metrics-IsValid h v (count_failure h.metrics) refl,
        is_live_lem t h,
        drop-IsValid h1 (metrics-IsValid h v (count_failure h.metrics) refl) t.slot
            Stop.send_failure 0,
      )

older-IsClient : (g : ℕ) (c : Client) → IsClient g c → IsClient (g + 1) c
older-IsClient g c k = record {
  size = k.size;
  head_in = k.head_in;
  count_in = k.count_in;
  outstanding_in = k.outstanding_in;
  rate_in = k.rate_in;
  old = omega (arith, k.old);
  numbered = k.numbered;
  closed = k.closed;
}

-- The place found is that of a connection which is not open.
free_place_lem :
    (cs : List Client) (i : ℕ)
    → free_place cs ≡ some i
    → (i < length cs) × ((get_or cs i no_client).active ≡ false)
unfolding free_place
free_place_lem [] i e = cc
free_place_lem (c ∷ cs) zero e = ground (arith, free_place_lem cs)
free_place_lem (c ∷ cs) (suc i) e = ground (arith, free_place_lem cs i)

module _ (h : Connections) (v : IsValid h) where
  opening_at-IsValid :
      (slot now : ℕ)
      → slot < 4
      → (place slot h).active ≡ false
      → h.count < 16
      → h.generation ≢ 4294967295
      → IsValid (open_at slot now h).0
  unfolding open_at
  opening_at-IsValid slot now inside shut room limit =
      let c = opened (h.generation + 1) now (place slot h) in
      let k = place-IsClient slot h v in
      let h1 : Connections =
        put slot c (record h { generation = h.generation + 1; metrics = count_open h.metrics }) in
      let r = record no_request {
        token = record { generation = h.generation + 1; slot = slot };
        snapshot = true;
        initial = true;
      } in
      enqueue-IsValid h1
        (record {
          places = ground (arith, length-set h.clients slot c, v.places);
          clients =
              All-set (IsClient (h.generation + 1)) h.clients slot c
                (All-map _ _ (λ x q. older-IsClient h.generation x q) h.clients v.clients)
                (record {
                  size = k.size;
                  head_in = omega arith;
                  count_in = omega arith;
                  outstanding_in = omega arith;
                  rate_in = λ a. omega arith;
                  old = omega arith;
                  numbered = λ a. omega arith;
                  closed = λ a. cc;
                });
          inbox_size = v.inbox_size;
          head_in = v.head_in;
          count_in = v.count_in;
          generation_in = omega (arith, v.generation_in);
          distinct = λ i j p q e. ground (
            arith,
            v.distinct i j,
            v.places,
            get_or-set_self h.clients slot c no_client,
            get_or-set_ne h.clients slot i c no_client,
            get_or-set_ne h.clients slot j c no_client,
            (place-IsClient i h v).old,
            (place-IsClient j h v).old,
          );
          counted = ground (
            arith,
            active_count-set h.clients slot c no_client,
            active_count-le h.clients,
            v.places,
            v.counted,
          );
        })
        r (enqueue r h1).metrics room refl

  open_client-IsValid : (now : ℕ) → IsValid (open_client now h).0
  unfolding open_client
  open_client-IsValid now =
      if_intro {A = Connections × Token} (λ r. IsValid r.0)
        (h.count == 16 || h.generation == 4294967295) _ _ (λ p. v)
        (λ p.
          opened-IsValid (free_place h.clients) refl (ground (arith, v.count_in)) (ground arith))
    where
      opened-IsValid :
          (found : Option ℕ)
          → free_place h.clients ≡ found
          → h.count < 16
          → h.generation ≢ 4294967295
          → IsValid
              (elim found as (λ x. Connections × Token) [
                | none ↦ (h, no_token)
                | some slot ↦ open_at slot now h
              ]).0
      opened-IsValid none e room limit = v
      opened-IsValid (some slot) e room limit =
          let found = free_place_lem h.clients slot e in
          opening_at-IsValid slot now (ground (arith, found, v.places)) found.1 room limit

pub operate-IsValid : (o : Operation) (h : Connections) → IsValid h → IsValid (operate o h)
unfolding operate
operate-IsValid (Operation.opening now) h v = open_client-IsValid h v now
operate-IsValid (Operation.closing t) h v = close-IsValid h v t
operate-IsValid (Operation.receiving t message now) h v = receive-IsValid h v t message now
operate-IsValid (Operation.taking t) h v = take_event-IsValid h v t
operate-IsValid (Operation.failing t) h v = send_failed-IsValid h v t

-- Whatever sequence of opens, closes, messages, takes and failed sends the server makes, the connections keep their
-- invariant: no queue or inbox is over its bound, at most four requests wait for an answer and an open connection is
-- at most at its rate, a closed one has nothing left, no two open ones have one generation, and the metric of open
-- connections is their number.
pub operate_all-IsValid :
    (os : List Operation) (h : Connections) → IsValid h → IsValid (operate_all os h)
unfolding operate_all
operate_all-IsValid [] h v = v
operate_all-IsValid (o ∷ os) h v = operate_all-IsValid os (operate o h) (operate-IsValid o h v)
