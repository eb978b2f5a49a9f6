-- ===== src/Connections/Invariant/Kept.antt =====
-- Every operation on the connections keeps what holds of them.
use m5stack_core_s3se_dmx_co.Base.{
  ℕ, zero, suc, ◌+◌, ◌%◌, ◌≡◌, ◌≢◌, ◌≤◌, ◌<◌, true, List, [], ◌∷◌, get_or, set, arith, refl,
  length-set,
}
use m5stack_core_s3se_dmx_co.Connections.{
  count_full, count_push, pushed, Client, Connections, Metrics, drop, is_live, no_client, place,
  push, put,
}
use m5stack_core_s3se_dmx_co.Connections.Server.{asked, count_take, rated, taken, take_event}
use m5stack_core_s3se_dmx_co.Connections.Invariant.{
  IsClient, IsValid, active_count, active_count-le, place-IsClient, put-IsValid,
}
use m5stack_core_s3se_dmx_co.Websocket.{Event, Request, Stop, Token, no_event}

pub active_count-pos :
    (cs : List Client) (i : ℕ) → (get_or cs i no_client).active ≡ true → 1 ≤ active_count cs
unfolding active_count no_client
active_count-pos [] i h = cc
active_count-pos (c ∷ cs) zero h = ground arith
active_count-pos (c ∷ cs) (suc i) h = ground (arith, active_count-pos cs i)

pub is_live_lem :
    (t : Token) (h : Connections)
    → is_live t h ≡ true
    → (t.slot < 4)
      × (t.generation ≢ 0)
      × ((place t.slot h).active ≡ true)
      × ((place t.slot h).generation ≡ t.generation)
unfolding is_live
is_live_lem t h e = ground arith

module _ (g : ℕ) where
  taken-IsClient : (c : Client) → IsClient g c → c.count ≢ 0 → IsClient g (taken c)
  taken-IsClient c k h = record {
    size = k.size;
    head_in = omega arith;
    count_in = omega (arith, k.count_in);
    outstanding_in = k.outstanding_in;
    rate_in = k.rate_in;
    old = k.old;
    numbered = k.numbered;
    closed = λ q. absurd (h (k.closed q).0);
  }

  pushed-IsClient :
      (e : Event) (c : Client)
      → IsClient g c
      → c.active ≡ true
      → c.count ≢ 8
      → IsClient g (pushed e c)
  pushed-IsClient e c k a h = record {
    size = ground (arith, k.size, length-set c.events ((c.head + c.count) % 8) e);
    head_in = k.head_in;
    count_in = omega (arith, k.count_in);
    outstanding_in = k.outstanding_in;
    rate_in = k.rate_in;
    old = k.old;
    numbered = k.numbered;
    closed = λ p. ground arith;
  }

  pub asked-IsClient :
      (id : ℕ) (c : Client)
      → IsClient g c
      → c.active ≡ true
      → c.outstanding < 4
      → IsClient g (asked id c)
  asked-IsClient id c k a h = record {
    size = k.size;
    head_in = k.head_in;
    count_in = k.count_in;
    outstanding_in = omega arith;
    rate_in = k.rate_in;
    old = k.old;
    numbered = k.numbered;
    closed = λ p. ground arith;
  }

  pub rated-IsClient :
      (window rate : ℕ) (c : Client) → IsClient g c → rate ≤ 20 → IsClient g (rated window rate c)
  rated-IsClient window rate c k h = record {
    size = k.size;
    head_in = k.head_in;
    count_in = k.count_in;
    outstanding_in = k.outstanding_in;
    rate_in = λ a. h;
    old = k.old;
    numbered = k.numbered;
    closed = k.closed;
  }

module _ (h : Connections) (v : IsValid h) where
  -- A connection that is open is dropped.
  pub drop-IsValid :
      (slot : ℕ) (stop : Stop) (revision : ℕ)
      → slot < 4
      → (place slot h).active ≡ true
      → IsValid (drop slot stop revision h)
  unfolding drop
  drop-IsValid slot stop revision inside open_before =
      let k = place-IsClient slot h v in
      put-IsValid slot _ _ h v inside
        (record {
          size = k.size;
          head_in = k.head_in;
          count_in = omega arith;
          outstanding_in = omega arith;
          rate_in = λ h. cc;
          old = k.old;
          numbered = λ h. cc;
          closed = λ h. (refl, refl);
        })
        refl (λ h. cc)
        (ground (
          arith,
          v.counted,
          v.places,
          active_count-pos h.clients slot open_before,
          active_count-le h.clients,
        ))

  -- Metrics other than the number of clients are free.
  pub metrics-IsValid :
      (m : Metrics) → m.clients ≡ h.metrics.clients → IsValid (record h { metrics = m })
  metrics-IsValid m e = record {
    places = v.places;
    clients = v.clients;
    inbox_size = v.inbox_size;
    head_in = v.head_in;
    count_in = v.count_in;
    generation_in = v.generation_in;
    distinct = v.distinct;
    counted = ground (arith, v.counted);
  }

  -- An open connection changed in its queue, its numbers and its marks only.
  pub touched-IsValid :
      (slot : ℕ) (c : Client) (m : Metrics)
      → slot < 4
      → IsClient h.generation c
      → c.generation ≡ (place slot h).generation
      → c.active ≡ (place slot h).active
      → m.clients ≡ h.metrics.clients
      → IsValid (put slot c (record h { metrics = m }))
  touched-IsValid slot c m inside k same same_active e =
      put-IsValid slot c m h v inside k same (λ p. ground arith) (ground arith)

  pub take_event-IsValid : (t : Token) → IsValid (take_event t h).0
  unfolding take_event
  take_event-IsValid t =
      let c = place t.slot h in
      ground (
        arith,
        is_live_lem t h,
        v,
        touched-IsValid t.slot (taken c) (count_take (get_or c.events c.head no_event) h.metrics),
        taken-IsClient h.generation c (place-IsClient t.slot h v),
      )

  pub enqueue-IsValid :
      (r : Request) (m : Metrics)
      → h.count < 16
      → m.clients ≡ h.metrics.clients
      → IsValid (record h {
        inbox = set h.inbox ((h.head + h.count) % 16) r;
        count = h.count + 1;
        metrics = m;
      })
  enqueue-IsValid r m room e = record {
    places = v.places;
    clients = v.clients;
    inbox_size = ground (arith, v.inbox_size, length-set h.inbox ((h.head + h.count) % 16) r);
    head_in = v.head_in;
    count_in = omega arith;
    generation_in = v.generation_in;
    distinct = v.distinct;
    counted = ground (arith, v.counted);
  }

module _ (slot : ℕ) (e : Event) (h : Connections) (v : IsValid h) where
  pub push-IsValid : slot < 4 → (place slot h).active ≡ true → IsValid (push slot e h)
  unfolding push
  push-IsValid inside open_before =
      let c = place slot h in
      let m = count_full h.metrics in
      ground (
        arith,
        drop-IsValid (record h { metrics = m }) (metrics-IsValid h v m refl) slot Stop.queue_full
            e.revision inside open_before,
        touched-IsValid h v slot (pushed e c) (count_push e c h.metrics) inside,
        pushed-IsClient h.generation e c (place-IsClient slot h v) open_before,
      )
