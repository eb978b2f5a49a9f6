-- ===== src/Connections/Invariant/Messages.antt =====
-- A message that a browser sends keeps what holds of the connections.
use m5stack_core_s3se_dmx_co.Base.{
  ℕ, ◌+◌, ◌-◌, ◌%◌, ◌≡◌, ◌≤◌, ◌<◌, true, false, List, arith, refl, ap, ◌∙◌, sym, subst, set-set,
  if_intro, get_or-set_self, u32, not, ◌||◌, ◌==◌, leb, ltb, if◌then◌else◌,
}
use m5stack_core_s3se_dmx_co.Command.{CommandStatus}
use m5stack_core_s3se_dmx_co.Connections.{
  Client, Connections, Metrics, drop, is_live, no_client, place, put,
}
use m5stack_core_s3se_dmx_co.Connections.Server.{
  asked, count_admission, count_flood, count_refusal, enqueue, rated, admit, receive,
  receive_decoded, refuse,
}
use m5stack_core_s3se_dmx_co.Connections.Invariant.{
  IsClient, IsValid, active_count-le, place-IsClient, put-IsValid,
}
use m5stack_core_s3se_dmx_co.Connections.Invariant.Kept.{
  active_count-pos, asked-IsClient, enqueue-IsValid, is_live_lem, metrics-IsValid, push-IsValid,
  rated-IsClient, touched-IsValid,
}
use m5stack_core_s3se_dmx_co.Websocket.{Request, Stop, Token}
use m5stack_core_s3se_dmx_co.Websocket.Decode.{Decoded, decode}

module _ (h : Connections) (v : IsValid h) where
  refuse-IsValid :
      (slot id : ℕ) (result : CommandStatus) (reason : List ℕ)
      → slot < 4
      → (place slot h).active ≡ true
      → IsValid (refuse slot id result reason h)
  unfolding refuse
  refuse-IsValid slot id result reason inside open_before =
      push-IsValid slot _ _ (metrics-IsValid h v (count_refusal h.metrics) refl) inside open_before

  admit-IsValid :
      (slot : ℕ) (r : Request)
      → slot < 4
      → (place slot h).active ≡ true
      → (place slot h).outstanding < 4
      → h.count < 16
      → IsValid (admit slot r h)
  unfolding admit
  admit-IsValid slot r inside open_before room room_in =
      let h1 = enqueue r (record h { metrics = count_admission h.metrics }) in
      touched-IsValid h1 (enqueue-IsValid h v r h1.metrics room_in refl) slot
        (asked r.id (place slot h)) h1.metrics inside
        (asked-IsClient h.generation r.id (place slot h) (place-IsClient slot h v) open_before room)
        refl refl refl

abbrev numbered : ℕ → Client → Client
numbered id c = record c { last_id = id }

module _ (h : Connections) (v : IsValid h) (slot : ℕ) (inside : slot < 4)
    (open_before : (place slot h).active ≡ true) where
  abbrev c : Client
  c = place slot h

  k : IsClient h.generation c
  k = place-IsClient slot h v

  -- A connection whose last number is changed only.
  numbered-IsValid : (id : ℕ) → IsValid (put slot (numbered id c) h)
  numbered-IsValid id =
      touched-IsValid h v slot (numbered id c) h.metrics inside
        (record {
          size = k.size;
          head_in = k.head_in;
          count_in = k.count_in;
          outstanding_in = k.outstanding_in;
          rate_in = k.rate_in;
          old = k.old;
          numbered = k.numbered;
          closed = k.closed;
        })
        refl refl refl

  pub rated-IsValid :
      (window rate : ℕ) (m : Metrics)
      → rate ≤ 20
      → m.clients ≡ h.metrics.clients
      → IsValid (put slot (rated window rate c) (record h { metrics = m }))
  rated-IsValid window rate m e same =
      touched-IsValid h v slot (rated window rate c) m inside
        (rated-IsClient h.generation window rate c k e) refl refl same

  pub place-put : (d : Client) → place slot (put slot d h) ≡ d
  place-put d = get_or-set_self h.clients slot d no_client (omega (arith, v.places))

module _ (h : Connections) (v : IsValid h) (t : Token) (inside : t.slot < 4)
    (open_before : (place t.slot h).active ≡ true) where
  receive_decoded-IsValid : (d : Decoded) → IsValid (receive_decoded d t h)
  unfolding receive_decoded
  receive_decoded-IsValid (Decoded.refused id error) =
      refuse-IsValid h v t.slot _ _ _ inside open_before
  receive_decoded-IsValid (Decoded.accepted r) =
      let c = place t.slot h in
      let late = put t.slot (numbered r.id c) h in
      let v_late = numbered-IsValid h v t.slot inside open_before r.id in
      let open_late : (place t.slot late).active ≡ true =
        ap (λ d. d.active) (place-put h v t.slot inside open_before (numbered r.id c))
        ∙ open_before in
      if_intro IsValid (leb r.id c.last_id) _ _
        (λ p. refuse-IsValid h v t.slot _ _ _ inside open_before)
        (λ p.
          if_intro IsValid (not c.is_ready) _ _
            (λ q. refuse-IsValid late v_late t.slot _ _ _ inside open_late)
            (λ q.
              if_intro IsValid (leb 4 c.outstanding || h.count == 16) _ _
                (λ s. refuse-IsValid late v_late t.slot _ _ _ inside open_late)
                (λ s.
                  admit-IsValid h v t.slot (record r { token = t }) inside open_before
                    (ground arith) (ground (arith, v.count_in)))))

module _ (h : Connections) (v : IsValid h) (slot : ℕ) (inside : slot < 4)
    (open_before : (place slot h).active ≡ true) where
  -- A connection that is dropped after its rate was counted.
  rated_drop-IsValid :
      (window rate : ℕ) (m : Metrics) (stop : Stop)
      → m.clients ≡ h.metrics.clients
      → IsValid (
          drop slot stop 0 (record (put slot (rated window rate (place slot h)) h) { metrics = m }))
  unfolding drop
  rated_drop-IsValid window rate m stop same =
      let c = place slot h in
      let k = place-IsClient slot h v in
      let d = rated window rate c in
      let h1 : Connections = record (put slot d h) { metrics = m } in
      let e : place slot h1 ≡ d = place-put h v slot inside open_before d in
      let wiped =
        λ (b : Client). record b { stop = stop; active = false; count = 0; outstanding = 0 } in
      let k1 : IsClient h.generation (wiped d) = record {
        size = k.size;
        head_in = k.head_in;
        count_in = omega arith;
        outstanding_in = omega arith;
        rate_in = λ h. cc;
        old = k.old;
        numbered = λ h. cc;
        closed = λ h. (refl, refl);
      } in
      subst (λ cs. IsValid (record h { clients = cs; metrics = (drop slot stop 0 h1).metrics }))
        (sym (set-set h.clients slot d (wiped (place slot h1))))
        (put-IsValid slot (wiped (place slot h1)) (drop slot stop 0 h1).metrics h v inside
          (subst (λ b. IsClient h.generation (wiped b)) (sym e) k1) (ap (λ b. b.generation) e)
          (λ p. cc)
          (ground (
            arith,
            same,
            v.counted,
            v.places,
            active_count-pos h.clients slot open_before,
            active_count-le h.clients,
          )))

module _ (h : Connections) (v : IsValid h) where
  pub receive-IsValid : (t : Token) (message : List ℕ) (now : ℕ) → IsValid (receive t message now h)
  unfolding receive
  receive-IsValid t message now =
      let c = place t.slot h in
      let fresh = leb 1000 ((now + 18446744073709551616 - c.window) % 18446744073709551616) in
      let rate = u32 ((if fresh then 0 else c.rate) + 1) in
      let window = if fresh then now else c.window in
      if_intro IsValid (not (is_live t h)) _ _ (λ p. v)
        (λ p.
          let live = is_live_lem t h (ground arith) in
          if_intro IsValid (ltb 20 rate) _ _
            (λ q.
              rated_drop-IsValid h v t.slot live.0 live.2 window rate (count_flood h.metrics)
                Stop.rate_limit refl)
            (λ q.
              let h1 = put t.slot (rated window rate c) h in
              receive_decoded-IsValid h1
                (rated-IsValid h v t.slot live.0 live.2 window rate h.metrics (ground arith) refl) t
                live.0
                (ap (λ d. d.active) (place-put h v t.slot live.0 live.2 (rated window rate c))
                  ∙ live.2)
                (decode message)))
