-- ===== src/Bridge/Flight.antt =====
-- One command of a browser at a time: while one is in flight, the others wait where they are.
use m5stack_core_s3se_dmx_co.Base.{
  ℕ, zero, suc, ◌+◌, ◌≡◌, Bool, true, ◌&&◌, ◌||◌, ◌==◌, some, arith, refl, ◌∙◌, if_intro,
  option_intro, bool_eq,
}
use m5stack_core_s3se_dmx_co.Bridge.{
  Bridge, Interfaces, broadcast, for_all, for_maintenance, for_settings, for_wifi, push_from,
  push_to, refresh_presets, shows_levels, state,
}
use m5stack_core_s3se_dmx_co.Bridge.Poll.{owner_poll}
use m5stack_core_s3se_dmx_co.Bridge.Publish.{
  expire_archive, poll_preview, poll_wifi, publish, publish_maintenance, publish_mode,
  publish_settings, publish_wifi,
}
use m5stack_core_s3se_dmx_co.Bridge.Transfer.{abort_archive}
use m5stack_core_s3se_dmx_co.Connections.{Client, Connections, place}
use m5stack_core_s3se_dmx_co.Connections.Receive.{waiting, waiting-push, waiting-changed}
use m5stack_core_s3se_dmx_co.Dispatcher.Queue.{contents}
use m5stack_core_s3se_dmx_co.Websocket.{Event, Kind}
use m5stack_core_s3se_dmx_co.Wifi as Wifi

waiting-push_from :
    (n slot : ℕ) (asked : Client → Bool) (e : Event) (h : Connections)
    → waiting (push_from n slot asked e h) ≡ waiting h
unfolding push_from
waiting-push_from zero slot asked e h = refl
waiting-push_from (suc n) slot asked e h =
    let c = place slot h in
    waiting-push_from n (slot + 1) asked e _
    ∙ if_intro (λ (x : Connections). waiting x ≡ waiting h) (c.active && c.is_ready && asked c) _ _
        (λ p. waiting-push h slot e) (λ p. refl)

waiting-push_to :
    (asked : Client → Bool) (e : Event) (h : Connections) → waiting (push_to asked e h) ≡ waiting h
unfolding push_to
waiting-push_to asked e h = waiting-push_from 4 0 asked e h

module _ {S E B M W : Type 0} where
  -- The requests that wait, the command in flight and the queue of the dispatcher are what they were.
  pub record Same (b b' : Bridge S E B M W) : Type 0 where
    pub inbox : waiting b'.connections ≡ waiting b.connections
    pub in_flight : b'.in_flight ≡ b.in_flight
    pub flight : b'.flight ≡ b.flight
    pub queue : contents b'.dispatcher ≡ contents b.dispatcher

  Same-trans : (a b c : Bridge S E B M W) → Same a b → Same b c → Same a c
  Same-trans a b c x y = record {
    inbox = y.inbox ∙ x.inbox;
    in_flight = y.in_flight ∙ x.in_flight;
    flight = y.flight ∙ x.flight;
    queue = y.queue ∙ x.queue;
  }

  Same-refl : (b : Bridge S E B M W) → Same b b
  Same-refl b = record { inbox = refl; in_flight = refl; flight = refl; queue = refl }

  broadcast-Same : (e : Event) (b : Bridge S E B M W) → Same b (broadcast e b)
  unfolding broadcast
  broadcast-Same e b =
      let h = b.connections in
      record {
        inbox = waiting-push_to for_all e _ ∙ waiting-changed h h.clients _;
        in_flight = refl;
        flight = refl;
        queue = refl;
      }

  publish_settings-Same : (b : Bridge S E B M W) → Same b (publish_settings b)
  unfolding publish_settings
  publish_settings-Same b = option_intro (Same b) b.settings _ _ (Same-refl b) (λ d.
      if_intro (Same b) (d.revision == b.settings_revision) _ _ (λ p. Same-refl b)
        (λ p. record {
          inbox = waiting-push_to for_settings _ b.connections;
          in_flight = refl;
          flight = refl;
          queue = refl;
        }))

  publish_maintenance-Same : (b : Bridge S E B M W) → Same b (publish_maintenance b)
  unfolding publish_maintenance
  publish_maintenance-Same b = option_intro (Same b) b.maintenance _ _ (Same-refl b) (λ d.
      if_intro (Same b) (d.revision == b.maintenance_revision) _ _ (λ p. Same-refl b)
        (λ p. record {
          inbox = waiting-push_to for_maintenance _ b.connections;
          in_flight = refl;
          flight = refl;
          queue = refl;
        }))

  publish_wifi-Same : (b : Bridge S E B M W) → Same b (publish_wifi b)
  unfolding publish_wifi
  publish_wifi-Same b = option_intro (Same b) b.wifi _ _ (Same-refl b) (λ d.
      if_intro (Same b) (d.revision == b.wifi_revision) _ _ (λ p. Same-refl b)
        (λ p. record {
          inbox = waiting-push_to for_wifi _ b.connections;
          in_flight = refl;
          flight = refl;
          queue = refl;
        }))

  expire_archive-Same : (sender : Bool) (b : Bridge S E B M W) → Same b (expire_archive sender b)
  unfolding expire_archive abort_archive
  expire_archive-Same sender b =
      if_intro (Same b) _ _ _
        (λ p. record { inbox = refl; in_flight = refl; flight = refl; queue = refl })
        (λ p. Same-refl b)

module _ {S E B M W : Type 0} (interfaces : Interfaces S B M W) where
  state-Same : (kind : Kind) (id : ℕ) (b : Bridge S E B M W) → Same b (state interfaces kind id b).0
  unfolding state refresh_presets
  state-Same kind id b =
      if_intro (λ (x : Bridge S E B M W × Event). Same b x.0) (shows_levels kind) _ _
        (λ p.
          if_intro (Same b) b.presets_ready _ _
            (λ q. record { inbox = refl; in_flight = refl; flight = refl; queue = refl })
            (λ q. record { inbox = refl; in_flight = refl; flight = refl; queue = refl }))
        (λ p. record { inbox = refl; in_flight = refl; flight = refl; queue = refl })

  poll_wifi-Same : (b : Bridge S E B M W) → Same b (poll_wifi interfaces b)
  unfolding poll_wifi
  poll_wifi-Same b = option_intro (Same b) b.wifi _ _ (Same-refl b) (λ w.
      let b1 : Bridge S E B M W = record b {
        wifi = some (Wifi.poll interfaces.wifi b.connections.clock w);
      } in
      let s = publish_wifi-Same b1 in
      if_intro (Same b) _ _ _
        (λ p. record { inbox = refl; in_flight = refl; flight = refl; queue = refl })
        (λ p. record {
          inbox = s.inbox;
          in_flight = s.in_flight;
          flight = s.flight;
          queue = s.queue;
        }))

  poll_preview-Same : (b : Bridge S E B M W) → Same b (poll_preview interfaces b)
  unfolding poll_preview
  poll_preview-Same b =
      option_intro (Same b) b.settings _ _ (Same-refl b)
        (λ d. record { inbox = refl; in_flight = refl; flight = refl; queue = refl })

  publish_mode-Same :
      (sender : Bool) (b : Bridge S E B M W) → Same b (publish_mode interfaces sender b)
  unfolding publish_mode
  publish_mode-Same sender b =
      let b1 : Bridge S E B M W = record b { sender = sender } in
      let s = state-Same Kind.mode 0 b1 in
      if_intro (Same b) (bool_eq b.sender sender) _ _ (λ p. Same-refl b)
        (λ p.
          Same-trans b _ _
            (record {
              inbox = s.inbox;
              in_flight = s.in_flight;
              flight = s.flight;
              queue = s.queue;
            })
            (broadcast-Same (state interfaces Kind.mode 0 b1).1
              (state interfaces Kind.mode 0 b1).0))

  publish-Same : (sender : Bool) (b : Bridge S E B M W) → Same b (publish interfaces sender b)
  unfolding publish
  publish-Same sender b =
      let b1 = expire_archive sender b in
      let b2 = poll_wifi interfaces b1 in
      let b3 = poll_preview interfaces b2 in
      let b4 = publish_settings b3 in
      let b5 = publish_maintenance b4 in
      Same-trans b b1 _ (expire_archive-Same sender b) (
        Same-trans b1 b2 _ (poll_wifi-Same b1) (
          Same-trans b2 b3 _ (poll_preview-Same b2) (
            Same-trans b3 b4 _ (publish_settings-Same b3)
              (Same-trans b4 b5 _ (publish_maintenance-Same b4) (publish_mode-Same sender b5)))))

  -- While a command of a browser is in flight, a turn of the application task hands over no other: the requests wait in the
  -- inbox in the order in which they came, the command stays in flight, and the queue of the dispatcher is left
  -- alone.
  pub owner_poll-Same :
      (sender : Bool) (b : Bridge S E B M W)
      → b.in_flight ≡ true
      → Same b (owner_poll interfaces sender b)
  unfolding owner_poll
  owner_poll-Same sender b flying =
      let s = publish-Same sender b in
      let b1 = publish interfaces sender b in
      if_intro (Same b) (b1.in_flight || b1.connections.count == 0) _ _ (λ p. s)
        (λ p. absurd (ground (arith, s.in_flight)))
