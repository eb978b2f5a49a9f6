-- ===== src/Bridge/Valid.antt =====
-- Every turn of the application task, and every command that completes, keeps what holds of the connections.
use m5stack_core_s3se_dmx_co.Base.{
  ℕ, ◌≡◌, Bool, true, not, ◌==◌, some, List, arith, refl, if_intro, option_intro, bool_eq, bytes_eq,
  if◌then◌else◌,
}
use m5stack_core_s3se_dmx_co.Bridge.{
  Bridge, Interfaces, broadcast, for_all, for_maintenance, for_settings, for_wifi, wifi_active,
  shows_levels, is_done, numbered, refresh_presets, reply, state,
}
use m5stack_core_s3se_dmx_co.Bridge.Publish.{
  expire_archive, poll_preview, poll_wifi, publish, publish_maintenance, publish_mode,
  publish_settings, publish_wifi,
}
use m5stack_core_s3se_dmx_co.Bridge.Pushes.{
  Softer, answer-IsValid, deliver-IsValid, push_to-IsValid, softer-IsValid,
}
use m5stack_core_s3se_dmx_co.Bridge.Requests.{
  cancel_for_maintenance, maintenance_work, mark, snapshot_request, wifi_request,
}
use m5stack_core_s3se_dmx_co.Bridge.Transfer.{abort_archive, archive_reply}
use m5stack_core_s3se_dmx_co.Command.{CommandStatus}
use m5stack_core_s3se_dmx_co.Connections.{Client, Connections, Metrics, is_live, place}
use m5stack_core_s3se_dmx_co.Connections.Invariant.{IsValid}
use m5stack_core_s3se_dmx_co.Connections.Invariant.Kept.{is_live_lem, metrics-IsValid}
use m5stack_core_s3se_dmx_co.Maintenance.{MaintenanceResult}
use m5stack_core_s3se_dmx_co.Wifi as Wifi
use m5stack_core_s3se_dmx_co.Websocket.{Event, Kind, Request, Token}

pub mark-IsValid :
    (t : Token) (change : Client → Client) (h : Connections)
    → ((c : Client) → Softer c (change c))
    → IsValid h
    → IsValid (mark t change h)
mark-IsValid t change h s v =
    if_intro IsValid (is_live t h) _ _
      (λ p.
        softer-IsValid t.slot (change (place t.slot h)) h v (is_live_lem t h p).0
          (s (place t.slot h)))
      (λ p. v)

-- A mark is all that changes.
pub marked_wifi : (c : Client) → Softer c (record c { wifi = true })
marked_wifi c = record {
  events = refl;
  head = refl;
  count = refl;
  outstanding = omega arith;
  rate = refl;
  generation = refl;
  active = refl;
}

pub marked_maintenance : (c : Client) → Softer c (record c { maintenance = true })
marked_maintenance c = record {
  events = refl;
  head = refl;
  count = refl;
  outstanding = omega arith;
  rate = refl;
  generation = refl;
  active = refl;
}

pub marked_settings : (c : Client) → Softer c (record c { settings = true })
marked_settings c = record {
  events = refl;
  head = refl;
  count = refl;
  outstanding = omega arith;
  rate = refl;
  generation = refl;
  active = refl;
}

-- The connections of the bridge are valid.
pub record IsSound {S E B M W : Type 0} (b : Bridge S E B M W) : Type 0 where
  pub connections : IsValid b.connections

module _ {S E B M W : Type 0} where
  pub broadcast-IsSound : (e : Event) (b : Bridge S E B M W) → IsSound b → IsSound (broadcast e b)
  unfolding broadcast
  broadcast-IsSound e b v = record {
    connections = push_to-IsValid for_all e _ (metrics-IsValid b.connections v.connections _ refl);
  }

  pub publish_settings-IsSound : (b : Bridge S E B M W) → IsSound b → IsSound (publish_settings b)
  unfolding publish_settings
  publish_settings-IsSound b v = option_intro IsSound b.settings _ _ v (λ c.
      if_intro IsSound (c.revision == b.settings_revision) _ _ (λ p. v)
        (λ p. record { connections = push_to-IsValid for_settings _ b.connections v.connections }))

  pub publish_maintenance-IsSound :
      (b : Bridge S E B M W) → IsSound b → IsSound (publish_maintenance b)
  unfolding publish_maintenance
  publish_maintenance-IsSound b v = option_intro IsSound b.maintenance _ _ v (λ c.
      if_intro IsSound (c.revision == b.maintenance_revision) _ _ (λ p. v)
        (λ p. record {
          connections = push_to-IsValid for_maintenance _ b.connections v.connections;
        }))

  pub publish_wifi-IsSound : (b : Bridge S E B M W) → IsSound b → IsSound (publish_wifi b)
  unfolding publish_wifi
  publish_wifi-IsSound b v = option_intro IsSound b.wifi _ _ v (λ c.
      if_intro IsSound (c.revision == b.wifi_revision) _ _ (λ p. v)
        (λ p. record { connections = push_to-IsValid for_wifi _ b.connections v.connections }))

  pub abort_archive-IsSound : (b : Bridge S E B M W) → IsSound b → IsSound (abort_archive b)
  unfolding abort_archive
  abort_archive-IsSound b v = record { connections = v.connections }

  pub expire_archive-IsSound :
      (sender : Bool) (b : Bridge S E B M W) → IsSound b → IsSound (expire_archive sender b)
  unfolding expire_archive
  expire_archive-IsSound sender b v =
      if_intro IsSound _ _ _ (λ p. abort_archive-IsSound b v) (λ p. v)

module _ {S E B M W : Type 0} (interfaces : Interfaces S B M W) where
  pub state-IsSound :
      (kind : Kind) (id : ℕ) (b : Bridge S E B M W)
      → IsSound b
      → IsSound (state interfaces kind id b).0
  unfolding state refresh_presets
  state-IsSound kind id b v =
      if_intro {A = Bridge S E B M W × Event} (λ x. IsSound x.0) (shows_levels kind) _ _
        (λ p.
          if_intro IsSound b.presets_ready _ _ (λ q. record { connections = v.connections })
            (λ q. record { connections = v.connections }))
        (λ p. record { connections = v.connections })

  pub reply-IsSound :
      (r : Request) (status : CommandStatus) (domain : ℕ) (b : Bridge S E B M W)
      → IsSound b
      → IsSound (reply interfaces r status domain b)
  unfolding reply
  reply-IsSound r status domain b v =
      let h =
        (state interfaces (if is_done status then Kind.ack else Kind.error) r.id b).0.connections in
      record {
        connections = answer-IsValid r.token _ _ (
            metrics-IsValid h (state-IsSound _ r.id b v).connections _ (
              if_intro (λ (m : Metrics). m.clients ≡ h.metrics.clients) (is_done status) _ _
                (λ p. refl) (λ p. refl)));
      }

  pub archive_reply-IsSound :
      (r : Request) (status : List ℕ) (n : ℕ) (b : Bridge S E B M W)
      → IsSound b
      → IsSound (archive_reply interfaces r status n b)
  unfolding archive_reply
  archive_reply-IsSound r status n b v = record {
    connections =
        answer-IsValid r.token _ _ (state-IsSound Kind.archive_result r.id b v).connections;
  }

  pub poll_wifi-IsSound : (b : Bridge S E B M W) → IsSound b → IsSound (poll_wifi interfaces b)
  unfolding poll_wifi
  poll_wifi-IsSound b v = option_intro IsSound b.wifi _ _ v (λ w.
      let b1 : Bridge S E B M W = record b {
        wifi = some (Wifi.poll interfaces.wifi b.connections.clock w);
      } in
      let v1 : IsSound b1 = record { connections = v.connections } in
      if_intro IsSound _ _ _ (λ p. v1)
        (λ p. record { connections = (publish_wifi-IsSound b1 v1).connections }))

  pub poll_preview-IsSound :
      (b : Bridge S E B M W) → IsSound b → IsSound (poll_preview interfaces b)
  unfolding poll_preview
  poll_preview-IsSound b v =
      option_intro IsSound b.settings _ _ v (λ d. record { connections = v.connections })

  pub publish_mode-IsSound :
      (sender : Bool) (b : Bridge S E B M W)
      → IsSound b
      → IsSound (publish_mode interfaces sender b)
  unfolding publish_mode
  publish_mode-IsSound sender b v =
      if_intro IsSound (bool_eq b.sender sender) _ _ (λ p. v)
        (λ p. broadcast-IsSound _ _ (
          state-IsSound Kind.mode 0 (record b { sender = sender })
            (record { connections = v.connections })))

  pub publish-IsSound :
      (sender : Bool) (b : Bridge S E B M W) → IsSound b → IsSound (publish interfaces sender b)
  unfolding publish
  publish-IsSound sender b v = publish_mode-IsSound sender _ (
      publish_maintenance-IsSound _ (
        publish_settings-IsSound _
          (poll_preview-IsSound _ (poll_wifi-IsSound _ (expire_archive-IsSound sender b v)))))

  pub snapshot_request-IsSound :
      (r : Request) (b : Bridge S E B M W) → IsSound b → IsSound (snapshot_request interfaces r b)
  unfolding snapshot_request
  snapshot_request-IsSound r b v =
      let b1 = (if r.initial then (state interfaces Kind.hello 0 b).0 else b) in
      let v1 =
        if_intro IsSound r.initial (state interfaces Kind.hello 0 b).0 b
          (λ p. state-IsSound Kind.hello 0 b v) (λ p. v) in
      let b2 = (state interfaces Kind.snapshot r.id b1).0 in
      let e = (state interfaces Kind.snapshot r.id b1).1 in
      let v2 = state-IsSound Kind.snapshot r.id b1 v1 in
      let v3 =
        if_intro IsSound (bytes_eq b1.presets e.presets) b2
          (numbered (broadcast (record e { kind = Kind.universe; id = 0 }) b2)) (λ p. v2)
          (λ p. record { connections = (broadcast-IsSound _ b2 v2).connections }) in
      record { connections = deliver-IsValid r.token r.initial _ _ _ v3.connections }

  pub wifi_request-IsSound :
      (r : Request) (b : Bridge S E B M W) → IsSound b → IsSound (wifi_request interfaces r b)
  unfolding wifi_request
  wifi_request-IsSound r b v = record {
    connections =
        answer-IsValid r.token _ _
          (publish_wifi-IsSound _ (record { connections = marked })).connections;
  }
    where
      marked : IsValid (
          if r.wifi == 1
          then mark r.token (λ c. record c { wifi = true }) b.connections
          else b.connections)
      marked =
          if_intro IsValid (r.wifi == 1) _ _
            (λ p. mark-IsValid r.token _ b.connections marked_wifi v.connections)
            (λ p. v.connections)

  pub cancel_for_maintenance-IsSound :
      (result : MaintenanceResult) (b : Bridge S E B M W)
      → IsSound b
      → IsSound (cancel_for_maintenance interfaces result b)
  cancel_for_maintenance-IsSound MaintenanceResult.accepted b v =
      option_intro IsSound b.settings _ _ v
        (λ d. publish_settings-IsSound _ (record { connections = v.connections }))
  cancel_for_maintenance-IsSound MaintenanceResult.invalid b v = v
  cancel_for_maintenance-IsSound MaintenanceResult.cancelled b v = v
  cancel_for_maintenance-IsSound MaintenanceResult.unauthorized b v = v
  cancel_for_maintenance-IsSound MaintenanceResult.busy b v = v
  cancel_for_maintenance-IsSound MaintenanceResult.unsupported b v = v

  pub maintenance_work-IsSound :
      (subscribed : Bool) (r : Request) (b : Bridge S E B M W)
      → IsSound b
      → IsSound (maintenance_work interfaces subscribed r b).0
  unfolding maintenance_work
  maintenance_work-IsSound subscribed r b v =
      let P = λ (x : Bridge S E B M W × MaintenanceResult). IsSound x.0 in
      option_intro P b.maintenance _ _ v (λ m.
        if_intro P (r.maintenance == 1) _ _ (λ p. v)
          (λ p.
            if_intro P (not subscribed) _ _ (λ q. v)
              (λ q.
                if_intro P (not b.sender) _ _ (λ s. v)
                  (λ s.
                    if_intro P (wifi_active b.wifi) _ _ (λ t. v)
                      (λ t.
                        if_intro P (r.maintenance == 2) _ _
                          (λ u.
                            cancel_for_maintenance-IsSound _ _
                              (record { connections = v.connections }))
                          (λ u. record { connections = v.connections }))))))
