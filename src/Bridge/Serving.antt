-- ===== src/Bridge/Serving.antt =====
-- Serving a request of any kind keeps what holds of the connections.
use m5stack_core_s3se_dmx_co.Base.{
  ℕ, ◌+◌, ◌-◌, true, not, ◌&&◌, ◌||◌, ◌==◌, leb, ltb, List, take, length, if_intro, option_intro,
  if◌then◌else◌, u32, codes,
}
use m5stack_core_s3se_dmx_co.Archive.{max_file}
use m5stack_core_s3se_dmx_co.Archive.Wire.{serialize}
use m5stack_core_s3se_dmx_co.Bridge.{
  Bridge, Interfaces, maintenance_active, wifi_active, wifi_active,
}
use m5stack_core_s3se_dmx_co.Bridge.Pushes.{answer-IsValid}
use m5stack_core_s3se_dmx_co.Bridge.Requests.{
  command_request, maintenance_request, is_committed, mark, other_request, serve_request,
  settings_request,
}
use m5stack_core_s3se_dmx_co.Bridge.Transfer.{
  archive_allowed, archive_request, commit, continue, export, ended, begun,
}
use m5stack_core_s3se_dmx_co.Connections.Invariant.{IsValid}
use m5stack_core_s3se_dmx_co.Dispatcher.{submit}
use m5stack_core_s3se_dmx_co.Controller.Presets.{capture_archive, stage_archive}
use m5stack_core_s3se_dmx_co.Dispatcher.Rules.{is_accepted, is_ok}
use m5stack_core_s3se_dmx_co.Websocket.{Request}
use m5stack_core_s3se_dmx_co.Bridge.Valid.{
  IsSound, abort_archive-IsSound, archive_reply-IsSound, maintenance_work-IsSound, mark-IsValid,
  marked_maintenance, marked_settings, publish_maintenance-IsSound, publish_settings-IsSound,
  reply-IsSound, snapshot_request-IsSound, wifi_request-IsSound,
}

-- What holds of the bridge that an operation leaves, when it answers with something else as well.
abbrev LeavesSound : {S E B M W A : Type 0} → Bridge S E B M W × A → Type 0
LeavesSound x = IsSound x.0

module _ {S E B M W : Type 0} (interfaces : Interfaces S B M W) where
  maintenance_request-IsSound :
      (r : Request) (b : Bridge S E B M W)
      → IsSound b
      → IsSound (maintenance_request interfaces r b)
  unfolding maintenance_request
  maintenance_request-IsSound r b v = record {
    connections =
        answer-IsValid r.token _ _
          (publish_maintenance-IsSound _ (
            maintenance_work-IsSound interfaces _ r _
              (record { connections = marked }))).connections;
  }
    where
      marked : IsValid (
          if r.maintenance == 1
          then mark r.token (λ c. record c { maintenance = true }) b.connections
          else b.connections)
      marked =
          if_intro IsValid (r.maintenance == 1) _ _
            (λ p. mark-IsValid r.token _ b.connections marked_maintenance v.connections)
            (λ p. v.connections)

  settings_request-IsSound :
      (r : Request) (b : Bridge S E B M W) → IsSound b → IsSound (settings_request interfaces r b)
  unfolding settings_request
  settings_request-IsSound r b v = record {
    connections =
        answer-IsValid r.token _ _
          (publish_settings-IsSound _ (record { connections = marked })).connections;
  }
    where
      marked : IsValid (
          if r.settings_write
          then b.connections
          else mark r.token (λ c. record c { settings = true }) b.connections)
      marked =
          if_intro IsValid r.settings_write _ _ (λ p. v.connections)
            (λ p. mark-IsValid r.token _ b.connections marked_settings v.connections)

  command_request-IsSound :
      (r : Request) (b : Bridge S E B M W) → IsSound b → IsSound (command_request interfaces r b)
  unfolding command_request
  command_request-IsSound r b v =
      let id = (if u32 (b.internal_id + 1) == 0 then 1 else u32 (b.internal_id + 1)) in
      let r1 : Request = record r { command = record r.command { request_id = id } } in
      let b1 : Bridge S E B M W = record b {
        internal_id = id;
        dispatcher = (submit r1.command b.dispatcher).0;
      } in
      let v1 : IsSound b1 = record { connections = v.connections } in
      if_intro IsSound (is_accepted (submit r1.command b.dispatcher).1.status) _ _
        (λ p. record { connections = v.connections })
        (λ p.
          if_intro IsSound (not (r.archive == 0)) _ _
            (λ q.
              abort_archive-IsSound _ (archive_reply-IsSound interfaces r1 (codes "busy") 0 b1 v1))
            (λ q. reply-IsSound interfaces r1 _ 0 b1 v1))

  other_request-IsSound :
      (r : Request) (b : Bridge S E B M W) → IsSound b → IsSound (other_request interfaces r b)
  unfolding other_request
  other_request-IsSound r b v =
      if_intro IsSound (not (r.wifi == 0)) _ _ (λ p. wifi_request-IsSound interfaces r b v)
        (λ p.
          if_intro IsSound (not (r.maintenance == 0)) _ _ (λ p. maintenance_request-IsSound r b v)
            (λ p.
              if_intro IsSound (is_committed b.maintenance && (not r.settings || r.settings_write))
                _ _ (λ p. reply-IsSound interfaces r _ 0 b v)
                (λ p.
                  if_intro IsSound r.settings _ _ (λ p. settings_request-IsSound r b v)
                    (λ p. command_request-IsSound r b v))))

  -- The answer that ends a transfer.
  pub ended-IsSound :
      (r : Request) (status : List ℕ) (b : Bridge S E B M W)
      → IsSound b
      → IsSound (ended interfaces r status b)
  ended-IsSound r status b v =
      abort_archive-IsSound _ (archive_reply-IsSound interfaces r status 0 b v)

  export-IsSound :
      (r : Request) (b : Bridge S E B M W) → IsSound b → IsSound (export interfaces r b)
  unfolding export
  export-IsSound r b v =
      let c = capture_archive interfaces.store b.dispatcher.controller in
      if_intro IsSound (not (is_ok c.1)) _ _
        (λ p. ended-IsSound r _ _ (record { connections = v.connections }))
        (λ p.
          if_intro IsSound (length (serialize c.0.archive (length b.archive.buffer)) == 0) _ _
            (λ q. ended-IsSound r _ _ (record { connections = v.connections }))
            (λ q.
              archive_reply-IsSound interfaces r _ 0 _ (record { connections = v.connections })))

  commit-IsSound :
      (r : Request) (b : Bridge S E B M W) → IsSound b → IsSound (commit interfaces r b).0
  unfolding commit
  commit-IsSound r b v =
      let a = b.archive in
      let staged =
        stage_archive (take a.total a.buffer) a.base (record { check = true }) (archive_allowed b)
          b.dispatcher.controller in
      if_intro LeavesSound (not (is_ok staged.1)) _ _
        (λ p. ended-IsSound r _ _ (record { connections = v.connections }))
        (λ p. record { connections = v.connections })

  continue-IsSound :
      (r : Request) (b : Bridge S E B M W) → IsSound b → IsSound (continue interfaces r b).0
  unfolding continue
  continue-IsSound r b v =
      let a = b.archive in
      let n = length r.archive_data in
      if_intro LeavesSound (r.archive == 6) _ _ (λ p. ended-IsSound r _ b v)
        (λ p.
          if_intro LeavesSound (r.archive == 2 && a.mode == 1 && ltb r.archive_offset a.total) _ _
            (λ q. archive_reply-IsSound interfaces r _ _ b v)
            (λ q.
              if_intro LeavesSound
                (r.archive == 4
                  && a.mode == 2
                  && r.archive_offset == a.received
                  && not (n == 0)
                  && leb n (a.total - a.received))
                _ _
                (λ s.
                  archive_reply-IsSound interfaces r _ 0 _ (record { connections = v.connections }))
                (λ s.
                  if_intro LeavesSound (r.archive == 5 && a.mode == 2 && a.received == a.total) _ _
                    (λ t. commit-IsSound r b v) (λ t. ended-IsSound r _ b v))))

  archive_request-IsSound :
      (r : Request) (b : Bridge S E B M W) → IsSound b → IsSound (archive_request interfaces r b).0
  unfolding archive_request
  archive_request-IsSound r b v =
      let a = b.archive in
      let v1 : IsSound (begun interfaces r b) = record { connections = v.connections } in
      if_intro LeavesSound (ltb (length a.buffer) max_file) _ _
        (λ p. archive_reply-IsSound interfaces r _ 0 b v)
        (λ p.
          if_intro LeavesSound (r.archive == 1 || r.archive == 3) _ _
            (λ q.
              if_intro IsSound (not (a.mode == 0)) _ _
                (λ s. archive_reply-IsSound interfaces r _ 0 b v)
                (λ s.
                  if_intro IsSound (a.counter == 4294967295) _ _
                    (λ t. archive_reply-IsSound interfaces r _ 0 b v)
                    (λ t.
                      if_intro IsSound (r.archive == 1) _ _ (λ u. export-IsSound r _ v1)
                        (λ u.
                          archive_reply-IsSound interfaces r _ 0 _
                            (record { connections = v.connections })))))
            (λ q.
              if_intro LeavesSound
                (a.mode == 0
                  || not (a.owner == r.token.generation)
                  || not (a.token == r.archive_token))
                _ _ (λ s. archive_reply-IsSound interfaces r _ 0 b v)
                (λ s. continue-IsSound r _ (record { connections = v.connections }))))

  pub serve_request-IsSound :
      (r : Request) (b : Bridge S E B M W) → IsSound b → IsSound (serve_request interfaces r b)
  unfolding serve_request
  serve_request-IsSound r b v =
      if_intro IsSound r.snapshot _ _ (λ p. snapshot_request-IsSound interfaces r b v)
        (λ p.
          if_intro IsSound (r.archive == 0) _ _ (λ q. other_request-IsSound r b v)
            (λ q.
              if_intro IsSound
                (not b.sender || maintenance_active b.maintenance || wifi_active b.wifi) _ _
                (λ s. archive_reply-IsSound interfaces r _ 0 b v)
                (λ s.
                  let v1 = archive_request-IsSound r b v in
                  option_intro IsSound (archive_request interfaces r b).1 _ _ v1
                    (λ r1. other_request-IsSound r1 _ v1))))
