-- ===== src/Bridge/Reads.antt =====
-- What an answer about a transfer brings: bytes of the buffer that belong to the transfer, and no others.
use m5stack_core_s3se_dmx_co.Base.{
  ℕ, ◌+◌, ◌-◌, ◌≡◌, ◌≢◌, ◌≤◌, true, false, not, ◌&&◌, ◌||◌, ◌==◌, leb, ltb, some, Option, Bool,
  codes, List, [], ◌∷◌, ◌++◌, take, drop, length, arith, refl, ap, ◌∙◌, sym, subst, if_intro,
  if◌then◌else◌,
}
use m5stack_core_s3se_dmx_co.Archive.{max_file}
use m5stack_core_s3se_dmx_co.Bridge.{Bridge, Interfaces, state, controller_event}
use m5stack_core_s3se_dmx_co.Bridge.Answers.{answer-events, events_of}
use m5stack_core_s3se_dmx_co.Bridge.Bounds.{
  Within, archive_request-Within, length-drop_le, length-take_le, take-append,
}
use m5stack_core_s3se_dmx_co.Bridge.Transfer.{
  abort_archive, archive_reply, archive_request, continue, ended, least, splice,
}
use m5stack_core_s3se_dmx_co.Connections.{Connections, is_live, place}
use m5stack_core_s3se_dmx_co.Connections.Invariant.{IsValid}
use m5stack_core_s3se_dmx_co.Connections.Receive.{queued}
use m5stack_core_s3se_dmx_co.Websocket.{Event, Kind, Request, no_event}

either-length :
    (c : Bool) (e f : Event)
    → e.archive_length ≡ 0
    → f.archive_length ≡ 0
    → (if c then e else f).archive_length ≡ 0
either-length true e f h k = h
either-length false e f h k = k

-- The bytes that were put into an event are its first.
take-put :
    (k i : ℕ) (buffer values : List ℕ)
    → i + k ≤ length buffer
    → take k (splice 0 (take k (drop i buffer)) values) ≡ take k (drop i buffer)
unfolding splice
take-put k i buffer values h =
    let bytes = take k (drop i buffer) in
    let size : length bytes ≡ k =
      length-take_le k (drop i buffer) (omega (arith, length-drop_le i buffer (omega arith))) in
    ap (λ n. take n (bytes ++ drop (0 + length bytes) values)) (sym size)
    ∙ take-append bytes (drop (0 + length bytes) values)

-- The bytes that an event brings, if it brings any, are at most 512 of the transfer of `b`, at the offset that it says.
pub record Brings {S E B M W : Type 0} (b : Bridge S E B M W) (e : Event) : Type 0 where
  pub few : e.archive_length ≤ 512
  pub inside : e.archive_offset + e.archive_length ≤ b.archive.total
  pub bytes :
      take e.archive_length e.values
      ≡ take e.archive_length (drop e.archive_offset b.archive.buffer)

module _ {S E B M W : Type 0} (interfaces : Interfaces S B M W) (r : Request)
    (b0 : Bridge S E B M W) (v : IsValid b0.connections)
    (live : is_live r.token b0.connections ≡ true)
    (room : (place r.token.slot b0.connections).count ≢ 8) where
  Sends : Bridge S E B M W → Type 0
  Sends b =
      (e : Event) × (queued r.token.slot b.connections
        ≡ queued r.token.slot b0.connections ++ e ∷ [])
      × (e.archive_length ≢ 0 → Brings b0 e)

  state-length :
      (b : Bridge S E B M W) → (state interfaces Kind.archive_result r.id b).1.archive_length ≡ 0
  unfolding state controller_event no_event
  state-length b = refl

  -- The event of an answer, before bytes are put into it, and with `k` bytes.
  abbrev plain : List ℕ → Bridge S E B M W → Event
  plain status b =
      let s = state interfaces Kind.archive_result r.id b in
      let a = s.0.archive in
      let e1 : Event = record s.1 { reason = some status } in
      if a.owner == r.token.generation
      then record e1 {
        archive_token = a.token;
        archive_total = a.total;
        archive_offset = a.received;
        archive_count = a.count;
      }
      else e1

  abbrev laden : List ℕ → ℕ → Bridge S E B M W → Event
  laden status k b =
      let s = state interfaces Kind.archive_result r.id b in
      let e2 = plain status b in
      if k == 0 then e2 else record e2 {
        archive_offset = r.archive_offset;
        archive_length = k;
        values = splice 0 (take k (drop r.archive_offset s.0.archive.buffer)) e2.values;
      }

  -- An answer is one event more for the browser.
  archive_reply-queued :
      (status : List ℕ) (k : ℕ) (b : Bridge S E B M W)
      → b.connections ≡ b0.connections
      → queued r.token.slot (archive_reply interfaces r status k b).connections
        ≡ queued r.token.slot b0.connections ++ laden status k b ∷ []
  unfolding queued archive_reply state
  archive_reply-queued status k b same =
      answer-events r.token (laden status k b) b.connections (subst IsValid (sym same) v)
        (ap (is_live r.token) same ∙ live)
        (λ q. room (sym (ap (λ (x : Connections). (place r.token.slot x).count) same) ∙ q))
      ∙ ap (λ (x : Connections). events_of (place r.token.slot x) ++ laden status k b ∷ []) same

  plain-length : (status : List ℕ) (b : Bridge S E B M W) → (plain status b).archive_length ≡ 0
  plain-length status b = either-length _ _ _ (state-length b) (state-length b)

  -- An answer without bytes.
  quiet-Sends :
      (status : List ℕ) (b : Bridge S E B M W)
      → b.connections ≡ b0.connections
      → Sends (archive_reply interfaces r status 0 b)
  unfolding Sends
  quiet-Sends status b same = (
    laden status 0 b,
    archive_reply-queued status 0 b same,
    λ h. absurd (h (plain-length status b)),
  )

  ended-Sends :
      (status : List ℕ) (b : Bridge S E B M W)
      → b.connections ≡ b0.connections
      → Sends (ended interfaces r status b)
  unfolding Sends abort_archive
  ended-Sends status b same = quiet-Sends status b same

  -- An answer with bytes of the transfer.
  data-Sends :
      (status : List ℕ) (k : ℕ) (b : Bridge S E B M W)
      → b.connections ≡ b0.connections
      → b.archive.buffer ≡ b0.archive.buffer
      → b0.archive.total ≤ length b0.archive.buffer
      → k ≤ 512
      → r.archive_offset + k ≤ b0.archive.total
      → Sends (archive_reply interfaces r status k b)
  unfolding Sends state
  data-Sends status k b same kept fits few inside = (
    laden status k b,
    archive_reply-queued status k b same,
    if_intro (λ (e : Event). e.archive_length ≢ 0 → Brings b0 e) (k == 0) _ _
        (λ p h. absurd (h (plain-length status b)))
        (λ p h. record {
          few = few;
          inside = inside;
          bytes =
              take-put k r.archive_offset b.archive.buffer (plain status b).values
                (omega (arith, ap length kept))
              ∙ ap (λ (xs : List ℕ). take k (drop r.archive_offset xs)) kept;
        }),
  )

  -- A request for data, on a transfer that is within its buffer.
  continue-Sends :
      (b : Bridge S E B M W)
      → r.archive ≡ 2
      → b.connections ≡ b0.connections
      → b.archive.buffer ≡ b0.archive.buffer
      → b.archive.total ≡ b0.archive.total
      → b0.archive.total ≤ length b0.archive.buffer
      → Sends (continue interfaces r b).0
  unfolding continue
  continue-Sends b asked same kept total fits =
      let a = b.archive in
      let m = length r.archive_data in
      let P = λ (x : Bridge S E B M W × Option Request). Sends x.0 in
      if_intro P (r.archive == 6) _ _ (λ p. absurd (ground arith))
        (λ p.
          if_intro P (r.archive == 2 && a.mode == 1 && ltb r.archive_offset a.total) _ _
            (λ q.
              data-Sends (codes "data") (least 512 (a.total - r.archive_offset)) b same kept fits
                (ground arith) (ground arith))
            (λ q.
              if_intro P
                (r.archive == 4
                  && a.mode == 2
                  && r.archive_offset == a.received
                  && not (m == 0)
                  && leb m (a.total - a.received))
                _ _ (λ s. absurd (ground arith))
                (λ s.
                  if_intro P (r.archive == 5 && a.mode == 2 && a.received == a.total) _ _
                    (λ u. absurd (ground arith)) (λ u. ended-Sends (codes "invalid") b same))))

  data_request-Sends :
      r.archive ≡ 2
      → b0.archive.total ≤ length b0.archive.buffer
      → Sends (archive_request interfaces r b0).0
  unfolding archive_request
  data_request-Sends asked fits =
      let a = b0.archive in
      let P = λ (x : Bridge S E B M W × Option Request). Sends x.0 in
      if_intro P (ltb (length a.buffer) max_file) _ _
        (λ p. quiet-Sends (codes "unavailable") b0 refl)
        (λ p.
          if_intro P (r.archive == 1 || r.archive == 3) _ _ (λ q. absurd (ground arith))
            (λ q.
              if_intro P
                (a.mode == 0
                  || not (a.owner == r.token.generation)
                  || not (a.token == r.archive_token))
                _ _ (λ s. quiet-Sends (codes "unauthorized") b0 refl)
                (λ s. continue-Sends _ asked refl refl refl fits)))

-- A request for a transfer of presets, an import being announced with at most 32768 bytes as the decoder sees to, does not
-- write outside of the buffer: its size stays what it is, the transfer that is under way fits in it, and no more
-- bytes are received than were announced. Nor does a request for data read outside of it: a browser that is
-- connected, and whose queue has room, is sent one event, and the bytes that it brings, if it brings any, are at
-- most 512 of the transfer, those at the offset that it says.
pub archive_request-in_buffer :
    {S E B M W : Type 0} (n : ℕ) (interfaces : Interfaces S B M W) (r : Request)
    (b : Bridge S E B M W)
    → Within n b
    → (r.archive ≡ 3 → r.archive_total ≤ 32768)
    → let out = (archive_request interfaces r b).0 in
      let slot = r.token.slot in
      Within n out
      × (IsValid b.connections
          → is_live r.token b.connections ≡ true
          → (place slot b.connections).count ≢ 8
          → r.archive ≡ 2
          → (e : Event) × (queued slot out.connections ≡ queued slot b.connections ++ e ∷ [])
            × (e.archive_length ≢ 0 → Brings b e))
unfolding Sends
archive_request-in_buffer n interfaces r b w announced = (
  archive_request-Within n interfaces r b w announced,
  λ v live room asked.
      data_request-Sends interfaces r b v live room asked
        (omega (arith, w.archive.total_in, w.archive.size)),
)
