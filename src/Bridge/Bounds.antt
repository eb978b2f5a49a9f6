-- ===== src/Bridge/Bounds.antt =====
-- The buffer of a transfer: nothing is written outside of it.
use m5stack_core_s3se_dmx_co.Base.{
  ℕ, zero, suc, ◌+◌, ◌-◌, ◌≡◌, ◌≤◌, true, not, ◌&&◌, ◌||◌, ◌==◌, leb, ltb, List, [], ◌∷◌, ◌++◌,
  take, drop, length, arith, refl, ap, ◌∙◌, sym, subst, if_intro, replicate, length-replicate,
  length-append,
}
use m5stack_core_s3se_dmx_co.Archive as Presets
use m5stack_core_s3se_dmx_co.Archive.{max_file}
use m5stack_core_s3se_dmx_co.Archive.Wire.{serialize}
use m5stack_core_s3se_dmx_co.Archive.Wire.Decoding.{serialize-fits}
use m5stack_core_s3se_dmx_co.Bridge.{
  with_controller, Archive, Bridge, Interfaces, refresh_presets, shows_levels, state,
}
use m5stack_core_s3se_dmx_co.Bridge.Transfer.{
  abort_archive, archive_allowed, archive_reply, archive_request, commit, continue, ended, export,
  least, splice,
}
use m5stack_core_s3se_dmx_co.Controller.Presets.{discard_archive, capture_archive, stage_archive}
use m5stack_core_s3se_dmx_co.Dispatcher.Rules.{is_ok}
use m5stack_core_s3se_dmx_co.Websocket.{Event, Kind, Request}

-- A transfer whose buffer has `n` bytes, or none that is under way.
pub record IsTransfer (n : ℕ) (a : Archive) : Type 0 where
  pub size : length a.buffer ≡ n
  pub total_in : a.total ≤ n
  pub received_in : a.received ≤ a.total

pub length-take_le : {A : Type 0} (n : ℕ) (xs : List A) → n ≤ length xs → length (take n xs) ≡ n
length-take_le zero xs h = refl
length-take_le (suc n) [] h = absurd (omega arith)
length-take_le (suc n) (x ∷ xs) h = ap suc (length-take_le n xs (omega arith))

pub length-drop_le :
    {A : Type 0} (n : ℕ) (xs : List A) → n ≤ length xs → length (drop n xs) + n ≡ length xs
length-drop_le zero xs h = omega arith
length-drop_le (suc n) [] h = absurd (omega arith)
length-drop_le (suc n) (x ∷ xs) h = omega (arith, length-drop_le n xs (omega arith))

pub take-append : (xs ys : List ℕ) → take (length xs) (xs ++ ys) ≡ xs
take-append [] ys = refl
take-append (x ∷ xs) ys = ap (λ zs. x ∷ zs) (take-append xs ys)

-- What is written within the bytes leaves their number.
pub length-splice :
    (i : ℕ) (xs bytes : List ℕ)
    → i + length xs ≤ length bytes
    → length (splice i xs bytes) ≡ length bytes
unfolding splice
length-splice i xs bytes h =
    let tail = drop (i + length xs) bytes in
    length-append (take i bytes ++ xs) tail
    ∙ omega (
      arith,
      length-append (take i bytes) xs,
      length-take_le i bytes (omega arith),
      length-drop_le (i + length xs) bytes h,
    )

module _ {S E B M W : Type 0} (interfaces : Interfaces S B M W) where
  state-archive :
      (kind : Kind) (id : ℕ) (b : Bridge S E B M W)
      → (state interfaces kind id b).0.archive ≡ b.archive
  unfolding state refresh_presets
  state-archive kind id b =
      let same = λ (x : Bridge S E B M W). x.archive ≡ b.archive in
      if_intro (λ (x : Bridge S E B M W × Event). x.0.archive ≡ b.archive) (shows_levels kind) _ _
        (λ p. if_intro same b.presets_ready _ _ (λ q. refl) (λ q. refl)) (λ p. refl)

  archive_reply-archive :
      (r : Request) (status : List ℕ) (n : ℕ) (b : Bridge S E B M W)
      → (archive_reply interfaces r status n b).archive ≡ b.archive
  unfolding archive_reply
  archive_reply-archive r status n b = state-archive Kind.archive_result r.id b

module _ {S E B M W : Type 0} (n : ℕ) where
  -- The bridge's transfer is within a buffer of `n` bytes.
  pub record Within (b : Bridge S E B M W) : Type 0 where
    pub archive : IsTransfer n b.archive

  abort_archive-Within : (b : Bridge S E B M W) → Within b → Within (abort_archive b)
  unfolding abort_archive
  abort_archive-Within b w =
      let a = b.archive in
      let zeros : List ℕ = replicate (least a.total (length a.buffer)) 0 in
      let fits : length zeros ≤ length a.buffer =
        ground (arith, length-replicate {A = ℕ} (least a.total (length a.buffer)) 0) in
      record {
        archive = record {
          size = length-splice 0 zeros a.buffer (omega arith) ∙ w.archive.size;
          total_in = omega arith;
          received_in = omega arith;
        };
      }

module _ {S E B M W : Type 0} (n : ℕ) (interfaces : Interfaces S B M W) where
  abbrev LeavesWithin : {A : Type 0} → Bridge S E B M W × A → Type 0
  LeavesWithin x = Within n x.0

  -- A bridge with the same transfer.
  same-Within : (b b' : Bridge S E B M W) → b'.archive ≡ b.archive → Within n b → Within n b'
  same-Within b b' e w = record { archive = subst (IsTransfer n) (sym e) w.archive }

  archive_reply-Within :
      (r : Request) (status : List ℕ) (k : ℕ) (b : Bridge S E B M W)
      → Within n b
      → Within n (archive_reply interfaces r status k b)
  archive_reply-Within r status k b w =
      same-Within b _ (archive_reply-archive interfaces r status k b) w

  ended-Within :
      (r : Request) (status : List ℕ) (b : Bridge S E B M W)
      → Within n b
      → Within n (ended interfaces r status b)
  ended-Within r status b w = abort_archive-Within n _ (archive_reply-Within r status 0 b w)

  export-Within :
      (r : Request) (b : Bridge S E B M W)
      → Within n b
      → b.archive.received ≡ 0
      → Within n (export interfaces r b)
  unfolding export
  export-Within r b w none_read =
      let a = b.archive in
      let c = capture_archive interfaces.store b.dispatcher.controller in
      let text = serialize c.0.archive (length a.buffer) in
      let fits = serialize-fits c.0.archive (length a.buffer) in
      let b1 : Bridge S E B M W = with_controller c.0 b in
      let a2 : Archive = record a {
        buffer = splice 0 text a.buffer;
        total = length text;
        count = Presets.count c.0.archive.present;
      } in
      let b2 : Bridge S E B M W =
        with_controller (discard_archive c.0) (record b1 { archive = a2 }) in
      let w2 : IsTransfer n a2 = record {
        size = length-splice 0 text a.buffer (omega (arith, fits)) ∙ w.archive.size;
        total_in = omega (arith, w.archive.size);
        received_in = omega arith;
      } in
      if_intro (Within n) (not (is_ok c.1)) _ _
        (λ p. ended-Within r _ b1 (record { archive = w.archive }))
        (λ p.
          if_intro (Within n) (length text == 0) _ _
            (λ q. ended-Within r _ b2 (record { archive = w2 }))
            (λ q.
              archive_reply-Within r _ 0 (record b2 { archive = record a2 { mode = 1 } })
                (record {
                  archive = record {
                    size = w2.size;
                    total_in = w2.total_in;
                    received_in = w2.received_in;
                  };
                })))

  commit-Within :
      (r : Request) (b : Bridge S E B M W) → Within n b → Within n (commit interfaces r b).0
  unfolding commit
  commit-Within r b w =
      let a = b.archive in
      let staged =
        stage_archive (take a.total a.buffer) a.base (record { check = true }) (archive_allowed b)
          b.dispatcher.controller in
      let k : IsTransfer n a = w.archive in
      if_intro LeavesWithin (not (is_ok staged.1)) _ _
        (λ p. ended-Within r _ _ (record { archive = w.archive }))
        (λ p. record {
          archive = record { size = k.size; total_in = k.total_in; received_in = k.received_in };
        })

  continue-Within :
      (r : Request) (b : Bridge S E B M W) → Within n b → Within n (continue interfaces r b).0
  unfolding continue
  continue-Within r b w =
      let a = b.archive in
      let k : IsTransfer n a = w.archive in
      let m = length r.archive_data in
      if_intro LeavesWithin (r.archive == 6) _ _ (λ p. ended-Within r _ b w)
        (λ p.
          if_intro LeavesWithin (r.archive == 2 && a.mode == 1 && ltb r.archive_offset a.total) _ _
            (λ q. archive_reply-Within r _ _ b w)
            (λ q.
              if_intro LeavesWithin
                (r.archive == 4
                  && a.mode == 2
                  && r.archive_offset == a.received
                  && not (m == 0)
                  && leb m (a.total - a.received))
                _ _
                (λ s.
                  let room : m ≤ a.total - a.received = ground arith in
                  archive_reply-Within r _ 0 _ (record {
                    archive = record {
                      size =
                          length-splice a.received r.archive_data a.buffer
                            (omega (arith, k.received_in, k.total_in, k.size))
                          ∙ k.size;
                      total_in = k.total_in;
                      received_in = omega (arith, k.received_in);
                    };
                  }))
                (λ s.
                  if_intro LeavesWithin (r.archive == 5 && a.mode == 2 && a.received == a.total) _ _
                    (λ t. commit-Within r b w) (λ t. ended-Within r _ b w))))

  -- A request for a transfer of presets, an import being announced with at most 32768 bytes as the decoder sees to, does not
  -- write outside of the buffer: its size stays what it is, the transfer that is under way fits in it, and no more
  -- bytes are received than were announced.
  pub archive_request-Within :
      (r : Request) (b : Bridge S E B M W)
      → Within n b
      → (r.archive ≡ 3 → r.archive_total ≤ 32768)
      → Within n (archive_request interfaces r b).0
  unfolding archive_request
  archive_request-Within r b w announced =
      let a = b.archive in
      let k : IsTransfer n a = w.archive in
      if_intro LeavesWithin (ltb (length a.buffer) max_file) _ _
        (λ p. archive_reply-Within r _ 0 b w)
        (λ p.
          let large : 32768 ≤ n = ground (arith, k.size) in
          if_intro LeavesWithin (r.archive == 1 || r.archive == 3) _ _
            (λ q.
              if_intro (Within n) (not (a.mode == 0)) _ _ (λ s. archive_reply-Within r _ 0 b w)
                (λ s.
                  if_intro (Within n) (a.counter == 4294967295) _ _
                    (λ t. archive_reply-Within r _ 0 b w)
                    (λ t.
                      if_intro (Within n) (r.archive == 1) _ _
                        (λ u.
                          export-Within r _
                            (record {
                              archive = record {
                                size = k.size;
                                total_in = k.total_in;
                                received_in = omega arith;
                              };
                            })
                            refl)
                        (λ u. archive_reply-Within r _ 0 _ (record {
                          archive = record {
                            size = k.size;
                            total_in = ground (arith, announced);
                            received_in = omega arith;
                          };
                        })))))
            (λ q.
              if_intro LeavesWithin
                (a.mode == 0
                  || not (a.owner == r.token.generation)
                  || not (a.token == r.archive_token))
                _ _ (λ s. archive_reply-Within r _ 0 b w)
                (λ s. continue-Within r _ (record {
                  archive = record {
                    size = k.size;
                    total_in = k.total_in;
                    received_in = k.received_in;
                  };
                }))))
