-- ===== src/Websocket/Encode/Whole.antt =====
-- The text of an event is whole: a length is returned only if the array has all of it.
use m5stack_core_s3se_dmx_co.Base.{
  ℕ, zero, suc, ◌+◌, ◌-◌, ◌≡◌, ◌≢◌, ◌≤◌, ◌<◌, inl, inr, true, false, Bool-cases, not, ◌&&◌, ◌==◌,
  List, [], ◌∷◌, ◌++◌, length, take, drop, ltb, leb, if◌then◌else◌, arith, refl, ap, ◌∙◌, sym,
  append_assoc, append-nil, length-append, if_intro, subst,
}
use m5stack_core_s3se_dmx_co.Bridge.Bounds.{take-append, length-splice, length-take_le}
use m5stack_core_s3se_dmx_co.Bridge.Transfer.{splice}
use m5stack_core_s3se_dmx_co.Websocket.{Event}
use m5stack_core_s3se_dmx_co.Websocket.Encode.{
  Writer, add, add_all, encode, is_archive, pieces, print,
}

-- The pieces one after the other.
pub joined : List (List ℕ) → List ℕ
joined [] = []
joined (p ∷ ps) = p ++ joined ps

length-take : (n : ℕ) (xs : List ℕ) → length (take n xs) ≤ n
length-take zero xs = omega arith
length-take (suc n) [] = omega arith
length-take (suc n) (x ∷ xs) = omega (arith, length-take n xs)

take_whole : (n : ℕ) (xs : List ℕ) → length xs ≤ n → take n xs ≡ xs
take_whole zero [] h = refl
take_whole zero (x ∷ xs) h = absurd (omega arith)
take_whole (suc n) [] h = refl
take_whole (suc n) (x ∷ xs) h = ap (λ ys. x ∷ ys) (take_whole n xs (omega arith))

length-print :
    (piece : List ℕ) (used : ℕ) (bytes : List ℕ)
    → used ≤ length bytes
    → length (print piece used bytes) ≡ length bytes
unfolding print
length-print piece used bytes h =
    let room = length bytes - used in
    if_intro (λ (x : List ℕ). length x ≡ length bytes) (room == 0) _ _ (λ p. refl)
      (λ p. length-splice used (take (room - 1) piece ++ 0 ∷ []) bytes (
        ground
          (arith, length-take (room - 1) piece, length-append (take (room - 1) piece) (0 ∷ []))))

take-middle :
    (n : ℕ) (a p z : List ℕ) → n ≡ length a + length p → take n (a ++ (p ++ 0 ∷ []) ++ z) ≡ a ++ p
take-middle n a p z e =
    ap (λ k. take k (a ++ (p ++ 0 ∷ []) ++ z)) (e ∙ sym (length-append a p))
    ∙ ap (λ (ys : List ℕ). take (length (a ++ p)) (ys ++ z)) (sym (append_assoc a p (0 ∷ [])))
    ∙ ap (take (length (a ++ p))) (append_assoc (a ++ p) (0 ∷ []) z)
    ∙ take-append (a ++ p) (0 ∷ z)

-- A piece that fits stands behind what was there before.
take-print :
    (piece : List ℕ) (used : ℕ) (bytes : List ℕ)
    → used + length piece < length bytes
    → take (used + length piece) (print piece used bytes) ≡ take used bytes ++ piece
unfolding print splice
take-print piece used bytes h =
    let n = used + length piece in
    let room = length bytes - used in
    let fits = take_whole (room - 1) piece (omega arith) in
    if_intro (λ (x : List ℕ). take n x ≡ take used bytes ++ piece) (room == 0) _ _
      (λ p. absurd (ground arith))
      (λ p.
        subst
          (λ (xs : List ℕ).
            take n (take used bytes ++ (xs ++ 0 ∷ []) ++ drop (used + length (xs ++ 0 ∷ [])) bytes)
            ≡ take used bytes ++ piece)
          (sym fits)
          (take-middle n (take used bytes) piece _
            (omega (arith, length-take_le used bytes (omega arith)))))

-- The array has the text, which leaves room for a zero.
record Holds (capacity : ℕ) (text : List ℕ) (w : Writer) : Type 0 where
  going : w.ok ≡ true
  size : length w.bytes ≡ capacity
  used : w.used ≡ length text
  short : length text < capacity
  whole : take w.used w.bytes ≡ text

-- Something did not fit.
record Stopped (capacity : ℕ) (w : Writer) : Type 0 where
  stopped : w.ok ≡ false
  size : length w.bytes ≡ capacity

add-Holds :
    (capacity : ℕ) (text piece : List ℕ) (w : Writer)
    → Holds capacity text w
    → length text + length piece < capacity
    → Holds capacity (text ++ piece) (add piece w)
unfolding add
add-Holds capacity text piece w h room =
    let printed = length-print piece w.used w.bytes (omega (arith, h.size, h.used, h.short)) in
    let fits : w.used + length piece < length w.bytes = omega (arith, h.size, h.used) in
    if_intro (Holds capacity (text ++ piece)) (not w.ok) _ _ (λ p. absurd (ground (arith, h.going)))
      (λ p.
        if_intro (Holds capacity (text ++ piece)) (leb (length w.bytes - w.used) (length piece)) _ _
          (λ q. absurd (ground arith))
          (λ q. record {
            going = h.going;
            size = printed ∙ h.size;
            used = omega (arith, h.used, length-append text piece);
            short = omega (arith, length-append text piece);
            whole =
                take-print piece w.used w.bytes fits ∙ ap (λ (xs : List ℕ). xs ++ piece) h.whole;
          }))

add-Stopped :
    (capacity : ℕ) (text piece : List ℕ) (w : Writer)
    → Holds capacity text w
    → capacity ≤ length text + length piece
    → Stopped capacity (add piece w)
unfolding add
add-Stopped capacity text piece w h full =
    let printed = length-print piece w.used w.bytes (omega (arith, h.size, h.used, h.short)) in
    if_intro (Stopped capacity) (not w.ok) _ _ (λ p. absurd (ground (arith, h.going)))
      (λ p.
        if_intro (Stopped capacity) (leb (length w.bytes - w.used) (length piece)) _ _
          (λ q. record { stopped = refl; size = printed ∙ h.size })
          (λ q. absurd (ground (arith, h.size, h.used))))

add_all-Stopped :
    (capacity : ℕ) (ps : List (List ℕ)) (w : Writer)
    → Stopped capacity w
    → Stopped capacity (add_all ps w)
unfolding add_all add
add_all-Stopped capacity [] w h = h
add_all-Stopped capacity (p ∷ ps) w h =
    add_all-Stopped capacity ps _ (
      if_intro (Stopped capacity) (not w.ok) _ _ (λ q. h) (λ q. absurd (ground (arith, h.stopped))))

-- What has become of a text: the array has it if it leaves room for a zero, and the writer has stopped if not.
Written : ℕ → List ℕ → Writer → Type 0
Written capacity text w =
    (length text < capacity → Holds capacity text w) × (capacity ≤ length text → Stopped capacity w)

add_all-Written :
    (capacity : ℕ) (ps : List (List ℕ)) (text : List ℕ) (w : Writer)
    → Holds capacity text w
    → Written capacity (text ++ joined ps) (add_all ps w)
unfolding add_all joined Written
add_all-Written capacity [] text w h =
    subst (λ (xs : List ℕ). Written capacity xs w) (sym (append-nil text))
      (λ p. h, λ p. absurd (omega (arith, h.short)))
add_all-Written capacity (p ∷ ps) text w h =
    let all : text ++ p ++ joined ps ≡ text ++ (p ++ joined ps) = append_assoc text p (joined ps) in
    elim (Bool-cases (leb capacity (length text + length p))) [
      | inl e ↦ (
        λ q.
            absurd
              (ground (arith, length-append text (p ++ joined ps), length-append p (joined ps))),
        λ q. add_all-Stopped capacity ps _ (add-Stopped capacity text p w h (ground arith)),
      )
      | inr e ↦
          subst (λ (xs : List ℕ). Written capacity xs (add_all ps (add p w))) all
            (add_all-Written capacity ps (text ++ p) (add p w)
              (add-Holds capacity text p w h (ground arith)))
    ]

-- What is returned of a text.
returned :
    (text out : List ℕ) (w : Writer)
    → Written (length out) text w
    → (length w.bytes ≡ length out)
      × (length text < length out
          → ((if w.ok then w.used else 0) ≡ length text)
            × (take (if w.ok then w.used else 0) w.bytes ≡ text))
      × (length out ≤ length text → (if w.ok then w.used else 0) ≡ 0)
unfolding Written
returned text out w h = elim (Bool-cases (ltb (length text) (length out))) [
  | inl p ↦
      let k = h.0 (ground arith) in
      (k.size, λ q. rw (k.going) (k.used, k.whole), λ q. absurd (ground arith))
  | inr p ↦
      let k = h.1 (ground arith) in (k.size, λ q. absurd (ground arith), λ q. rw (k.stopped) refl)
]

-- An event is written whole or not at all, as far as the length that is returned says. The array is not empty and keeps its
-- size. If an archive brings more than 512 bytes it is left alone and the length is 0. If not, and the pieces of
-- the event one after the other leave room for a zero in it, the length is theirs and they are its first bytes;
-- if they leave none, the length is 0, whatever was written.
pub encode-whole :
    (e : Event) (out : List ℕ)
    → length out ≢ 0
    → let (n, bytes) = encode e out in
      let text = joined (pieces e) in
      let too_large = is_archive e.kind && ltb 512 e.archive_length in
      (length bytes ≡ length out)
      × (too_large ≡ true → (n ≡ 0) × (bytes ≡ out))
      × (too_large ≡ false → length text < length out → (n ≡ length text) × (take n bytes ≡ text))
      × (too_large ≡ false → length out ≤ length text → n ≡ 0)
unfolding encode Written
encode-whole e out some_room =
    let w = add_all (pieces e) (record { bytes = out; used = 0; ok = true }) in
    let written =
      add_all-Written (length out) (pieces e) [] (record { bytes = out; used = 0; ok = true })
        (record { going = refl; size = refl; used = refl; short = omega arith; whole = refl }) in
    elim (Bool-cases (is_archive e.kind && ltb 512 e.archive_length)) [
      | inl p ↦ rw p (refl, λ q. (refl, refl), λ q. cc, λ q. cc)
      | inr p ↦
          let (size, short, long) = returned (joined (pieces e)) out w written in
          rw p (size, λ q. cc, λ q. short, λ q. long)
    ]
