-- ===== src/Http/Sessions.antt =====
-- The budget bounds what one session can move.
use m5stack_core_s3se_dmx_co.Base.{
  ℕ, ◌+◌, ◌≡◌, ◌≤◌, Bool, ◌&&◌, not, if◌then◌else◌, List, [], ◌∷◌, arith,
}
use m5stack_core_s3se_dmx_co.Http.{Budget, allow, tx_limit, max_rx_bytes}

-- A piece that a session asks to move: the time, its bytes and whether they are written.
pub record Piece : Type 0 where
  pub now : ℕ
  pub bytes : ℕ
  pub writing : Bool

-- The session after the pieces, and the bytes read and written that were allowed.
pub moves : List Piece → Budget → Budget × (ℕ × ℕ)
moves [] b = (b, (0, 0))
moves (p ∷ ps) b =
    let (b1, good) = allow p.now p.bytes p.writing b in
    let (b2, (r, w)) = moves ps b1 in
    (
      b2,
      (
        if good && not p.writing then r + p.bytes else r,
        if good && p.writing then w + p.bytes else w,
      ),
    )

unfoldable pub IsWithin : Budget → Type 0
IsWithin b = (b.received ≤ max_rx_bytes) × (b.sent ≤ tx_limit b)

-- One piece.
allow-IsWithin :
    (p : Piece) (b : Budget)
    → IsWithin b
    → let c = (allow p.now p.bytes p.writing b).0 in
      let good = (allow p.now p.bytes p.writing b).1 in
      IsWithin c
      × (tx_limit c ≡ tx_limit b)
      × (c.received ≡ (if good && not p.writing then b.received + p.bytes else b.received))
      × (c.sent ≡ (if good && p.writing then b.sent + p.bytes else b.sent))
unfolding allow IsWithin tx_limit
allow-IsWithin p b h = ground arith

-- Whatever pieces a session asks for, the bytes allowed, with those moved before, stay within the limits.
pub moves-bounded :
    (ps : List Piece) (b : Budget)
    → IsWithin b
    → (b.received + (moves ps b).1.0 ≤ max_rx_bytes) × (b.sent + (moves ps b).1.1 ≤ tx_limit b)
unfolding moves IsWithin
moves-bounded [] b h = ground arith
moves-bounded (p ∷ ps) b h =
    ground (arith, allow-IsWithin p b h, moves-bounded ps (allow p.now p.bytes p.writing b).0)
