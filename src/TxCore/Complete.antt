-- ===== src/TxCore/Complete.antt =====
-- What a frame that is reported complete has gone through.
use m5stack_core_s3se_dmx_co.Base.{ℕ, ◌≡◌, ◌≤◌, Bool, true, List, [], ◌∷◌, arith}
use m5stack_core_s3se_dmx_co.Transport.Types.{Phase, TxResult}
use m5stack_core_s3se_dmx_co.TxCore.{TxState, before_fill, after_fill, observe_done, advance}

-- What the driver observes of a frame in flight.
pub data Observation : Type 0 where
  filling : Bool → ℕ → Observation
  filled : ℕ → Bool → ℕ → Observation
  done : ℕ → Observation
  turn : Bool → ℕ → Observation

pub observe : Observation → TxState → TxState
observe (Observation.filling raw_done now) s = (before_fill raw_done now s).0
observe (Observation.filled written raw_done now) s = after_fill written raw_done now s
observe (Observation.done now) s = observe_done now s
observe (Observation.turn idle now) s = advance idle now s

pub observes : List Observation → TxState → TxState
observes [] s = s
observes (o ∷ os) s = observes os (observe o s)

-- No more was queued than was asked for; a frame that drains, or that is complete, was queued whole; and
-- done is seen only after that.
unfoldable pub IsWhole : TxState → Type 0
IsWhole s =
    (s.queued ≤ s.requested)
    × (s.phase ≡ Phase.draining → s.queued ≡ s.requested)
    × (s.result ≡ TxResult.complete → (s.queued ≡ s.requested) × (s.done_seen ≡ true))

observe-IsWhole : (o : Observation) (s : TxState) → IsWhole s → IsWhole (observe o s)
unfolding observe before_fill after_fill observe_done advance IsWhole
observe-IsWhole (Observation.filling raw_done now) s h = ground arith
observe-IsWhole (Observation.filled written raw_done now) s h = ground arith
observe-IsWhole (Observation.done now) s h = ground arith
observe-IsWhole (Observation.turn idle now) s h = ground arith

-- If no more bytes of a frame are queued than were asked for, it drains only when it is queued whole, and it is
-- reported complete only when it is queued whole and the hardware's end of it was seen, then all this holds
-- after any observations too.
pub observes-IsWhole : (os : List Observation) (s : TxState) → IsWhole s → IsWhole (observes os s)
unfolding observes
observes-IsWhole [] s h = h
observes-IsWhole (o ∷ os) s h = observes-IsWhole os (observe o s) (observe-IsWhole o s h)
