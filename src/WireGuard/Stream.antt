-- ===== src/WireGuard/Stream.antt =====
-- The guard on a stream: how its bytes are cut into reads makes no difference, and a refusal is final.
use m5stack_core_s3se_dmx_co.Base.{
  suc, zero, not, ℕ, ◌+◌, ◌%◌, ◌≡◌, ◌<◌, ◌≤◌, Bool, false, List, [], ◌∷◌, ◌++◌, arith, refl, All,
}
use m5stack_core_s3se_dmx_co.WireGuard.{WireGuard, ws_bytes, ws_loop, ws_stage, payload_length}

-- Two reads, one after the other; the second is refused when the first was.
pub ws_reads : List ℕ → List ℕ → WireGuard → WireGuard × Bool
ws_reads xs ys g = ws_bytes ys (ws_bytes xs g).0

-- The counters of a guard stay in the width of their fields, and in the phases of the payload and of its
-- mask no more than 256 bytes are awaited.
unfoldable pub IsBounded : WireGuard → Type 0
IsBounded g =
    (g.stage ≤ 5)
    × ((g.stage ≡ 4) → (1 ≤ g.mask) × (g.mask ≤ 4) × (g.remaining ≤ 256))
    × ((g.stage ≡ 5) → (1 ≤ g.remaining) × (g.remaining ≤ 256))

payload_length-IsBounded :
    (g : WireGuard) → IsBounded g → g.stage < 4 → g.remaining ≤ 256 → IsBounded (payload_length g).0
unfolding payload_length IsBounded
payload_length-IsBounded g h k r = ground arith

-- One byte.
ws_stage-IsBounded :
    (n c : ℕ) (g : WireGuard) → g.stage ≡ n → IsBounded g → c < 256 → IsBounded (ws_stage n c g).0
unfolding ws_stage IsBounded
ws_stage-IsBounded zero c g e h k = ground arith
ws_stage-IsBounded (suc zero) c g e h k =
    ground (arith, payload_length-IsBounded (record g { remaining = c % 128 }))
ws_stage-IsBounded (suc (suc zero)) c g e h k = ground arith
ws_stage-IsBounded (suc (suc (suc zero))) c g e h k =
    ground (arith, payload_length-IsBounded (record g { remaining = g.remaining + c }))
ws_stage-IsBounded (suc (suc (suc (suc zero)))) c g e h k = ground arith
ws_stage-IsBounded (suc (suc (suc (suc (suc zero))))) c g e h k = ground arith
ws_stage-IsBounded (suc (suc (suc (suc (suc (suc n)))))) c g e h k = absurd (omega arith)

-- What one byte says of the connection is what the guard remembers.
ws_stage-failed :
    (n c : ℕ) (g : WireGuard)
    → g.failed ≡ false
    → (ws_stage n c g).0.failed ≡ not (ws_stage n c g).1
unfolding ws_stage payload_length
ws_stage-failed zero c g h = ground arith
ws_stage-failed (suc zero) c g h = ground arith
ws_stage-failed (suc (suc zero)) c g h = h
ws_stage-failed (suc (suc (suc zero))) c g h = ground arith
ws_stage-failed (suc (suc (suc (suc zero)))) c g h = h
ws_stage-failed (suc (suc (suc (suc (suc zero))))) c g h = h
ws_stage-failed (suc (suc (suc (suc (suc (suc n)))))) c g h = refl

ws_loop-append :
    (xs ys : List ℕ) (g : WireGuard)
    → g.failed ≡ false
    → ws_loop (xs ++ ys) g ≡ ws_bytes ys (ws_loop xs g).0
unfolding ws_loop ws_bytes
ws_loop-append [] ys g h = ground arith
ws_loop-append (x ∷ xs) ys g h =
    ground (arith, ws_stage-failed g.stage x g h, ws_loop-append xs ys (ws_stage g.stage x g).0)

-- The verdict and the state after a stream are the same in whatever two reads the stream arrives, and a
-- read after a refused one is refused.
pub ws_bytes-append : (xs ys : List ℕ) (g : WireGuard) → ws_bytes (xs ++ ys) g ≡ ws_reads xs ys g
unfolding ws_reads ws_bytes
ws_bytes-append xs ys g = ground (arith, ws_loop-append xs ys g)

ws_loop-IsBounded :
    (xs : List ℕ) (g : WireGuard) → IsBounded g → All (λ c. c < 256) xs → IsBounded (ws_loop xs g).0
unfolding ws_loop
ws_loop-IsBounded [] g h k = h
ws_loop-IsBounded (x ∷ xs) g h k =
    let h1 = ws_stage-IsBounded g.stage x g refl h k.0 in
    ground (arith, h1, ws_loop-IsBounded xs (ws_stage g.stage x g).0 h1 k.1)

-- Whatever bytes arrive, a guard that is in one of its six stages and awaits at most the 256 bytes that a
-- message may have stays so.
pub ws_bytes-IsBounded :
    (xs : List ℕ) (g : WireGuard)
    → IsBounded g
    → All (λ c. c < 256) xs
    → IsBounded (ws_bytes xs g).0
unfolding ws_bytes
ws_bytes-IsBounded xs g h k = ground (arith, h, ws_loop-IsBounded xs g h k)
