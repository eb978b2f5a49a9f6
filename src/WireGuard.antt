-- ===== src/WireGuard.antt =====
-- include/websocket_wire.h: the guard on the bytes of a connection before they are decoded.
pub mod Stream
use m5stack_core_s3se_dmx_co.Base.{
  ℕ, zero, suc, ◌+◌, ◌*◌, ◌/◌, ◌%◌, Bool, true, false, not, ◌&&◌, ◌||◌, List, [], ◌∷◌, get_or, ◌==◌,
  ltb, leb, if◌then◌else◌, u8,
}

pub record WireGuard : Type 0 where
  pub remaining : ℕ
  pub matched : ℕ
  pub stage : ℕ
  pub opcode : ℕ
  pub mask : ℕ
  pub header_done : Bool
  pub trailing : Bool
  pub failed : Bool

unfoldable pub fresh : WireGuard
fresh = record {
  remaining = 0;
  matched = 0;
  stage = 0;
  opcode = 0;
  mask = 0;
  header_done = false;
  trailing = false;
  failed = false;
}

abbrev header_end : List ℕ
header_end = 13 ∷ 10 ∷ 13 ∷ 10 ∷ []

-- One round of the loop of `httpBytes`.
http_byte : ℕ → WireGuard → WireGuard
http_byte c g =
    if g.header_done
    then record g { trailing = true }
    else let matched =
        if c == get_or header_end g.matched 0
        then u8 (g.matched + 1)
        else (if c == 13 then 1 else 0) in
      record g { matched = matched; header_done = matched == 4 || g.header_done }

pub http_bytes : List ℕ → WireGuard → WireGuard
http_bytes [] g = g
http_bytes (c ∷ cs) g = http_bytes cs (http_byte c g)

abbrev fail : WireGuard → WireGuard × Bool
fail g = (record g { failed = true }, false)

payload_length : WireGuard → WireGuard × Bool
payload_length g =
    if (g.opcode == 1 && g.remaining == 0) || (g.opcode == 8 && g.remaining == 1)
    then (g, false)
    else (record g { mask = 4; stage = 4 }, true)

-- `if(... || !payloadLength()) return fail()`
abbrev counted : WireGuard × Bool → WireGuard × Bool
counted (g, true) = (g, true)
counted (g, false) = fail g

-- `c & 0x80`
abbrev top_bit : ℕ → Bool
top_bit c = (c / 128) % 2 == 1

-- The `switch` of `wsBytes`, by the stage. The low byte of `remaining` is clear in stage 3, so that
-- `|=` adds.
ws_stage : ℕ → ℕ → WireGuard → WireGuard × Bool
unfolding payload_length
ws_stage zero c g =
    let opcode = c % 16 in
    let g1 : WireGuard = record g { opcode = opcode } in
    if not ((c / 16) % 16 == 8)
      || (not (opcode == 1) && not (opcode == 8) && not (opcode == 9) && not (opcode == 10))
    then fail g1
    else (record g1 { stage = 1 }, true)
ws_stage (suc zero) c g =
    let count = c % 128 in
    if not (top_bit c) || count == 127 || ((g.opcode / 8) % 2 == 1 && ltb 125 count)
    then fail g
    else if count == 126
    then (record g { remaining = 0; stage = 2 }, true)
    else counted (payload_length (record g { remaining = count }))
ws_stage (suc (suc zero)) c g = (record g { remaining = c * 256; stage = 3 }, true)
ws_stage (suc (suc (suc zero))) c g =
    let remaining = g.remaining + c in
    let g1 : WireGuard = record g { remaining = remaining } in
    if ltb remaining 126 || ltb 256 remaining then fail g1 else counted (payload_length g1)
ws_stage (suc (suc (suc (suc zero)))) c g =
    let mask = u8 (g.mask + 255) in
    (
      record g {
        mask = mask;
        stage = if mask == 0 then (if g.remaining == 0 then 0 else 5) else 4;
      },
      true,
    )
ws_stage (suc (suc (suc (suc (suc zero))))) c g =
    let remaining = (g.remaining + 65535) % 65536 in
    (record g { remaining = remaining; stage = if remaining == 0 then 0 else 5 }, true)
ws_stage _ c g = fail g

ws_loop : List ℕ → WireGuard → WireGuard × Bool
unfolding ws_stage
ws_loop [] g = (g, true)
ws_loop (c ∷ cs) g =
    let (g1, good) = ws_stage g.stage c g in
    elim good [ true ↦ ws_loop cs g1 | false ↦ (g1, false) ]

pub ws_bytes : List ℕ → WireGuard → WireGuard × Bool
unfolding ws_loop
ws_bytes bytes g = if g.failed then (g, false) else ws_loop bytes g
