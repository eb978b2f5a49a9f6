-- ===== src/Pump.antt =====
-- include/websocket_pump.h: the rounds in which the sockets send.
use m5stack_core_s3se_dmx_co.Base.{
  ℕ, zero, suc, ◌+◌, ◌-◌, ◌%◌, Bool, true, false, ◌||◌, ◌==◌, leb, if◌then◌else◌,
}

abbrev pub pump_rounds : ℕ
pump_rounds = 4

abbrev pub pump_budget_us : ℕ
pump_budget_us = 20000

-- `sendOne` and `clock`, which may change the sockets; a clock does not run backwards.
pub record Sockets (S : Type 0) : Type 0 where
  pub send_one : ℕ → S → Bool × S
  pub clock : S → ℕ × S

module _ {S : Type 0} (sockets : Sockets S) where
  open sockets use {send_one, clock}

  -- The loop over the slots, with the slots left: whether the time is over, whether there was progress.
  pump_slots : ℕ → ℕ → ℕ → ℕ → ℕ → Bool → S → Bool × (Bool × S)
  pump_slots zero i slots first start progress s = (false, (progress, s))
  pump_slots (suc n) i slots first start progress s =
      let (now, s1) = clock s in
      let (sent, s2) = send_one ((first + i) % slots) s1 in
      let rest = pump_slots n (i + 1) slots first start (progress || sent) s2 in
      if leb pump_budget_us (now - start) then (true, (progress, s1)) else rest

  -- The loop over the rounds.
  pump : ℕ → ℕ → ℕ → ℕ → S → S
  unfolding pump_slots
  pump zero slots first start s = s
  pump (suc rounds) slots first start s =
      let (over, (progress, s1)) = pump_slots slots 0 slots first start false s in
      let rest = pump rounds slots first start s1 in
      if over then s1 else (if progress then rest else s1)

  -- The next `first`, and the sockets.
  pub drain : ℕ → ℕ → S → ℕ × S
  unfolding pump
  drain slots first s =
      let (start, s1) = clock s in
      if slots == 0
      then (first, s)
      else ((first + 1) % slots, pump pump_rounds slots first start s1)
