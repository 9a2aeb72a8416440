-- ===== src/Breaker.antt =====
-- The circuit breaker of internal/storage/breaker.go. Its fields are atomics; the model takes the
-- calls one after another, each with the clock in nanoseconds since 1970 that it reads.
pub mod Opening
pub mod Closing
use redimos.Prelude.{
  ℕ, ◌+◌, ◌%◌, Bool, true, false, ◌&&◌, not, Option, none, some, List, [], ◌∷◌, if◌then◌else◌, ltb,
  leb,
}
use redimos.Prelude.Int.{ℤ, pos, pos_part, ◌+ℤ◌, ltb_ℤ, eqb_ℤ, wrap64, two64}

-- `CircuitBreaker` after its threshold is clamped; `open_until` is 0 for closed.
pub record CircuitBreaker : Type 0 where
  pub threshold : ℕ
  pub cooldown : ℤ
  pub failures : ℕ
  pub open_until : ℤ
  pub trips : ℕ

unfoldable pub new_circuit_breaker : ℤ → ℤ → CircuitBreaker
new_circuit_breaker threshold cooldown = record {
  threshold = if ltb_ℤ threshold (pos 1) then 1 else pos_part threshold;
  cooldown = cooldown;
  failures = 0;
  open_until = pos 0;
  trips = 0;
}

-- `Record`: one outcome, throttled or not, at a time.
unfoldable pub record_outcome : CircuitBreaker → Bool → ℤ → CircuitBreaker
record_outcome b false now = record b { failures = 0 }
record_outcome b true now =
    if leb b.threshold (b.failures + 1)
    then record b {
      failures = 0;
      open_until = wrap64 (now +ℤ b.cooldown);
      trips = (b.trips + 1) % two64;
    }
    else record b { failures = b.failures + 1 }

-- `Open`; a nil breaker is never open.
unfoldable pub is_open : Option CircuitBreaker → ℤ → Bool
is_open none now = false
is_open (some b) now = not (eqb_ℤ b.open_until (pos 0)) && ltb_ℤ now b.open_until

-- A sequence of outcomes.
unfoldable pub run : CircuitBreaker → List (Bool × ℤ) → CircuitBreaker
unfolding record_outcome
run b [] = b
run b ((throttled, now) ∷ outcomes) = run (record_outcome b throttled now) outcomes
