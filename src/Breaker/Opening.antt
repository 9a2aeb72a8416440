-- ===== src/Breaker/Opening.antt =====
-- When the breaker opens: its failure count as an invariant, and the exact step that opens it.
use redimos.Prelude.{
  ◌+◌, ◌%◌, ◌<◌, ◌≡◌, refl, ap, sym, append_assoc, ◌∙◌, Bool, true, false, some, List, [], ◌∷◌,
  ◌++◌, map, length, leb, Bool-cases, inl, inr, arith,
}
use redimos.Prelude.Int.{
  ℤ, pos, negsuc, ◌+ℤ◌, ltb_ℤ, eqb_ℤ, wrap64, wrap64_of_IsInt64, IsInt64, two64,
}
use redimos.Breaker.{CircuitBreaker, new_circuit_breaker, record_outcome, is_open, run}

-- The failure count is below the threshold.
pub IsValid : CircuitBreaker → Type 0
IsValid b = b.failures < b.threshold

new-IsValid : (threshold cooldown : ℤ) → IsValid (new_circuit_breaker threshold cooldown)
unfolding new_circuit_breaker IsValid
new-IsValid (pos n) cooldown = ground arith
new-IsValid (negsuc n) cooldown = ground arith

record_outcome-IsValid :
    (b : CircuitBreaker) (throttled : Bool) (now : ℤ)
    → IsValid b
    → IsValid (record_outcome b throttled now)
unfolding record_outcome IsValid
record_outcome-IsValid b true now h = elim (Bool-cases (leb b.threshold (b.failures + 1))) [
  | inl opens ↦ rw opens (omega arith)
  | inr counts ↦ rw counts (ground arith)
]
record_outcome-IsValid b false now h = omega arith

IsValid-run :
    (b : CircuitBreaker) (outcomes : List (Bool × ℤ)) → IsValid b → IsValid (run b outcomes)
unfolding run
IsValid-run b [] h = h
IsValid-run b ((throttled, now) ∷ outcomes) h =
    IsValid-run (record_outcome b throttled now) outcomes (record_outcome-IsValid b throttled now h)

-- However a new breaker is configured and whatever it records, its failure count stays below its
-- threshold, which is at least 1.
pub run-IsValid :
    (threshold cooldown : ℤ) (outcomes : List (Bool × ℤ))
    → (run (new_circuit_breaker threshold cooldown) outcomes).failures
      < (run (new_circuit_breaker threshold cooldown) outcomes).threshold
unfolding IsValid
run-IsValid threshold cooldown outcomes =
    IsValid-run (new_circuit_breaker threshold cooldown) outcomes (new-IsValid threshold cooldown)

run-append : (b : CircuitBreaker) (xs ys : List (Bool × ℤ)) → run b (xs ++ ys) ≡ run (run b xs) ys
unfolding run
run-append b [] ys = refl
run-append b ((throttled, now) ∷ xs) ys = run-append (record_outcome b throttled now) xs ys

counted :
    (b : CircuitBreaker) (now : ℤ)
    → b.failures + 1 < b.threshold
    → record_outcome b true now ≡ record b { failures = b.failures + 1 }
unfolding record_outcome
counted b now h = let low : leb b.threshold (b.failures + 1) ≡ false = ground arith in rw low

opened :
    (b : CircuitBreaker) (now : ℤ)
    → b.failures + 1 ≡ b.threshold
    → record_outcome b true now ≡ record b {
      failures = 0;
      open_until = wrap64 (now +ℤ b.cooldown);
      trips = (b.trips + 1) % two64;
    }
unfolding record_outcome
opened b now h = let high : leb b.threshold (b.failures + 1) ≡ true = ground arith in rw high

abbrev pub throttles : List ℤ → List (Bool × ℤ)
throttles times = map (λ t. (true, t)) times

run-counted :
    (b : CircuitBreaker) (times : List ℤ)
    → b.failures + length times < b.threshold
    → run b (throttles times) ≡ record b { failures = b.failures + length times }
unfolding run
run-counted b [] h = ap (λ n. record b { failures = n }) (omega arith)
run-counted b (t ∷ times) h =
    ap (λ c. run c (throttles times)) (counted b t (omega arith))
    ∙ run-counted (record b { failures = b.failures + 1 }) times (omega arith)
    ∙ ap (λ n. record b { failures = n }) (omega arith)

run-opened :
    (b : CircuitBreaker) (times : List ℤ) (now : ℤ)
    → b.failures + length times + 1 ≡ b.threshold
    → run b (throttles times ++ (true, now) ∷ []) ≡ record b {
      failures = 0;
      open_until = wrap64 (now +ℤ b.cooldown);
      trips = (b.trips + 1) % two64;
    }
unfolding run
run-opened b [] now h = opened b now (omega arith)
run-opened b (t ∷ times) now h =
    ap (λ c. run c (throttles times ++ (true, now) ∷ [])) (counted b t (omega arith))
    ∙ run-opened (record b { failures = b.failures + 1 }) times now (omega arith)

-- Throttles in a row, below the threshold in all, are counted and change nothing else. The one that
-- reaches the threshold opens the breaker until the cooldown is over, counts one trip and starts
-- the count anew. After an opening the same holds: throttles that follow, fewer than the threshold,
-- are only counted and leave the time until which the breaker is open as it is, also when that time
-- is over.
pub run-throttled :
    (b : CircuitBreaker) (times : List ℤ) (now : ℤ) (later : List ℤ)
    → b.failures + length times + 1 ≡ b.threshold
    → length later < b.threshold
    → (run b (throttles times) ≡ record b { failures = b.failures + length times })
      × (run b (throttles times ++ (true, now) ∷ []) ≡ record b {
        failures = 0;
        open_until = wrap64 (now +ℤ b.cooldown);
        trips = (b.trips + 1) % two64;
      })
      × (run b (throttles times ++ (true, now) ∷ throttles later) ≡ record b {
        failures = length later;
        open_until = wrap64 (now +ℤ b.cooldown);
        trips = (b.trips + 1) % two64;
      })
run-throttled b times now later h few =
    let tripped : CircuitBreaker = record b {
      failures = 0;
      open_until = wrap64 (now +ℤ b.cooldown);
      trips = (b.trips + 1) % two64;
    } in
    (
      run-counted b times (omega arith),
      run-opened b times now h,
      ap (run b) (sym (append_assoc (throttles times) ((true, now) ∷ []) (throttles later)))
          ∙ run-append b (throttles times ++ (true, now) ∷ []) (throttles later)
          ∙ ap (λ c. run c (throttles later)) (run-opened b times now h)
          ∙ run-counted tripped later (omega arith)
          ∙ ap (λ n. record tripped { failures = n }) (omega arith),
    )

-- After an opening at a time, with an expiry that fits in an int64 and is not the closed mark 0, the
-- breaker is open at exactly the times before that expiry.
pub is_open-record_outcome :
    (b : CircuitBreaker) (now later : ℤ)
    → b.failures + 1 ≡ b.threshold
    → IsInt64 (now +ℤ b.cooldown)
    → eqb_ℤ (now +ℤ b.cooldown) (pos 0) ≡ false
    → is_open (some (record_outcome b true now)) later ≡ ltb_ℤ later (now +ℤ b.cooldown)
unfolding is_open
is_open-record_outcome b now later h fits real =
    let kept = wrap64_of_IsInt64 (now +ℤ b.cooldown) fits in
    ap (λ c. is_open (some c) later) (opened b now h) ∙ rw (kept, real)
