-- ===== src/Samples/MachineRuns.antt =====
-- Runs of the command table and of the circuit breaker.
use redimos.Prelude.{
  ℕ, ◌+◌, ◌%◌, ◌<◌, ◌≡◌, ◌⊎◌, refl, Bool, true, false, none, some, List, [], ◌∷◌, ◌++◌, map, Bytes,
  codes, arith,
}
use redimos.Prelude.Int.{ℤ, pos, negsuc, ◌+ℤ◌, wrap64, two64}
use redimos.Reply.{error, status}
use redimos.Table.Casing.{lower_byte, to_lower, has_upper}
use redimos.Table.Dispatch.{Handler, Commands, entry, lookup, register, dispatch}
use redimos.Table.Dispatch.Routing.{Admits, dispatch-register}
use redimos.Breaker.{CircuitBreaker, is_open, new_circuit_breaker, run}
use redimos.Breaker.Closing.{UpTo, is_open-run}
use redimos.Breaker.Opening.{throttles, run-IsValid, run-throttled}

abbrev pong : Handler ℕ
pong args w = (w + 1, status (codes "PONG"))

abbrev no_commands : Commands ℕ
no_commands = []

abbrev ping_only : Commands ℕ
ping_only =
    (codes "ping", record { name = codes "ping"; arity = negsuc 0; handler = pong; write = false })
    ∷ []

ping_registered :
    register no_commands (codes "PING") (negsuc 0) false (some pong) ≡ (ping_only, none)
unfolding register entry to_lower has_upper
ping_registered = refl

dispatch-register_example :
    ((Admits (negsuc 0) 1
        × (dispatch ping_only (codes "Ping" ∷ []) 0 ≡ (1, some (status (codes "PONG")))))
      ⊎ ((¬ Admits (negsuc 0) 1)
          × (dispatch ping_only (codes "Ping" ∷ []) 0 ≡ (
            0,
            some (
                error (
                  codes "ERR wrong number of arguments for '"
                  ++ map lower_byte (codes "PING")
                  ++ codes "' command")),
          ))))
    × ((other : Bytes)
        → (map lower_byte other ≡ map lower_byte (codes "PING"))
          ⊎ (lookup ping_only other ≡ lookup no_commands other))
dispatch-register_example =
    dispatch-register no_commands ping_only b'P' (codes "ING") (negsuc 0) false pong (codes "Ping")
      [] 0 (omega arith) ping_registered refl

abbrev outcomes : List (Bool × ℤ)
outcomes = (true, pos 5) ∷ (false, pos 6) ∷ (true, pos 7) ∷ []

run-IsValid_example :
    (run (new_circuit_breaker (pos 2) (pos 100)) outcomes).failures
    < (run (new_circuit_breaker (pos 2) (pos 100)) outcomes).threshold
run-IsValid_example = run-IsValid (pos 2) (pos 100) outcomes

abbrev breaker : CircuitBreaker
breaker = record { threshold = 3; cooldown = pos 100; failures = 0; open_until = pos 0; trips = 0 }

run-throttled_example :
    (run breaker (throttles (pos 5 ∷ pos 6 ∷ [])) ≡ record breaker { failures = 0 + 2 })
    × (run breaker (throttles (pos 5 ∷ pos 6 ∷ []) ++ (true, pos 7) ∷ []) ≡ record breaker {
      failures = 0;
      open_until = wrap64 (pos 7 +ℤ pos 100);
      trips = (0 + 1) % two64;
    })
    × (run breaker (throttles (pos 5 ∷ pos 6 ∷ []) ++ (true, pos 7) ∷ throttles (pos 500 ∷ []))
        ≡ record breaker {
          failures = 1;
          open_until = wrap64 (pos 7 +ℤ pos 100);
          trips = (0 + 1) % two64;
        })
run-throttled_example =
    run-throttled breaker (pos 5 ∷ pos 6 ∷ []) (pos 7) (pos 500 ∷ []) (omega arith) (omega arith)

abbrev throttled_twice : List (Bool × ℤ)
throttled_twice = (true, pos 5) ∷ (true, pos 6) ∷ []

throttled_UpTo : UpTo (pos 6) (pos 100) throttled_twice
unfolding ◌+ℤ◌
throttled_UpTo =
    (omega arith, (omega arith, omega arith), (omega arith, (omega arith, omega arith), tt))

is_open-run_example :
    is_open (some (run (new_circuit_breaker (pos 2) (pos 100)) throttled_twice)) (pos 106) ≡ false
unfolding ◌+ℤ◌
is_open-run_example =
    is_open-run (pos 2) (pos 100) (pos 6) (pos 106) throttled_twice throttled_UpTo (omega arith)
