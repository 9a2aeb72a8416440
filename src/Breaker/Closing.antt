-- ===== src/Breaker/Closing.antt =====
-- An open breaker closes again.
use redimos.Prelude.{
  ◌+◌, ◌≡◌, ◌⊎◌, refl, ap, sym, subst, ◌∙◌, Bool, true, false, ◌&&◌, not, Bool-cases, inl, inr,
  some, List, [], ◌∷◌, leb, arith,
}
use redimos.Prelude.Int.{
  ℤ, pos, ◌+ℤ◌, ◌≤ℤ◌, ltb_ℤ, eqb_ℤ, IsInt64, wrap64, wrap64_of_IsInt64, +ℤ_parts,
}
use redimos.Breaker.{CircuitBreaker, new_circuit_breaker, record_outcome, is_open, run}

-- Outcomes up to the time `t`, whose cooldown ends within int64.
abbrev pub UpTo : ℤ → ℤ → List (Bool × ℤ) → Type 0
UpTo t cooldown [] = Unit
UpTo t cooldown ((throttled, now) ∷ outcomes) =
    (now ≤ℤ t) × IsInt64 (now +ℤ cooldown) × UpTo t cooldown outcomes

-- The breaker has the cooldown, and is closed or open at most until a cooldown after `t`.
record Within (t cooldown : ℤ) (b : CircuitBreaker) : Type 0 where
  cooldown_is : b.cooldown ≡ cooldown
  until : (b.open_until ≡ pos 0) ⊎ (b.open_until ≤ℤ t +ℤ cooldown)

add_monotone : (a t c : ℤ) → a ≤ℤ t → a +ℤ c ≤ℤ t +ℤ c
add_monotone a t c h = omega (arith, +ℤ_parts a c, +ℤ_parts t c)

Within-record_outcome :
    (t cooldown now : ℤ) (throttled : Bool) (b : CircuitBreaker)
    → now ≤ℤ t
    → IsInt64 (now +ℤ cooldown)
    → Within t cooldown b
    → Within t cooldown (record_outcome b throttled now)
unfolding record_outcome
Within-record_outcome t cooldown now false b early fits v = record {
  cooldown_is = v.cooldown_is;
  until = v.until;
}
Within-record_outcome t cooldown now true b early fits v =
    elim (Bool-cases (leb b.threshold (b.failures + 1))) [
      | inl trips ↦
          let ends : wrap64 (now +ℤ b.cooldown) ≡ now +ℤ cooldown =
            ap (λ c. wrap64 (now +ℤ c)) v.cooldown_is ∙ wrap64_of_IsInt64 (now +ℤ cooldown) fits in
          rw trips (record {
            cooldown_is = v.cooldown_is;
            until =
                inr
                  (subst (λ e. e ≤ℤ t +ℤ cooldown) (sym ends) (add_monotone now t cooldown early));
          })
      | inr counts ↦ rw counts (record { cooldown_is = v.cooldown_is; until = v.until })
    ]

Within-run :
    (t cooldown : ℤ) (outcomes : List (Bool × ℤ)) (b : CircuitBreaker)
    → UpTo t cooldown outcomes
    → Within t cooldown b
    → Within t cooldown (run b outcomes)
unfolding run
Within-run t cooldown [] b early v = v
Within-run t cooldown ((throttled, now) ∷ outcomes) b (early, fits, rest) v =
    Within-run t cooldown outcomes (record_outcome b throttled now) rest
      (Within-record_outcome t cooldown now throttled b early fits v)

-- Whatever outcomes a new breaker has recorded up to a time, of calls that were throttled or not,
-- it lets calls through again from a cooldown after that time on, as long as no cooldown ends past
-- int64.
pub is_open-run :
    (threshold cooldown t later : ℤ) (outcomes : List (Bool × ℤ))
    → UpTo t cooldown outcomes
    → t +ℤ cooldown ≤ℤ later
    → is_open (some (run (new_circuit_breaker threshold cooldown) outcomes)) later ≡ false
unfolding is_open new_circuit_breaker
is_open-run threshold cooldown t later outcomes early passed =
    let b = run (new_circuit_breaker threshold cooldown) outcomes in
    let v =
      Within-run t cooldown outcomes (new_circuit_breaker threshold cooldown) early
        (record { cooldown_is = refl; until = inl refl }) in
    elim v.until [
      | inl closed ↦ rw closed
      | inr bound ↦
          let over : ltb_ℤ later b.open_until ≡ false = ground (arith, bound, passed) in
          rw over (and_false (not (eqb_ℤ b.open_until (pos 0))))
    ]
  where
    and_false : (a : Bool) → (a && false) ≡ false
    and_false true = refl
    and_false false = refl
