-- ===== src/Args/Integer/Canonical.antt =====
-- `parse_int` accepts the canonical numerals of the int64 integers, and nothing else.
use redimos.Prelude.{
  ℕ, zero, suc, ◌+◌, ◌-◌, ◌≤◌, ◌<◌, ◌≡◌, refl, ap, sym, ◌∙◌, ◌↔◌, inl, inr, true, false, Option,
  none, some, [], ◌∷◌, ◌++◌, Bytes, ◌==◌, if◌then◌else◌, Bool-cases, arith,
}
use redimos.Prelude.Int.{ℤ, pos, negsuc, sub_ℕ, two63, two64, IsInt64}
use redimos.Args.Integer.{accumulate, magnitude, to_int64, is_empty, parse_int}
use redimos.Args.Integer.Numerals.{
  digits, decimal, accumulate_sound, magnitude-digits, digits-lt_ten,
}

magnitude_sound :
    (s : Bytes) (w : ℕ) → magnitude s ≡ some w → (digits w ≡ s) × (0 < w) × (w < two64)
unfolding magnitude
magnitude_sound [] w h = ground arith
magnitude_sound (c ∷ s) w h =
    let low : b'1' ≤ c = ground arith in
    let high : c ≤ b'9' = ground arith in
    let run : accumulate (c - b'0') s ≡ some w = ground arith in
    let (e, p, q) = accumulate_sound s (c - b'0') w (omega arith) (omega arith) run in
    let byte : b'0' + (c - b'0') ≡ c = omega arith in
    (e ∙ ap (λ t. t ++ s) (digits-lt_ten (c - b'0') (omega arith)) ∙ ap (λ x. x ∷ s) byte, p, q)

to_int64_negative :
    (m : Option ℕ) (z : ℤ)
    → to_int64 true m ≡ some z
    → (w : ℕ) × (m ≡ some w) × (w ≤ two63) × (z ≡ sub_ℕ 0 w)
unfolding to_int64
to_int64_negative none z h = ground arith
to_int64_negative (some w) z h = (w, refl, ground arith, ground arith)

to_int64_positive :
    (m : Option ℕ) (z : ℤ)
    → to_int64 false m ≡ some z
    → (w : ℕ) × (m ≡ some w) × (w < two63) × (z ≡ pos w)
unfolding to_int64
to_int64_positive none z h = ground arith
to_int64_positive (some w) z h = (w, refl, ground arith, ground arith)

decimal-negative : (w : ℕ) → 0 < w → decimal (sub_ℕ 0 w) ≡ b'-' ∷ digits w
unfolding decimal
decimal-negative zero h = absurd (omega arith)
decimal-negative (suc w) h = ground arith

parse_signed_sound :
    (c : ℕ) (s : Bytes) (z : ℤ)
    → (if c == b'-' then to_int64 true (magnitude s) else to_int64 false (magnitude (c ∷ s)))
      ≡ some z
    → (c ∷ s ≡ decimal z) × IsInt64 z
parse_signed_sound c s z h = elim (Bool-cases (c == b'-')) [
  | inl minus ↦
      let (w, read, fits, value) = to_int64_negative (magnitude s) z (rw minus at h) in
      let (text, w_pos, _) = magnitude_sound s w read in
      let sign : c ≡ b'-' = ground arith in
      rw (value, decimal-negative w w_pos, text, sign) (refl, (ground arith, ground arith))
  | inr plus ↦
      let (w, read, fits, value) = to_int64_positive (magnitude (c ∷ s)) z (rw plus at h) in
      let (text, w_pos, _) = magnitude_sound (c ∷ s) w read in
      rw value (unfold decimal in sym text, (fits, omega arith))
]

parse_int_sound : (s : Bytes) (z : ℤ) → parse_int s ≡ some z → (s ≡ decimal z) × IsInt64 z
unfolding parse_int decimal
parse_int_sound [] z h = ground arith
parse_int_sound (c ∷ []) z h = elim (Bool-cases (c == b'0')) [
  | inl nought ↦
      let value : z ≡ pos 0 = ground arith in
      let byte : c ≡ b'0' = ground arith in rw (value, byte) (refl, (omega arith, omega arith))
  | inr other ↦ parse_signed_sound c [] z (rw other at h)
]
parse_int_sound (c ∷ d ∷ s) z h = parse_signed_sound c (d ∷ s) z h

parse_int-magnitude :
    (s : Bytes) (w : ℕ) → magnitude s ≡ some w → parse_int s ≡ to_int64 false (some w)
unfolding parse_int magnitude
parse_int-magnitude [] w h = ground arith
parse_int-magnitude (c ∷ s) w h =
    let read : magnitude (c ∷ s) ≡ some w = h in
    let digit : b'1' ≤ c = ground arith in
    let not_zero : (c == b'0') ≡ false = ground arith in
    let not_minus : (c == b'-') ≡ false = ground arith in ground arith

-- For every int64 integer, parsing its canonical text gives it back.
pub parse_int-decimal : (z : ℤ) → IsInt64 z → parse_int (decimal z) ≡ some z
unfolding parse_int decimal to_int64 is_empty
parse_int-decimal (pos zero) h = unfold digits in refl
parse_int-decimal (pos (suc n)) h =
    rw
      (parse_int-magnitude (digits (suc n)) (suc n)
        (magnitude-digits (suc n) (omega arith) (omega arith)))
      (ground arith)
parse_int-decimal (negsuc n) h =
    let read : magnitude (digits (suc n)) ≡ some (suc n) =
      magnitude-digits (suc n) (omega arith) (omega arith) in
    ground arith

-- `parse_int` returns an integer exactly when the argument is that integer's canonical decimal
-- text and the integer fits in 64 bits with a sign.
pub parse_int_iff : (s : Bytes) (z : ℤ) → (parse_int s ≡ some z) ↔ ((s ≡ decimal z) × IsInt64 z)
parse_int_iff s z = (parse_int_sound s z, λ h. rw h.0 (parse_int-decimal z h.1))
