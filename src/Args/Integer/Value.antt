-- ===== src/Args/Integer/Value.antt =====
-- The digits of a number are digit bytes, and determine the number.
use redimos.Prelude.{
  ℕ, zero, suc, ◌+◌, ◌-◌, ◌*◌, ◌/◌, ◌%◌, ◌≤◌, ◌<◌, ◌≡◌, refl, ap, sym, ◌∙◌, [], ◌∷◌, ◌++◌, Bytes,
  ltb, Bool-cases, inl, inr, arith,
}
use redimos.Args.Integer.Numerals.{digits, digits-push, digits-lt_ten}

abbrev pub AllDigits : Bytes → Type 0
AllDigits [] = Unit
AllDigits (c ∷ s) = (b'0' ≤ c) × (c ≤ b'9') × AllDigits s

AllDigits-append : (s t : Bytes) → AllDigits s → AllDigits t → AllDigits (s ++ t)
AllDigits-append [] t h k = k
AllDigits-append (c ∷ s) t (a, b, h) k = (a, b, AllDigits-append s t h k)

-- The number that a digit string denotes.
value_from : ℕ → Bytes → ℕ
value_from v [] = v
value_from v (c ∷ s) = value_from (v * 10 + (c - b'0')) s

value_from-append : (v : ℕ) (s t : Bytes) → value_from v (s ++ t) ≡ value_from (value_from v s) t
unfolding value_from
value_from-append v [] t = refl
value_from-append v (c ∷ s) t = value_from-append (v * 10 + (c - b'0')) s t

-- How `digits` ends, for the inductions below.
digits_split : (n : ℕ) → 10 ≤ n → digits n ≡ digits (n / 10) ++ (b'0' + n % 10) ∷ []
digits_split n h =
    let split : n ≡ n / 10 * 10 + n % 10 = omega arith in
    ap digits split ∙ digits-push (n / 10) (n % 10) (omega arith) (omega arith)

digits_lem_below : (k n : ℕ) → n < k → AllDigits (digits n) × (value_from 0 (digits n) ≡ n)
unfolding value_from
digits_lem_below zero n h = absurd (omega arith)
digits_lem_below (suc k) n h = elim (Bool-cases (ltb n 10)) [
  | inl small ↦ rw (digits-lt_ten n (ground arith)) ((omega arith, ground arith, tt), omega arith)
  | inr large ↦
      let (shape, val) = digits_lem_below k (n / 10) (ground arith) in
      rw (digits_split n (ground arith)) (
        AllDigits-append (digits (n / 10)) ((b'0' + n % 10) ∷ []) shape
            (omega arith, omega arith, tt),
        value_from-append 0 (digits (n / 10)) ((b'0' + n % 10) ∷ []) ∙ omega (arith, val),
      )
]

pub digits-AllDigits : (n : ℕ) → AllDigits (digits n)
digits-AllDigits n = (digits_lem_below (suc n) n (omega arith)).0

pub digits-injective : (m n : ℕ) → digits m ≡ digits n → m ≡ n
digits-injective m n e =
    sym (digits_lem_below (suc m) m (omega arith)).1
    ∙ ap (value_from 0) e
    ∙ (digits_lem_below (suc n) n (omega arith)).1
