-- ===== src/Args/Integer/Numerals.antt =====
-- Decimal numerals, as the reference that `parse_int` is held to.
use redimos.Prelude.{
  ℕ, zero, suc, ◌+◌, ◌-◌, ◌*◌, ◌/◌, ◌%◌, ◌≤◌, ◌<◌, ◌≡◌, ap, ◌∙◌, inl, inr, false, some, [], ◌∷◌,
  ◌++◌, append_assoc, append-nil, Bytes, ltb, if◌then◌else◌, Bool-cases, arith,
}
use redimos.Prelude.Int.{ℤ, pos, negsuc, two64}
use redimos.Args.Integer.{accumulate, magnitude}

-- The digits of `n`, most significant first; the fuel is the number itself or more.
digits_fuel : ℕ → ℕ → Bytes
digits_fuel zero n = []
digits_fuel (suc f) n =
    let front = digits_fuel f (n / 10) in
    if ltb n 10 then (b'0' + n) ∷ [] else front ++ (b'0' + n % 10) ∷ []

unfoldable pub digits : ℕ → Bytes
unfolding digits_fuel
digits n = digits_fuel (suc n) n

-- The canonical text of an integer: no leading zero, no plus sign, no minus zero.
unfoldable pub decimal : ℤ → Bytes
unfolding digits
decimal (pos n) = digits n
decimal (negsuc n) = b'-' ∷ digits (suc n)

digits_fuel_enough : (f g n : ℕ) → n < f → n < g → digits_fuel f n ≡ digits_fuel g n
unfolding digits_fuel
digits_fuel_enough zero g n p q = absurd (omega arith)
digits_fuel_enough (suc f) zero n p q = absurd (omega arith)
digits_fuel_enough (suc f) (suc g) n p q = elim (Bool-cases (ltb n 10)) [
  | inl small ↦ rw small
  | inr large ↦ rw (large, digits_fuel_enough f g (n / 10) (ground arith) (ground arith))
]

pub digits-lt_ten : (d : ℕ) → d < 10 → digits d ≡ (b'0' + d) ∷ []
unfolding digits
digits-lt_ten d h = ground arith

-- One more digit at the end.
pub digits-push : (v d : ℕ) → 0 < v → d < 10 → digits (v * 10 + d) ≡ digits v ++ (b'0' + d) ∷ []
unfolding digits
digits-push v d hv hd =
    let n = v * 10 + d in
    let large : ltb n 10 ≡ false = ground arith in
    let tenth : n / 10 ≡ v = omega arith in
    let last : n % 10 ≡ d = omega arith in
    rw (large, tenth, last, digits_fuel_enough n (suc v) v (omega arith) (omega arith))

accumulate_step :
    (c : ℕ) (s : Bytes) (v w : ℕ)
    → accumulate v (c ∷ s) ≡ some w
    → (b'0' ≤ c)
      × (c ≤ b'9')
      × (v * 10 + (c - b'0') < two64)
      × (accumulate (v * 10 + (c - b'0')) s ≡ some w)
unfolding accumulate
accumulate_step c s v w h = (ground arith, ground arith, ground arith, ground arith)

-- What the digit loop reads is the number whose digits it has passed.
pub accumulate_sound :
    (s : Bytes) (v w : ℕ)
    → 0 < v
    → v < two64
    → accumulate v s ≡ some w
    → (digits w ≡ digits v ++ s) × (0 < w) × (w < two64)
unfolding accumulate
accumulate_sound [] v w hv hb h =
    let e : w ≡ v = ground arith in (rw (e, append-nil), omega arith, omega arith)
accumulate_sound (c ∷ s) v w hv hb h =
    let (low, high, fits, rest) = accumulate_step c s v w h in
    let d = c - b'0' in
    let (ih, pos_w, lt_w) = accumulate_sound s (v * 10 + d) w (omega arith) fits rest in
    let byte : b'0' + d ≡ c = omega arith in
    let push : digits (v * 10 + d) ≡ digits v ++ c ∷ [] =
      digits-push v d hv (omega arith) ∙ ap (λ x. digits v ++ x ∷ []) byte in
    (ih ∙ ap (λ t. t ++ s) push ∙ append_assoc (digits v) (c ∷ []) s, pos_w, lt_w)

pub accumulate-append :
    (s t : Bytes) (v u : ℕ) → accumulate v s ≡ some u → accumulate v (s ++ t) ≡ accumulate u t
unfolding accumulate
accumulate-append [] t v u h = ground arith
accumulate-append (c ∷ s) t v u h =
    ground (arith, accumulate-append s t ((v * 10 + (c - b'0')) % two64) u)

pub magnitude-append :
    (s t : Bytes) (u : ℕ) → magnitude s ≡ some u → magnitude (s ++ t) ≡ accumulate u t
unfolding magnitude
magnitude-append [] t u h = ground arith
magnitude-append (c ∷ s) t u h = ground (arith, accumulate-append s t (c - b'0') u)

magnitude-digits_below : (k w : ℕ) → w < k → 0 < w → w < two64 → magnitude (digits w) ≡ some w
unfolding magnitude accumulate
magnitude-digits_below zero w h hw hb = absurd (omega arith)
magnitude-digits_below (suc k) w h hw hb = elim (Bool-cases (ltb w 10)) [
  | inl small ↦ rw (digits-lt_ten w (ground arith)) (ground arith)
  | inr large ↦
      let v = w / 10 in
      let d = w % 10 in
      let v_pos : 0 < v = ground arith in
      let ih : magnitude (digits v) ≡ some v =
        magnitude-digits_below k v (omega arith) v_pos (omega arith) in
      let split : w ≡ v * 10 + d = omega arith in
      let text : digits w ≡ digits v ++ (b'0' + d) ∷ [] =
        ap digits split ∙ digits-push v d v_pos (omega arith) in
      rw (text, magnitude-append (digits v) ((b'0' + d) ∷ []) v ih) (ground arith)
]

pub magnitude-digits : (w : ℕ) → 0 < w → w < two64 → magnitude (digits w) ≡ some w
magnitude-digits w = magnitude-digits_below (suc w) w (omega arith)
