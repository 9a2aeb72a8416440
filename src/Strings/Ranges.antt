-- ===== src/Strings/Ranges.antt =====
-- The slice that GETRANGE takes lies inside the value, and SETRANGE's splice byte by byte.
use redimos.Prelude.{ℕ, ◌-◌, zero, suc, inl, inr, Bool-cases, ◌&&◌, ◌≤◌, ◌<◌, ◌≡◌, leb, arith}
use redimos.Prelude.Int.{ℤ, pos, negsuc, ◌+ℤ◌, ◌-ℤ◌, ltb_ℤ, wrap64, IsInt64, two63}
use redimos.Strings.{from_end, clip, range_bounds}

from_end_lem :
    (n : ℕ) (x : ℤ) → n < two63 → IsInt64 x → (k : ℕ) × (from_end n x ≡ pos k) × (k < two63)
unfolding from_end ◌+ℤ◌ wrap64
from_end_lem n (pos k) hn hx = (k, ground arith, omega arith)
from_end_lem n (negsuc k) hn hx = (n - suc k, ground arith, omega arith)

abbrev Inside : ℕ → ℕ × ℕ → Type 0
Inside n (lo, hi) = (lo ≤ hi) × (hi ≤ n)

clip-Inside : (n i j : ℕ) → Inside n (clip n (pos i) (pos j))
unfolding clip ◌+ℤ◌ ◌-ℤ◌
clip-Inside zero i j = ground arith
clip-Inside (suc n) i j = elim (Bool-cases (leb (suc n) j)) [
  | inl past ↦ ground arith
  | inr before ↦ ground arith
]

-- For a value shorter than 2^63 bytes and int64 indices, the bounds are a half-open range inside
-- the value: Go's slice expression never goes out of range.
pub range_bounds-inside :
    (n : ℕ) (start end : ℤ)
    → n < two63
    → IsInt64 start
    → IsInt64 end
    → ((range_bounds n start end).0 ≤ (range_bounds n start end).1)
      × ((range_bounds n start end).1 ≤ n)
unfolding range_bounds
range_bounds-inside n start end hn hs he =
    elim (Bool-cases (ltb_ℤ start (pos 0) && ltb_ℤ end (pos 0) && ltb_ℤ end start)) [
      | inl reversed ↦ rw reversed (omega arith, omega arith)
      | inr forward ↦
          let (i, from, _) = from_end_lem n start hn hs in
          let (j, to, _) = from_end_lem n end hn he in rw (forward, from, to) (clip-Inside n i j)
    ]
