-- ===== src/Collections/Ranges.antt =====
-- The two resolutions of a range of ranks, of `rangeResultCount` and `ZNormalizeRankRange`.
use redimos.Prelude.{
  ℕ, zero, suc, ◌<◌, ◌≡◌, ◌≢◌, refl, sym, ap, ◌∙◌, ◌&&◌, Option, none, some, if◌then◌else◌, arith,
}
use redimos.Prelude.Int.{ℤ, pos, negsuc, ◌+ℤ◌, ◌-ℤ◌, ltb_ℤ, wrap64, IsInt64, two63, ◌≤ℤ◌, ◌<ℤ◌}
use redimos.Collections.{
  rank_from_end, count_between, bounds_between, range_result_count, normalize_rank_range,
}

-- How many ranks a resolved range has.
abbrev pub span : Option (ℤ × ℤ) → ℤ
span none = pos 0
span (some (lo, hi)) = hi -ℤ lo +ℤ pos 1

-- A resolved rank is an int64 that a start keeps non-negative.
rank_lem :
    (n : ℕ) (x : ℤ)
    → n < two63
    → IsInt64 x
    → IsInt64 (rank_from_end (pos n) x)
      × ((ltb_ℤ x (pos 0) && ltb_ℤ (rank_from_end (pos n) x) (pos 0))
          ≡ ltb_ℤ (rank_from_end (pos n) x) (pos 0))
unfolding rank_from_end ◌+ℤ◌ wrap64
rank_lem n (pos k) hn hx = ground arith
rank_lem n (negsuc k) hn hx = ground arith

alike :
    (n : ℕ) (from to : ℤ)
    → 0 < n
    → n < two63
    → IsInt64 from
    → IsInt64 to
    → count_between (pos n) from to
      ≡ span (bounds_between (pos n) (if ltb_ℤ from (pos 0) then pos 0 else from) to)
unfolding count_between bounds_between ◌+ℤ◌ ◌-ℤ◌ wrap64
alike n (pos i) (pos j) hp hn hi hj = ground arith
alike n (pos i) (negsuc j) hp hn hi hj = ground arith
alike n (negsuc i) (pos j) hp hn hi hj = ground arith
alike n (negsuc i) (negsuc j) hp hn hi hj = ground arith

module _ (n : ℕ) (start stop : ℤ) (hp : 0 < n) (hn : n < two63) (hs : IsInt64 start) where
  count_resolved :
      range_result_count (pos n) start stop
      ≡ count_between (pos n) (rank_from_end (pos n) start) (rank_from_end (pos n) stop)
  unfolding range_result_count
  count_resolved = ground arith

  bounds_resolved :
      normalize_rank_range (pos n) start stop
      ≡ bounds_between
          (pos n)
          (if ltb_ℤ (rank_from_end (pos n) start) (pos 0)
            then pos 0
            else rank_from_end (pos n) start)
          (rank_from_end (pos n) stop)
  unfolding normalize_rank_range
  bounds_resolved = let (_, clamp) = rank_lem n start hn hs in rw clamp (ground arith)

-- For int64 bounds and a count below 2^63, the number of elements by which the reply is capped is
-- the number of ranks that the resolved range has.
pub range_result_count-normalize_rank_range :
    (n : ℕ) (start stop : ℤ)
    → n < two63
    → IsInt64 start
    → IsInt64 stop
    → range_result_count (pos n) start stop ≡ span (normalize_rank_range (pos n) start stop)
range_result_count-normalize_rank_range zero start stop hn hs ht =
    unfold range_result_count normalize_rank_range in refl
range_result_count-normalize_rank_range (suc n) start stop hn hs ht =
    let (hi, _) = rank_lem (suc n) start hn hs in
    let (hj, _) = rank_lem (suc n) stop hn ht in
    count_resolved (suc n) start stop (omega arith) hn hs
    ∙ alike (suc n) (rank_from_end (pos (suc n)) start) (rank_from_end (pos (suc n)) stop)
        (omega arith) hn hi hj
    ∙ ap span (sym (bounds_resolved (suc n) start stop (omega arith) hn hs))

inside :
    (n i : ℕ) (to lo hi : ℤ)
    → bounds_between (pos n) (pos i) to ≡ some (lo, hi)
    → (pos 0 ≤ℤ lo) × (lo ≤ℤ hi) × (hi <ℤ pos n)
unfolding bounds_between ◌-ℤ◌
inside n i (pos j) lo hi h = ground arith
inside n i (negsuc j) lo hi h = ground arith

clamped_lem : (x : ℤ) → (i : ℕ) × ((if ltb_ℤ x (pos 0) then pos 0 else x) ≡ pos i)
clamped_lem (pos k) = (k, ground arith)
clamped_lem (negsuc k) = (0, ground arith)

empty_lem : (start stop lo hi : ℤ) → normalize_rank_range (pos 0) start stop ≢ some (lo, hi)
unfolding normalize_rank_range
empty_lem start stop lo hi h = ground arith

-- A range of int64 bounds that `ZNormalizeRankRange` resolves lies inside the collection, in
-- order: the slice that LTRIM takes never goes out of range.
pub normalize_rank_range-inside :
    (n : ℕ) (start stop lo hi : ℤ)
    → n < two63
    → IsInt64 start
    → normalize_rank_range (pos n) start stop ≡ some (lo, hi)
    → (pos 0 ≤ℤ lo) × (lo ≤ℤ hi) × (hi <ℤ pos n)
normalize_rank_range-inside zero start stop lo hi hn hs h = absurd (empty_lem start stop lo hi h)
normalize_rank_range-inside (suc n) start stop lo hi hn hs h =
    let (i, e) = clamped_lem (rank_from_end (pos (suc n)) start) in
    let to = rank_from_end (pos (suc n)) stop in
    inside (suc n) i to lo hi (
      ap (λ x. bounds_between (pos (suc n)) x to) (sym e)
      ∙ sym (bounds_resolved (suc n) start stop (omega arith) hn hs)
      ∙ h)
