-- ===== src/Samples/Numbers.antt =====
-- Runs on numbers, partition keys, names and lists of values.
use redimos.Prelude.{
  ℕ, ◌≡◌, refl, ◌↔◌, inr, true, some, List, [], ◌∷◌, ◌++◌, Bytes, codes, bytes_eq, arith,
}
use redimos.Prelude.Int.{pos, negsuc, ◌+ℤ◌, ◌-ℤ◌, wrap64, ◌≤ℤ◌, ◌<ℤ◌, IsInt64}
use redimos.Args.Integer.{parse_int}
use redimos.Args.Integer.Numerals.{decimal}
use redimos.Args.Integer.Canonical.{parse_int_iff}
use redimos.Keyspace.{encode_pk, decode_pk}
use redimos.Keyspace.Isolation.{SameDatabase, decode_pk_iff}
use redimos.Collections.{range_result_count, normalize_rank_range}
use redimos.Collections.Ranges.{
  span, range_result_count-normalize_rank_range, normalize_rank_range-inside,
}
use redimos.Lists.Remove.{lrem_compute}
use redimos.Lists.Removal.{
  occurrences, others, lrem_compute_head, lrem_compute_tail, lrem_compute_every,
}

parse_int_iff_example :
    (parse_int (codes "-42") ≡ some (negsuc 41))
    ↔ ((codes "-42" ≡ decimal (negsuc 41)) × IsInt64 (negsuc 41))
parse_int_iff_example = parse_int_iff (codes "-42") (negsuc 41)

abbrev three : ℕ
three = 3

decode_pk_iff_example :
    ((decode_pk true 1 (codes "1:a") ≡ some (codes "a"))
      ↔ (codes "1:a" ≡ encode_pk true 1 (codes "a")))
    × ((decode_pk true 10 (encode_pk true 1 (codes "a")) ≡ some (codes "0:a"))
        ↔ (SameDatabase true 1 10 × (codes "a" ≡ codes "0:a")))
decode_pk_iff_example = decode_pk_iff true 1 10 (codes "1:a") (codes "a") (codes "0:a")

range_result_count-normalize_rank_range_example :
    range_result_count (pos 5) (negsuc 2) (pos 9)
    ≡ span (normalize_rank_range (pos 5) (negsuc 2) (pos 9))
range_result_count-normalize_rank_range_example =
    range_result_count-normalize_rank_range 5 (negsuc 2) (pos 9) (omega arith)
      (omega arith, omega arith) (omega arith, omega arith)

last_two : normalize_rank_range (pos 5) (negsuc 1) (negsuc 0) ≡ some (pos 3, pos 4)
unfolding normalize_rank_range wrap64 ◌+ℤ◌ ◌-ℤ◌
last_two = refl

normalize_rank_range-inside_example : (pos 0 ≤ℤ pos 3) × (pos 3 ≤ℤ pos 4) × (pos 4 <ℤ pos 5)
normalize_rank_range-inside_example =
    normalize_rank_range-inside 5 (negsuc 1) (negsuc 0) (pos 3) (pos 4) (omega arith)
      (omega arith, omega arith) last_two

abbrev before : List Bytes
before = codes "x" ∷ codes "y" ∷ codes "x" ∷ []

abbrev after : List Bytes
after = codes "x" ∷ codes "z" ∷ []

two_of_three : (occurrences (codes "x") before ≡ 2) × (occurrences (codes "x") after ≡ 1)
unfolding occurrences bytes_eq
two_of_three = (refl, refl)

lrem_compute_head_example :
    lrem_compute (before ++ after) (pos (occurrences (codes "x") before)) (codes "x")
    ≡ (others (codes "x") before ++ after, occurrences (codes "x") before)
lrem_compute_head_example =
    lrem_compute_head (codes "x") before after (omega (arith, two_of_three.0))

lrem_compute_tail_example :
    lrem_compute (before ++ after) (negsuc 0) (codes "x") ≡ (before ++ others (codes "x") after, 1)
lrem_compute_tail_example = lrem_compute_tail (codes "x") before after 0 two_of_three.1

lrem_compute_every_example :
    lrem_compute before (negsuc 9223372036854775807) (codes "x")
    ≡ (others (codes "x") before, occurrences (codes "x") before)
lrem_compute_every_example =
    lrem_compute_every (codes "x") before (negsuc 9223372036854775807)
      (inr (omega (arith, two_of_three.0)))
