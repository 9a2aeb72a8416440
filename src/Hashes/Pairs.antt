-- ===== src/Hashes/Pairs.antt =====
-- `splitHashPairs` reads back what a client has written pair by pair.
use redimos.Prelude.{◌%◌, ◌≡◌, refl, ap, true, List, [], ◌∷◌, Bytes, length, ◌==◌, arith}
use redimos.Collections.Entries.{names}
use redimos.Hashes.{split_hash_pairs, interleaved}

abbrev pub values : List (Bytes × Bytes) → List Bytes
values [] = []
values ((f, v) ∷ ps) = v ∷ values ps

-- A list of pairs, interleaved and split, gives the fields, the values and the pairs in order.
pub split_hash_pairs-interleaved :
    (ps : List (Bytes × Bytes)) → split_hash_pairs (interleaved ps) ≡ (names ps, values ps, ps)
unfolding split_hash_pairs interleaved
split_hash_pairs-interleaved [] = refl
split_hash_pairs-interleaved ((f, v) ∷ ps) =
    ap (λ r. (f ∷ r.0, v ∷ r.1, (f, v) ∷ r.2)) (split_hash_pairs-interleaved ps)

pub length-interleaved_even :
    (ps : List (Bytes × Bytes)) → (length (interleaved ps) % 2 == 0) ≡ true
unfolding interleaved
length-interleaved_even [] = refl
length-interleaved_even ((f, v) ∷ ps) = ground (arith, length-interleaved_even ps)
