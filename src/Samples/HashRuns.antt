-- ===== src/Samples/HashRuns.antt =====
-- Runs of the Hash commands in memory.
use redimos.Prelude.{ℕ, ◌≡◌, refl, Option, List, [], ◌∷◌, Bytes, codes, bytes_eq, arith}
use redimos.Prelude.Int.{pos}
use redimos.Reply.{int, bulk}
use redimos.Keyspace.{encode_pk}
use redimos.Expiry.{is_expired}
use redimos.Keys.{key_pk}
use redimos.Guard.Limits.{Fits}
use redimos.Collections.Entries.{lookup, Distinct, names, put, puts, remove, removes}
use redimos.Collections.Stored.{Unmoved}
use redimos.Collections.Storable.{Storable, Storable-puts}
use redimos.Hashes.{split_hash_pairs, interleaved}
use redimos.Hashes.Spec.{Command, spec, spec_run}
use redimos.Hashes.Steps.{HashAt}
use redimos.Hashes.Pairs.{values, split_hash_pairs-interleaved}
use redimos.Hashes.Refinement.{run, AllFit, run_refines}
use redimos.Samples.Backend.{Items, memory, env, gathered, two_fields}
use redimos.Samples.Members.{memory_hashes}

abbrev key : Bytes
key = codes "h"

abbrev history : List Command
history =
    Command.hset (codes "f") (codes "3")
    ∷ Command.hset_nx (codes "k") (codes "4")
    ∷ Command.hget (codes "f")
    ∷ Command.hdel (codes "f") (codes "z" ∷ [])
    ∷ Command.hlen
    ∷ []

two_fields-Distinct : Distinct two_fields
unfolding Distinct lookup bytes_eq
two_fields-Distinct = (refl, (refl, tt))

hash_held : HashAt memory env (key_pk env key) gathered two_fields
unfolding is_expired encode_pk bytes_eq
hash_held = (
  λ h. ground (arith, h),
  λ _. (
    record { type_is = refl; count_is = refl; distinct = two_fields-Distinct; items = λ f. refl },
    omega arith,
  ),
)

two_fields-Storable : Storable two_fields
unfolding lookup puts put bytes_eq
two_fields-Storable = Storable-puts two_fields [] (omega arith, (omega arith, tt)) (λ f h. refl)

small : (f v : ℕ) → Fits key ((f ∷ []) ∷ []) ((v ∷ []) ∷ [])
small f v = record {
  key_fits = omega arith;
  members_fit = (omega arith, tt);
  values_fit = (omega arith, tt);
}

history_fits : AllFit key history
history_fits = (small 102 51, (small 107 52, (tt, (tt, (tt, tt)))))

-- What the history replies.
history_replies :
    (spec_run history two_fields).1
    ≡ int (pos 0) ∷ int (pos 1) ∷ bulk (codes "3") ∷ int (pos 1) ∷ int (pos 2) ∷ []
unfolding spec_run spec puts put lookup removes remove bytes_eq
history_replies = refl

run_refines_example :
    (w' : Items) × (run memory env key history gathered ≡ (w', (spec_run history two_fields).1))
    × HashAt memory env (key_pk env key) w' (spec_run history two_fields).0
    × Unmoved memory (Bytes → Option Bytes) memory.field (key_pk env key) gathered w'
run_refines_example =
    run_refines memory memory_hashes env key history gathered two_fields hash_held
      two_fields-Storable history_fits

split_hash_pairs-interleaved_example :
    split_hash_pairs (interleaved two_fields) ≡ (names two_fields, values two_fields, two_fields)
split_hash_pairs-interleaved_example = split_hash_pairs-interleaved two_fields
