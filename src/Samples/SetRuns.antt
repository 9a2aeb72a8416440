-- ===== src/Samples/SetRuns.antt =====
-- Runs of the Set commands in memory.
use redimos.Prelude.{
  ◌+◌, ◌≡◌, refl, false, some, List, [], ◌∷◌, Bytes, codes, length, bytes_eq, arith,
}
use redimos.Prelude.Int.{pos}
use redimos.Reply.{int, bulk_array}
use redimos.Keyspace.{encode_pk}
use redimos.Expiry.{is_expired}
use redimos.Keys.{key_pk}
use redimos.Collections.Entries.{lookup, listed, Distinct, put, puts, remove, removes}
use redimos.Collections.Storable.{Storable, Storable-puts}
use redimos.Sets.{handle_set_algebra_read, handle_set_algebra_store, handle_smove, handle_spop}
use redimos.Sets.Algebra.{SetOp}
use redimos.Sets.Laws.{at_most}
use redimos.Sets.Steps.{Members, units, SetAt, Elsewhere}
use redimos.Sets.Refinement.{Command, spec, spec_run, run, AllFit, set_run_refines}
use redimos.Sets.Combine.{has, wanted, handle_set_algebra_read_lem}
use redimos.Sets.Membership.{NoRepeats}
use redimos.Sets.Stores.{handle_set_algebra_store_lem}
use redimos.Sets.Move.{BesidesTwo, handle_smove_lem}
use redimos.Sets.Pop.{popped_reply, handle_spop_lem}
use redimos.Samples.Backend.{Items, memory, env, gathered, two_members, one_member}
use redimos.Samples.Members.{memory_sets}

abbrev s : Bytes
s = codes "s"

abbrev t : Bytes
t = codes "t"

two_members-Distinct : Distinct two_members
unfolding Distinct lookup bytes_eq
two_members-Distinct = (refl, (refl, tt))

one_member-Distinct : Distinct one_member
unfolding Distinct lookup
one_member-Distinct = (refl, tt)

two_held : SetAt memory env (key_pk env s) gathered two_members
unfolding is_expired encode_pk bytes_eq
two_held = (
  λ h. ground (arith, h),
  λ _. (
    record { type_is = refl; count_is = refl; distinct = two_members-Distinct; items = λ f. refl },
    omega arith,
  ),
)

one_held : SetAt memory env (key_pk env t) gathered one_member
unfolding is_expired encode_pk bytes_eq
one_held = (
  λ h. ground (arith, h),
  λ _. (
    record { type_is = refl; count_is = refl; distinct = one_member-Distinct; items = λ f. refl },
    omega arith,
  ),
)

two_members-Storable : Storable two_members
unfolding lookup puts put bytes_eq
two_members-Storable = Storable-puts two_members [] (omega arith, (omega arith, tt)) (λ f h. refl)

one_member-Storable : Storable one_member
unfolding lookup puts put bytes_eq
one_member-Storable = Storable-puts one_member [] (omega arith, tt) (λ f h. refl)

abbrev history : List Command
history =
    Command.sadd (codes "y") (codes "z" ∷ [])
    ∷ Command.sis_member (codes "z")
    ∷ Command.srem (codes "x") (codes "q" ∷ [])
    ∷ Command.scard
    ∷ []

history_fits : AllFit s history
history_fits = (
  record {
    key_fits = omega arith;
    members_fit = (omega arith, (omega arith, tt));
    values_fit = tt;
  },
  (tt, (tt, (tt, tt))),
)

history_replies :
    (spec_run history two_members).1 ≡ int (pos 1) ∷ int (pos 1) ∷ int (pos 1) ∷ int (pos 2) ∷ []
unfolding spec_run spec puts put lookup removes remove bytes_eq
history_replies = refl

set_run_refines_example :
    (w' : Items) × (run memory env s history gathered ≡ (w', (spec_run history two_members).1))
    × SetAt memory env (key_pk env s) w' (spec_run history two_members).0
    × Elsewhere memory (key_pk env s) gathered w'
set_run_refines_example =
    set_run_refines memory memory_sets env s history gathered two_members two_held
      two_members-Storable history_fits

handle_set_algebra_read_lem_example :
    (r : List Bytes) × (handle_set_algebra_read memory env SetOp.inter (s ∷ t ∷ []) gathered
      ≡ (gathered, bulk_array r))
    × ((x : Bytes) → listed x r ≡ wanted SetOp.inter x (two_members ∷ one_member ∷ []))
    × NoRepeats r
handle_set_algebra_read_lem_example =
    handle_set_algebra_read_lem memory memory_sets env gathered SetOp.inter (s ∷ t ∷ [])
      (two_members ∷ one_member ∷ []) (two_held, (one_held, tt))

handle_set_algebra_store_lem_example :
    (w' : Items) × (m : Members) × (handle_set_algebra_store memory env SetOp.diff
        (codes "SDIFFSTORE" ∷ t ∷ s ∷ t ∷ [])
        gathered
      ≡ (w', int (pos (length m))))
    × SetAt memory env (key_pk env t) w' m
    × ((x : Bytes) → has x m ≡ wanted SetOp.diff x (two_members ∷ one_member ∷ []))
    × Elsewhere memory (key_pk env t) gathered w'
handle_set_algebra_store_lem_example =
    handle_set_algebra_store_lem memory memory_sets env SetOp.diff (codes "SDIFFSTORE") t
      (s ∷ t ∷ []) (two_members ∷ one_member ∷ []) gathered (two_held, (one_held, tt))
      (two_members-Storable, (one_member-Storable, tt)) (omega arith)

keys_apart : bytes_eq (key_pk env s) (key_pk env t) ≡ false
unfolding encode_pk bytes_eq
keys_apart = refl

x_there : lookup (codes "x") two_members ≡ some tt
unfolding lookup bytes_eq
x_there = refl

handle_smove_lem_example :
    (w' : Items) × (handle_smove memory env (codes "SMOVE" ∷ s ∷ t ∷ codes "x" ∷ []) gathered
      ≡ (w', int (pos 1)))
    × SetAt memory env (key_pk env s) w' (removes (codes "x" ∷ []) two_members)
    × SetAt memory env (key_pk env t) w' (puts (units (codes "x" ∷ [])) one_member)
    × BesidesTwo memory (key_pk env s) (key_pk env t) gathered w'
handle_smove_lem_example =
    handle_smove_lem memory memory_sets env (codes "SMOVE") s t (codes "x") gathered two_members
      one_member keys_apart two_held one_held two_members-Storable x_there (omega arith)

handle_spop_lem_example :
    (ms : List Bytes) × (w' : Items) × (handle_spop memory env (codes "SPOP" ∷ s ∷ []) gathered
      ≡ (w', popped_reply [] ms))
    × (length ms ≡ at_most 1 (length two_members))
    × (length two_members ≡ length ms + length (removes ms two_members))
    × SetAt memory env (key_pk env s) w' (removes ms two_members)
    × Elsewhere memory (key_pk env s) gathered w'
handle_spop_lem_example =
    handle_spop_lem memory memory_sets env (codes "SPOP") s [] gathered two_members two_held 1 refl
