-- ===== src/Strings/Many/Mset.antt =====
-- What a client reads after MSET.
use redimos.Prelude.{
  ◌%◌, ◌≡◌, refl, ap, sym, subst, ◌∙◌, Bool, true, Bool-cases, inl, inr, Option, none, some, List,
  [], ◌∷◌, Bytes, codes, if◌then◌else◌, length, bytes_eq, bytes_eq_iff, ◌==◌, arith,
}
use redimos.Reply.{status, bulk, ok}
use redimos.Store.{Store, return, reply_of, reply_to, >>=-eq_ok, >>=-eq_result, type_string}
use redimos.Keys.{Env, key_pk}
use redimos.Guard.{check_write}
use redimos.Guard.Limits.{Fits, check_write-Fits}
use redimos.Strings.{live_string, standing, overwrite_any_type, ensure_type_expiring, handle_get}
use redimos.Strings.Laws.{StringLaws}
use redimos.Strings.Rmw.{Written}
use redimos.Strings.Overwrite.{overwrite_steps, handle_get-Written}
use redimos.Strings.Many.{
  pairs_of, check_pairs, set_pair, set_pairs, set_batches, mset_pairs, handle_mset,
}
use redimos.Strings.Many.Batches.{set_batches-set_pairs}

-- The arguments that a client sends for some pairs.
abbrev pub flattened : List (Bytes × Bytes) → List Bytes
flattened [] = []
flattened ((k, v) ∷ ps) = k ∷ v ∷ flattened ps

pub pairs_of-flattened : (ps : List (Bytes × Bytes)) → pairs_of (flattened ps) ≡ ps
unfolding pairs_of
pairs_of-flattened [] = refl
pairs_of-flattened ((k, v) ∷ ps) = ap (λ r. (k, v) ∷ r) (pairs_of-flattened ps)

length-flattened_even : (ps : List (Bytes × Bytes)) → (length (flattened ps) % 2 == 0) ≡ true
length-flattened_even [] = refl
length-flattened_even ((k, v) ∷ ps) = ground (arith, length-flattened_even ps)

abbrev later : Option Bytes → Bool → Bytes → Option Bytes
later (some x) here v = some x
later none here v = if here then some v else none

-- The last value that the pairs give to a partition key.
unfoldable pub latest : Env → Bytes → List (Bytes × Bytes) → Option Bytes
latest env pk [] = none
latest env pk ((key, val) ∷ ps) = later (latest env pk ps) (bytes_eq (key_pk env key) pk) val

abbrev pub AllFit : List (Bytes × Bytes) → Type 0
AllFit [] = Unit
AllFit ((key, val) ∷ ps) = Fits key [] (val ∷ []) × AllFit ps

-- What a world holds of a String after the writes.
abbrev pub Answer : (b : Store) → Env → Bytes → b.World → b.World → Option Bytes → Type 0
Answer b env pk w w' none = (b.meta w' pk ≡ b.meta w pk) × (b.value w' pk ≡ b.value w pk)
Answer b env pk w w' (some v) =
    (standing env.now (b.meta w' pk) ≡ live_string) × (b.value w' pk ≡ some v)

module _ (b : Store) (laws : StringLaws b) (env : Env) where
  check_pairs_lem :
      (ps : List (Bytes × Bytes)) (w : b.World) → AllFit ps → check_pairs b env ps w ≡ (w, ok tt)
  unfolding check_pairs
  check_pairs_lem [] w fits = refl
  check_pairs_lem ((key, val) ∷ ps) w (fits, rest) =
      >>=-eq_ok (check_write b key [] (val ∷ [])) _ w w tt
        (check_write-Fits b key [] (val ∷ []) w fits)
      ∙ check_pairs_lem ps w rest

  set_pair_lem :
      (pk val : Bytes) (w : b.World)
      → (w' : b.World) × (set_pair b env pk val w ≡ (w', ok tt)) × Written b env.now pk val w w'
  unfolding set_pair
  set_pair_lem pk val w =
      let (w1, w2, cleared, typed, persisted, written, held) =
        overwrite_steps b laws env pk val w in
      let w3 = (b.set_string pk val w2).0 in
      (
        (b.persist pk w3).0,
        >>=-eq_ok (overwrite_any_type b env pk) _ w w1 tt cleared
            ∙ >>=-eq_ok (ensure_type_expiring b env pk type_string) _ w1 w2 tt typed
            ∙ >>=-eq_result (b.set_string pk val) _ w2 tt (laws.set_string_result pk val w2)
            ∙ >>=-eq_result (b.persist pk) _ w3 true persisted,
        written,
      )

  -- A later answer, or what the first pair has left.
  answer :
      (pk val j : Bytes) (w w1 w2 : b.World) (o : Option Bytes)
      → Written b env.now pk val w w1
      → Answer b env j w1 w2 o
      → Answer b env j w w2 (later o (bytes_eq pk j) val)
  answer pk val j w w1 w2 (some v) written after = after
  answer pk val j w w1 w2 none written (metas, values) = elim (Bool-cases (bytes_eq pk j)) [
    | inl same ↦
        let e = (bytes_eq_iff pk j).0 same in
        rw same (
          ap (standing env.now) (metas ∙ ap (b.meta w1) (sym e)) ∙ written.live,
          values ∙ ap (b.value w1) (sym e) ∙ written.value_is,
        )
    | inr differ ↦
        rw differ (metas ∙ written.metas_kept j differ, values ∙ written.values_kept j differ)
  ]

  set_pairs_lem :
      (ps : List (Bytes × Bytes)) (w : b.World)
      → (w' : b.World) × (set_pairs b env ps w ≡ (w', ok tt))
        × ((j : Bytes) → Answer b env j w w' (latest env j ps))
  unfolding set_pairs latest
  set_pairs_lem [] w = (w, refl, λ j. (refl, refl))
  set_pairs_lem ((key, val) ∷ ps) w =
      let pk = key_pk env key in
      let (w1, ran, written) = set_pair_lem pk val w in
      let (w2, runs, answers) = set_pairs_lem ps w1 in
      (
        w2,
        >>=-eq_ok (set_pair b env pk val) _ w w1 tt ran ∙ runs,
        λ j. answer pk val j w w1 w2 (latest env j ps) written (answers j),
      )

  -- MSET of pairs that fit the limits, over keys of any type, replies OK. After it GET of a key
  -- that it names replies the last value that it gives that key, and the meta item and the value
  -- of every other key are as they were.
  pub handle_get-handle_mset :
      (name name' : Bytes) (ps : List (Bytes × Bytes)) (w : b.World)
      → AllFit ps
      → (w' : b.World) × (handle_mset b env (name ∷ flattened ps) w ≡ (w', status (codes "OK")))
        × ((key v : Bytes)
            → latest env (key_pk env key) ps ≡ some v
            → handle_get b env (name' ∷ key ∷ []) w' ≡ (w', bulk v))
        × ((j : Bytes)
            → latest env j ps ≡ none
            → (b.meta w' j ≡ b.meta w j) × (b.value w' j ≡ b.value w j))
  unfolding handle_mset mset_pairs reply_to
  handle_get-handle_mset name name' ps w fits =
      let (w', ran, answers) = set_pairs_lem ps w in
      let batches = set_batches-set_pairs b env (length ps) ps w (omega arith) ∙ ran in
      let whole : mset_pairs b env ps w ≡ (w', ok (status (codes "OK"))) =
        >>=-eq_ok (check_pairs b env ps) _ w w tt (check_pairs_lem ps w fits)
        ∙ >>=-eq_ok (set_batches b env (length ps) ps)
            (λ (_ : Unit {0}). return (status (codes "OK"))) w w' tt batches in
      (
        w',
        rw (length-flattened_even ps, pairs_of-flattened ps) (ap reply_of whole),
        (λ key v e.
            let (live, value) =
              subst (Answer b env (key_pk env key) w w') e (answers (key_pk env key)) in
            handle_get-Written b laws env name name' key v w' w' (record {
              live = live;
              value_is = value;
              metas_kept = λ j ne. refl;
              values_kept = λ j ne. refl;
            })),
        λ j e. subst (Answer b env j w w') e (answers j),
      )
