-- ===== src/Keys/Del.antt =====
-- DEL, EXISTS and TOUCH against the set of live keys.
use redimos.Prelude.{
  ℕ, ◌+◌, ◌≡◌, refl, ap, ◌∙◌, Bool, true, false, ◌||◌, Option, none, List, [], ◌∷◌, map, Bytes,
  if◌then◌else◌, bytes_eq, bytes_eq_iff, Bool-cases, inl, inr, arith,
}
use redimos.Prelude.Int.{ℤ, pos}
use redimos.Reply.{int, ok}
use redimos.Store.{Meta, Store, return, reply_of, >>=-eq_ok, >>=-eq_result}
use redimos.Store.Laws.{MetaLaws, is_some}
use redimos.Keys.{
  Env, key_pk, is_live, delete_meta, key_live, del_loop, handle_del, exists_loop, handle_exists,
}

pub member : Bytes → List Bytes → Bool
member j [] = false
member j (k ∷ ks) = bytes_eq k j || member j ks

-- How many of the listed keys are live, each as often as it is listed.
pub live_count : ℤ → (Bytes → Option Meta) → List Bytes → ℕ
live_count now v [] = 0
live_count now v (k ∷ ks) = (if is_live now (v k) then 1 else 0) + live_count now v ks

-- The list without the keys that it repeats, or that `seen` has.
pub first_occurrences : List Bytes → List Bytes → List Bytes
unfolding member
first_occurrences seen [] = []
first_occurrences seen (k ∷ ks) =
    let rest = first_occurrences (k ∷ seen) ks in
    if member k seen then first_occurrences seen ks else k ∷ rest

-- A keyspace without the listed keys.
pub without : List Bytes → (Bytes → Option Meta) → Bytes → Option Meta
unfolding member
without ks v j = if member j ks then none else v j

module _ (b : Store) (laws : MetaLaws b) where
  queued :
      (pk : Bytes) (x : Bool) (w : b.World)
      → (if x then (λ w'. (b.enqueue pk w', ok x)) else return x) w
        ≡ (if x then b.enqueue pk w else w, ok x)
  queued pk true w = refl
  queued pk false w = refl

  -- The item goes, and the key is queued exactly if there was one.
  pub delete_meta_lem :
      (pk : Bytes) (w : b.World)
      → delete_meta b pk w ≡ (
        if is_some (b.meta w pk)
            then b.enqueue pk (b.delete_meta pk w).0
            else (b.delete_meta pk w).0,
        ok (is_some (b.meta w pk)),
      )
  unfolding delete_meta
  delete_meta_lem pk w =
      >>=-eq_result (b.delete_meta pk) _ w (is_some (b.meta w pk)) (laws.delete_meta_result pk w)
      ∙ queued pk (is_some (b.meta w pk)) (b.delete_meta pk w).0

  pub delete_meta_result :
      (pk : Bytes) (w : b.World) → (delete_meta b pk w).1 ≡ ok (is_some (b.meta w pk))
  delete_meta_result pk w = ap (λ r. r.1) (delete_meta_lem pk w)

  pub meta-delete_meta :
      (pk j : Bytes) (w : b.World)
      → b.meta (delete_meta b pk w).0 j ≡ (if bytes_eq pk j then none else b.meta w j)
  meta-delete_meta pk j w =
      ap (λ r. b.meta r.0 j) (delete_meta_lem pk w)
      ∙ ground (arith, laws.meta-delete_meta pk j w, laws.meta-enqueue pk j (b.delete_meta pk w).0)

  module _ (env : Env) where
    pub key_live_lem :
        (pk : Bytes) (w : b.World) → key_live b env pk w ≡ (w, ok (is_live env.now (b.meta w pk)))
    unfolding key_live
    key_live_lem pk w = >>=-eq_ok (b.load_meta pk) _ w w (b.meta w pk) (laws.load_meta_lem pk w)

    exists_loop_lem :
        (keys : List Bytes) (n : ℕ) (w : b.World)
        → exists_loop b env n keys w
          ≡ (w, ok (int (pos (n + live_count env.now (b.meta w) (map (key_pk env) keys)))))
    unfolding exists_loop live_count
    exists_loop_lem [] n w = ground arith
    exists_loop_lem (key ∷ keys) n w =
        let pk = key_pk env key in
        let live = is_live env.now (b.meta w pk) in
        let rest = live_count env.now (b.meta w) (map (key_pk env) keys) in
        let total : (if live then n + 1 else n) + rest ≡ n + ((if live then 1 else 0) + rest) =
          ground arith in
        >>=-eq_ok (key_live b env pk) _ w w live (key_live_lem pk w)
        ∙ exists_loop_lem keys (if live then n + 1 else n) w
        ∙ ap (λ k. (w, ok (int (pos k)))) total

    del_loop_step :
        (key : Bytes) (keys : List Bytes) (n : ℕ) (w : b.World)
        → del_loop b env n (key ∷ keys) w
          ≡ del_loop b env
              (if is_live env.now (b.meta w (key_pk env key)) then n + 1 else n)
              keys
              (delete_meta b (key_pk env key) w).0
    unfolding del_loop
    del_loop_step key keys n w =
        let pk = key_pk env key in
        >>=-eq_ok (b.load_meta pk) _ w w (b.meta w pk) (laws.load_meta_lem pk w)
        ∙ >>=-eq_result (delete_meta b pk) _ w (is_some (b.meta w pk)) (delete_meta_result pk w)

    -- The keyspace after the loop.
    meta-del_loop :
        (keys : List Bytes) (n : ℕ) (w : b.World) (j : Bytes)
        → b.meta (del_loop b env n keys w).0 j ≡ without (map (key_pk env) keys) (b.meta w) j
    unfolding without
    meta-del_loop [] n w j = unfold del_loop in refl
    meta-del_loop (key ∷ keys) n w j =
        let pk = key_pk env key in
        let n' = if is_live env.now (b.meta w pk) then n + 1 else n in
        ap (λ r. b.meta r.0 j) (del_loop_step key keys n w)
        ∙ meta-del_loop keys n' (delete_meta b pk w).0 j
        ∙ ground (arith, meta-delete_meta pk j w)

    -- The count, where the keys of `seen` are already gone from the keyspace `v`.
    count-del_loop :
        (keys : List Bytes) (n : ℕ) (seen : List Bytes) (v : Bytes → Option Meta) (w : b.World)
        → ((j : Bytes) → b.meta w j ≡ without seen v j)
        → (del_loop b env n keys w).1
          ≡ ok (
              int (pos (n + live_count env.now v (first_occurrences seen (map (key_pk env) keys)))))
    unfolding live_count first_occurrences without
    count-del_loop [] n seen v w h = unfold del_loop in ground arith
    count-del_loop (key ∷ keys) n seen v w h =
        let pk = key_pk env key in
        let live = is_live env.now (b.meta w pk) in
        let n' = if live then n + 1 else n in
        let rest = live_count env.now v (first_occurrences (pk ∷ seen) (map (key_pk env) keys)) in
        let after = (delete_meta b pk w).0 in
        ap (λ r. r.1) (del_loop_step key keys n w) ∙ elim (Bool-cases (member pk seen)) [
          | inl old ↦
              count-del_loop keys n' seen v after
                (λ j. ground (arith, h j, h pk, bytes_eq_iff pk j, meta-delete_meta pk j w))
              ∙ let gone : b.meta w pk ≡ none = ground (arith, h pk) in
                let dead : live ≡ false = rw gone (unfold is_live in refl) in rw (old, dead)
          | inr new ↦
              count-del_loop keys n' (pk ∷ seen) v after
                (λ j. ground (arith, h j, meta-delete_meta pk j w))
              ∙ let same : b.meta w pk ≡ v pk = ground (arith, h pk) in
                let total : n' + rest ≡ n + ((if is_live env.now (v pk) then 1 else 0) + rest) =
                  rw same (ground arith) in
                rw new (ap (λ k. ok (int (pos k))) total)
        ]

    -- EXISTS and TOUCH reply how many of the listed keys are live, repetitions counted, and
    -- change nothing.
    pub handle_exists_lem :
        (name : Bytes) (keys : List Bytes) (w : b.World)
        → handle_exists b env (name ∷ keys) w
          ≡ (w, int (pos (live_count env.now (b.meta w) (map (key_pk env) keys))))
    unfolding handle_exists
    handle_exists_lem name keys w = ap reply_of (exists_loop_lem keys 0 w) ∙ ground arith

    -- DEL replies how many different listed keys were live, removes the meta items of all listed
    -- keys, the expired ones too, and leaves every other meta item as it was.
    pub handle_del_lem :
        (name : Bytes) (keys : List Bytes) (w : b.World)
        → ((handle_del b env (name ∷ keys) w).1
            ≡ int (
                pos (live_count env.now (b.meta w) (first_occurrences [] (map (key_pk env) keys)))))
          × ((j : Bytes)
              → b.meta (handle_del b env (name ∷ keys) w).0 j
                ≡ without (map (key_pk env) keys) (b.meta w) j)
    unfolding handle_del
    handle_del_lem name keys w =
        let run = count-del_loop keys 0 [] (b.meta w) w (λ j. unfold without member in refl) in
        let outcome : reply_of (del_loop b env 0 keys w) ≡ (
          (del_loop b env 0 keys w).0,
          int (pos (live_count env.now (b.meta w) (first_occurrences [] (map (key_pk env) keys)))),
        ) =
          ap (λ r. reply_of ((del_loop b env 0 keys w).0, r)) run ∙ ground arith in
        (ap (λ r. r.1) outcome, λ j. ap (λ r. b.meta r.0 j) outcome ∙ meta-del_loop keys 0 w j)
