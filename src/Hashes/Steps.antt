-- ===== src/Hashes/Steps.antt =====
-- HSET, HMSET, HSETNX and HDEL on a key that holds a map.
use redimos.Prelude.{
  ℕ, ◌+◌, ◌-◌, ◌≡◌, refl, ap, sym, subst, ◌∙◌, true, false, inl, inr, Option-cases, Option, List,
  [], ◌∷◌, Bytes, codes, length, arith,
}
use redimos.Prelude.Int.{pos}
use redimos.Reply.{Reply, int, status, ok}
use redimos.Store.{Store, ◌>>=◌, return, reply_of, reply_to, >>=-eq_ok, >>=-eq_result, type_hash}
use redimos.Keys.{Env, key_pk}
use redimos.Guard.{check_write}
use redimos.Guard.Limits.{Fits, check_write-Fits}
use redimos.Collections.{
  flag_reply, live, not_live, load_meta_state, adjust_count, negated, storable_members,
}
use redimos.Collections.Entries.{
  names, lookup, puts, removes, length-put_absent, lookup-positive, removes-empty,
}
use redimos.Collections.Stored.{Stored, Unmoved, Unmoved-trans}
use redimos.Collections.Steps.{load_lem, Ready-Stored, open_lem, write_lem, remove_lem}
use redimos.Collections.Storable.{Storable, removes-storable_members}
use redimos.Hashes.{
  split_hash_pairs, interleaved, ensure_hash_writable, set_fields, handle_hset, handle_hmset,
  handle_hdel, del_live, handle_hset_nx, set_nx_rest,
}
use redimos.Hashes.Laws.{HashLaws}
use redimos.Hashes.Pairs.{values, split_hash_pairs-interleaved, length-interleaved_even}
use redimos.Hashes.Spec.{Command, Map, added_reply, spec}

-- The key is a hash that holds the map `m` for a client, or is not live and `m` is empty.
abbrev pub HashAt : (b : Store) → Env → Bytes → b.World → Map → Type 0
HashAt b env pk w m = Stored Bytes env.now type_hash (b.meta w pk) (b.field w pk) m

-- A handler replies `r`, leaves the map `m` under the key, and changes no other key.
abbrev pub Leaves : (b : Store) → Env → Bytes → b.World → b.World × Reply → Map × Reply → Type 0
Leaves b env pk w run (m, r) =
    (w' : b.World) × (run ≡ (w', r))
    × HashAt b env pk w' m
    × Unmoved b (Bytes → Option Bytes) b.field pk w w'

module _ (b : Store) (laws : HashLaws b) (env : Env) (name key : Bytes) (w : b.World) (m : Map)
    (held : HashAt b env (key_pk env key) w m) where
  set_fields_lem :
      (f v : Bytes) (ps : List (Bytes × Bytes))
      → Fits key (names ((f, v) ∷ ps)) (values ((f, v) ∷ ps))
      → (new : ℕ) × (length (puts ((f, v) ∷ ps) m) ≡ new + length m)
        × (w' : b.World) × (set_fields b env key (split_hash_pairs (interleaved ((f, v) ∷ ps))) w
            ≡ (w', ok new))
        × HashAt b env (key_pk env key) w' (puts ((f, v) ∷ ps) m)
        × Unmoved b (Bytes → Option Bytes) b.field (key_pk env key) w w'
  unfolding set_fields ensure_hash_writable
  set_fields_lem f v ps fits =
      let pk = key_pk env key in
      let qs = (f, v) ∷ ps in
      let (w1, found, opened, ready, before) =
        open_lem b laws.counts env Bytes b.field laws.view pk type_hash w m held in
      let (new, written, total, w', ran, holds, after) =
        write_lem b laws.counts env Bytes b.field laws.view pk type_hash b.hset laws.hset_laws f v
          ps w1 found m ready in
      let first =
        >>=-eq_ok (check_write b key (names qs) (values qs)) _ w w tt
          (check_write-Fits b key (names qs) (values qs) w fits) in
      (
        new,
        total,
        w',
        ap (λ r. set_fields b env key r w) (split_hash_pairs-interleaved qs)
            ∙ >>=-eq_ok (ensure_hash_writable b env pk key (names qs) (values qs)) _ w w1 tt
                (first ∙ opened)
            ∙ >>=-eq_result (b.hset pk qs) _ w1 new written
            ∙ >>=-eq_ok (adjust_count b env pk type_hash (pos new)) (λ (_ : Unit {0}). return new)
                (b.hset pk qs w1).0 w' tt ran,
        holds,
        Unmoved-trans before after,
      )

  pub handle_hset_lem :
      (f v : Bytes) (ps : List (Bytes × Bytes))
      → Fits key (names ((f, v) ∷ ps)) (values ((f, v) ∷ ps))
      → Leaves b env
          (key_pk env key)
          w
          (handle_hset b env (name ∷ key ∷ interleaved ((f, v) ∷ ps)) w)
          (puts ((f, v) ∷ ps) m, added_reply m (puts ((f, v) ∷ ps) m))
  unfolding handle_hset reply_to
  handle_hset_lem f v ps fits =
      let (new, total, w', ran, holds, after) = set_fields_lem f v ps fits in
      let counted : new ≡ length (puts ((f, v) ∷ ps) m) - length m = omega (arith, total) in
      (
        w',
        rw (length-interleaved_even ((f, v) ∷ ps)) (
            ap reply_of (
              >>=-eq_ok (set_fields b env key (split_hash_pairs (interleaved ((f, v) ∷ ps))))
                (λ (n : ℕ). return (int (pos n))) w w' new ran)
            ∙ ap (λ n. (w', int (pos n))) counted),
        holds,
        after,
      )

  pub handle_hmset_lem :
      (f v : Bytes) (ps : List (Bytes × Bytes))
      → Fits key (names ((f, v) ∷ ps)) (values ((f, v) ∷ ps))
      → Leaves b env
          (key_pk env key)
          w
          (handle_hmset b env (name ∷ key ∷ interleaved ((f, v) ∷ ps)) w)
          (puts ((f, v) ∷ ps) m, status (codes "OK"))
  unfolding handle_hmset reply_to
  handle_hmset_lem f v ps fits =
      let (new, total, w', ran, holds, after) = set_fields_lem f v ps fits in
      (
        w',
        rw (length-interleaved_even ((f, v) ∷ ps)) (
            ap reply_of (
              >>=-eq_ok (set_fields b env key (split_hash_pairs (interleaved ((f, v) ∷ ps))))
                (λ (_ : ℕ). return (status (codes "OK"))) w w' new ran)),
        holds,
        after,
      )

  pub handle_hset_nx_lem :
      (f v : Bytes)
      → Fits key (f ∷ []) (v ∷ [])
      → Leaves b env
          (key_pk env key)
          w
          (handle_hset_nx b env (name ∷ key ∷ f ∷ v ∷ []) w)
          (spec (Command.hset_nx f v) m)
  unfolding handle_hset_nx reply_to spec ensure_hash_writable puts ◌>>=◌
  handle_hset_nx_lem f v fits =
      let pk = key_pk env key in
      let (w1, found, opened, ready, before) =
        open_lem b laws.counts env Bytes b.field laws.view pk type_hash w m held in
      let put_world = (b.hset pk ((f, v) ∷ []) w1).0 in
      let start =
        >>=-eq_ok (ensure_hash_writable b env pk key (f ∷ []) (v ∷ []))
          (λ (_ : Unit {0}). set_nx_rest b env pk f v) w w1 tt
          (>>=-eq_ok (check_write b key (f ∷ []) (v ∷ [])) _ w w tt
              (check_write-Fits b key (f ∷ []) (v ∷ []) w fits)
            ∙ opened) in
      elim (Option-cases (lookup f m)) [
        | inl missing ↦
            let (new, written, total, w', ran, holds, after) =
              write_lem b laws.counts env Bytes b.field laws.view pk type_hash b.hset laws.hset_laws
                f v [] w1 found m ready in
            let set = laws.hset_nx_absent pk f v w1 (ready.holds.items f ∙ missing) in
            let one : new ≡ 1 = omega (arith, total, length-put_absent f v m missing) in
            rw (missing, spec)
              (
                w',
                ap reply_of (
                    start
                    ∙ >>=-eq_ok (b.hset_nx pk f v) _ w1 put_world true set
                    ∙ >>=-eq_ok (adjust_count b env pk type_hash (pos 1))
                        (λ (_ : Unit {0}). return (flag_reply true)) put_world w' tt
                        (ap (λ n. adjust_count b env pk type_hash (pos n) put_world) (sym one)
                          ∙ ran)),
                holds,
                Unmoved-trans before after,
              )
        | inr (old, there) ↦
            let kept = laws.hset_nx_present pk f v old w1 (ready.holds.items f ∙ there) in
            rw (there, spec)
              (
                w1,
                ap reply_of (start ∙ >>=-eq_ok (b.hset_nx pk f v) _ w1 w1 false kept),
                Ready-Stored b laws.counts env Bytes b.field laws.view pk type_hash w1 found m ready
                    (lookup-positive f old m there),
                before,
              )
      ]

  pub handle_hdel_lem :
      (fs : List Bytes)
      → Storable m
      → Leaves b env
          (key_pk env key)
          w
          (handle_hdel b env (name ∷ key ∷ fs) w)
          (removes fs m, int (pos (length m - length (removes fs m))))
  unfolding handle_hdel reply_to
  handle_hdel_lem fs storable =
      let pk = key_pk env key in
      let same = removes-storable_members fs m storable in
      elim (load_lem b laws.counts env Bytes b.field laws.view pk type_hash w m held) [
        | inl (loaded, empty) ↦
            let nothing : 0 ≡ length m - length (removes fs m) = omega (arith, ap length empty) in
            (
              w,
              ap reply_of (
                    >>=-eq_ok (load_meta_state b env pk type_hash)
                      (del_live b env pk (storable_members fs)) w w not_live loaded)
                  ∙ ap (λ n. (w, int (pos n))) nothing,
              subst (λ xs. HashAt b env pk w xs) (sym (removes-empty fs m empty)) held,
              record { metas = λ j ne. refl; views = λ j ne. refl },
            )
        | inr (found, loaded, ready, filled) ↦
            let (gone, deleted, total, w', ran, holds, after) =
              remove_lem b laws.counts env Bytes b.field laws.view pk type_hash b.hdel
                laws.hdel_laws (storable_members fs) w found m ready filled in
            let removed : gone ≡ length m - length (removes fs m) =
              omega (arith, total, ap length same) in
            (
              w',
              ap reply_of (
                    >>=-eq_ok (load_meta_state b env pk type_hash)
                      (del_live b env pk (storable_members fs)) w w (live found) loaded
                    ∙ >>=-eq_result (b.hdel pk (storable_members fs)) _ w gone deleted
                    ∙ >>=-eq_ok (adjust_count b env pk type_hash (negated gone))
                        (λ (_ : Unit {0}). return (int (pos gone)))
                        (b.hdel pk (storable_members fs) w).0 w' tt ran)
                  ∙ ap (λ n. (w', int (pos n))) removed,
              subst (λ xs. HashAt b env pk w' xs) same holds,
              after,
            )
      ]
