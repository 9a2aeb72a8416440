-- ===== src/Strings/Overwrite.antt =====
-- SET without options on a key of any type, and the reads that follow it.
use redimos.Prelude.{
  ℕ, ◌≡◌, ◌≢◌, refl, ap, sym, ◌∙◌, Bool, true, false, Option, none, some, [], ◌∷◌, Bytes, codes,
  bytes_eq, bytes_eq_self, Bool-cases, inl, inr, arith, if◌then◌else◌,
}
use redimos.Prelude.Int.{ℤ, pos, negsuc}
use redimos.Reply.{status, int, bulk, ok}
use redimos.Store.{
  Store, Meta, return, reply_of, reply_to, ◌>>=◌, >>=-eq_ok, >>=-eq_result, type_string,
}
use redimos.Store.Laws.{is_some, with_exp}
use redimos.Expiry.{is_expired}
use redimos.Keys.{Env, key_pk, delete_meta, ttl_of, reply_ttl, handle_ttl}
use redimos.Guard.{check_write}
use redimos.Guard.Limits.{Fits, check_write-Fits}
use redimos.Strings.{
  absent, live_string, live_other, standing, clear, overwrite_any_type, ensure_type_expiring,
  set_any, set_with, handle_set, handle_get, get_standing, bulk_or_null,
}
use redimos.Strings.Options.{SetOptions, parse_set_options, option_loop, resolve_expiry}
use redimos.Strings.Laws.{StringLaws}
use redimos.Strings.Ensure.{ensure_lem, ensured_of_standing, standing-ensured}
use redimos.Strings.Rmw.{Written}

-- The world once a key of another type is gone: the rest is as it was.
record Cleared (b : Store) (now : ℤ) (pk : Bytes) (w w' : b.World) : Type 0 where
  free : standing now (b.meta w' pk) ≢ live_other
  metas_kept : (j : Bytes) → bytes_eq pk j ≡ false → b.meta w' j ≡ b.meta w j
  values_kept : (j : Bytes) → bytes_eq pk j ≡ false → b.value w' j ≡ b.value w j

standing-free :
    (now : ℤ) (m : Meta) → bytes_eq m.type type_string ≡ true → standing now (some m) ≢ live_other
unfolding standing
standing-free now m string bad = ground arith

standing-with_exp :
    (now : ℤ) (m : Meta)
    → standing now (some m) ≡ live_string
    → standing now (with_exp (pos 0) (some m)) ≡ live_string
unfolding standing with_exp is_expired
standing-with_exp now m h = ground arith

module _ (b : Store) (laws : StringLaws b) (env : Env) (pk : Bytes) where
  delete_meta_lem :
      (w : b.World) (m : Meta)
      → b.meta w pk ≡ some m
      → (delete_meta b pk w) ≡ (b.enqueue pk (b.delete_meta pk w).0, ok true)
  unfolding delete_meta
  delete_meta_lem w m held =
      >>=-eq_result (b.delete_meta pk)
        (λ (existed : Bool).
          if existed then (λ u. (b.enqueue pk u, ok existed)) else return existed)
        w true
        (laws.metas.delete_meta_result pk w
          ∙ ap (λ o. ok (is_some o)) held
          ∙ (unfold is_some in refl))

  clear_lem :
      (w : b.World) (o : Option Meta)
      → b.meta w pk ≡ o
      → (w' : b.World) × (clear b env pk o w ≡ (w', ok tt)) × Cleared b env.now pk w w'
  clear_lem w none held = (
    w,
    refl,
    record {
      free = λ bad.
          let here : standing env.now (b.meta w pk) ≡ absent = rw held (unfold standing in refl) in
          ground arith;
      metas_kept = λ j ne. refl;
      values_kept = λ j ne. refl;
    },
  )
  clear_lem w (some m) held = elim (Bool-cases (bytes_eq m.type type_string)) [
    | inl string ↦ (
      w,
      rw string,
      record {
        free = λ bad. standing-free env.now m string (ap (standing env.now) (sym held) ∙ bad);
        metas_kept = λ j ne. refl;
        values_kept = λ j ne. refl;
      },
    )
    | inr other ↦
        let w1 = (b.delete_members pk w).0 in
        let w2 = (b.delete_meta pk w1).0 in
        let (n, gone) = laws.delete_members_result pk w in
        let held1 : b.meta w1 pk ≡ some m = laws.meta-delete_members pk pk w ∙ held in
        let run =
          >>=-eq_result (b.delete_members pk)
            (λ (_ : ℕ). delete_meta b pk >>= λ (_ : Bool). return tt) w n gone
          ∙ >>=-eq_ok (delete_meta b pk) (λ (_ : Bool). return tt) w1 (b.enqueue pk w2) true
              (delete_meta_lem w1 m held1) in
        let metas =
          λ (j : Bytes). laws.metas.meta-enqueue pk j w2 ∙ laws.metas.meta-delete_meta pk j w1 in
        let values = λ (j : Bytes).
          laws.value-enqueue pk j w2
          ∙ laws.value-delete_meta pk j w1
          ∙ laws.value-delete_members pk j w in
        (
          b.enqueue pk w2,
          rw other run,
          record {
            free = λ bad.
                let here : b.meta (b.enqueue pk w2) pk ≡ none = metas pk ∙ rw (bytes_eq_self pk) in
                let none_here : standing env.now (b.meta (b.enqueue pk w2) pk) ≡ absent =
                  rw here (unfold standing in refl) in
                ground arith;
            metas_kept = λ j ne. metas j ∙ rw ne (laws.meta-delete_members pk j w);
            values_kept = λ j ne. values j ∙ rw ne;
          },
        )
  ]

  abbrev plain : SetOptions
  plain = record { nx = false; xx = false; exp_set = false; exp_epoch = pos 0 }

  overwrite_lem :
      (w : b.World)
      → (w' : b.World) × (overwrite_any_type b env pk w ≡ (w', ok tt)) × Cleared b env.now pk w w'
  unfolding overwrite_any_type
  overwrite_lem w =
      let (w', ran, cleared) = clear_lem w (b.meta w pk) refl in
      (
        w',
        >>=-eq_ok (b.load_meta pk) _ w w (b.meta w pk) (laws.metas.load_meta_lem pk w) ∙ ran,
        cleared,
      )

  -- The four steps of an overwriting write without expiry time, and what they leave: the value
  -- under a live String without expiry time.
  pub overwrite_steps :
      (val : Bytes) (w : b.World)
      → (w1 : b.World) × (w2 : b.World) × (overwrite_any_type b env pk w ≡ (w1, ok tt))
        × (ensure_type_expiring b env pk type_string w1 ≡ (w2, ok tt))
        × ((b.persist pk (b.set_string pk val w2).0).1 ≡ ok true)
        × Written b env.now pk val w (b.persist pk (b.set_string pk val w2).0).0
        × ((m : Meta) × (b.meta (b.persist pk (b.set_string pk val w2).0).0 pk
              ≡ with_exp (pos 0) (some m)))
  overwrite_steps val w =
      let (w1, cleared, c) = overwrite_lem w in
      let (m, took, e) = ensured_of_standing env.now (b.meta w1 pk) c.free in
      let (w2, typed, t) = ensure_lem b laws env pk type_string w1 m took e in
      let w3 = (b.set_string pk val w2).0 in
      let w4 = (b.persist pk w3).0 in
      let metas = λ (j : Bytes). laws.metas.meta-persist pk j w3 in
      let meta3 = λ (j : Bytes). laws.meta-set_string pk val j w2 ∙ t.metas j in
      let held3 : b.meta w3 pk ≡ some m = meta3 pk ∙ rw (bytes_eq_self pk) in
      let held4 : b.meta w4 pk ≡ with_exp (pos 0) (some m) =
        metas pk ∙ rw (bytes_eq_self pk, held3) in
      let values = λ (j : Bytes). laws.value-persist pk j w3 ∙ laws.value-set_string pk val j w2 in
      (
        w1,
        w2,
        cleared,
        typed,
        laws.metas.persist_result pk w3 ∙ ap (λ o. ok (is_some o)) held3 ∙ (unfold is_some in refl),
        record {
          live =
              ap (standing env.now) held4
              ∙ standing-with_exp env.now m (standing-ensured env.now (b.meta w1 pk) m took e);
          value_is = values pk ∙ rw (bytes_eq_self pk);
          metas_kept = λ j ne. metas j ∙ rw ne (meta3 j ∙ rw ne (c.metas_kept j ne));
          values_kept = λ j ne. values j ∙ rw ne (t.values j ∙ ground (arith, c.values_kept j ne));
        },
        (m, held4),
      )

  set_any_lem :
      (val : Bytes) (w : b.World)
      → (w' : b.World) × (set_any b env pk val plain w ≡ (w', ok (status (codes "OK"))))
        × Written b env.now pk val w w'
        × ((m : Meta) × (b.meta w' pk ≡ with_exp (pos 0) (some m)))
  unfolding set_any
  set_any_lem val w =
      let (w1, w2, cleared, typed, persisted, written, held) = overwrite_steps val w in
      let w3 = (b.set_string pk val w2).0 in
      (
        (b.persist pk w3).0,
        >>=-eq_ok (overwrite_any_type b env pk) _ w w1 tt cleared
            ∙ >>=-eq_ok (ensure_type_expiring b env pk type_string) _ w1 w2 tt typed
            ∙ >>=-eq_result (b.set_string pk val) _ w2 tt (laws.set_string_result pk val w2)
            ∙ >>=-eq_result (b.persist pk) _ w3 true persisted,
        written,
        held,
      )

module _ (b : Store) (laws : StringLaws b) (env : Env) (name name' key val : Bytes) where
  -- After a write that left a live String, GET replies its value.
  pub handle_get-Written :
      (w w' : b.World)
      → Written b env.now (key_pk env key) val w w'
      → handle_get b env (name' ∷ key ∷ []) w' ≡ (w', bulk val)
  unfolding handle_get reply_to
  handle_get-Written w w' written =
      let pk = key_pk env key in
      ap reply_of (
        >>=-eq_ok (b.load_meta pk) _ w' w' (b.meta w' pk) (laws.metas.load_meta_lem pk w')
        ∙ ap (λ s. get_standing b env pk s w') written.live
        ∙ >>=-eq_ok (b.get_string pk) (λ (v : Option Bytes). return (bulk_or_null b env v)) w' w'
            (b.value w' pk) (laws.get_string_lem pk w')
        ∙ ap (λ v. (w', ok (bulk_or_null b env v))) written.value_is)

  ttl_persisted :
      (m : Meta)
      → standing env.now (with_exp (pos 0) (some m)) ≡ live_string
      → ttl_of b env false (with_exp (pos 0) (some m)) ≡ negsuc 0
  unfolding ttl_of with_exp standing is_expired
  ttl_persisted m h = ground arith

  -- SET without options succeeds on a key of any type, live, expired or absent, when key and value
  -- are within the size limits: it replies OK, GET then replies the value and TTL -1, and every
  -- other key is as it was.
  pub handle_get-handle_set :
      (w : b.World)
      → Fits key [] (val ∷ [])
      → (w' : b.World) × (handle_set b env (name ∷ key ∷ val ∷ []) w ≡ (w', status (codes "OK")))
        × (handle_get b env (name' ∷ key ∷ []) w' ≡ (w', bulk val))
        × (handle_ttl b env (name' ∷ key ∷ []) w' ≡ (w', int (negsuc 0)))
        × Written b env.now (key_pk env key) val w w'
  unfolding handle_set set_with reply_to parse_set_options option_loop resolve_expiry handle_ttl
      reply_ttl
  handle_get-handle_set w fits =
      let pk = key_pk env key in
      let (w', ran, written, (m, held)) = set_any_lem b laws env pk val w in
      let guarded = check_write-Fits b key [] (val ∷ []) w fits in
      (
        w',
        ap reply_of (>>=-eq_ok (check_write b key [] (val ∷ [])) _ w w tt guarded ∙ ran),
        handle_get-Written w w' written,
        ap reply_of (
            >>=-eq_ok (b.load_meta pk)
              (λ (found : Option Meta). return (int (ttl_of b env false found))) w' w'
              (b.meta w' pk) (laws.metas.load_meta_lem pk w')
            ∙ ap (λ o. (w', ok (int (ttl_of b env false o)))) held
            ∙ ap (λ z. (w', ok (int z)))
                (ttl_persisted m (ap (standing env.now) (sym held) ∙ written.live))),
        written,
      )
