-- ===== src/Keys/Persist.antt =====
-- PERSIST: what it does to the keyspace, and what TTL reads after it.
use redimos.Prelude.{
  ◌≡◌, refl, ap, ◌∙◌, Bool, true, false, ◌&&◌, zero, suc, subst, ◌||◌, not, Option, none, some, [],
  ◌∷◌, Bytes, if◌then◌else◌, bytes_eq, bytes_eq_self, Bool-cases, inl, inr, arith,
}
use redimos.Prelude.Int.{ℤ, pos, negsuc, ltb_ℤ, leb_ℤ, eqb_ℤ}
use redimos.Reply.{int, ok}
use redimos.Store.{Meta, Store, ◌>>=◌, return, reply_to, reply_of, >>=-eq_ok, >>=-eq_result}
use redimos.Expiry.{is_expired}
use redimos.Store.Laws.{MetaLaws, is_some, with_exp}
use redimos.Keys.{Env, key_pk, ttl_of, handle_ttl, has_expiry, handle_persist}
use redimos.Keys.Expire.{reply_ttl_lem}

-- Whether an expiry time is set and has not come by `now`. A time below 0, which no command
-- stores, never comes.
abbrev pub is_ahead : ℤ → ℤ → Bool
is_ahead now (pos zero) = false
is_ahead now (pos (suc n)) = ltb_ℤ now (pos (suc n))
is_ahead now (negsuc n) = true

abbrev pub expires_later : ℤ → Option Meta → Bool
expires_later now none = false
expires_later now (some m) = is_ahead now m.exp

module _ (b : Store) (laws : MetaLaws b) (env : Env) where
  has_expiry-is_some : (m : Option Meta) → has_expiry b env m ≡ true → is_some m ≡ true
  unfolding has_expiry is_some
  has_expiry-is_some none h = ground arith
  has_expiry-is_some (some m) h = refl

  ttl_of-with_exp :
      (m : Option Meta)
      → has_expiry b env m ≡ true
      → ttl_of b env false (with_exp (pos 0) m) ≡ negsuc 0
  unfolding has_expiry ttl_of with_exp
  ttl_of-with_exp none h = ground arith
  ttl_of-with_exp (some m) h = ground arith

  has_expiry-expires_later : (m : Option Meta) → has_expiry b env m ≡ expires_later env.now m
  unfolding has_expiry is_expired
  has_expiry-expires_later none = refl
  has_expiry-expires_later (some m) = ahead m.exp
    where
      ahead :
          (t : ℤ)
          → not ((ltb_ℤ (pos 0) t && leb_ℤ t env.now) || eqb_ℤ t (pos 0)) ≡ is_ahead env.now t
      ahead (pos zero) = ground arith
      ahead (pos (suc n)) = ground arith
      ahead (negsuc n) = ground arith

  persist_guarded :
      (name key : Bytes) (w : b.World)
      → ((handle_persist b env (name ∷ key ∷ []) w).1
          ≡ int (if has_expiry b env (b.meta w (key_pk env key)) then pos 1 else pos 0))
        × ((j : Bytes)
            → b.meta (handle_persist b env (name ∷ key ∷ []) w).0 j ≡ (
                if has_expiry b env (b.meta w (key_pk env key)) && bytes_eq (key_pk env key) j
                then with_exp (pos 0) (b.meta w j)
                else b.meta w j))
  unfolding handle_persist reply_to
  persist_guarded name key w =
      let pk = key_pk env key in
      let m = b.meta w pk in
      let cleared = λ (_ : Bool). return {W = b.World} (int (pos 1)) in
      let step = λ (found : Option Meta).
        if has_expiry b env found then b.persist pk >>= cleared else return (int (pos 0)) in
      let run = >>=-eq_ok (b.load_meta pk) step w w m (laws.load_meta_lem pk w) in
      elim (Bool-cases (has_expiry b env m)) [
        | inl yes_exp ↦
            let result = laws.persist_result pk w ∙ ap ok (has_expiry-is_some m yes_exp) in
            let here = ap reply_of (
              run
              ∙ ap (λ x. (if x then b.persist pk >>= cleared else return (int (pos 0))) w) yes_exp
              ∙ >>=-eq_result (b.persist pk) cleared w true result) in
            rw yes_exp
              (ap (λ r. r.1) here, λ j. ap (λ r. b.meta r.0 j) here ∙ laws.meta-persist pk j w)
        | inr no_exp ↦
            let here = ap reply_of (
              run
              ∙ ap (λ x. (if x then b.persist pk >>= cleared else return (int (pos 0))) w)
                  no_exp) in
            rw no_exp (ap (λ r. r.1) here, λ j. ap (λ r. b.meta r.0 j) here)
      ]

  -- PERSIST replies 1 exactly for a key with an expiry time that has not come, which it clears, and
  -- 0 for any other key (absent, expired or without an expiry time), which it leaves alone; no
  -- other meta item changes.
  pub handle_persist_lem :
      (name key : Bytes) (w : b.World)
      → ((handle_persist b env (name ∷ key ∷ []) w).1
          ≡ int (if expires_later env.now (b.meta w (key_pk env key)) then pos 1 else pos 0))
        × ((j : Bytes)
            → b.meta (handle_persist b env (name ∷ key ∷ []) w).0 j ≡ (
                if expires_later env.now (b.meta w (key_pk env key)) && bytes_eq (key_pk env key) j
                then with_exp (pos 0) (b.meta w j)
                else b.meta w j))
  handle_persist_lem name key w =
      subst
        (λ (x : Bool).
          ((handle_persist b env (name ∷ key ∷ []) w).1 ≡ int (if x then pos 1 else pos 0))
          × ((j : Bytes)
              → b.meta (handle_persist b env (name ∷ key ∷ []) w).0 j ≡ (
                  if x && bytes_eq (key_pk env key) j
                  then with_exp (pos 0) (b.meta w j)
                  else b.meta w j)))
        (has_expiry-expires_later (b.meta w (key_pk env key))) (persist_guarded name key w)

  -- After a PERSIST that replied 1, TTL replies -1.
  pub handle_ttl-handle_persist :
      (name name' key : Bytes) (w : b.World)
      → (handle_persist b env (name ∷ key ∷ []) w).1 ≡ int (pos 1)
      → (handle_ttl b env (name' ∷ key ∷ []) (handle_persist b env (name ∷ key ∷ []) w).0).1
        ≡ int (negsuc 0)
  unfolding handle_ttl
  handle_ttl-handle_persist name name' key w h =
      let pk = key_pk env key in
      let (answer, kept) = persist_guarded name key w in
      let had : has_expiry b env (b.meta w pk) ≡ true = ground arith in
      let stored : b.meta (handle_persist b env (name ∷ key ∷ []) w).0 pk
          ≡ with_exp (pos 0) (b.meta w pk) =
        kept pk ∙ rw (had, bytes_eq_self pk) in
      ap (λ r. r.1)
        (reply_ttl_lem b laws env false name' key (handle_persist b env (name ∷ key ∷ []) w).0)
      ∙ ap (λ x. int (ttl_of b env false x)) stored
      ∙ ap int (ttl_of-with_exp (b.meta w pk) had)
