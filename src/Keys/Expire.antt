-- ===== src/Keys/Expire.antt =====
-- The EXPIRE family: what it does to the keyspace, and what TTL reads after it.
use redimos.Prelude.{
  ℕ, ◌+◌, ◌≤◌, ◌<◌, ◌≡◌, refl, ap, ◌∙◌, Bool, true, false, ◌&&◌, not, Option, none, some, [], ◌∷◌,
  Bytes, if◌then◌else◌, bytes_eq, bytes_eq_self, Bool-cases, inl, inr, arith,
}
use redimos.Prelude.Int.{ℤ, pos, ◌+ℤ◌, ◌-ℤ◌, ◌≤ℤ◌, leb_ℤ, wrap64, IsInt64}
use redimos.Reply.{Reply, int, Result, ok}
use redimos.Store.{Meta, Store, return, reply_to, reply_of, >>=-eq_ok, >>=-eq_result}
use redimos.Store.Laws.{MetaLaws, is_some, with_exp}
use redimos.Args.Integer.{parse_int}
use redimos.Expiry.{is_expired, max_seconds, sec_expiry_epoch}
use redimos.Expiry.Bounds.{sec_expiry_epoch_lem}
use redimos.Keys.Del.{delete_meta_result, meta-delete_meta, key_live_lem}
use redimos.Keys.{
  Env, key_pk, is_live, delete_meta, key_live, write_epoch, apply_expire_epoch, apply_expire,
  handle_expire, ttl_of, reply_ttl, handle_ttl,
}

-- A meta item that gets an expiry time, or goes if the time is not after the clock.
pub expiring : ℤ → ℤ → Option Meta → Option Meta
expiring now exp m = if leb_ℤ exp now then none else with_exp exp m

module _ (b : Store) (laws : MetaLaws b) (env : Env) where
  is_live-is_some : (m : Option Meta) → is_live env.now m ≡ true → is_some m ≡ true
  unfolding is_live is_some
  is_live-is_some none h = ground arith
  is_live-is_some (some m) h = refl

  write_epoch_lem :
      (pk : Bytes) (exp : ℤ) (w : b.World)
      → is_live env.now (b.meta w pk) ≡ true
      → ((write_epoch b env pk exp w).1 ≡ ok (int (pos 1)))
        × ((j : Bytes)
            → b.meta (write_epoch b env pk exp w).0 j
              ≡ (if bytes_eq pk j then expiring env.now exp (b.meta w j) else b.meta w j))
  unfolding write_epoch expiring
  write_epoch_lem pk exp w h = elim (Bool-cases (leb_ℤ exp env.now)) [
    | inl past ↦
        let run =
          >>=-eq_result (delete_meta b pk) (λ (_ : Bool). return (int (pos 1))) w _
            (delete_meta_result b laws pk w) in
        rw past
          (ap (λ r. r.1) run, λ j. ap (λ r. b.meta r.0 j) run ∙ meta-delete_meta b laws pk j w)
    | inr future ↦
        let answer =
          λ (found : Bool). return {W = b.World} (if found then int (pos 1) else int (pos 0)) in
        let result = laws.set_expire_result pk exp w ∙ ap ok (is_live-is_some (b.meta w pk) h) in
        let run = >>=-eq_result (b.set_expire pk exp) answer w true result in
        rw future
          (ap (λ r. r.1) run, λ j. ap (λ r. b.meta r.0 j) run ∙ laws.meta-set_expire pk j exp w)
  ]

  apply_expire_epoch_lem :
      (resolve : ℤ → ℤ → ℤ) (pk : Bytes) (n : ℤ) (w : b.World)
      → ((apply_expire_epoch b env resolve pk n w).1
          ≡ ok (int (if is_live env.now (b.meta w pk) then pos 1 else pos 0)))
        × ((j : Bytes)
            → b.meta (apply_expire_epoch b env resolve pk n w).0 j ≡ (
                if is_live env.now (b.meta w pk) && bytes_eq pk j
                then expiring env.now (resolve env.now n) (b.meta w j)
                else b.meta w j))
  unfolding apply_expire_epoch
  apply_expire_epoch_lem resolve pk n w =
      let step = λ (live : Bool).
        if not live
        then return {W = b.World} (int (pos 0))
        else write_epoch b env pk (resolve env.now n) in
      let run = >>=-eq_ok (key_live b env pk) step w w _ (key_live_lem b laws env pk w) in
      elim (Bool-cases (is_live env.now (b.meta w pk))) [
        | inl live ↦
            let (answer, kept) = write_epoch_lem pk (resolve env.now n) w live in
            let here = run ∙ ap (λ l. step l w) live in
            rw live (ap (λ r. r.1) here ∙ answer, λ j. ap (λ r. b.meta r.0 j) here ∙ kept j)
        | inr dead ↦
            let here = run ∙ ap (λ l. step l w) dead in
            rw dead (ap (λ r. r.1) here, λ j. ap (λ r. b.meta r.0 j) here)
      ]

  reply_of_ok : (r : b.World × Result Reply) (a : Reply) → r.1 ≡ ok a → reply_of r ≡ (r.0, a)
  reply_of_ok (w, x) a e = ap (λ y. reply_of (w, y)) e

  -- With an integer time, EXPIRE, EXPIREAT, PEXPIRE and PEXPIREAT reply 1 for a live key and 0
  -- for any other. A live key gets the resolved expiry time, or its meta item goes if that time
  -- is not after the clock; no other meta item changes, and none at all if the key is not live.
  pub apply_expire_lem :
      (resolve : ℤ → ℤ → ℤ) (name key text : Bytes) (n : ℤ) (w : b.World)
      → parse_int text ≡ some n
      → ((apply_expire b env resolve (name ∷ key ∷ text ∷ []) w).1
          ≡ int (if is_live env.now (b.meta w (key_pk env key)) then pos 1 else pos 0))
        × ((j : Bytes)
            → b.meta (apply_expire b env resolve (name ∷ key ∷ text ∷ []) w).0 j ≡ (
                if is_live env.now (b.meta w (key_pk env key)) && bytes_eq (key_pk env key) j
                then expiring env.now (resolve env.now n) (b.meta w j)
                else b.meta w j))
  unfolding apply_expire reply_to
  apply_expire_lem resolve name key text n w e =
      let pk = key_pk env key in
      let (answer, kept) = apply_expire_epoch_lem resolve pk n w in
      let run = reply_of_ok (apply_expire_epoch b env resolve pk n w) _ answer in
      rw (e, apply_expire) (ap (λ r. r.1) run, λ j. ap (λ r. b.meta r.0 j) run ∙ kept j)

  -- TTL and PTTL change nothing and reply what the meta item of the key says.
  pub reply_ttl_lem :
      (millis : Bool) (name key : Bytes) (w : b.World)
      → reply_ttl b env millis (name ∷ key ∷ []) w
        ≡ (w, int (ttl_of b env millis (b.meta w (key_pk env key))))
  unfolding reply_ttl reply_to
  reply_ttl_lem millis name key w = ap reply_of (
      >>=-eq_ok (b.load_meta (key_pk env key))
        (λ (found : Option Meta). return (int (ttl_of b env millis found))) w w _
        (laws.load_meta_lem (key_pk env key) w))

  ttl_of-expiring :
      (t k : ℕ) (m : Option Meta)
      → env.now ≡ pos t
      → is_live env.now m ≡ true
      → 0 < k
      → t + k ≤ max_seconds
      → ttl_of b env false (expiring env.now (pos (t + k)) m) ≡ pos k
  unfolding ttl_of expiring with_exp is_live is_expired ◌-ℤ◌ wrap64
  ttl_of-expiring t k none clock live hk hb = ground arith
  ttl_of-expiring t k (some m) clock live hk hb = ground arith

  -- EXPIRE of a live key by a positive number of seconds that fits replies 1, and a TTL that
  -- follows at once replies exactly that number.
  pub handle_ttl-handle_expire :
      (t k : ℕ) (name name' key text : Bytes) (w : b.World)
      → env.now ≡ pos t
      → parse_int text ≡ some (pos k)
      → 0 < k
      → t + k ≤ max_seconds
      → is_live env.now (b.meta w (key_pk env key)) ≡ true
      → ((handle_expire b env (name ∷ key ∷ text ∷ []) w).1 ≡ int (pos 1))
        × ((handle_ttl b env
              (name' ∷ key ∷ [])
              (handle_expire b env (name ∷ key ∷ text ∷ []) w).0).1
            ≡ int (pos k))
  unfolding handle_expire handle_ttl
  handle_ttl-handle_expire t k name name' key text w clock e hk hb live =
      let pk = key_pk env key in
      let m = b.meta w pk in
      let (answer, kept) = apply_expire_lem sec_expiry_epoch name key text (pos k) w e in
      let resolved : sec_expiry_epoch env.now (pos k) ≡ pos (t + k) =
        ap (λ c. sec_expiry_epoch c (pos k)) clock
        ∙ sec_expiry_epoch_lem t (pos k) (omega arith) (omega arith)
        ∙ unfold ◌+ℤ◌ in ground arith in
      let stored : b.meta (apply_expire b env sec_expiry_epoch (name ∷ key ∷ text ∷ []) w).0 pk
          ≡ expiring env.now (pos (t + k)) m =
        kept pk ∙ rw (live, bytes_eq_self pk, resolved) in
      (
        answer ∙ rw live,
        ap (λ r. r.1)
              (reply_ttl_lem false name' key
                (apply_expire b env sec_expiry_epoch (name ∷ key ∷ text ∷ []) w).0)
            ∙ ap (λ x. int (ttl_of b env false x)) stored
            ∙ ap int (ttl_of-expiring t k m clock live hk hb),
      )

  -- An expiry time that is zero or negative deletes a live key: EXPIRE replies 1 and the key's
  -- meta item is gone.
  pub handle_expire_past :
      (t : ℕ) (n : ℤ) (name key text : Bytes) (w : b.World)
      → env.now ≡ pos t
      → t ≤ max_seconds
      → IsInt64 n
      → n ≤ℤ pos 0
      → parse_int text ≡ some n
      → is_live env.now (b.meta w (key_pk env key)) ≡ true
      → ((handle_expire b env (name ∷ key ∷ text ∷ []) w).1 ≡ int (pos 1))
        × (b.meta (handle_expire b env (name ∷ key ∷ text ∷ []) w).0 (key_pk env key) ≡ none)
  unfolding handle_expire
  handle_expire_past t n name key text w clock ht hn past e live =
      let pk = key_pk env key in
      let (answer, kept) = apply_expire_lem sec_expiry_epoch name key text n w e in
      let over : leb_ℤ (sec_expiry_epoch env.now n) env.now ≡ true =
        rw (clock, sec_expiry_epoch_lem t n ht hn) (unfold ◌+ℤ◌ in ground arith) in
      (answer ∙ rw live, kept pk ∙ rw (live, bytes_eq_self pk) (unfold expiring in rw over))
