-- ===== src/Strings/Rmw.antt =====
-- The compare-and-set loop `rmwString`: with nobody else writing it lands within two attempts.
use redimos.Prelude.{
  ℕ, suc, ◌≡◌, ◌≢◌, refl, sym, ap, ◌∙◌, Bool, true, false, Option, none, some, [], Bytes,
  if◌then◌else◌, length, bytes_eq, bytes_eq_self, arith,
}
use redimos.Prelude.Int.{ℤ, pos}
use redimos.Reply.{ok, err, wrong_type}
use redimos.Store.{Store, Meta, M, return, ◌>>=◌, >>=-eq_ok, >>=-eq_result, >>=-eq_err, type_string}
use redimos.Keys.{Env}
use redimos.Strings.{
  Standing, absent, live_string, live_other, standing, stored, exists_value, ensure_type_expiring,
  read_string_for_rmw, base_of, type_check, rmw_loop,
}
use redimos.Strings.Laws.{StringLaws, ensured, unchanged}
use redimos.Strings.Ensure.{
  Ensured, ensure_lem, ensured_of_standing, standing-ensured, took_over-absent, not_took_over-live,
}

-- What a successful String write leaves: a live String with the value, and all else as it was.
pub record Written (b : Store) (now : ℤ) (pk next : Bytes) (w w' : b.World) : Type 0 where
  pub live : standing now (b.meta w' pk) ≡ live_string
  pub value_is : b.value w' pk ≡ some next
  pub metas_kept : (j : Bytes) → bytes_eq pk j ≡ false → b.meta w' j ≡ b.meta w j
  pub values_kept : (j : Bytes) → bytes_eq pk j ≡ false → b.value w' j ≡ b.value w j

unchanged_self : (o : Option Bytes) → unchanged o (stored o) (exists_value o) ≡ true
unfolding unchanged
unchanged_self none = refl
unchanged_self (some v) = bytes_eq_self v

module _ (b : Store) (laws : StringLaws b) (env : Env) (pk : Bytes) where
  pub read_lem :
      (w : b.World)
      → read_string_for_rmw b env pk w ≡ (w, ok (standing env.now (b.meta w pk), b.value w pk))
  unfolding read_string_for_rmw
  read_lem w =
      let then_phys = λ (found : Option Meta).
        b.get_string pk >>= λ (phys : Option Bytes). return (standing env.now found, phys) in
      >>=-eq_ok (b.load_meta pk) then_phys w w (b.meta w pk) (laws.metas.load_meta_lem pk w)
      ∙ >>=-eq_ok (b.get_string pk)
          (λ (phys : Option Bytes). return (standing env.now (b.meta w pk), phys)) w w
          (b.value w pk) (laws.get_string_lem pk w)

  type_check_passes :
      (s : Standing) (w : b.World) → s ≢ live_other → type_check b env s w ≡ (w, ok tt)
  type_check_passes absent w h = refl
  type_check_passes live_string w h = refl
  type_check_passes live_other w h = absurd (h refl)

  module _ (compute : Bytes → M b.World Bytes) where
    -- What the end of an attempt does with the answer of the compare-and-set.
    abbrev finish : ℕ → Bytes → Bool → M b.World ℕ
    finish n next done = if done then return (length next) else rmw_loop b env n pk compute

    -- One attempt, up to that answer.
    attempt_lem :
        (n : ℕ) (w : b.World) (next : Bytes) (m : Meta) (took : Bool)
        → standing env.now (b.meta w pk) ≢ live_other
        → compute (base_of b env (standing env.now (b.meta w pk), b.value w pk)) w ≡ (w, ok next)
        → ensured env.now type_string (pos 0) (b.meta w pk) ≡ some (m, took)
        → (w' : b.World) × Ensured b pk m took w w'
          × (rmw_loop b env (suc n) pk compute w
              ≡ finish n next
                  (unchanged (b.value w' pk) (stored (b.value w pk)) (exists_value (b.value w pk)))
                  (b.set_string_if_equals pk next
                    (stored (b.value w pk))
                    (exists_value (b.value w pk))
                    w').0)
    unfolding rmw_loop
    attempt_lem n w next m took ok_type computed e =
        let s = standing env.now (b.meta w pk) in
        let phys = b.value w pk in
        let (w', ran, state) = ensure_lem b laws env pk type_string w m took e in
        (
          w',
          state,
          >>=-eq_ok (read_string_for_rmw b env pk) _ w w (s, phys) (read_lem w)
              ∙ >>=-eq_ok (type_check b env s) _ w w tt (type_check_passes s w ok_type)
              ∙ >>=-eq_ok (compute (base_of b env (s, phys))) _ w w next computed
              ∙ >>=-eq_ok (ensure_type_expiring b env pk type_string) _ w w' tt ran
              ∙ >>=-eq_result (b.set_string_if_equals pk next (stored phys) (exists_value phys)) _
                  w' _ (laws.cas_result pk next (stored phys) (exists_value phys) w'),
        )

    -- An attempt whose value item is still as it was read.
    attempt_lands :
        (n : ℕ) (w : b.World) (next : Bytes) (m : Meta) (took : Bool)
        → standing env.now (b.meta w pk) ≢ live_other
        → compute (base_of b env (standing env.now (b.meta w pk), b.value w pk)) w ≡ (w, ok next)
        → ensured env.now type_string (pos 0) (b.meta w pk) ≡ some (m, took)
        → (if took then none else b.value w pk) ≡ b.value w pk
        → (w' : b.World) × (rmw_loop b env (suc n) pk compute w ≡ (w', ok (length next)))
          × Written b env.now pk next w w'
    attempt_lands n w next m took ok_type computed e same =
        let phys = b.value w pk in
        let (w1, state, ran) = attempt_lem n w next m took ok_type computed e in
        let held : b.value w1 pk ≡ phys = state.values pk ∙ rw (bytes_eq_self pk) (ground arith) in
        let lands : unchanged (b.value w1 pk) (stored phys) (exists_value phys) ≡ true =
          ap (λ v. unchanged v (stored phys) (exists_value phys)) held ∙ unchanged_self phys in
        (
          (b.set_string_if_equals pk next (stored phys) (exists_value phys) w1).0,
          ran
              ∙ ap
                  (λ d.
                    finish n next d
                      (b.set_string_if_equals pk next (stored phys) (exists_value phys) w1).0)
                  lands,
          record {
            live =
                ap (standing env.now) (
                  laws.meta-cas pk next (stored phys) pk (exists_value phys) w1
                  ∙ state.metas pk
                  ∙ rw (bytes_eq_self pk))
                ∙ standing-ensured env.now (b.meta w pk) m took e;
            value_is =
                laws.value-cas pk next (stored phys) pk (exists_value phys) w1
                ∙ rw (lands, bytes_eq_self pk);
            metas_kept = λ j ne.
                laws.meta-cas pk next (stored phys) j (exists_value phys) w1
                ∙ state.metas j
                ∙ rw ne;
            values_kept = λ j ne.
                laws.value-cas pk next (stored phys) j (exists_value phys) w1
                ∙ ground (arith, state.values j);
          },
        )

    -- A second attempt after an expired key's stale value was reclaimed under the first.
    retry_lands :
        (n : ℕ) (w w1 : b.World) (next v : Bytes) (m : Meta)
        → ((u : b.World) → compute [] u ≡ (u, ok next))
        → ensured env.now type_string (pos 0) (b.meta w pk) ≡ some (m, true)
        → Ensured b pk m true w w1
        → (w' : b.World) × (rmw_loop b env
              (suc n)
              pk
              compute
              (b.set_string_if_equals pk next v true w1).0
            ≡ (w', ok (length next)))
          × Written b env.now pk next w w'
    retry_lands n w w1 next v m computed e state =
        let w2 = (b.set_string_if_equals pk next v true w1).0 in
        let gone : b.value w1 pk ≡ none = state.values pk ∙ rw (bytes_eq_self pk) in
        let lost : unchanged (b.value w1 pk) v true ≡ false = rw gone (unfold unchanged in refl) in
        let meta2 : b.meta w2 pk ≡ some m =
          laws.meta-cas pk next v pk true w1 ∙ state.metas pk ∙ rw (bytes_eq_self pk) in
        let value2 : b.value w2 pk ≡ none = laws.value-cas pk next v pk true w1 ∙ rw (lost, gone) in
        let live2 : standing env.now (b.meta w2 pk) ≡ live_string =
          ap (standing env.now) meta2 ∙ standing-ensured env.now (b.meta w pk) m true e in
        let fine : standing env.now (b.meta w2 pk) ≢ live_other = λ bad. ground arith in
        let (m2, took2, e2) = ensured_of_standing env.now (b.meta w2 pk) fine in
        let no_took : took2 ≡ false = not_took_over-live env.now (b.meta w2 pk) m2 took2 live2 e2 in
        let base2 : base_of b env (standing env.now (b.meta w2 pk), b.value w2 pk) ≡ [] =
          rw (live2, value2) in
        let (w', ran, written) =
          attempt_lands n w2 next m2 took2 fine (ap (λ x. compute x w2) base2 ∙ computed w2) e2
            (rw no_took) in
        (
          w',
          ran,
          record {
            live = written.live;
            value_is = written.value_is;
            metas_kept = λ j ne.
                written.metas_kept j ne ∙ laws.meta-cas pk next v j true w1 ∙ state.metas j ∙ rw ne;
            values_kept = λ j ne.
                written.values_kept j ne
                ∙ laws.value-cas pk next v j true w1
                ∙ ground (arith, state.values j);
          },
        )

    -- With two attempts or more left, on a key that is not live with another type and with a compute
    -- step that succeeds on the logical value and changes nothing, the loop lands: the computed value
    -- is stored under a live String, its length is returned, and no other key changes.
    pub rmw_loop_lem :
        (n : ℕ) (w : b.World) (next : Bytes)
        → standing env.now (b.meta w pk) ≢ live_other
        → ((u : b.World)
            → compute (base_of b env (standing env.now (b.meta w pk), b.value w pk)) u
              ≡ (u, ok next))
        → (w' : b.World) × (rmw_loop b env (suc (suc n)) pk compute w ≡ (w', ok (length next)))
          × Written b env.now pk next w w'
    rmw_loop_lem n w next fine computed =
        let (m, took, e) = ensured_of_standing env.now (b.meta w pk) fine in
        by_value took m e (b.value w pk) refl
      where
        by_value :
            (took : Bool) (m : Meta)
            → ensured env.now type_string (pos 0) (b.meta w pk) ≡ some (m, took)
            → (o : Option Bytes) → b.value w pk ≡ o
            → (w' : b.World) × (rmw_loop b env (suc (suc n)) pk compute w ≡ (w', ok (length next)))
              × Written b env.now pk next w w'
        by_value false m e o held = attempt_lands (suc n) w next m false fine (computed w) e refl
        by_value true m e none held =
            attempt_lands (suc n) w next m true fine (computed w) e (sym held)
        by_value true m e (some v) held =
            let expired = took_over-absent env.now (b.meta w pk) m e in
            let base : base_of b env (standing env.now (b.meta w pk), b.value w pk) ≡ [] =
              rw expired in
            let (w1, state, ran) = attempt_lem (suc n) w next m true fine (computed w) e in
            let gone : b.value w1 pk ≡ none = state.values pk ∙ rw (bytes_eq_self pk) in
            let (w', again, written) =
              retry_lands n w w1 next v m (λ u. ap (λ x. compute x u) (sym base) ∙ computed u) e
                state in
            let first : rmw_loop b env (suc (suc n)) pk compute w
                ≡ rmw_loop b env (suc n) pk compute (b.set_string_if_equals pk next v true w1).0 =
              ran ∙ rw (held, gone) (unfold unchanged in refl) in
            (w', first ∙ again, written)

    -- On a live key of another type the first attempt stops at the type check.
    pub rmw_loop_refused :
        (n : ℕ) (w : b.World)
        → standing env.now (b.meta w pk) ≡ live_other
        → rmw_loop b env (suc n) pk compute w ≡ (w, err wrong_type)
    unfolding rmw_loop
    rmw_loop_refused n w other =
        >>=-eq_ok (read_string_for_rmw b env pk) _ w w
          (standing env.now (b.meta w pk), b.value w pk) (read_lem w)
        ∙ >>=-eq_err (type_check b env (standing env.now (b.meta w pk))) _ w w wrong_type
            (ap (λ s. type_check b env s w) other)
