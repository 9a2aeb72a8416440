-- ===== src/Strings/Ensure.antt =====
-- The type step of every write: what it leaves of the key's meta item and its value item.
use redimos.Prelude.{
  ℕ, ◌≡◌, ◌≢◌, refl, ap, sym, ◌∙◌, Bool, true, false, ◌&&◌, Option, none, some, Bytes,
  if◌then◌else◌, bytes_eq, bytes_eq_self, Bool-cases, inl, inr, arith,
}
use redimos.Prelude.Int.{ℤ, pos, ◌+ℤ◌}
use redimos.Reply.{ok, err, wrong_type}
use redimos.Store.{Store, Meta, return, >>=-eq_result, >>=-eq_err, type_string}
use redimos.Store.Laws.{ViewLaws}
use redimos.Expiry.{is_expired}
use redimos.Keys.{Env}
use redimos.Strings.{absent, live_string, live_other, standing, reclaim, ensure_type_expiring}
use redimos.Strings.Laws.{StringLaws, ensured, fresh}

-- The world after the type step: the key has the meta item `m`, and no value item if it was
-- taken over; everything else is as in `w`.
pub record Ensured (b : Store) (pk : Bytes) (m : Meta) (took : Bool) (w w' : b.World) : Type 0 where
  pub metas : (j : Bytes) → b.meta w' j ≡ (if bytes_eq pk j then some m else b.meta w j)
  pub values : (j : Bytes) → b.value w' j ≡ (if took && bytes_eq pk j then none else b.value w j)

module _ (b : Store) (laws : StringLaws b) (env : Env) (pk t : Bytes) (w : b.World) where
  pub ensure_lem :
      (m : Meta) (took : Bool)
      → ensured env.now t (pos 0) (b.meta w pk) ≡ some (m, took)
      → (w' : b.World) × (ensure_type_expiring b env pk t w ≡ (w', ok tt))
        × Ensured b pk m took w w'
  unfolding ensure_type_expiring
  ensure_lem m took e =
      let w1 = (b.ensure_type_expiring pk t (pos 0) env.now w).0 in
      let run =
        >>=-eq_result (b.ensure_type_expiring pk t (pos 0) env.now)
          (λ (r : ℤ × Bool). reclaim b env pk r.1) w (m.count, took)
          (laws.ensure_result pk t (pos 0) env.now w m took e) in
      let metas = λ (j : Bytes). laws.meta-ensure pk t j (pos 0) env.now w m took e in
      let values = λ (j : Bytes). laws.value-ensure pk t j (pos 0) env.now w in
      after took w1 run metas values
    where
      after :
          (x : Bool) (w1 : b.World)
          → ensure_type_expiring b env pk t w ≡ reclaim b env pk x w1
          → ((j : Bytes) → b.meta w1 j ≡ (if bytes_eq pk j then some m else b.meta w j))
          → ((j : Bytes) → b.value w1 j ≡ b.value w j)
          → (w' : b.World) × (ensure_type_expiring b env pk t w ≡ (w', ok tt))
            × Ensured b pk m x w w'
      after true w1 run metas values =
          let (n, gone) = laws.delete_members_result pk w1 in
          (
            (b.delete_members pk w1).0,
            run ∙ >>=-eq_result (b.delete_members pk) (λ (_ : ℕ). return tt) w1 n gone,
            record {
              metas = λ j. laws.meta-delete_members pk j w1 ∙ metas j;
              values = λ j.
                  laws.value-delete_members pk j w1
                  ∙ ap (λ v. if bytes_eq pk j then none else v) (values j);
            },
          )
      after false w1 run metas values = (w1, run, record { metas = metas; values = values })

  -- The other parts of the world: emptied under a key that was taken over.
  pub view-ensure_lem :
      (V : Type 0) (empty : V) (view : b.World → Bytes → V)
      → ViewLaws b V empty view
      → (m : Meta) (took : Bool) → ensured env.now t (pos 0) (b.meta w pk) ≡ some (m, took)
      → (w' : b.World) → ensure_type_expiring b env pk t w ≡ (w', ok tt)
      → (j : Bytes) → view w' j ≡ (if took && bytes_eq pk j then empty else view w j)
  unfolding ensure_type_expiring
  view-ensure_lem V empty view views m took e w' ran j =
      let w1 = (b.ensure_type_expiring pk t (pos 0) env.now w).0 in
      let run =
        >>=-eq_result (b.ensure_type_expiring pk t (pos 0) env.now)
          (λ (r : ℤ × Bool). reclaim b env pk r.1) w (m.count, took)
          (laws.ensure_result pk t (pos 0) env.now w m took e) in
      after took (sym run ∙ ran) (views.view-ensure pk t j (pos 0) env.now w)
    where
      after :
          (x : Bool) {w1 : b.World}
          → reclaim b env pk x w1 ≡ (w', ok tt)
          → view w1 j ≡ view w j
          → view w' j ≡ (if x && bytes_eq pk j then empty else view w j)
      after true {w1} ends same =
          let (n, gone) = laws.delete_members_result pk w1 in
          let run = >>=-eq_result (b.delete_members pk) (λ (_ : ℕ). return tt) w1 n gone in
          ap (λ r. view r.0 j) (sym ends ∙ run)
          ∙ views.view-delete_members pk j w1
          ∙ ap (λ v. if bytes_eq pk j then empty else v) same
      after false ends same = ap (λ r. view r.0 j) (sym ends) ∙ same

  pub ensure_refused_lem :
      ensured env.now t (pos 0) (b.meta w pk) ≡ none
      → ensure_type_expiring b env pk t w ≡ (w, err wrong_type)
  unfolding ensure_type_expiring
  ensure_refused_lem e =
      >>=-eq_err (b.ensure_type_expiring pk t (pos 0) env.now)
        (λ (r : ℤ × Bool). reclaim b env pk r.1) w w wrong_type
        (laws.ensure_refused pk t (pos 0) env.now w e)

-- The type step of a String command succeeds on every key but a live one of another type, and
-- leaves a live String.
pub ensured_of_standing :
    (now : ℤ) (o : Option Meta)
    → standing now o ≢ live_other
    → (m : Meta) × (took : Bool) × (ensured now type_string (pos 0) o ≡ some (m, took))
unfolding standing ensured
ensured_of_standing now none h = (fresh type_string (pos 0), false, refl)
ensured_of_standing now (some m) h = elim (Bool-cases (is_expired m now)) [
  | inl expired ↦ (fresh type_string (pos 0), true, rw expired)
  | inr live ↦ elim (Bool-cases (bytes_eq m.type type_string)) [
    | inl string ↦ (record m { count = m.count +ℤ pos 0 }, false, rw (live, string))
    | inr other ↦ absurd (h (rw (live, other)))
  ]
]

pub standing-ensured :
    (now : ℤ) (o : Option Meta) (m : Meta) (took : Bool)
    → ensured now type_string (pos 0) o ≡ some (m, took)
    → standing now (some m) ≡ live_string
unfolding standing ensured is_expired
standing-ensured now none m took h = ground (arith, bytes_eq_self type_string)
standing-ensured now (some m') m took h = ground (arith, bytes_eq_self type_string)

-- Only an expired key is taken over, and its logical value is empty.
pub took_over-absent :
    (now : ℤ) (o : Option Meta) (m : Meta)
    → ensured now type_string (pos 0) o ≡ some (m, true)
    → standing now o ≡ absent
unfolding standing ensured
took_over-absent now none m h = ground arith
took_over-absent now (some m') m h = ground arith

pub not_took_over-live :
    (now : ℤ) (o : Option Meta) (m : Meta) (took : Bool)
    → standing now o ≡ live_string
    → ensured now type_string (pos 0) o ≡ some (m, took)
    → took ≡ false
unfolding standing ensured
not_took_over-live now none m took s h = ground arith
not_took_over-live now (some m') m took s h = ground arith
