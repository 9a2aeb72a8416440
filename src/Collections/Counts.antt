-- ===== src/Collections/Counts.antt =====
-- The type step and `adjustCount` on the meta item of a collection whose count is exact.
use redimos.Prelude.{
  ℕ, ◌<◌, ◌≡◌, refl, sym, ap, ◌∙◌, Bool, true, false, Option, none, some, Bytes, if◌then◌else◌,
  bytes_eq, bytes_eq_self, Bool-cases, inl, inr, arith,
}
use redimos.Prelude.Int.{ℤ, pos, ◌+ℤ◌, leb_ℤ, ltb_ℤ, eqb_ℤ}
use redimos.Reply.{ok}
use redimos.Store.{Store, Meta, return, >>=-eq_result}
use redimos.Store.Laws.{ViewLaws}
use redimos.Keys.{Env}
use redimos.Collections.{adjust_count}
use redimos.Collections.Laws.{CountLaws, unless_empty}

-- The meta item that a count leaves: none for a collection without elements.
abbrev pub recounted : Meta → ℕ → Option Meta
recounted m n = if leb_ℤ (pos n) (pos 0) then none else some (record m { count = pos n })

-- What an adjustment of the count to `n` leaves; `view` is some other part of the world.
pub record Adjusted (b : Store) (V : Type 0) (view : b.World → Bytes → V) (pk : Bytes) (m : Meta)
    (n : ℕ) (w w' : b.World) : Type 0 where
  pub meta_is : b.meta w' pk ≡ recounted m n
  pub metas : (j : Bytes) → bytes_eq pk j ≡ false → b.meta w' j ≡ b.meta w j
  pub views : (j : Bytes) → view w' j ≡ view w j

eqb_ℤ→eq : (a c : ℤ) → eqb_ℤ a c ≡ true → a ≡ c
eqb_ℤ→eq (ℤ.pos a) (ℤ.pos c) h = ground arith
eqb_ℤ→eq (ℤ.pos a) (ℤ.negsuc c) h = ground arith
eqb_ℤ→eq (ℤ.negsuc a) (ℤ.pos c) h = ground arith
eqb_ℤ→eq (ℤ.negsuc a) (ℤ.negsuc c) h = ground arith

+ℤ-zero : (a : ℤ) → a +ℤ pos 0 ≡ a
unfolding ◌+ℤ◌
+ℤ-zero (ℤ.pos a) = ground arith
+ℤ-zero (ℤ.negsuc a) = ground arith

module _ (b : Store) (laws : CountLaws b) (env : Env) (V : Type 0) (empty : V)
    (view : b.World → Bytes → V) (views : ViewLaws b V empty view) where
  adjust_moved :
      (pk t : Bytes) (w : b.World) (m : Meta) (delta : ℤ) (n : ℕ)
      → b.meta w pk ≡ some m
      → m.type ≡ t
      → m.count +ℤ delta ≡ pos n
      → (ltb_ℤ delta (pos 0) ≡ false → 0 < n)
      → eqb_ℤ delta (pos 0) ≡ false
      → (w' : b.World) × (adjust_count b env pk t delta w ≡ (w', ok tt))
        × Adjusted b V view pk m n w w'
  unfolding adjust_count
  adjust_moved pk t w m delta n held typed sum more moved =
      let w1 = (b.ensure_type pk t delta w).0 in
      let metas = λ (j : Bytes). laws.meta-ensure_type pk t j delta w m held typed in
      let here : b.meta w1 pk ≡ some (record m { count = pos n }) =
        metas pk ∙ rw (bytes_eq_self pk) (ap (λ c. some (record m { count = c })) sum) in
      let run =
        >>=-eq_result (b.ensure_type pk t delta) _ w (m.count +ℤ delta)
          (laws.ensure_type_result pk t delta w m held typed) in
      elim (Bool-cases (ltb_ℤ delta (pos 0))) [
        | inl removal ↦ elim (Bool-cases (leb_ℤ (pos n) (pos 0))) [
          | inl last ↦
              let w2 = (b.delete_meta_if_empty pk w1).0 in
              let (x, deleted) = laws.delete_if_empty_result pk w1 in
              let gone = λ (j : Bytes). laws.meta-delete_if_empty pk j w1 in
              (
                w2,
                rw moved (
                    run
                    ∙ rw (removal, sum, last)
                        (>>=-eq_result (b.delete_meta_if_empty pk) (λ (_ : Bool). return tt) w1 x
                          deleted)),
                record {
                  meta_is =
                      gone pk ∙ rw (bytes_eq_self pk, here, last) (unfold unless_empty in rw last);
                  metas = λ j ne. gone j ∙ rw ne (metas j ∙ rw ne);
                  views = λ j.
                      views.view-delete_if_empty pk j w1 ∙ views.view-ensure_type pk t j delta w;
                },
              )
          | inr rest ↦ (
            w1,
            rw moved (run ∙ rw (removal, sum, rest)),
            record {
              meta_is = here ∙ rw rest;
              metas = λ j ne. metas j ∙ rw ne;
              views = λ j. views.view-ensure_type pk t j delta w;
            },
          )
        ]
        | inr added ↦
            let positive : leb_ℤ (pos n) (pos 0) ≡ false = ground (arith, more added) in
            (
              w1,
              rw moved (run ∙ rw added),
              record {
                meta_is = here ∙ rw positive;
                metas = λ j ne. metas j ∙ rw ne;
                views = λ j. views.view-ensure_type pk t j delta w;
              },
            )
      ]

  -- An adjustment by `delta` to `n`, which is 0 only when something was removed.
  pub adjust_lem :
      (pk t : Bytes) (w : b.World) (m : Meta) (delta : ℤ) (n : ℕ)
      → b.meta w pk ≡ some m
      → m.type ≡ t
      → m.count +ℤ delta ≡ pos n
      → (ltb_ℤ delta (pos 0) ≡ false → 0 < n)
      → (w' : b.World) × (adjust_count b env pk t delta w ≡ (w', ok tt))
        × Adjusted b V view pk m n w w'
  unfolding adjust_count
  adjust_lem pk t w m delta n held typed sum more = elim (Bool-cases (eqb_ℤ delta (pos 0))) [
    | inl still ↦
        let zero : delta ≡ pos 0 = eqb_ℤ→eq delta (pos 0) still in
        let same : m.count ≡ pos n =
          sym (+ℤ-zero m.count) ∙ sym (ap (λ d. m.count +ℤ d) zero) ∙ sum in
        let unchanged : leb_ℤ (pos n) (pos 0) ≡ false =
          ground (arith, more (ap (λ d. ltb_ℤ d (pos 0)) zero)) in
        (
          w,
          rw still,
          record {
            meta_is = held ∙ rw unchanged (ap (λ c. some (record m { count = c })) same);
            metas = λ j ne. refl;
            views = λ j. refl;
          },
        )
    | inr moved ↦ adjust_moved pk t w m delta n held typed sum more moved
  ]
