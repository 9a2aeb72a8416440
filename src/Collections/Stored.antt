-- ===== src/Collections/Stored.antt =====
-- The map that a hash or a set holds for a client, and how the steps of a handler change it.
use redimos.Prelude.{
  ℕ, ◌<◌, ◌≡◌, ◌⊎◌, inl, inr, refl, ap, ◌∙◌, Bool, true, false, Option, none, some, List, [], ◌∷◌,
  Bytes, if◌then◌else◌, length, bytes_eq, bytes_eq_self, Bool-cases, arith,
}
use redimos.Prelude.Int.{ℤ, pos, ◌+ℤ◌, leb_ℤ}
use redimos.Store.{Store, Meta}
use redimos.Expiry.{is_expired}
use redimos.Strings.Laws.{ensured, fresh}
use redimos.Collections.{not_live, live, classify}
use redimos.Collections.Entries.{lookup, Distinct}
use redimos.Collections.Counts.{recounted}

-- A live meta item of type `t`, and the items under its key, hold the map `xs`.
pub record Holds (A : Type 0) (t : Bytes) (m : Meta) (g : Bytes → Option A) (xs : List (Bytes × A))
    : Type 0 where
  pub type_is : m.type ≡ t
  pub count_is : m.count ≡ pos (length xs)
  pub distinct : Distinct xs
  pub items : (f : Bytes) → g f ≡ lookup f xs

-- The map that a key has for a client: empty if the key is absent, with no items left behind, or
-- expired; and otherwise what its items say, counted, with at least one name.
abbrev pub Stored :
    (A : Type 0) → ℤ → Bytes → Option Meta → (Bytes → Option A) → List (Bytes × A) → Type 0
Stored A now t none g xs = (xs ≡ []) × ((f : Bytes) → g f ≡ none)
Stored A now t (some m) g xs =
    (is_expired m now ≡ true → xs ≡ [])
    × (is_expired m now ≡ false → Holds A t m g xs × (0 < length xs))

-- A world that differs from `w` at most in one key's meta item and in its items.
pub record Unmoved (b : Store) (V : Type 0) (view : b.World → Bytes → V) (pk : Bytes)
    (w w' : b.World) : Type 0 where
  pub metas : (j : Bytes) → bytes_eq pk j ≡ false → b.meta w' j ≡ b.meta w j
  pub views : (j : Bytes) → bytes_eq pk j ≡ false → view w' j ≡ view w j

pub Unmoved-trans :
    {b : Store} {V : Type 0} {view : b.World → Bytes → V} {pk : Bytes} {u v w : b.World}
    → Unmoved b V view pk u v
    → Unmoved b V view pk v w
    → Unmoved b V view pk u w
Unmoved-trans p q = record {
  metas = λ j ne. q.metas j ne ∙ p.metas j ne;
  views = λ j ne. q.views j ne ∙ p.views j ne;
}

pub fresh-alive : (now : ℤ) (t : Bytes) → is_expired (fresh t (pos 0)) now ≡ false
unfolding is_expired
fresh-alive now t = refl

pub with_count-alive :
    (m : Meta) (now count : ℤ) → is_expired (record m { count = count }) now ≡ is_expired m now
unfolding is_expired
with_count-alive m now count = refl

pub add_zero : (n : ℕ) → pos n +ℤ pos 0 ≡ pos n
unfolding ◌+ℤ◌
add_zero n = ground arith

module _ {A : Type 0} (now : ℤ) (t : Bytes) where
  empty-Holds :
      (g : Bytes → Option A) (xs : List (Bytes × A))
      → xs ≡ []
      → ((f : Bytes) → g f ≡ none)
      → Holds A t (fresh t (pos 0)) g xs
  unfolding lookup Distinct
  empty-Holds g xs empty nothing = record {
    type_is = refl;
    count_is = rw empty;
    distinct = rw empty tt;
    items = λ f. rw empty (nothing f);
  }

  -- What the type step makes of the key.
  pub ensured-Stored :
      (o : Option Meta) (g : Bytes → Option A) (xs : List (Bytes × A))
      → Stored A now t o g xs
      → (m : Meta) × (took : Bool) × (ensured now t (pos 0) o ≡ some (m, took))
        × (is_expired m now ≡ false)
        × Holds A t m (if took then (λ _. none) else g) xs
  unfolding ensured
  ensured-Stored none g xs (empty, nothing) =
      (fresh t (pos 0), false, refl, fresh-alive now t, empty-Holds g xs empty nothing)
  ensured-Stored (some m) g xs (expires, lives) = elim (Bool-cases (is_expired m now)) [
    | inl expired ↦ (
      fresh t (pos 0),
      true,
      rw expired,
      fresh-alive now t,
      empty-Holds (λ _. none) xs (expires expired) (λ _. refl),
    )
    | inr alive ↦
        let (holds, filled) = lives alive in
        (
          record m { count = m.count +ℤ pos 0 },
          false,
          (let typed : bytes_eq m.type t ≡ true = rw holds.type_is (bytes_eq_self t) in
              rw (alive, typed)),
          with_count-alive m now (m.count +ℤ pos 0) ∙ alive,
          record {
            type_is = holds.type_is;
            count_is = ap (λ c. c +ℤ pos 0) holds.count_is ∙ add_zero (length xs);
            distinct = holds.distinct;
            items = holds.items;
          },
        )
  ]

  -- What `loadMetaState` finds.
  pub classify-Stored :
      (o : Option Meta) (g : Bytes → Option A) (xs : List (Bytes × A))
      → Stored A now t o g xs
      → ((classify now t o ≡ not_live) × (xs ≡ []))
        ⊎ ((m : Meta) × (classify now t o ≡ live m)
            × (o ≡ some m)
            × (is_expired m now ≡ false)
            × Holds A t m g xs
            × (0 < length xs))
  unfolding classify
  classify-Stored none g xs (empty, nothing) = inl (refl, empty)
  classify-Stored (some m) g xs (expires, lives) = elim (Bool-cases (is_expired m now)) [
    | inl expired ↦ inl (rw expired, expires expired)
    | inr alive ↦
        let (holds, filled) = lives alive in
        let typed : bytes_eq m.type t ≡ true = rw holds.type_is (bytes_eq_self t) in
        inr (m, rw (alive, typed), refl, alive, holds, filled)
  ]

  -- The meta item with a new count, and items that hold a new map.
  pub recounted-Stored :
      (o : Option Meta) (m : Meta) (g : Bytes → Option A) (xs : List (Bytes × A))
      → is_expired m now ≡ false
      → m.type ≡ t
      → o ≡ recounted m (length xs)
      → Distinct xs
      → ((f : Bytes) → g f ≡ lookup f xs)
      → Stored A now t o g xs
  unfolding lookup
  recounted-Stored o m g [] alive typed e distinct items = rw e (refl, items)
  recounted-Stored o m g (x ∷ xs) alive typed e distinct items =
      let more : leb_ℤ (pos (length (x ∷ xs))) (pos 0) ≡ false = ground arith in
      rw (e, more)
        (
          λ expired.
              absurd
                (ground (arith, alive, with_count-alive m now (pos (length (x ∷ xs))), expired)),
          λ _. (
            record { type_is = typed; count_is = refl; distinct = distinct; items = items },
            omega arith,
          ),
        )
