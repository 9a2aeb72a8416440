-- ===== src/Collections/Steps.antt =====
-- The steps that every handler of a hash or a set is made of, on a key that holds a map.
use redimos.Prelude.{
  ℕ, zero, suc, ◌+◌, ◌<◌, ◌≡◌, ◌⊎◌, inl, inr, refl, sym, ap, subst, ◌∙◌, Bool, true, false, ◌&&◌,
  Option, none, some, List, [], ◌∷◌, Bytes, if◌then◌else◌, length, bytes_eq, bytes_eq_self, arith,
}
use redimos.Prelude.Int.{ℤ, pos, ◌+ℤ◌, ltb_ℤ}
use redimos.Reply.{ok}
use redimos.Store.{Store, Meta, M, return, >>=-eq_ok}
use redimos.Store.Laws.{ViewLaws}
use redimos.Expiry.{is_expired}
use redimos.Keys.{Env}
use redimos.Strings.{ensure_type_expiring}
use redimos.Strings.Ensure.{ensure_lem, view-ensure_lem}
use redimos.Collections.{not_live, live, classify, load_meta_state, adjust_count, negated}
use redimos.Collections.Entries.{puts, removes}
use redimos.Collections.Laws.{
  CountLaws, WriteLaws, RemoveLaws, put_items, drop_items, count_new, count_gone,
}
use redimos.Collections.Counts.{adjust_lem}
use redimos.Collections.Writes.{
  put_items-lookup, drop_items-lookup, length-puts, length-removes, length-puts_positive,
  Distinct-puts, Distinct-removes,
}
use redimos.Collections.Stored.{
  Holds, Stored, Unmoved, ensured-Stored, classify-Stored, recounted-Stored,
}

-- The counts that go into the meta item.
add_counts : (c : ℤ) (n m k : ℕ) → c ≡ pos n → k ≡ m + n → c +ℤ pos m ≡ pos k
unfolding ◌+ℤ◌
add_counts c n m k h e = ground arith

take_counts : (c : ℤ) (n m k : ℕ) → c ≡ pos n → n ≡ m + k → c +ℤ negated m ≡ pos k
unfolding ◌+ℤ◌
take_counts c n zero k h e = ground arith
take_counts c n (suc m) k h e = ground arith

filled_unless_removed : (m n k : ℕ) → 0 < n → n ≡ m + k → ltb_ℤ (negated m) (pos 0) ≡ false → 0 < k
filled_unless_removed zero n k h e i = omega arith
filled_unless_removed (suc m) n k h e i = ground arith

module _ (b : Store) (laws : CountLaws b) (env : Env) (A : Type 0)
    (item : b.World → Bytes → Bytes → Option A)
    (views : ViewLaws b (Bytes → Option A) (λ _. none) item) (pk t : Bytes) where
  -- The key holds the map `xs`.
  abbrev pub StoredAt : b.World → List (Bytes × A) → Type 0
  StoredAt w xs = Stored A env.now t (b.meta w pk) (item w pk) xs

  -- The key is live and holds `xs`, if only for the time of the handler as an empty map.
  pub record Ready (m : Meta) (xs : List (Bytes × A)) (w : b.World) : Type 0 where
    pub meta_is : b.meta w pk ≡ some m
    pub alive : is_expired m env.now ≡ false
    pub holds : Holds A t m (item w pk) xs

  -- What `loadMetaState` reports: the key is not live and the map empty, or the key is live.
  pub load_lem :
      (w : b.World) (xs : List (Bytes × A))
      → StoredAt w xs
      → ((load_meta_state b env pk t w ≡ (w, ok not_live)) × (xs ≡ []))
        ⊎ ((m : Meta) × (load_meta_state b env pk t w ≡ (w, ok (live m)))
            × Ready m xs w
            × (0 < length xs))
  unfolding load_meta_state
  load_lem w xs s =
      let run =
        >>=-eq_ok (b.load_meta pk) (λ (found : Option Meta). return (classify env.now t found)) w w
          (b.meta w pk) (laws.strings.metas.load_meta_lem pk w) in
      elim (classify-Stored env.now t (b.meta w pk) (item w pk) xs s) [
        | inl (e, empty) ↦ inl (run ∙ ap (λ x. (w, ok x)) e, empty)
        | inr (m, e, held, alive, holds, filled) ↦ inr (
          m,
          run ∙ ap (λ x. (w, ok x)) e,
          record { meta_is = held; alive = alive; holds = holds },
          filled,
        )
      ]

  -- A key that a handler leaves as the type step found it, with at least one name.
  pub Ready-Stored :
      (w : b.World) (m : Meta) (xs : List (Bytes × A))
      → Ready m xs w
      → 0 < length xs
      → StoredAt w xs
  Ready-Stored w m xs ready filled =
      rw ready.meta_is
        (λ expired. absurd (ground (arith, ready.alive, expired)), λ _. (ready.holds, filled))

  pub open_lem :
      (w : b.World) (xs : List (Bytes × A))
      → StoredAt w xs
      → (w' : b.World) × (m : Meta) × (ensure_type_expiring b env pk t w ≡ (w', ok tt))
        × Ready m xs w'
        × Unmoved b (Bytes → Option A) item pk w w'
  open_lem w xs s =
      let (m, took, e, alive, holds) = ensured-Stored env.now t (b.meta w pk) (item w pk) xs s in
      let (w', ran, after) = ensure_lem b laws.strings env pk t w m took e in
      let items =
        view-ensure_lem b laws.strings env pk t w (Bytes → Option A) (λ _. none) item views m took e
          w' ran in
      (
        w',
        m,
        ran,
        record {
          meta_is = after.metas pk ∙ rw (bytes_eq_self pk);
          alive = alive;
          holds = subst (λ g. Holds A t m g xs) (sym (items pk ∙ own took)) holds;
        },
        record { metas = λ j ne. after.metas j ∙ rw ne; views = λ j ne. items j ∙ other took j ne },
      )
    where
      own :
          (took : Bool)
          → (if took && bytes_eq pk pk then (λ (_ : Bytes). none) else item w pk)
            ≡ (if took then (λ (_ : Bytes). none) else item w pk)
      own true = rw (bytes_eq_self pk)
      own false = refl

      other :
          (took : Bool) (j : Bytes)
          → bytes_eq pk j ≡ false
          → (if took && bytes_eq pk j then (λ (_ : Bytes). none) else item w j) ≡ item w j
      other true j ne = rw ne
      other false j ne = refl

  -- A write of at least one item, with the count that it reports added.
  pub write_lem :
      (write : Bytes → List (Bytes × A) → M b.World ℕ)
      → WriteLaws b item write
      → (f : Bytes) (v : A) (ps : List (Bytes × A)) (w : b.World) (m : Meta) (xs : List (Bytes × A))
      → Ready m xs w
      → (new : ℕ) × ((write pk ((f, v) ∷ ps) w).1 ≡ ok new)
        × (length (puts ((f, v) ∷ ps) xs) ≡ new + length xs)
        × (w' : b.World) × (adjust_count b env pk t (pos new) (write pk ((f, v) ∷ ps) w).0
            ≡ (w', ok tt))
        × StoredAt w' (puts ((f, v) ∷ ps) xs)
        × Unmoved b (Bytes → Option A) item pk w w'
  write_lem write writes f v ps w m xs ready =
      let ys = puts ((f, v) ∷ ps) xs in
      let w1 = (write pk ((f, v) ∷ ps) w).0 in
      let new = count_new ((f, v) ∷ ps) (item w pk) in
      let total = length-puts ((f, v) ∷ ps) (item w pk) xs ready.holds.items in
      let (w', ran, adjusted) =
        adjust_lem b laws env (Bytes → Option A) (λ _. none) item views pk t w1 m (pos new)
          (length ys) (writes.metas pk pk ((f, v) ∷ ps) w ∙ ready.meta_is) ready.holds.type_is
          (add_counts m.count (length xs) new (length ys) ready.holds.count_is total)
          (λ _. length-puts_positive f v ps (item w pk) xs ready.holds.items) in
      let items : item w' pk ≡ put_items ((f, v) ∷ ps) (item w pk) =
        adjusted.views pk ∙ writes.items pk pk ((f, v) ∷ ps) w ∙ rw (bytes_eq_self pk) in
      (
        new,
        writes.result pk ((f, v) ∷ ps) w,
        total,
        w',
        ran,
        recounted-Stored env.now t (b.meta w' pk) m (item w' pk) ys ready.alive ready.holds.type_is
            adjusted.meta_is (Distinct-puts ((f, v) ∷ ps) xs ready.holds.distinct)
            (λ h.
              ap (λ g. g h) items
              ∙ put_items-lookup ((f, v) ∷ ps) (item w pk) xs ready.holds.items h),
        record {
          metas = λ j ne. adjusted.metas j ne ∙ writes.metas pk j ((f, v) ∷ ps) w;
          views = λ j ne. adjusted.views j ∙ writes.items pk j ((f, v) ∷ ps) w ∙ rw ne;
        },
      )

  -- A removal from a map that is not empty, with the count that it reports taken away.
  pub remove_lem :
      (delete : Bytes → List Bytes → M b.World ℕ)
      → RemoveLaws b item delete
      → (fs : List Bytes) (w : b.World) (m : Meta) (xs : List (Bytes × A)) → Ready m xs w
      → 0 < length xs
      → (gone : ℕ) × ((delete pk fs w).1 ≡ ok gone)
        × (length xs ≡ gone + length (removes fs xs))
        × (w' : b.World) × (adjust_count b env pk t (negated gone) (delete pk fs w).0 ≡ (w', ok tt))
        × StoredAt w' (removes fs xs)
        × Unmoved b (Bytes → Option A) item pk w w'
  remove_lem delete deletes fs w m xs ready filled =
      let ys = removes fs xs in
      let w1 = (delete pk fs w).0 in
      let gone = count_gone fs (item w pk) in
      let total = length-removes fs (item w pk) xs ready.holds.items ready.holds.distinct in
      let (w', ran, adjusted) =
        adjust_lem b laws env (Bytes → Option A) (λ _. none) item views pk t w1 m (negated gone)
          (length ys) (deletes.metas pk pk fs w ∙ ready.meta_is) ready.holds.type_is
          (take_counts m.count (length xs) gone (length ys) ready.holds.count_is total)
          (filled_unless_removed gone (length xs) (length ys) filled total) in
      let items : item w' pk ≡ drop_items fs (item w pk) =
        adjusted.views pk ∙ deletes.items pk pk fs w ∙ rw (bytes_eq_self pk) in
      (
        gone,
        deletes.result pk fs w,
        total,
        w',
        ran,
        recounted-Stored env.now t (b.meta w' pk) m (item w' pk) ys ready.alive ready.holds.type_is
            adjusted.meta_is (Distinct-removes fs xs ready.holds.distinct)
            (λ h. ap (λ g. g h) items ∙ drop_items-lookup fs (item w pk) xs ready.holds.items h),
        record {
          metas = λ j ne. adjusted.metas j ne ∙ deletes.metas pk j fs w;
          views = λ j ne. adjusted.views j ∙ deletes.items pk j fs w ∙ rw ne;
        },
      )
