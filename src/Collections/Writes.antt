-- ===== src/Collections/Writes.antt =====
-- Writes of items by name, as the store reports them, against finite maps.
use redimos.Prelude.{
  ◌+◌, ◌<◌, ◌≡◌, ap, ◌∙◌, Option, none, some, List, [], ◌∷◌, Bytes, if◌then◌else◌, length, bytes_eq,
  arith,
}
use redimos.Store.Laws.{is_some}
use redimos.Collections.Entries.{
  lookup, put, remove, puts, removes, Distinct, lookup-put, length-put, lookup-remove,
  length-remove, Distinct-put, Distinct-remove,
}
use redimos.Collections.Laws.{put_item, drop_item, put_items, drop_items, count_new, count_gone}

module _ {A : Type 0} where
  put_item-lookup :
      (f : Bytes) (v : A) (g : Bytes → Option A) (xs : List (Bytes × A))
      → ((h : Bytes) → g h ≡ lookup h xs)
      → (h : Bytes) → put_item f v g h ≡ lookup h (put f v xs)
  unfolding put_item
  put_item-lookup f v g xs same h =
      ap (λ o. if bytes_eq f h then some v else o) (same h) ∙ rw (lookup-put f h v xs)

  drop_item-lookup :
      (f : Bytes) (g : Bytes → Option A) (xs : List (Bytes × A))
      → ((h : Bytes) → g h ≡ lookup h xs)
      → (h : Bytes) → drop_item f g h ≡ lookup h (remove f xs)
  unfolding drop_item
  drop_item-lookup f g xs same h =
      ap (λ o. if bytes_eq f h then none else o) (same h) ∙ rw (lookup-remove f h xs)

  pub put_items-lookup :
      (ps : List (Bytes × A)) (g : Bytes → Option A) (xs : List (Bytes × A))
      → ((h : Bytes) → g h ≡ lookup h xs)
      → (h : Bytes) → put_items ps g h ≡ lookup h (puts ps xs)
  unfolding put_items puts
  put_items-lookup [] g xs same h = same h
  put_items-lookup ((f, v) ∷ ps) g xs same h =
      put_items-lookup ps (put_item f v g) (put f v xs) (put_item-lookup f v g xs same) h

  pub drop_items-lookup :
      (fs : List Bytes) (g : Bytes → Option A) (xs : List (Bytes × A))
      → ((h : Bytes) → g h ≡ lookup h xs)
      → (h : Bytes) → drop_items fs g h ≡ lookup h (removes fs xs)
  unfolding drop_items removes
  drop_items-lookup [] g xs same h = same h
  drop_items-lookup (f ∷ fs) g xs same h =
      drop_items-lookup fs (drop_item f g) (remove f xs) (drop_item-lookup f g xs same) h

  pub length-puts :
      (ps : List (Bytes × A)) (g : Bytes → Option A) (xs : List (Bytes × A))
      → ((h : Bytes) → g h ≡ lookup h xs)
      → length (puts ps xs) ≡ count_new ps g + length xs
  unfolding count_new puts
  length-puts [] g xs same = omega arith
  length-puts ((f, v) ∷ ps) g xs same =
      let rest = length-puts ps (put_item f v g) (put f v xs) (put_item-lookup f v g xs same) in
      let first : length (put f v xs) ≡ (if is_some (g f) then 0 else 1) + length xs =
        length-put f v xs ∙ rw (same f) in
      omega (arith, rest, first)

  pub length-removes :
      (fs : List Bytes) (g : Bytes → Option A) (xs : List (Bytes × A))
      → ((h : Bytes) → g h ≡ lookup h xs)
      → Distinct xs
      → length xs ≡ count_gone fs g + length (removes fs xs)
  unfolding count_gone removes
  length-removes [] g xs same d = omega arith
  length-removes (f ∷ fs) g xs same d =
      let rest =
        length-removes fs (drop_item f g) (remove f xs) (drop_item-lookup f g xs same)
          (Distinct-remove f xs d) in
      let first : length xs ≡ (if is_some (g f) then 1 else 0) + length (remove f xs) =
        length-remove f xs d ∙ rw (same f) in
      omega (arith, rest, first)

  pub Distinct-puts : (ps xs : List (Bytes × A)) → Distinct xs → Distinct (puts ps xs)
  unfolding puts
  Distinct-puts [] xs d = d
  Distinct-puts ((f, v) ∷ ps) xs d = Distinct-puts ps (put f v xs) (Distinct-put f v xs d)

  pub Distinct-removes :
      (fs : List Bytes) (xs : List (Bytes × A)) → Distinct xs → Distinct (removes fs xs)
  unfolding removes
  Distinct-removes [] xs d = d
  Distinct-removes (f ∷ fs) xs d = Distinct-removes fs (remove f xs) (Distinct-remove f xs d)

  -- A map is not empty after a write of at least one item.
  pub length-puts_positive :
      (f : Bytes) (v : A) (ps : List (Bytes × A)) (g : Bytes → Option A) (xs : List (Bytes × A))
      → ((h : Bytes) → g h ≡ lookup h xs)
      → 0 < length (puts ((f, v) ∷ ps) xs)
  unfolding puts
  length-puts_positive f v ps g xs same =
      let rest = length-puts ps (put_item f v g) (put f v xs) (put_item-lookup f v g xs same) in
      omega (arith, rest, put_positive xs)
    where
      put_positive : (xs : List (Bytes × A)) → 0 < length (put f v xs)
      put_positive [] = unfold put in omega arith
      put_positive ((g, a) ∷ xs) = omega (arith, length-put f v ((g, a) ∷ xs))
