-- ===== src/Collections/Entries.antt =====
-- Finite maps from names to values, as lists of distinct names in no particular order: what a
-- hash or a set is to a client. A set is a map to the unit.
use redimos.Prelude.{
  suc, ◌+◌, ◌<◌, ◌≡◌, refl, sym, ap, ◌∙◌, Bool, true, false, ◌||◌, Option, none, some, List, [],
  ◌∷◌, Bytes, if◌then◌else◌, length, bytes_eq, bytes_eq_self, bytes_eq_iff, Bool-cases, inl, inr,
  arith,
}
use redimos.Store.Laws.{is_some}

-- Whether a name is in a list of names.
unfoldable pub listed : Bytes → List Bytes → Bool
listed x [] = false
listed x (y ∷ ys) = bytes_eq y x || listed x ys

pub bytes_eq-flip : (g f : Bytes) → bytes_eq g f ≡ false → bytes_eq f g ≡ false
bytes_eq-flip g f n = elim (Bool-cases (bytes_eq f g)) [
  | inl same ↦
      let e : bytes_eq g g ≡ false = ap (λ x. bytes_eq g x) (sym ((bytes_eq_iff f g).0 same)) ∙ n in
      absurd (ground (arith, bytes_eq_self g, e))
  | inr differ ↦ differ
]

module _ {A : Type 0} where
  abbrev pub names : List (Bytes × A) → List Bytes
  names [] = []
  names ((f, a) ∷ xs) = f ∷ names xs

  unfoldable pub lookup : Bytes → List (Bytes × A) → Option A
  lookup f [] = none
  lookup f ((g, a) ∷ xs) = if bytes_eq g f then some a else lookup f xs

  -- Replaces the value of a name, or adds the name.
  unfoldable pub put : Bytes → A → List (Bytes × A) → List (Bytes × A)
  put f v [] = (f, v) ∷ []
  put f v ((g, a) ∷ xs) =
      let rest = put f v xs in if bytes_eq g f then (g, v) ∷ xs else (g, a) ∷ rest

  unfoldable pub remove : Bytes → List (Bytes × A) → List (Bytes × A)
  remove f [] = []
  remove f ((g, a) ∷ xs) = let rest = remove f xs in if bytes_eq g f then rest else (g, a) ∷ rest

  unfoldable pub puts : List (Bytes × A) → List (Bytes × A) → List (Bytes × A)
  puts [] xs = xs
  puts ((f, v) ∷ ps) xs = puts ps (put f v xs)

  unfoldable pub removes : List Bytes → List (Bytes × A) → List (Bytes × A)
  removes [] xs = xs
  removes (f ∷ fs) xs = removes fs (remove f xs)

  unfoldable pub Distinct : List (Bytes × A) → Type 0
  Distinct [] = Unit {0}
  Distinct ((g, a) ∷ xs) = (lookup g xs ≡ none) × Distinct xs

  pub lookup-put :
      (f h : Bytes) (v : A) (xs : List (Bytes × A))
      → lookup h (put f v xs) ≡ (if bytes_eq f h then some v else lookup h xs)
  unfolding lookup put
  lookup-put f h v [] = refl
  lookup-put f h v ((g, a) ∷ xs) = elim (Bool-cases (bytes_eq g f)) [
    | inl same ↦
        let e = (bytes_eq_iff g f).0 same in
        rw same (
          ap (λ x. if bytes_eq x h then some v else lookup h xs) e
          ∙ other (bytes_eq f h) (bytes_eq g h) (ap (λ x. bytes_eq x h) e))
    | inr differ ↦ elim (Bool-cases (bytes_eq g h)) [
      | inl here ↦
          let e = (bytes_eq_iff g h).0 here in
          let not_f : bytes_eq f h ≡ false =
            bytes_eq-flip h f (ap (λ x. bytes_eq x f) (sym e) ∙ differ) in
          rw (differ, here, not_f)
      | inr there ↦ rw (differ, there) (lookup-put f h v xs)
    ]
  ]
    where
      other :
          (x y : Bool)
          → y ≡ x
          → (if x then some v else lookup h xs)
            ≡ (if x then some v else if y then some a else lookup h xs)
      other true y e = refl
      other false y e = rw e

  pub length-put :
      (f : Bytes) (v : A) (xs : List (Bytes × A))
      → length (put f v xs) ≡ (if is_some (lookup f xs) then 0 else 1) + length xs
  unfolding lookup put is_some
  length-put f v [] = refl
  length-put f v ((g, a) ∷ xs) = elim (Bool-cases (bytes_eq g f)) [
    | inl same ↦ rw same (omega arith)
    | inr differ ↦ rw differ (omega (arith, length-put f v xs))
  ]

  pub lookup-remove :
      (f h : Bytes) (xs : List (Bytes × A))
      → lookup h (remove f xs) ≡ (if bytes_eq f h then none else lookup h xs)
  unfolding lookup remove
  lookup-remove f h [] = elim (Bool-cases (bytes_eq f h)) [ inl e ↦ rw e | inr e ↦ rw e ]
  lookup-remove f h ((g, a) ∷ xs) = elim (Bool-cases (bytes_eq g f)) [
    | inl same ↦
        let e = (bytes_eq_iff g f).0 same in
        rw same
          (lookup-remove f h xs ∙ hidden (bytes_eq f h) (bytes_eq g h) (ap (λ x. bytes_eq x h) e))
    | inr differ ↦ elim (Bool-cases (bytes_eq g h)) [
      | inl here ↦
          let e = (bytes_eq_iff g h).0 here in
          let not_f : bytes_eq f h ≡ false =
            bytes_eq-flip h f (ap (λ x. bytes_eq x f) (sym e) ∙ differ) in
          rw (differ, here, not_f)
      | inr there ↦ rw (differ, there) (lookup-remove f h xs)
    ]
  ]
    where
      hidden :
          (x y : Bool)
          → y ≡ x
          → (if x then none else lookup h xs)
            ≡ (if x then none else if y then some a else lookup h xs)
      hidden true y e = refl
      hidden false y e = rw e

  pub remove-absent : (f : Bytes) (xs : List (Bytes × A)) → lookup f xs ≡ none → remove f xs ≡ xs
  unfolding lookup remove
  remove-absent f [] h = refl
  remove-absent f ((g, a) ∷ xs) h = elim (Bool-cases (bytes_eq g f)) [
    | inl same ↦ absurd (ground (arith, same, h))
    | inr differ ↦
        rw differ (ap (λ rest. (g, a) ∷ rest) (remove-absent f xs (ground (arith, differ, h))))
  ]

  pub length-remove :
      (f : Bytes) (xs : List (Bytes × A))
      → Distinct xs
      → length xs ≡ (if is_some (lookup f xs) then 1 else 0) + length (remove f xs)
  unfolding lookup remove is_some Distinct
  length-remove f [] d = refl
  length-remove f ((g, a) ∷ xs) (fresh, d) = elim (Bool-cases (bytes_eq g f)) [
    | inl same ↦
        let gone =
          remove-absent f xs (ap (λ x. lookup x xs) (sym ((bytes_eq_iff g f).0 same)) ∙ fresh) in
        rw same (omega (arith, ap length gone))
    | inr differ ↦ rw differ (omega (arith, length-remove f xs d))
  ]

  pub Distinct-put :
      (f : Bytes) (v : A) (xs : List (Bytes × A)) → Distinct xs → Distinct (put f v xs)
  unfolding put Distinct lookup
  Distinct-put f v [] d = (refl, tt)
  Distinct-put f v ((g, a) ∷ xs) (fresh, d) = elim (Bool-cases (bytes_eq g f)) [
    | inl same ↦ rw same (fresh, d)
    | inr differ ↦
        rw differ (lookup-put f g v xs ∙ rw (bytes_eq-flip g f differ) fresh, Distinct-put f v xs d)
  ]

  pub Distinct-remove : (f : Bytes) (xs : List (Bytes × A)) → Distinct xs → Distinct (remove f xs)
  unfolding remove Distinct lookup
  Distinct-remove f [] d = tt
  Distinct-remove f ((g, a) ∷ xs) (fresh, d) = elim (Bool-cases (bytes_eq g f)) [
    | inl same ↦ rw same (Distinct-remove f xs d)
    | inr differ ↦
        rw differ
          (lookup-remove f g xs ∙ rw (bytes_eq-flip g f differ) fresh, Distinct-remove f xs d)
  ]

  pub length-put_absent :
      (f : Bytes) (v : A) (xs : List (Bytes × A))
      → lookup f xs ≡ none
      → length (put f v xs) ≡ suc (length xs)
  unfolding is_some
  length-put_absent f v xs missing = length-put f v xs ∙ rw missing (omega arith)

  pub lookup-positive :
      (f : Bytes) (v : A) (xs : List (Bytes × A)) → lookup f xs ≡ some v → 0 < length xs
  unfolding lookup
  lookup-positive f v [] h = ground (arith, h)
  lookup-positive f v (x ∷ xs) h = omega arith

  pub removes-empty : (fs : List Bytes) (xs : List (Bytes × A)) → xs ≡ [] → removes fs xs ≡ xs
  unfolding removes remove
  removes-empty [] xs empty = refl
  removes-empty (f ∷ fs) xs empty =
      let same : remove f xs ≡ xs = rw empty in ap (removes fs) same ∙ removes-empty fs xs empty
