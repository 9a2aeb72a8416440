-- ===== src/Collections/Storable.antt =====
-- Names too long for a sort key are in no map, so the loops that drop them change nothing.
use redimos.Prelude.{
  ◌≤◌, ◌≡◌, refl, ap, ◌∙◌, true, false, none, List, [], ◌∷◌, Bytes, length, bytes_eq, bytes_eq_iff,
  Bool-cases, inl, inr, arith,
}
use redimos.Guard.Limits.{AllWithin}
use redimos.Collections.{member_storable, storable_members}
use redimos.Collections.Entries.{
  names, lookup, put, remove, puts, removes, lookup-put, lookup-remove, remove-absent,
}

within-storable : (f : Bytes) → length f ≤ 1023 → member_storable f ≡ true
unfolding member_storable
within-storable f h = ground arith

pub storable-within : (f : Bytes) → member_storable f ≡ true → length f ≤ 1023
unfolding member_storable
storable-within f h = ground arith

module _ {A : Type 0} where
  abbrev pub Storable : List (Bytes × A) → Type 0
  Storable xs = (f : Bytes) → member_storable f ≡ false → lookup f xs ≡ none

  Storable-put :
      (f : Bytes) (v : A) (xs : List (Bytes × A))
      → length f ≤ 1023
      → Storable xs
      → Storable (put f v xs)
  Storable-put f v xs fits s h long = elim (Bool-cases (bytes_eq f h)) [
    | inl same ↦
        let e = (bytes_eq_iff f h).0 same in
        absurd (ground (arith, within-storable f fits, ap member_storable e, long))
    | inr differ ↦ lookup-put f h v xs ∙ rw differ (s h long)
  ]

  pub Storable-puts :
      (ps xs : List (Bytes × A)) → AllWithin 1023 (names ps) → Storable xs → Storable (puts ps xs)
  unfolding puts
  Storable-puts [] xs fits s = s
  Storable-puts ((f, v) ∷ ps) xs (fits, rest) s =
      Storable-puts ps (put f v xs) rest (Storable-put f v xs fits s)

  Storable-remove : (f : Bytes) (xs : List (Bytes × A)) → Storable xs → Storable (remove f xs)
  Storable-remove f xs s h long = elim (Bool-cases (bytes_eq f h)) [
    | inl same ↦ lookup-remove f h xs ∙ rw same
    | inr differ ↦ lookup-remove f h xs ∙ rw differ (s h long)
  ]

  pub Storable-removes :
      (fs : List Bytes) (xs : List (Bytes × A)) → Storable xs → Storable (removes fs xs)
  unfolding removes
  Storable-removes [] xs s = s
  Storable-removes (f ∷ fs) xs s = Storable-removes fs (remove f xs) (Storable-remove f xs s)

  pub removes-storable_members :
      (fs : List Bytes) (xs : List (Bytes × A))
      → Storable xs
      → removes (storable_members fs) xs ≡ removes fs xs
  unfolding removes storable_members
  removes-storable_members [] xs s = refl
  removes-storable_members (f ∷ fs) xs s = elim (Bool-cases (member_storable f)) [
    | inl fits ↦ rw fits (removes-storable_members fs (remove f xs) (Storable-remove f xs s))
    | inr long ↦ rw (long, remove-absent f xs (s f long)) (removes-storable_members fs xs s)
  ]
