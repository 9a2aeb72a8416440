-- ===== src/Guard/Limits.antt =====
-- `check_write` accepts exactly what fits the limits.
use redimos.Prelude.{
  ℕ, ◌≤◌, ◌≡◌, refl, ◌⊎◌, inl, inr, ◌↔◌, false, List, [], ◌∷◌, Bytes, ltb, length, Bool-cases,
  arith,
}
use redimos.Reply.{ok, err, size_exceeded}
use redimos.Store.{Store}
use redimos.Guard.{
  max_name_size, name_too_large, member_name_too_large, value_too_large, any_entry, check_write,
}

abbrev pub AllWithin : ℕ → List Bytes → Type 0
AllWithin n [] = Unit
AllWithin n (x ∷ xs) = (length x ≤ n) × AllWithin n xs

-- The limits on a write: 1024 bytes for the key, 1023 for a member, 390 KiB for a value.
pub record Fits (key : Bytes) (members values : List Bytes) : Type 0 where
  pub key_fits : length key ≤ 1024
  pub members_fit : AllWithin 1023 members
  pub values_fit : AllWithin 399360 values

any_member : (xs : List Bytes) → AllWithin 1023 xs → any_entry member_name_too_large xs ≡ false
unfolding any_entry member_name_too_large
any_member [] h = refl
any_member (x ∷ xs) h = ground (arith, any_member xs)

any_value : (xs : List Bytes) → AllWithin 399360 xs → any_entry value_too_large xs ≡ false
unfolding any_entry value_too_large
any_value [] h = refl
any_value (x ∷ xs) h = ground (arith, any_value xs)

within_member : (xs : List Bytes) → any_entry member_name_too_large xs ≡ false → AllWithin 1023 xs
unfolding any_entry member_name_too_large
within_member [] h = tt
within_member (x ∷ xs) h = (ground arith, within_member xs (ground arith))

within_value : (xs : List Bytes) → any_entry value_too_large xs ≡ false → AllWithin 399360 xs
unfolding any_entry value_too_large
within_value [] h = tt
within_value (x ∷ xs) h = (ground arith, within_value xs (ground arith))

module _ (b : Store) (key : Bytes) (members values : List Bytes) (w : b.World) where
  pub check_write-Fits : Fits key members values → check_write b key members values w ≡ (w, ok tt)
  unfolding check_write name_too_large
  check_write-Fits f =
      let short : ltb max_name_size (length key) ≡ false = ground arith in
      rw (short, any_member members f.members_fit, any_value values f.values_fit)

  check_write_cases :
      Fits key members values
      ⊎ (check_write b key members values w ≡ (b.add_interception w, err size_exceeded))
  unfolding check_write name_too_large
  check_write_cases = elim (Bool-cases (ltb max_name_size (length key))) [
    | inl long ↦ inr (rw long)
    | inr short ↦ elim (Bool-cases (any_entry member_name_too_large members)) [
      | inl big ↦ inr (rw (short, big))
      | inr small ↦ elim (Bool-cases (any_entry value_too_large values)) [
        | inl huge ↦ inr (rw (short, small, huge))
        | inr fine ↦ inl (record {
          key_fits = ground arith;
          members_fit = within_member members small;
          values_fit = within_value values fine;
        })
      ]
    ]
  ]

  -- A write passes the guard, which then changes nothing, exactly if its key, members and values
  -- are within the limits.
  pub check_write_iff : (check_write b key members values w ≡ (w, ok tt)) ↔ Fits key members values
  check_write_iff =
      (λ h. elim check_write_cases [ inl f ↦ f | inr r ↦ ground arith ], check_write-Fits)

  -- A write beyond a limit is refused with the size fault and counts one interception.
  pub check_write_rejects :
      ¬ Fits key members values
      → check_write b key members values w ≡ (b.add_interception w, err size_exceeded)
  check_write_rejects n = elim check_write_cases [ inl f ↦ absurd (n f) | inr r ↦ r ]
