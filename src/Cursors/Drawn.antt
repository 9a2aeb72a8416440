-- ===== src/Cursors/Drawn.antt =====
-- The numbers that `newCursorLocked` of internal/scan/registry.go settles on.
use redimos.Prelude.{
  ◌++◌, ℕ, ◌≡◌, refl, subst, Bool, true, false, ◌||◌, Bool-cases, inl, inr, none, some,
  some-injective, List, [], ◌∷◌, ◌==◌, arith,
}
use redimos.Cursors.{Entry, find_cursor, new_cursor, exists_entry}

or_false : (a b : Bool) → (a || b) ≡ false → (a ≡ false) × (b ≡ false)
or_false true b h = ground (arith, h)
or_false false b h = (refl, h)

module _ {Token : Type 0} where
  -- A drawn cursor is not 0 and not in use.
  pub new_cursor-fresh :
      (draws : List ℕ) (es : List (Entry Token)) (c : ℕ)
      → new_cursor draws es ≡ some c
      → ((c == 0) ≡ false) × (exists_entry (find_cursor c es) ≡ false)
  unfolding new_cursor
  new_cursor-fresh [] es c h = ground (arith, h)
  new_cursor-fresh (d ∷ draws) es c h =
      elim (Bool-cases (d == 0 || exists_entry (find_cursor d es))) [
        | inl taken ↦ new_cursor-fresh draws es c (rw taken at h)
        | inr free ↦
            subst (λ n. ((n == 0) ≡ false) × (exists_entry (find_cursor n es) ≡ false))
              (some-injective (rw free at h))
              (or_false (d == 0) (exists_entry (find_cursor d es)) free)
      ]

  -- A draw that is fresh is enough to find a cursor.
  pub new_cursor-enough :
      (before after : List ℕ) (d : ℕ) (es : List (Entry Token))
      → (d == 0) ≡ false
      → find_cursor d es ≡ none
      → (c : ℕ) × (new_cursor (before ++ d ∷ after) es ≡ some c)
  unfolding new_cursor
  new_cursor-enough [] after d es nonzero unused = (d, rw (nonzero, unused) refl)
  new_cursor-enough (b ∷ before) after d es nonzero unused =
      elim (Bool-cases (b == 0 || exists_entry (find_cursor b es))) [
        | inl taken ↦
            let (c, found) = new_cursor-enough before after d es nonzero unused in
            (c, rw taken found)
        | inr free ↦ (b, rw free refl)
      ]
