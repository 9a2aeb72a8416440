-- ===== src/Glob/Language.antt =====
-- What a pattern means: the strings that it matches, by rules that know no order of trying.
use redimos.Prelude.{◌≡◌, ◌⊎◌, ◌≤◌, Bool, false, ◌||◌, List, [], ◌∷◌, Bytes, ◌==◌, ℕ}
use redimos.Glob.{star, question, open_class, close_class, backslash, hyphen, caret}

-- What stands in a class: one byte, or a range whose ends come in either order.
pub data Item : Type 0 where
  byte : ℕ → Item
  span : ℕ → ℕ → Item

abbrev pub Covers : ℕ → Item → Type 0
Covers c (Item.byte x) = x ≡ c
Covers c (Item.span lo hi) = ((lo ≤ c) × (c ≤ hi)) ⊎ ((hi ≤ c) × (c ≤ lo))

-- Some item covers the byte.
abbrev pub Covered : ℕ → List Item → Type 0
Covered c [] = ⊥
Covered c (i ∷ items) = Covers c i ⊎ Covered c items

-- A hyphen and the end of a range.
abbrev pub range_follows : Bytes → Bool
range_follows [] = false
range_follows (y ∷ []) = false
range_follows (y ∷ z ∷ p) = y == hyphen

-- The items of a class up to its `]`, and the pattern behind it. A class may also end with the
-- pattern, on a lone backslash too.
pub data Class : Bytes → List Item → Bytes → Type 0 where
  unclosed : Class [] [] []
  closed : {p : Bytes} → Class (close_class ∷ p) [] p
  lone_backslash : Class (backslash ∷ []) [] []
  escaped :
      {p rest : Bytes} {items : List Item} {x : ℕ}
      → Class p items rest
      → Class (backslash ∷ x ∷ p) (Item.byte x ∷ items) rest
  span :
      {p rest : Bytes} {items : List Item} {lo hi : ℕ}
      → (lo == backslash || lo == close_class) ≡ false
      → Class p items rest
      → Class (lo ∷ hyphen ∷ hi ∷ p) (Item.span lo hi ∷ items) rest
  single :
      {p rest : Bytes} {items : List Item} {x : ℕ}
      → (x == backslash || x == close_class) ≡ false
      → range_follows p ≡ false
      → Class p items rest
      → Class (x ∷ p) (Item.byte x ∷ items) rest

abbrev pub starts_caret : Bytes → Bool
starts_caret [] = false
starts_caret (x ∷ p) = x == caret

-- What stands behind a `[` accepts the byte: a class by one of its items, and a class behind a `^`
-- by none of them.
pub data Accepts (c : ℕ) : Bytes → Bytes → Type 0 where
  included :
      {p rest : Bytes} {items : List Item}
      → starts_caret p ≡ false
      → Class p items rest
      → Covered c items
      → Accepts c p rest
  excluded :
      {p rest : Bytes} {items : List Item}
      → Class p items rest
      → (Covered c items → ⊥)
      → Accepts c (caret ∷ p) rest

abbrev pub is_special : ℕ → Bool
is_special x = x == star || (x == question || (x == open_class || x == backslash))

pub data Matches : Bytes → Bytes → Type 0 where
  done : Matches [] []
  star_none : {p s : Bytes} → Matches p s → Matches (star ∷ p) s
  star_one : {p s : Bytes} {c : ℕ} → Matches (star ∷ p) s → Matches (star ∷ p) (c ∷ s)
  one : {p s : Bytes} {c : ℕ} → Matches p s → Matches (question ∷ p) (c ∷ s)
  class :
      {p s rest : Bytes} {c : ℕ}
      → Accepts c p rest
      → Matches rest s
      → Matches (open_class ∷ p) (c ∷ s)
  escaped : {p s : Bytes} {c : ℕ} → Matches p s → Matches (backslash ∷ c ∷ p) (c ∷ s)
  bare_backslash : {s : Bytes} → Matches [] s → Matches (backslash ∷ []) (backslash ∷ s)
  literal : {p s : Bytes} {c : ℕ} → is_special c ≡ false → Matches p s → Matches (c ∷ p) (c ∷ s)
