-- ===== src/Glob/Classes.antt =====
-- The loop over a class decides what the class accepts.
use redimos.Prelude.{
  ℕ, ◌≡◌, ◌⊎◌, ◌↔◌, refl, ap, sym, subst, ◌∙◌, Bool, true, false, ◌||◌, not, Bool-cases, inl, inr,
  List, [], ◌∷◌, Bytes, ◌==◌, ==_iff, arith,
}
use redimos.Glob.{
  close_class, backslash, hyphen, caret, in_range, scan_class, negated_if, match_class,
}
use redimos.Glob.Language.{Item, Covers, Covered, Class, range_follows, starts_caret, Accepts}

covers : ℕ → Item → Bool
covers c (Item.byte x) = x == c
covers c (Item.span lo hi) = in_range lo hi c

covered : ℕ → List Item → Bool
unfolding covers
covered c [] = false
covered c (i ∷ items) = covers c i || covered c items

covers_iff : (c : ℕ) (i : Item) → (covers c i ≡ true) ↔ Covers c i
unfolding covers
covers_iff c (Item.byte x) = ==_iff x c
covers_iff c (Item.span lo hi) = ground arith

covered_sound : (c : ℕ) (items : List Item) → covered c items ≡ true → Covered c items
unfolding covered
covered_sound c [] h = ground (arith, h)
covered_sound c (i ∷ items) h = elim (Bool-cases (covers c i)) [
  | inl here ↦ inl ((covers_iff c i).0 here)
  | inr other ↦ inr (covered_sound c items (ground (arith, h, other)))
]

covered_complete : (c : ℕ) (items : List Item) → Covered c items → covered c items ≡ true
unfolding covered
covered_complete c [] h = absurd h
covered_complete c (i ∷ items) (inl here) = rw ((covers_iff c i).1 here) refl
covered_complete c (i ∷ items) (inr later) = elim (Bool-cases (covers c i)) [
  | inl here ↦ rw here refl
  | inr other ↦ rw other (covered_complete c items later)
]

or_nothing : (m : Bool) → m ≡ (m || false)
or_nothing true = refl
or_nothing false = refl

or_next : (m a b : Bool) → ((m || a) || b) ≡ (m || (a || b))
or_next true a b = refl
or_next false a b = refl

neither :
    (x : ℕ)
    → (x == backslash || x == close_class) ≡ false
    → ((x == backslash) ≡ false) × ((x == close_class) ≡ false)
neither x h = ground (arith, h)

-- The turns of the loop.
module _ (c : ℕ) (m : Bool) where
  escaped_turn :
      (x : ℕ) (p : Bytes) → scan_class c m (backslash ∷ x ∷ p) ≡ scan_class c (m || x == c) p
  unfolding scan_class
  escaped_turn x [] = refl
  escaped_turn x (z ∷ p) = refl

  span_turn :
      (lo hi : ℕ) (p : Bytes)
      → (lo == backslash || lo == close_class) ≡ false
      → scan_class c m (lo ∷ hyphen ∷ hi ∷ p) ≡ scan_class c (m || in_range lo hi c) p
  unfolding scan_class
  span_turn lo hi p plain = let (a, b) = neither lo plain in rw (a, b)

  single_turn :
      (x : ℕ) (p : Bytes)
      → (x == backslash || x == close_class) ≡ false
      → range_follows p ≡ false
      → scan_class c m (x ∷ p) ≡ scan_class c (m || x == c) p
  unfolding scan_class
  single_turn x [] plain alone = let (a, b) = neither x plain in rw (a, b)
  single_turn x (y ∷ []) plain alone = let (a, b) = neither x plain in rw (a, b)
  single_turn x (y ∷ z ∷ p) plain alone = let (a, b) = neither x plain in rw (a, b, alone)

-- The loop adds to its mark whether some item covers the byte, and stops behind the class.
scan_class_lem :
    (c : ℕ) (m : Bool) (p rest : Bytes) (items : List Item)
    → Class p items rest
    → scan_class c m p ≡ (m || covered c items, rest)
unfolding scan_class covered covers
scan_class_lem c m _ _ _ Class.unclosed = ap (λ b. (b, [])) (or_nothing m)
scan_class_lem c m _ _ _ (Class.closed {p = []}) = ap (λ b. (b, [])) (or_nothing m)
scan_class_lem c m _ _ _ (Class.closed {p = y ∷ []}) = ap (λ b. (b, y ∷ [])) (or_nothing m)
scan_class_lem c m _ _ _ (Class.closed {p = y ∷ z ∷ p}) = ap (λ b. (b, y ∷ z ∷ p)) (or_nothing m)
scan_class_lem c m _ _ _ Class.lone_backslash = ap (λ b. (b, [])) (or_nothing m)
scan_class_lem c m _ _ _ (Class.escaped {p} {rest} {items} {x} k) =
    escaped_turn c m x p
    ∙ scan_class_lem c (m || x == c) p rest items k
    ∙ ap (λ b. (b, rest)) (or_next m (x == c) (covered c items))
scan_class_lem c m _ _ _ (Class.span {p} {rest} {items} {lo} {hi} plain k) =
    span_turn c m lo hi p plain
    ∙ scan_class_lem c (m || in_range lo hi c) p rest items k
    ∙ ap (λ b. (b, rest)) (or_next m (in_range lo hi c) (covered c items))
scan_class_lem c m _ _ _ (Class.single {p} {rest} {items} {x} plain alone k) =
    single_turn c m x p plain alone
    ∙ scan_class_lem c (m || x == c) p rest items k
    ∙ ap (λ b. (b, rest)) (or_next m (x == c) (covered c items))

-- Every pattern behind a `[` is a class.
abbrev Parsed : Bytes → Type 0
Parsed p = (items : List Item) × (rest : Bytes) × Class p items rest

special_byte :
    (x : ℕ) → (x ≡ backslash) ⊎ ((x ≡ close_class) ⊎ ((x == backslash || x == close_class) ≡ false))
special_byte x = elim (Bool-cases (x == backslash)) [
  | inl a ↦ inl ((==_iff x backslash).0 a)
  | inr a ↦ elim (Bool-cases (x == close_class)) [
    | inl d ↦ inr (inl ((==_iff x close_class).0 d))
    | inr d ↦ inr (inr (ground (arith, a, d)))
  ]
]

class_parts : (p : Bytes) → Parsed p
class_parts [] = ([], [], Class.unclosed)
class_parts (x ∷ []) = elim (special_byte x) [
  | inl e ↦ subst (λ z. Parsed (z ∷ [])) (sym e) ([], [], Class.lone_backslash)
  | inr (inl e) ↦ subst (λ z. Parsed (z ∷ [])) (sym e) ([], [], Class.closed)
  | inr (inr plain) ↦ (Item.byte x ∷ [], [], Class.single plain refl Class.unclosed)
]
class_parts (x ∷ y ∷ []) =
    let (items, rest, k) = class_parts (y ∷ []) in
    elim (special_byte x) [
      | inl e ↦
          subst (λ z. Parsed (z ∷ y ∷ [])) (sym e)
            (Item.byte y ∷ [], [], Class.escaped Class.unclosed)
      | inr (inl e) ↦ subst (λ z. Parsed (z ∷ y ∷ [])) (sym e) ([], y ∷ [], Class.closed)
      | inr (inr plain) ↦ (Item.byte x ∷ items, rest, Class.single plain refl k)
    ]
class_parts (x ∷ y ∷ z ∷ p) =
    let (items, rest, k) = class_parts (y ∷ z ∷ p) in
    let (items1, rest1, k1) = class_parts (z ∷ p) in
    let (items2, rest2, k2) = class_parts p in
    elim (special_byte x) [
      | inl e ↦
          subst (λ u. Parsed (u ∷ y ∷ z ∷ p)) (sym e)
            (Item.byte y ∷ items1, rest1, Class.escaped k1)
      | inr (inl e) ↦ subst (λ u. Parsed (u ∷ y ∷ z ∷ p)) (sym e) ([], y ∷ z ∷ p, Class.closed)
      | inr (inr plain) ↦ elim (Bool-cases (y == hyphen)) [
        | inl e ↦
            subst (λ u. Parsed (x ∷ u ∷ z ∷ p)) (sym ((==_iff y hyphen).0 e))
              (Item.span x z ∷ items2, rest2, Class.span plain k2)
        | inr alone ↦ (Item.byte x ∷ items, rest, Class.single plain alone k)
      ]
    ]

scan_class_sound :
    (c : ℕ) (p : Bytes)
    → (items : List Item) × Class p items (scan_class c false p).1
      × ((scan_class c false p).0 ≡ covered c items)
scan_class_sound c p =
    let (items, rest, k) = class_parts p in
    let scanned = scan_class_lem c false p rest items k in
    (
      items,
      subst (λ r. Class p items r) (sym (ap (λ (r : Bool × Bytes). r.1) scanned)) k,
      ap (λ (r : Bool × Bytes). r.0) scanned,
    )

plain_class : (c : ℕ) (p : Bytes) → starts_caret p ≡ false → match_class c p ≡ scan_class c false p
unfolding match_class
plain_class c [] h = refl
plain_class c (x ∷ p) h = rw h refl

not_covered : (c : ℕ) (items : List Item) → covered c items ≡ false → Covered c items → ⊥
not_covered c items out there = absurd (ground (arith, out, covered_complete c items there))

covered-false : (c : ℕ) (items : List Item) → (Covered c items → ⊥) → covered c items ≡ false
covered-false c items out = elim (Bool-cases (covered c items)) [
  | inl there ↦ absurd (out (covered_sound c items there))
  | inr other ↦ other
]

included_sound :
    (c : ℕ) (p : Bytes)
    → starts_caret p ≡ false
    → (match_class c p).0 ≡ true
    → Accepts c p (match_class c p).1
included_sound c p plain h =
    let (items, k, same) = scan_class_sound c p in
    let whole = plain_class c p plain in
    subst (λ (r : Bool × Bytes). Accepts c p r.1) (sym whole)
      (Accepts.included plain k
        (covered_sound c items (sym same ∙ sym (ap (λ (r : Bool × Bytes). r.0) whole) ∙ h)))

excluded_sound :
    (c : ℕ) (p : Bytes)
    → (match_class c (caret ∷ p)).0 ≡ true
    → Accepts c (caret ∷ p) (match_class c (caret ∷ p)).1
unfolding match_class
excluded_sound c p h =
    let (items, k, same) = scan_class_sound c p in
    Accepts.excluded k (not_covered c items (sym same ∙ unnegated (scan_class c false p).0 h))
  where
    unnegated : (b : Bool) → not b ≡ true → b ≡ false
    unnegated true e = ground (arith, e)
    unnegated false e = refl

-- What the matcher accepts behind a `[` is accepted by the rules, and the other way round.
pub match_class_sound :
    (c : ℕ) (p : Bytes) → (match_class c p).0 ≡ true → Accepts c p (match_class c p).1
match_class_sound c [] h = included_sound c [] refl h
match_class_sound c (x ∷ p) h = elim (Bool-cases (x == caret)) [
  | inl e ↦
      let at_start = (==_iff x caret).0 e in
      subst (λ y. Accepts c (y ∷ p) (match_class c (y ∷ p)).1) (sym at_start)
        (excluded_sound c p (subst (λ y. (match_class c (y ∷ p)).0 ≡ true) at_start h))
  | inr plain ↦ included_sound c (x ∷ p) plain h
]

pub match_class_complete :
    (c : ℕ) (p rest : Bytes) → Accepts c p rest → match_class c p ≡ (true, rest)
unfolding match_class
match_class_complete c p rest (Accepts.included {items = items} plain k there) =
    plain_class c p plain
    ∙ scan_class_lem c false p rest items k
    ∙ ap (λ b. (b, rest)) (covered_complete c items there)
match_class_complete c _ rest (Accepts.excluded {p = p} {items = items} k out) =
    ap (negated_if true)
      (scan_class_lem c false p rest items k ∙ ap (λ b. (b, rest)) (covered-false c items out))
