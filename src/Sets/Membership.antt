-- ===== src/Sets/Membership.antt =====
-- Which members the union, the intersection and the difference have.
use redimos.Prelude.{
  ◌≡◌, refl, ap, sym, ◌∙◌, Bool, true, false, ◌&&◌, ◌||◌, not, Bool-cases, inl, inr, List, [], ◌∷◌,
  ◌++◌, Bytes, if◌then◌else◌, bytes_eq, bytes_eq_iff, arith,
}
use redimos.Collections.Entries.{listed, bytes_eq-flip}
use redimos.Sets.Algebra.{
  SetOp, agrees, insert, insert_all, keep, union_all, keep_all, combine_sets,
}

-- A member of some of the sets.
unfoldable pub in_any : Bytes → List (List Bytes) → Bool
unfolding listed
in_any x [] = false
in_any x (s ∷ sets) = listed x s || in_any x sets

-- A member of each of the sets.
unfoldable pub in_all : Bytes → List (List Bytes) → Bool
unfolding listed
in_all x [] = true
in_all x (s ∷ sets) = listed x s && in_all x sets

-- What the set operations promise of a member.
unfoldable pub expected : SetOp → Bytes → List (List Bytes) → Bool
unfolding in_any in_all listed
expected op x [] = false
expected SetOp.union x (s ∷ sets) = listed x s || in_any x sets
expected SetOp.inter x (s ∷ sets) = listed x s && in_all x sets
expected SetOp.diff x (s ∷ sets) = listed x s && not (in_any x sets)

listed-append :
    (x : Bytes) (ys zs : List Bytes) → listed x (ys ++ zs) ≡ (listed x ys || listed x zs)
unfolding listed
listed-append x [] zs = refl
listed-append x (y ∷ ys) zs = elim (Bool-cases (bytes_eq y x)) [
  | inl same ↦ rw same
  | inr differ ↦ rw differ (listed-append x ys zs)
]

or_last : (a c : Bool) → (a || (c || false)) ≡ (c || a)
or_last true true = refl
or_last true false = refl
or_last false true = refl
or_last false false = refl

pub or_false : (a : Bool) → (a || false) ≡ a
or_false true = refl
or_false false = refl

and_true : (a : Bool) → (a && true) ≡ a
and_true true = refl
and_true false = refl

or_assoc : (a c d : Bool) → ((a || c) || d) ≡ (c || (a || d))
or_assoc true true d = refl
or_assoc true false d = refl
or_assoc false true d = refl
or_assoc false false d = refl

and_assoc : (a c d : Bool) → ((a && c) && d) ≡ (a && (c && d))
and_assoc true c d = refl
and_assoc false c d = refl

and_not_or : (a c d : Bool) → ((a && not c) && not d) ≡ (a && not (c || d))
and_not_or true true d = refl
and_not_or true false d = refl
and_not_or false c d = refl

pub or_swap : (a c d : Bool) → (a || (c || d)) ≡ ((c || a) || d)
or_swap true true d = refl
or_swap true false d = refl
or_swap false true d = refl
or_swap false false d = refl

pub and_false : (a : Bool) → (a && false) ≡ false
and_false true = refl
and_false false = refl

listed-insert :
    (x y : Bytes) (acc : List Bytes) → listed x (insert y acc) ≡ (bytes_eq y x || listed x acc)
unfolding insert
listed-insert x y acc = elim (Bool-cases (listed y acc)) [
  | inl there ↦ elim (Bool-cases (bytes_eq y x)) [
    | inl same ↦ rw (there, same) (ap (λ z. listed z acc) (sym ((bytes_eq_iff y x).0 same)) ∙ there)
    | inr differ ↦ rw (there, differ)
  ]
  | inr new ↦ rw new (listed-append x acc (y ∷ []) ∙ or_last (listed x acc) (bytes_eq y x))
]

listed-insert_all :
    (x : Bytes) (ys acc : List Bytes) → listed x (insert_all ys acc) ≡ (listed x ys || listed x acc)
unfolding insert_all listed
listed-insert_all x [] acc = refl
listed-insert_all x (y ∷ ys) acc =
    listed-insert_all x ys (insert y acc)
    ∙ ap (λ r. listed x ys || r) (listed-insert x y acc)
    ∙ or_swap (listed x ys) (bytes_eq y x) (listed x acc)

listed-keep :
    (wanted : Bool) (x : Bytes) (s acc : List Bytes)
    → listed x (keep wanted s acc) ≡ (listed x acc && agrees wanted (listed x s))
unfolding keep listed
listed-keep wanted x s [] = refl
listed-keep wanted x s (y ∷ acc) = elim (Bool-cases (agrees wanted (listed y s))) [
  | inl kept ↦ elim (Bool-cases (bytes_eq y x)) [
    | inl same ↦
        rw (kept, same)
          (sym (ap (λ z. agrees wanted (listed z s)) (sym ((bytes_eq_iff y x).0 same)) ∙ kept))
    | inr differ ↦ rw (kept, differ) (listed-keep wanted x s acc)
  ]
  | inr dropped ↦ elim (Bool-cases (bytes_eq y x)) [
    | inl same ↦
        let out : agrees wanted (listed x s) ≡ false =
          ap (λ z. agrees wanted (listed z s)) (sym ((bytes_eq_iff y x).0 same)) ∙ dropped in
        rw (dropped, same)
          (listed-keep wanted x s acc
            ∙ ap (λ a. listed x acc && a) out
            ∙ and_false (listed x acc)
            ∙ sym out)
    | inr differ ↦ rw (dropped, differ) (listed-keep wanted x s acc)
  ]
]

listed-union_all :
    (x : Bytes) (sets : List (List Bytes)) (acc : List Bytes)
    → listed x (union_all sets acc) ≡ (listed x acc || in_any x sets)
unfolding union_all in_any
listed-union_all x [] acc = sym (or_false (listed x acc))
listed-union_all x (s ∷ sets) acc =
    listed-union_all x sets (insert_all s acc)
    ∙ ap (λ a. a || in_any x sets) (listed-insert_all x s acc)
    ∙ or_assoc (listed x s) (listed x acc) (in_any x sets)

listed-keep_all :
    (wanted : Bool) (x : Bytes) (sets : List (List Bytes)) (acc : List Bytes)
    → listed x (keep_all wanted sets acc)
      ≡ (listed x acc && (if wanted then in_all x sets else not (in_any x sets)))
unfolding keep_all in_any in_all
listed-keep_all true x [] acc = sym (and_true (listed x acc))
listed-keep_all false x [] acc = sym (and_true (listed x acc))
listed-keep_all true x (s ∷ sets) acc =
    listed-keep_all true x sets (keep true s acc)
    ∙ ap (λ a. a && in_all x sets) (listed-keep true x s acc)
    ∙ and_assoc (listed x acc) (listed x s) (in_all x sets)
listed-keep_all false x (s ∷ sets) acc =
    listed-keep_all false x sets (keep false s acc)
    ∙ ap (λ a. a && not (in_any x sets)) (listed-keep false x s acc)
    ∙ and_not_or (listed x acc) (listed x s) (in_any x sets)

-- No member is listed twice.
abbrev pub NoRepeats : List Bytes → Type 0
NoRepeats [] = Unit
NoRepeats (x ∷ xs) = (listed x xs ≡ false) × NoRepeats xs

NoRepeats-snoc :
    (y : Bytes) (acc : List Bytes)
    → listed y acc ≡ false
    → NoRepeats acc
    → NoRepeats (acc ++ y ∷ [])
unfolding listed
NoRepeats-snoc y [] new none_twice = (refl, tt)
NoRepeats-snoc y (x ∷ acc) new (here, later) = elim (Bool-cases (bytes_eq x y)) [
  | inl same ↦ absurd (ground (arith, new, same))
  | inr differ ↦
      let flipped : bytes_eq y x ≡ false = bytes_eq-flip x y differ in
      (
        listed-append x acc (y ∷ []) ∙ rw (here, flipped),
        NoRepeats-snoc y acc (ground (arith, new, differ)) later,
      )
]

insert-NoRepeats : (y : Bytes) (acc : List Bytes) → NoRepeats acc → NoRepeats (insert y acc)
unfolding insert
insert-NoRepeats y acc h = elim (Bool-cases (listed y acc)) [
  | inl there ↦ rw there h
  | inr new ↦ rw new (NoRepeats-snoc y acc new h)
]

insert_all-NoRepeats : (ys acc : List Bytes) → NoRepeats acc → NoRepeats (insert_all ys acc)
unfolding insert_all
insert_all-NoRepeats [] acc h = h
insert_all-NoRepeats (y ∷ ys) acc h =
    insert_all-NoRepeats ys (insert y acc) (insert-NoRepeats y acc h)

keep-NoRepeats :
    (wanted : Bool) (s acc : List Bytes) → NoRepeats acc → NoRepeats (keep wanted s acc)
unfolding keep
keep-NoRepeats wanted s [] h = tt
keep-NoRepeats wanted s (x ∷ acc) (here, later) =
    let rest = keep-NoRepeats wanted s acc later in
    elim (Bool-cases (agrees wanted (listed x s))) [
      | inl kept ↦
          rw kept
            (listed-keep wanted x s acc ∙ ap (λ a. a && agrees wanted (listed x s)) here, rest)
      | inr dropped ↦ rw dropped rest
    ]

union_all-NoRepeats :
    (sets : List (List Bytes)) (acc : List Bytes) → NoRepeats acc → NoRepeats (union_all sets acc)
unfolding union_all
union_all-NoRepeats [] acc h = h
union_all-NoRepeats (s ∷ sets) acc h =
    union_all-NoRepeats sets (insert_all s acc) (insert_all-NoRepeats s acc h)

keep_all-NoRepeats :
    (wanted : Bool) (sets : List (List Bytes)) (acc : List Bytes)
    → NoRepeats acc
    → NoRepeats (keep_all wanted sets acc)
unfolding keep_all
keep_all-NoRepeats wanted [] acc h = h
keep_all-NoRepeats wanted (s ∷ sets) acc h =
    keep_all-NoRepeats wanted sets (keep wanted s acc) (keep-NoRepeats wanted s acc h)

-- The result of a set operation lists each member once.
pub combine_sets-NoRepeats :
    (op : SetOp) (sets : List (List Bytes)) → NoRepeats (combine_sets op sets)
unfolding combine_sets
combine_sets-NoRepeats op [] = tt
combine_sets-NoRepeats SetOp.union (s ∷ sets) = union_all-NoRepeats (s ∷ sets) [] tt
combine_sets-NoRepeats SetOp.inter (s ∷ sets) =
    keep_all-NoRepeats true sets (insert_all s []) (insert_all-NoRepeats s [] tt)
combine_sets-NoRepeats SetOp.diff (s ∷ sets) =
    keep_all-NoRepeats false sets (insert_all s []) (insert_all-NoRepeats s [] tt)

-- A member is in the result exactly if it is in some operand, for a union; in every operand, for an
-- intersection; in the first operand and in no later one, for a difference.
pub listed-combine_sets :
    (op : SetOp) (x : Bytes) (sets : List (List Bytes))
    → listed x (combine_sets op sets) ≡ expected op x sets
unfolding combine_sets expected listed
listed-combine_sets op x [] = refl
listed-combine_sets SetOp.union x (s ∷ sets) = listed-union_all x (s ∷ sets) []
listed-combine_sets SetOp.inter x (s ∷ sets) =
    listed-keep_all true x sets (insert_all s [])
    ∙ ap (λ a. a && in_all x sets) (listed-insert_all x s [] ∙ or_false (listed x s))
listed-combine_sets SetOp.diff x (s ∷ sets) =
    listed-keep_all false x sets (insert_all s [])
    ∙ ap (λ a. a && not (in_any x sets)) (listed-insert_all x s [] ∙ or_false (listed x s))
