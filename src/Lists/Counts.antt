-- ===== src/Lists/Counts.antt =====
-- The count in a list's meta item is the number of its elements: the invariant, and what the type
-- step makes of it.
use redimos.Prelude.{
  ◌≡◌, ◌≢◌, refl, ap, ◌∙◌, Bool, true, false, Option, none, some, List, [], Bytes, if◌then◌else◌,
  length, bytes_eq, bytes_eq_iff, Bool-cases, inl, inr,
}
use redimos.Prelude.Int.{ℤ, pos, ◌+ℤ◌}
use redimos.Store.{Store, Meta, type_list}
use redimos.Expiry.{is_expired}
use redimos.Keys.{is_live}
use redimos.Collections.Stored.{fresh-alive, with_count-alive, add_zero}
use redimos.Collections.{other_type, classify}
use redimos.Strings.Laws.{ensured, fresh}

-- An absent key has no elements, and the count of one that is not expired is their number.
abbrev pub Counted : ℤ → Option Meta → List Bytes → Type 0
Counted now none xs = xs ≡ []
Counted now (some m) xs = is_expired m now ≡ false → m.count ≡ pos (length xs)

-- The elements that a command sees: those of a live key.
unfoldable pub contents : ℤ → Option Meta → List Bytes → List Bytes
unfolding is_live is_expired
contents now o xs = if is_live now o then xs else []

-- What the type step makes of a key that is not live with another type.
pub record Opened (now : ℤ) (o : Option Meta) (xs : List Bytes) (m : Meta) (took : Bool)
    : Type 0 where
  pub ran : ensured now type_list (pos 0) o ≡ some (m, took)
  pub type_is : m.type ≡ type_list
  pub alive : is_expired m now ≡ false
  pub count_is : m.count ≡ pos (length (contents now o xs))
  pub rest_is : (if took then [] else xs) ≡ contents now o xs

pub open_list :
    (now : ℤ) (o : Option Meta) (xs : List Bytes)
    → classify now type_list o ≢ other_type
    → Counted now o xs
    → (m : Meta) × (took : Bool) × Opened now o xs m took
unfolding classify ensured contents is_live
open_list now none xs fine counted = (
  fresh type_list (pos 0),
  false,
  record {
    ran = refl;
    type_is = refl;
    alive = fresh-alive now type_list;
    count_is = refl;
    rest_is = counted;
  },
)
open_list now (some m) xs fine counted = elim (Bool-cases (is_expired m now)) [
  | inl expired ↦ (
    fresh type_list (pos 0),
    true,
    record {
      ran = rw expired;
      type_is = refl;
      alive = fresh-alive now type_list;
      count_is = rw expired;
      rest_is = rw expired;
    },
  )
  | inr alive ↦ elim (Bool-cases (bytes_eq m.type type_list)) [
    | inl list ↦ (
      record m { count = m.count +ℤ pos 0 },
      false,
      record {
        ran = rw (alive, list);
        type_is = (bytes_eq_iff m.type type_list).0 list;
        alive = with_count-alive m now (m.count +ℤ pos 0) ∙ alive;
        count_is = rw alive (ap (λ c. c +ℤ pos 0) (counted alive) ∙ add_zero (length xs));
        rest_is = rw alive;
      },
    )
    | inr other ↦ absurd (fine (rw (alive, other)))
  ]
]

-- A world that differs from `w` at most in one meta item and in the key's elements.
pub record Kept (b : Store) (pk : Bytes) (w w' : b.World) : Type 0 where
  pub metas : (j : Bytes) → bytes_eq pk j ≡ false → b.meta w' j ≡ b.meta w j
  pub lists : (j : Bytes) → bytes_eq pk j ≡ false → b.elements w' j ≡ b.elements w j
