-- ===== src/Sets/Algebra.antt =====
-- The union, intersection and difference that `computeSetAlgebra` of internal/command/sets.go
-- computes in memory. A Go map from strings to the empty struct is a list without repetitions; the
-- order in which the source ranges over it is unspecified, here it is the order of insertion.
use redimos.Prelude.{
  Bool, true, false, not, Option, none, some, List, [], ◌∷◌, ◌++◌, Bytes, if◌then◌else◌,
}
use redimos.Collections.Entries.{listed}

pub data SetOp : Type 0 where
  union inter diff : SetOp

-- What the loop over the operands ends with: their members, an empty intersection, or a live key
-- of another type.
pub data Operands : Type 0 where
  found : List (List Bytes) → Operands
  no_members wrong_operand : Operands

-- `acc[m] = struct{}{}`
unfoldable pub insert : Bytes → List Bytes → List Bytes
unfolding listed
insert x acc = if listed x acc then acc else acc ++ x ∷ []

unfoldable pub insert_all : List Bytes → List Bytes → List Bytes
unfolding insert
insert_all [] acc = acc
insert_all (x ∷ xs) acc = insert_all xs (insert x acc)

abbrev pub agrees : Bool → Bool → Bool
agrees true a = a
agrees false a = not a

-- The members of `acc` that are in `s`, if `wanted`, or that are not.
unfoldable pub keep : Bool → List Bytes → List Bytes → List Bytes
unfolding listed
keep wanted s [] = []
keep wanted s (x ∷ acc) =
    let rest = keep wanted s acc in if agrees wanted (listed x s) then x ∷ rest else rest

unfoldable pub union_all : List (List Bytes) → List Bytes → List Bytes
unfolding insert_all
union_all [] acc = acc
union_all (s ∷ sets) acc = union_all sets (insert_all s acc)

unfoldable pub keep_all : Bool → List (List Bytes) → List Bytes → List Bytes
unfolding keep
keep_all wanted [] acc = acc
keep_all wanted (s ∷ sets) acc = keep_all wanted sets (keep wanted s acc)

unfoldable pub combine_sets : SetOp → List (List Bytes) → List Bytes
unfolding union_all keep_all
combine_sets op [] = []
combine_sets SetOp.union (s ∷ sets) = union_all (s ∷ sets) []
combine_sets SetOp.inter (s ∷ sets) = keep_all true sets (insert_all s [])
combine_sets SetOp.diff (s ∷ sets) = keep_all false sets (insert_all s [])

-- The result of `computeSetAlgebra`: nothing when an operand has another type.
unfoldable pub combine : SetOp → Operands → Option (List Bytes)
unfolding combine_sets
combine op (found sets) = some (combine_sets op sets)
combine op no_members = some []
combine op wrong_operand = none

abbrev pub with_operand : List Bytes → Operands → Operands
with_operand ms (found sets) = found (ms ∷ sets)
with_operand ms no_members = no_members
with_operand ms wrong_operand = wrong_operand

abbrev pub stops : SetOp → List Bytes → Bool
stops SetOp.inter [] = true
stops _ _ = false
