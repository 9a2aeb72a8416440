-- ===== src/Lists/Remove.antt =====
-- `lremCompute` of internal/command/lists2.go.
use redimos.Prelude.{
  ℕ, zero, suc, Bool, true, false, List, [], ◌∷◌, map, Bytes, if◌then◌else◌, length, ltb, bytes_eq,
}
use redimos.Prelude.Int.{ℤ, pos, ◌-ℤ◌, ltb_ℤ, neg_part, pos_part}

-- The loop from the head: which elements go, at most `left` of those that equal the value.
unfoldable pub drop_forward : Bytes → ℕ → List Bytes → List Bool
drop_forward value left [] = []
drop_forward value zero (x ∷ all) = false ∷ drop_forward value zero all
drop_forward value (suc left) (x ∷ all) =
    if bytes_eq x value
    then true ∷ drop_forward value left all
    else false ∷ drop_forward value (suc left) all

abbrev pub mark : Bytes → Bytes → List Bool × ℕ → List Bool × ℕ
mark value x (marks, zero) = (false ∷ marks, zero)
mark value x (marks, suc left) =
    if bytes_eq x value then (true ∷ marks, left) else (false ∷ marks, suc left)

-- The loop from the tail, with what is left of the count when it has passed the list.
unfoldable pub drop_backward : Bytes → ℕ → List Bytes → List Bool × ℕ
drop_backward value left [] = ([], left)
drop_backward value left (x ∷ all) = mark value x (drop_backward value left all)

-- The elements without a mark.
unfoldable pub kept : List Bytes → List Bool → List Bytes
kept (x ∷ all) (d ∷ drop) = if d then kept all drop else x ∷ kept all drop
kept _ _ = []

-- `removed`, the number of marks.
unfoldable pub removed_count : List Bool → ℕ
removed_count [] = 0
removed_count (d ∷ drop) = if d then suc (removed_count drop) else removed_count drop

-- The switch on the sign of the count, whose magnitude is capped at the length.
unfoldable pub drop_marks : List Bytes → ℤ → Bytes → List Bool
unfolding drop_forward drop_backward
drop_marks all count value =
    let n = length all in
    if ltb_ℤ (pos 0) count
    then drop_forward value (if ltb n (pos_part count) then n else pos_part count) all
    else if ltb_ℤ count (pos 0)
    then (drop_backward value (if ltb_ℤ count (pos 0 -ℤ pos n) then n else neg_part count) all).0
    else map (λ x. bytes_eq x value) all

unfoldable pub lrem_compute : List Bytes → ℤ → Bytes → List Bytes × ℕ
unfolding drop_marks kept removed_count
lrem_compute all count value =
    let drop = drop_marks all count value in (kept all drop, removed_count drop)
