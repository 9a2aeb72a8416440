-- ===== src/Args/Integer.antt =====
-- `ParseInt` of internal/command/args.go: Redis' string2ll on the bytes of an argument.
pub mod Numerals
pub mod Canonical
pub mod Value
use redimos.Prelude.{
  ℕ, ◌+◌, ◌-◌, ◌*◌, ◌/◌, ◌%◌, Bool, true, false, ◌&&◌, ◌||◌, Option, none, some, [], ◌∷◌, Bytes,
  ltb, ◌==◌, if◌then◌else◌,
}
use redimos.Prelude.Int.{ℤ, pos, sub_ℕ, two63, two64}

-- The loop over the digits after the first: `v` is the uint64 so far.
pub accumulate : ℕ → Bytes → Option ℕ
accumulate v [] = some v
accumulate v (c ∷ s) =
    if ltb c b'0' || ltb b'9' c
    then none
    else if ltb ((two64 - 1 - (c - b'0')) / 10) v
    then none
    else accumulate ((v * 10 + (c - b'0')) % two64) s

-- From the first significant digit on; there is none after a lone minus sign.
pub magnitude : Bytes → Option ℕ
unfolding accumulate
magnitude [] = none
magnitude (c ∷ s) = if ltb c b'1' || ltb b'9' c then none else accumulate (c - b'0') s

-- The range check at the end, for either sign.
pub to_int64 : Bool → Option ℕ → Option ℤ
to_int64 negative none = none
to_int64 true (some v) = if ltb two63 v then none else some (sub_ℕ 0 v)
to_int64 false (some v) = if ltb (two63 - 1) v then none else some (pos v)

is_empty : Bytes → Bool
is_empty [] = true
is_empty (c ∷ s) = false

unfoldable pub parse_int : Bytes → Option ℤ
unfolding magnitude to_int64 is_empty
parse_int [] = none
parse_int (c ∷ s) =
    if is_empty s && c == b'0'
    then some (pos 0)
    else if c == b'-'
    then to_int64 true (magnitude s)
    else to_int64 false (magnitude (c ∷ s))
