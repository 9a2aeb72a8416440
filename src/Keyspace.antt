-- ===== src/Keyspace.antt =====
-- The partition keys of internal/command/datacmd.go: `encodePK` and `decodePK`.
pub mod Isolation
use redimos.Prelude.{
  ℕ, Bool, true, false, Option, none, some, [], ◌∷◌, ◌++◌, Bytes, ◌==◌, if◌then◌else◌,
}
use redimos.Prelude.Int.{pos}
use redimos.Args.Integer.Numerals.{decimal}

-- `strings.HasPrefix` and the rest after it.
unfoldable pub strip_prefix : Bytes → Bytes → Option Bytes
strip_prefix [] s = some s
strip_prefix (c ∷ p) [] = none
strip_prefix (c ∷ p) (d ∷ s) = if c == d then strip_prefix p s else none

-- `strconv.Itoa(db) + ":"`
unfoldable pub db_prefix : ℕ → Bytes
db_prefix db = decimal (pos db) ++ b':' ∷ []

unfoldable pub encode_pk : Bool → ℕ → Bytes → Bytes
unfolding db_prefix
encode_pk false db key = key
encode_pk true db key = db_prefix db ++ key

unfoldable pub decode_pk : Bool → ℕ → Bytes → Option Bytes
unfolding strip_prefix db_prefix
decode_pk false db pk = some pk
decode_pk true db pk = strip_prefix (db_prefix db) pk
