-- ===== src/Strings/Options.antt =====
-- `parseSetOptions` of internal/command/strings_parse.go.
pub mod Exclusive
use redimos.Prelude.{
  ◌≡◌, Bool, true, false, ◌&&◌, ◌||◌, not, Option, none, some, List, [], ◌∷◌, Bytes, codes,
  if◌then◌else◌, bytes_eq, arith,
}
use redimos.Prelude.Int.{ℤ, pos, leb_ℤ}
use redimos.Reply.{err_syntax, err_not_integer}
use redimos.Args.Integer.{parse_int}
use redimos.Expiry.{sec_expiry_epoch, ms_expiry_epoch}
use redimos.Table.Casing.{to_lower}

pub record SetOptions : Type 0 where
  pub nx : Bool
  pub xx : Bool
  pub exp_set : Bool
  pub exp_epoch : ℤ

-- The options, or the error text to reply.
pub data Parsed {ℓ} (A : Type ℓ) : Type ℓ where
  parsed : A → Parsed A
  rejected : Bytes → Parsed A

abbrev pub err_invalid_expire_time : Bytes
err_invalid_expire_time = codes "ERR invalid expire time in set"

-- The variables of the loop; `expiry` is the pending unit (milliseconds or not) and token.
pub record Pending : Type 0 where
  pub want_nx : Bool
  pub want_xx : Bool
  pub expiry : Option (Bool × Bytes)

abbrev pub start : Pending
start = record { want_nx = false; want_xx = false; expiry = none }

abbrev is : Bytes → Bytes → Bool
is token name = bytes_eq (to_lower token) name

abbrev pub is_unit : Bytes → Bool
is_unit token = is token (codes "ex") || is token (codes "px")

-- The cases "nx" and "xx", and the default.
unfoldable pub flag : Pending → Bytes → Option Pending
flag st token =
    if is token (codes "nx")
    then (if st.want_xx then none else some (record st { want_nx = true }))
    else if is token (codes "xx")
    then (if st.want_nx then none else some (record st { want_xx = true }))
    else none

conflicts : Option (Bool × Bytes) → Bool → Bool
conflicts none millis = false
conflicts (some (true, token)) millis = not millis
conflicts (some (false, token)) millis = millis

-- The case "ex", "px" with the value that follows.
unfoldable pub unit : Pending → Bytes → Bytes → Option Pending
unfolding conflicts
unit st token value =
    let millis = is token (codes "px") in
    if conflicts st.expiry millis then none else some (record st { expiry = some (millis, value) })

-- The loop; `none` is the syntax error.
unfoldable pub option_loop : Pending → List Bytes → Option Pending
unfolding flag unit
option_loop st [] = some st
option_loop st (token ∷ []) = if is_unit token then none else flag st token
option_loop st (token ∷ value ∷ rest) = elim (is_unit token) [
  | true ↦ elim (unit st token value) [ none ↦ none | some st' ↦ option_loop st' rest ]
  | false ↦ elim (flag st token) [ none ↦ none | some st' ↦ option_loop st' (value ∷ rest) ]
]

abbrev pub with_epoch : Pending → ℤ → SetOptions
with_epoch st epoch = record { nx = st.want_nx; xx = st.want_xx; exp_set = true; exp_epoch = epoch }

-- The value of EX or PX is validated once, after the loop.
unfoldable pub resolve_expiry : ℤ → Pending → Option (Bool × Bytes) → Parsed SetOptions
resolve_expiry now st none =
    parsed (record { nx = st.want_nx; xx = st.want_xx; exp_set = false; exp_epoch = pos 0 })
resolve_expiry now st (some (millis, token)) = elim (parse_int token) [
  | none ↦ rejected err_not_integer
  | some n ↦
      if leb_ℤ n (pos 0)
      then rejected err_invalid_expire_time
      else parsed (with_epoch st (if millis then ms_expiry_epoch now n else sec_expiry_epoch now n))
]

unfoldable pub parse_set_options : List Bytes → ℤ → Parsed SetOptions
unfolding option_loop resolve_expiry
parse_set_options opts now = elim (option_loop start opts) [
  | none ↦ rejected err_syntax
  | some st ↦ resolve_expiry now st st.expiry
]
