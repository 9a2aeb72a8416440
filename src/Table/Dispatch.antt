-- ===== src/Table/Dispatch.antt =====
-- The command table of internal/command/table.go and `Dispatch` of internal/command/router.go, with
-- the error texts of internal/resp/writer.go that it writes.
pub mod Routing
use redimos.Prelude.{
  ℕ, Bool, true, false, ◌||◌, Option, none, some, List, [], ◌∷◌, ◌++◌, map, Bytes, codes,
  if◌then◌else◌, length, ◌==◌, bytes_eq,
}
use redimos.Prelude.Int.{ℤ, pos, ◌-ℤ◌, leb_ℤ, eqb_ℤ, wrap64}
use redimos.Reply.{Reply, error}
use redimos.Table.Casing.{to_lower}

-- A command's handler, on the arguments with the command name first.
abbrev pub Handler : Type 0 → Type 0
Handler W = List Bytes → W → W × Reply

pub record CmdSpec (W : Type 0) : Type 0 where
  pub name : Bytes
  pub arity : ℤ
  pub handler : Handler W
  pub write : Bool

-- The map from lower-case names, the latest entry first.
abbrev pub Commands : Type 0 → Type 0
Commands W = List (Bytes × CmdSpec W)

pub data RegisterError : Type 0 where
  empty_name nil_handler duplicate : RegisterError

unfoldable pub entry : {W : Type 0} → Commands W → Bytes → Option (CmdSpec W)
entry [] key = none
entry ((k, spec) ∷ t) key = if bytes_eq k key then some spec else entry t key

-- `Lookup`
unfoldable pub lookup : {W : Type 0} → Commands W → Bytes → Option (CmdSpec W)
unfolding entry
lookup t name = entry t (to_lower name)

-- `Register`: the next table, or the error that leaves the table as it is.
unfoldable pub register :
    {W : Type 0}
    → Commands W
    → Bytes
    → ℤ
    → Bool
    → Option (Handler W)
    → Commands W × Option RegisterError
unfolding entry
register t [] arity write h = (t, some empty_name)
register t (c ∷ name) arity write none = (t, some nil_handler)
register t (c ∷ name) arity write (some h) =
    let lower = to_lower (c ∷ name) in
    elim (entry t lower) [
      | some spec ↦ (t, some duplicate)
      | none ↦
          ((lower, record { name = lower; arity = arity; handler = h; write = write }) ∷ t, none)
    ]

-- `arityOK`: a negative arity is a least number of arguments.
unfoldable pub arity_ok : ℤ → ℕ → Bool
arity_ok arity argc =
    if leb_ℤ (pos 0) arity
    then eqb_ℤ (pos argc) arity
    else leb_ℤ (wrap64 (pos 0 -ℤ arity)) (pos argc)

abbrev pub is_line_end : ℕ → Bool
is_line_end c = c == 13 || c == 10

abbrev pub blank : ℕ → ℕ
blank c = if is_line_end c then 32 else c

unfoldable pub has_line_end : Bytes → Bool
has_line_end [] = false
has_line_end (c ∷ s) = is_line_end c || has_line_end s

-- `sanitizeErrText`
unfoldable pub sanitize_err_text : Bytes → Bytes
unfolding has_line_end
sanitize_err_text s = if has_line_end s then map blank s else s

unfoldable pub err_unknown_command : Bytes → Bytes
unfolding sanitize_err_text
err_unknown_command name = codes "ERR unknown command '" ++ sanitize_err_text name ++ codes "'"

unfoldable pub err_wrong_number_of_args : Bytes → Bytes
err_wrong_number_of_args cmd =
    codes "ERR wrong number of arguments for '" ++ to_lower cmd ++ codes "' command"

abbrev pub run_spec : {W : Type 0} → List Bytes → CmdSpec W → W → W × Option Reply
run_spec args spec w =
    if arity_ok spec.arity (length args)
    then (let (w', reply) = spec.handler args w in (w', some reply))
    else (w, some (error (err_wrong_number_of_args spec.name)))

-- `Dispatch`: what is replied, if anything.
unfoldable pub dispatch : {W : Type 0} → Commands W → List Bytes → W → W × Option Reply
unfolding lookup arity_ok err_wrong_number_of_args err_unknown_command
dispatch t [] w = (w, none)
dispatch t (name ∷ args) w = elim (lookup t name) [
  | none ↦ (w, some (error (err_unknown_command name)))
  | some spec ↦ run_spec (name ∷ args) spec w
]
