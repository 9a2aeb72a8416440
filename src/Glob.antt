-- ===== src/Glob.antt =====
-- Redis patterns: `globMatch` and `stringMatchLen` of internal/command/glob.go, the byte-slice port
-- of Redis' stringmatchlen. The indexes p and s become the rests of the pattern and of the string.
pub mod Language
pub mod Classes
pub mod Soundness
pub mod Matching
use redimos.Prelude.{
  ℕ, zero, suc, Bool, true, false, ◌&&◌, ◌||◌, not, List, [], ◌∷◌, Bytes, if◌then◌else◌, length,
  leb, ◌==◌,
}

abbrev pub star : ℕ
star = b'*'

abbrev pub question : ℕ
question = b'?'

abbrev pub open_class : ℕ
open_class = b'['

abbrev pub close_class : ℕ
close_class = b']'

abbrev pub backslash : ℕ
backslash = b'\\'

abbrev pub hyphen : ℕ
hyphen = b'-'

abbrev pub caret : ℕ
caret = b'^'

-- A range of a class, whose ends may come in either order.
abbrev pub in_range : ℕ → ℕ → ℕ → Bool
in_range lo hi c = (leb lo c && leb c hi) || (leb hi c && leb c lo)

-- The loop over a class: whether `c` matched, and the pattern behind the class. A class that is
-- not closed ends with the pattern, and so does a backslash with nothing to escape.
unfoldable pub scan_class : ℕ → Bool → Bytes → Bool × Bytes
scan_class c m [] = (m, [])
scan_class c m (x ∷ []) =
    if x == backslash then (m, []) else if x == close_class then (m, []) else (m || x == c, [])
scan_class c m (x ∷ y ∷ []) =
    let literal = scan_class c (m || x == c) (y ∷ []) in
    if x == backslash then (m || y == c, []) else if x == close_class then (m, y ∷ []) else literal
scan_class c m (x ∷ y ∷ z ∷ ps) =
    let escaped = scan_class c (m || y == c) (z ∷ ps) in
    let range = scan_class c (m || in_range x z c) ps in
    let literal = scan_class c (m || x == c) (y ∷ z ∷ ps) in
    if x == backslash
    then escaped
    else if x == close_class
    then (m, y ∷ z ∷ ps)
    else if y == hyphen
    then range
    else literal

-- The class behind its `[`, with its optional `^`: whether `c` is accepted, and the rest.
abbrev pub negated_if : Bool → Bool × Bytes → Bool × Bytes
negated_if negate (m, rest) = (if negate then not m else m, rest)

unfoldable pub match_class : ℕ → Bytes → Bool × Bytes
unfolding scan_class
match_class c [] = scan_class c false []
match_class c (x ∷ p) =
    if x == caret then negated_if true (scan_class c false p) else scan_class c false (x ∷ p)

-- `for p < len(pattern) && pattern[p] == '*'`
unfoldable pub drop_stars : Bytes → Bytes
drop_stars [] = []
drop_stars (x ∷ p) = let rest = drop_stars p in if x == star then rest else x ∷ p

abbrev pub is_empty : Bytes → Bool
is_empty [] = true
is_empty (x ∷ p) = false

-- The loop over the suffixes of the string.
unfoldable pub any_suffix : (Bytes → Bool) → Bytes → Bool
any_suffix f [] = f []
any_suffix f (c ∷ s) = if f (c ∷ s) then true else any_suffix f s

-- What follows a run of stars, matched against the suffixes.
abbrev pub after_stars : (Bytes → Bytes → Bool) → Bytes → Bytes → Bool
after_stars go [] s = true
after_stars go (x ∷ p) s = any_suffix (go (x ∷ p)) s

abbrev pub after_class : (Bytes → Bytes → Bool) → Bool × Bytes → Bytes → Bool
after_class go (accepted, rest) s = accepted && go rest s

abbrev pub after_backslash : (Bytes → Bytes → Bool) → ℕ → Bytes → Bytes → Bool
after_backslash go c [] s = backslash == c && go [] s
after_backslash go c (x ∷ p) s = x == c && go p s

-- One turn of the loop on a pattern and a string that are not empty.
abbrev pub turn : (Bytes → Bytes → Bool) → ℕ → Bytes → ℕ → Bytes → Bool
turn go x p c s =
    if x == star
    then after_stars go (drop_stars p) (c ∷ s)
    else if x == question
    then go p s
    else if x == open_class
    then after_class go (match_class c p) s
    else if x == backslash
    then after_backslash go c p s
    else x == c && go p s

-- `stringMatchLen`, on fuel: every turn and every recursive call takes a byte of the pattern.
unfoldable pub string_match_len : ℕ → Bytes → Bytes → Bool
unfolding drop_stars any_suffix match_class
string_match_len zero p s = false
string_match_len (suc n) [] s = is_empty s
string_match_len (suc n) (x ∷ p) [] = is_empty (drop_stars (x ∷ p))
string_match_len (suc n) (x ∷ p) (c ∷ s) = turn (string_match_len n) x p c s

unfoldable pub glob_match : Bytes → Bytes → Bool
unfolding string_match_len
glob_match pattern s = string_match_len (suc (length pattern)) pattern s
