-- ===== src/Strings/Options/Exclusive.antt =====
-- What `parseSetOptions` never returns.
use redimos.Prelude.{
  ◌≡◌, ◌≢◌, refl, ap, sym, ◌∙◌, Bool, true, false, ◌&&◌, Option, none, some, List, [], ◌∷◌, Bytes,
  Bool-cases, Option-cases, inl, inr, arith,
}
use redimos.Prelude.Int.{ℤ}
use redimos.Args.Integer.{parse_int}
use redimos.Strings.Options.{
  SetOptions, parsed, Pending, start, is_unit, flag, unit, option_loop, resolve_expiry,
  parse_set_options,
}

abbrev Exclusive : Pending → Type 0
Exclusive st = (st.want_nx && st.want_xx) ≡ false

flag-Exclusive :
    (st st' : Pending) (t : Bytes) → Exclusive st → flag st t ≡ some st' → Exclusive st'
unfolding flag
flag-Exclusive st st' t h e = ground arith

unit-Exclusive :
    (st st' : Pending) (t v : Bytes) → Exclusive st → unit st t v ≡ some st' → Exclusive st'
unfolding unit
unit-Exclusive st st' t v h e = ground arith

loop_unit :
    (st : Pending) (t v : Bytes) (rest : List Bytes) (o : Option Pending)
    → is_unit t ≡ true
    → unit st t v ≡ o
    → option_loop st (t ∷ v ∷ rest) ≡ elim o [ none ↦ none | some st' ↦ option_loop st' rest ]
unfolding option_loop
loop_unit st t v rest o number e = rw (option_loop, number, e)

loop_flag :
    (st : Pending) (t v : Bytes) (rest : List Bytes) (o : Option Pending)
    → is_unit t ≡ false
    → flag st t ≡ o
    → option_loop st (t ∷ v ∷ rest) ≡ elim o [ none ↦ none | some st' ↦ option_loop st' (v ∷ rest) ]
unfolding option_loop
loop_flag st t v rest o word e = rw (option_loop, word, e)

last_token :
    (st st' : Pending) (t : Bytes) → option_loop st (t ∷ []) ≡ some st' → flag st t ≡ some st'
unfolding option_loop
last_token st st' t e = ground arith

no_token : (st st' : Pending) → option_loop st [] ≡ some st' → st ≡ st'
unfolding option_loop
no_token st st' e = ground arith

nothing : (st : Pending) → none ≢ some st
nothing st e = ground arith

loop-Exclusive :
    (st st' : Pending) (opts : List Bytes)
    → Exclusive st
    → option_loop st opts ≡ some st'
    → Exclusive st'
loop-Exclusive st st' [] h e = ap (λ s. s.want_nx && s.want_xx) (sym (no_token st st' e)) ∙ h
loop-Exclusive st st' (t ∷ []) h e = flag-Exclusive st st' t h (last_token st st' t e)
loop-Exclusive st st' (t ∷ v ∷ rest) h e = elim (Bool-cases (is_unit t)) [
  | inl number ↦ elim (Option-cases (unit st t v)) [
    | inl bad ↦ absurd (nothing st' (sym (loop_unit st t v rest none number bad) ∙ e))
    | inr (st1, good) ↦
        loop-Exclusive st1 st' rest (unit-Exclusive st st1 t v h good)
          (sym (loop_unit st t v rest (some st1) number good) ∙ e)
  ]
  | inr word ↦ elim (Option-cases (flag st t)) [
    | inl bad ↦ absurd (nothing st' (sym (loop_flag st t v rest none word bad) ∙ e))
    | inr (st1, good) ↦
        loop-Exclusive st1 st' (v ∷ rest) (flag-Exclusive st st1 t h good)
          (sym (loop_flag st t v rest (some st1) word good) ∙ e)
  ]
]

resolved_flags :
    (now : ℤ) (st : Pending) (x : Option (Bool × Bytes)) (o : SetOptions)
    → resolve_expiry now st x ≡ parsed o
    → (o.nx ≡ st.want_nx) × (o.xx ≡ st.want_xx)
unfolding resolve_expiry
resolved_flags now st none o e = ground arith
resolved_flags now st (some (millis, token)) o e = elim (Option-cases (parse_int token)) [
  | inl bad ↦ ground arith
  | inr (n, good) ↦ ground arith
]

parsed_loop :
    (opts : List Bytes) (now : ℤ) (o : SetOptions)
    → parse_set_options opts now ≡ parsed o
    → (st : Pending) × (option_loop start opts ≡ some st)
      × (resolve_expiry now st st.expiry ≡ parsed o)
unfolding parse_set_options
parsed_loop opts now o e = elim (Option-cases (option_loop start opts)) [
  | inl bad ↦ absurd (ground arith)
  | inr (st, good) ↦ (st, good, ground arith)
]

-- Options that parse never ask for NX and XX at once, whatever their number, order and case.
pub parse_set_options-Exclusive :
    (opts : List Bytes) (now : ℤ) (o : SetOptions)
    → parse_set_options opts now ≡ parsed o
    → (o.nx && o.xx) ≡ false
parse_set_options-Exclusive opts now o e =
    let (st, looped, resolved) = parsed_loop opts now o e in
    let (nx_is, xx_is) = resolved_flags now st st.expiry o resolved in
    let apart = loop-Exclusive start st opts refl looped in rw (nx_is, xx_is) apart
