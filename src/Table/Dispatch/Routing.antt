-- ===== src/Table/Dispatch/Routing.antt =====
-- What a registered and an unknown command get.
use redimos.Prelude.{
  ℕ, suc, ◌≤◌, ◌<◌, ◌≡◌, ◌≢◌, ◌⊎◌, refl, ap, sym, ◌∙◌, Bool, true, false, none, some, List, [], ◌∷◌,
  ◌++◌, map, Bytes, codes, if◌then◌else◌, bytes_eq, bytes_eq_self, bytes_eq_iff, length, Bool-cases,
  inl, inr, arith,
}
use redimos.Prelude.Int.{ℤ, pos, negsuc, ◌-ℤ◌, wrap64, two63}
use redimos.Reply.{error}
use redimos.Table.Casing.{lower_byte, to_lower, to_lower_lem, to_lower_idem}
use redimos.Table.Dispatch.{
  Handler, CmdSpec, Commands, entry, lookup, register, arity_ok, err_wrong_number_of_args, run_spec,
  dispatch,
}

-- The numbers of arguments, the name included, that an arity stands for: exactly itself, or its
-- magnitude at least if it is negative.
abbrev pub Admits : ℤ → ℕ → Type 0
Admits (pos n) argc = argc ≡ n
Admits (negsuc n) argc = suc n ≤ argc

-- The negation of the arity is an int64.
abbrev pub Negatable : ℤ → Type 0
Negatable (pos n) = Unit
Negatable (negsuc n) = suc n < two63

arity_ok_sound :
    (arity : ℤ) (argc : ℕ) → Negatable arity → arity_ok arity argc ≡ true → Admits arity argc
unfolding arity_ok ◌-ℤ◌ wrap64
arity_ok_sound (pos n) argc fits h = ground arith
arity_ok_sound (negsuc n) argc fits h = ground arith

arity_ok_refuses :
    (arity : ℤ) (argc : ℕ) → Negatable arity → arity_ok arity argc ≡ false → ¬ Admits arity argc
unfolding arity_ok ◌-ℤ◌ wrap64
arity_ok_refuses (pos n) argc fits h admitted = ground arith
arity_ok_refuses (negsuc n) argc fits h admitted = ground arith

module _ {W : Type 0} (t t' : Commands W) (c : ℕ) (name : Bytes) (arity : ℤ) (write : Bool)
    (h : Handler W) where
  abbrev lower : Bytes
  lower = to_lower (c ∷ name)

  abbrev spec : CmdSpec W
  spec = record { name = lower; arity = arity; handler = h; write = write }

  registered : register t (c ∷ name) arity write (some h) ≡ (t', none) → t' ≡ (lower, spec) ∷ t
  unfolding register
  registered e = ground arith

  found_in : (name' : Bytes) → to_lower name' ≡ lower → lookup ((lower, spec) ∷ t) name' ≡ some spec
  unfolding lookup entry
  found_in name' same = rw (same, bytes_eq_self lower)

  entry_of :
      (other : Bytes)
      → lookup ((lower, spec) ∷ t) other
        ≡ (if bytes_eq lower (to_lower other) then some spec else lookup t other)
  unfolding lookup entry
  entry_of other = refl

  dispatch_found :
      (u : Commands W) (name' : Bytes) (args : List Bytes) (w : W)
      → lookup u name' ≡ some spec
      → dispatch u (name' ∷ args) w ≡ run_spec (name' ∷ args) spec w
  unfolding dispatch
  dispatch_found u name' args w e = rw (dispatch, e)

  wrong_number :
      err_wrong_number_of_args lower
      ≡ codes "ERR wrong number of arguments for '"
        ++ map lower_byte (c ∷ name)
        ++ codes "' command"
  unfolding err_wrong_number_of_args
  wrong_number =
      ap (λ s. codes "ERR wrong number of arguments for '" ++ s ++ codes "' command")
        (to_lower_idem (c ∷ name) ∙ to_lower_lem (c ∷ name))

  admitted_or_not :
      (args : List Bytes) (w : W)
      → Negatable arity
      → (Admits arity (length args) × (run_spec args spec w ≡ ((h args w).0, some (h args w).1)))
        ⊎ ((¬ Admits arity (length args))
            × (run_spec args spec w ≡ (
              w,
              some (
                  error (
                    codes "ERR wrong number of arguments for '"
                    ++ map lower_byte (c ∷ name)
                    ++ codes "' command")),
            )))
  admitted_or_not args w fits = elim (Bool-cases (arity_ok arity (length args))) [
    | inl fine ↦ inl (arity_ok_sound arity (length args) fits fine, rw fine)
    | inr bad ↦ inr (
      arity_ok_refuses arity (length args) fits bad,
      rw bad (ap (λ text. (w, some (error text))) wrong_number),
    )
  ]

  -- After a registration without error, with an arity that is not the least int64, a request by any
  -- spelling of the name in any case runs the handler if the number of arguments, the name
  -- included, is the arity, or at least its magnitude for a negative arity; otherwise it changes
  -- nothing and gets the error text with the name in lower case. Every name that is not such a
  -- spelling is looked up as before.
  pub dispatch-register :
      (name' : Bytes) (args : List Bytes) (w : W)
      → Negatable arity
      → register t (c ∷ name) arity write (some h) ≡ (t', none)
      → map lower_byte name' ≡ map lower_byte (c ∷ name)
      → ((Admits arity (length (name' ∷ args))
            × (dispatch t' (name' ∷ args) w
                ≡ ((h (name' ∷ args) w).0, some (h (name' ∷ args) w).1)))
          ⊎ ((¬ Admits arity (length (name' ∷ args)))
              × (dispatch t' (name' ∷ args) w ≡ (
                w,
                some (
                    error (
                      codes "ERR wrong number of arguments for '"
                      ++ map lower_byte (c ∷ name)
                      ++ codes "' command")),
              ))))
        × ((other : Bytes)
            → (map lower_byte other ≡ map lower_byte (c ∷ name))
              ⊎ (lookup t' other ≡ lookup t other))
  dispatch-register name' args w fits e same =
      let next = registered e in
      let lowered : to_lower name' ≡ lower =
        to_lower_lem name' ∙ same ∙ sym (to_lower_lem (c ∷ name)) in
      let ran =
        dispatch_found t' name' args w (ap (λ u. lookup u name') next ∙ found_in name' lowered) in
      (
        elim (admitted_or_not (name' ∷ args) w fits) [
          | inl (admitted, runs) ↦ inl (admitted, ran ∙ runs)
          | inr (refused, errs) ↦ inr (refused, ran ∙ errs)
        ],
        λ other. elim (Bool-cases (bytes_eq lower (to_lower other))) [
          | inl spelled ↦ inl (
              sym (to_lower_lem other)
              ∙ sym ((bytes_eq_iff lower (to_lower other)).0 spelled)
              ∙ to_lower_lem (c ∷ name))
          | inr differs ↦ inr (
              ap (λ u. lookup u other) next
              ∙ entry_of other
              ∙ ap (λ (x : Bool). if x then some spec else lookup t other) differs)
        ],
      )

-- A text as it is shown in an error: a carriage return or a line feed as a space, and every other
-- byte as it is.
abbrev pub Shown : Bytes → Bytes → Type 0
Shown [] [] = Unit
Shown (x ∷ text) (c ∷ s) =
    (((c ≡ 13) ⊎ (c ≡ 10)) × (x ≡ 32) ⊎ ((c ≢ 13) × (c ≢ 10) × (x ≡ c))) × Shown text s
Shown _ _ = ⊥
