-- ===== src/Cursors/Bounded.antt =====
-- The registry stays within its capacity, and gives back what it was given.
use redimos.Prelude.{
  ℕ, zero, suc, ◌≤◌, ◌≡◌, refl, ap, sym, subst, ◌∙◌, Bool-cases, Option-cases, inl, inr, Option,
  none, some, List, [], ◌∷◌, Bytes, if◌then◌else◌, length, take, some-injective, ◌==◌, ==_iff,
  bytes_eq, arith,
}
use redimos.Prelude.Int.{ℤ, pos, ◌-ℤ◌, leb_ℤ, pos_part}
use redimos.Cursors.{
  Entry, Registry, find_cursor, new_cursor, remove_cursor, save_cursor, save, load_entry,
  load_owned, new_registry, saved, default_capacity,
}

-- A call of the registry, with what it reads from outside.
pub data Call (Token : Type 0) : Type 0 where
  saving : List ℕ → Token → ℤ → Call Token
  loading : ℕ → Bytes → ℤ → Call Token

module _ {Token : Type 0} where
  unfoldable pub step : Call Token → Registry Token → Registry Token
  unfolding save load_owned
  step (Call.saving draws token now) r = (save draws token now r).1
  step (Call.loading c inst_id now) r = (load_owned c inst_id now r).1

  unfoldable pub steps : List (Call Token) → Registry Token → Registry Token
  unfolding step
  steps [] r = r
  steps (c ∷ cs) r = steps cs (step c r)

  length-take_le : (n : ℕ) (es : List (Entry Token)) → length (take n es) ≤ n
  length-take_le zero es = omega arith
  length-take_le (suc n) [] = omega arith
  length-take_le (suc n) (e ∷ es) = omega (arith, length-take_le n es)

  length-remove_cursor : (c : ℕ) (es : List (Entry Token)) → length (remove_cursor c es) ≤ length es
  unfolding remove_cursor
  length-remove_cursor c [] = omega arith
  length-remove_cursor c (e ∷ es) = ground (arith, length-remove_cursor c es)

  -- An entry that is there makes room, and has the cursor it was found by.
  pub remove-found :
      (c : ℕ) (es : List (Entry Token)) (e : Entry Token)
      → find_cursor c es ≡ some e
      → (e.cursor ≡ c) × (suc (length (remove_cursor c es)) ≡ length es)
  unfolding find_cursor remove_cursor
  remove-found c [] e h = ground (arith, h)
  remove-found c (x ∷ es) e h = elim (Bool-cases (x.cursor == c)) [
    | inl hit ↦ rw hit (
      ap (λ (y : Entry Token). y.cursor) (sym (some-injective (rw hit at h)))
          ∙ (==_iff x.cursor c).0 hit,
      refl,
    )
    | inr miss ↦ let found = remove-found c es e (rw miss at h) in rw miss (found.0, ap suc found.1)
  ]

  -- The bound, and the capacity that no call changes.
  abbrev Bounded : Registry Token → Registry Token → Type 0
  Bounded r s = (length s.order ≤ s.capacity) × (s.capacity ≡ r.capacity)

  saved-Bounded :
      (token : Token) (now : ℤ) (r : Registry Token) (drawn : Option ℕ)
      → length r.order ≤ r.capacity
      → Bounded r (saved token now r drawn).1
  unfolding save_cursor
  saved-Bounded token now r none h = (h, refl)
  saved-Bounded token now r (some c) h = (length-take_le r.capacity _, refl)

  load_entry-Bounded :
      (c : ℕ) (e : Entry Token) (inst_id : Bytes) (now : ℤ) (r : Registry Token)
      → find_cursor c r.order ≡ some e
      → length r.order ≤ r.capacity
      → Bounded r (load_entry e inst_id now r).1
  unfolding load_entry
  load_entry-Bounded c e inst_id now r found h =
      let gone = remove-found c r.order e found in
      rw gone.0 (elim (Bool-cases (leb_ℤ r.ttl (now -ℤ e.created_at))) [
        | inl over ↦ rw over (omega (arith, h, gone.1), refl)
        | inr valid ↦ rw valid (elim (Bool-cases (bytes_eq e.inst_id inst_id)) [
          | inl own ↦ rw own (omega (arith, h, gone.1), refl)
          | inr other ↦ rw other (h, refl)
        ])
      ])

  load_owned-Bounded :
      (c : ℕ) (inst_id : Bytes) (now : ℤ) (r : Registry Token)
      → length r.order ≤ r.capacity
      → Bounded r (load_owned c inst_id now r).1
  unfolding load_owned
  load_owned-Bounded c inst_id now r h = elim (Bool-cases (c == 0)) [
    | inl hit ↦ rw hit (h, refl)
    | inr miss ↦ rw miss (elim (Option-cases (find_cursor c r.order)) [
      | inl unknown ↦ rw unknown (h, refl)
      | inr (e, found) ↦ rw found (load_entry-Bounded c e inst_id now r found h)
    ])
  ]

  step-Bounded :
      (call : Call Token) (r : Registry Token)
      → length r.order ≤ r.capacity
      → Bounded r (step call r)
  unfolding step save
  step-Bounded (Call.saving draws token now) r h =
      saved-Bounded token now r (new_cursor draws r.order) h
  step-Bounded (Call.loading c inst_id now) r h = load_owned-Bounded c inst_id now r h

  steps-Bounded :
      (calls : List (Call Token)) (r : Registry Token)
      → length r.order ≤ r.capacity
      → Bounded r (steps calls r)
  unfolding steps
  steps-Bounded [] r h = (h, refl)
  steps-Bounded (call ∷ calls) r h =
      let one = step-Bounded call r h in
      let rest = steps-Bounded calls (step call r) one.0 in (rest.0, rest.1 ∙ one.1)

-- After any calls of a new registry, whatever is saved, loaded, expired or refused, it keeps at
-- most as many cursors as its configured capacity, or 10000 if that is not positive.
pub length-steps :
    {Token : Type 0} (inst_id : Bytes) (capacity ttl : ℤ) (calls : List (Call Token))
    → length (steps calls (new_registry inst_id capacity ttl)).order
      ≤ (if leb_ℤ capacity (pos 0) then default_capacity else pos_part capacity)
unfolding new_registry
length-steps {Token = Token} inst_id capacity ttl calls =
    let start : Registry Token = new_registry inst_id capacity ttl in
    let v = steps-Bounded calls start (omega arith) in
    subst (λ n. length (steps calls start).order ≤ n) v.1 v.0
