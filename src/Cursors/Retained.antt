-- ===== src/Cursors/Retained.antt =====
-- A cursor outlives the calls between two pages of a scan, as long as they are fewer than the
-- registry's capacity.
use redimos.Prelude.{
  ◌++◌, ℕ, zero, suc, ◌+◌, ◌<◌, ◌≡◌, ◌⊎◌, refl, ap, sym, subst, ◌∙◌, true, false, Bool-cases,
  Option-cases, inl, inr, none, some, some-injective, List, [], ◌∷◌, Bytes, if◌then◌else◌, length,
  take, ◌==◌, ==_iff, bytes_eq, arith,
}
use redimos.Prelude.Int.{ℤ, ◌-ℤ◌, leb_ℤ}
use redimos.Cursors.{
  Entry, Registry, find_cursor, new_cursor, remove_cursor, save_cursor, save, load_entry,
  load_owned, exists_entry,
}
use redimos.Cursors.Bounded.{Call, step, steps, remove-found}
use redimos.Cursors.Drawn.{new_cursor-fresh, new_cursor-enough}

module _ {Token : Type 0} where
  -- The entry stands behind at most so many others, and is the first with its cursor.
  abbrev Within : ℕ → Entry Token → List (Entry Token) → Type 0
  Within k e [] = ⊥
  Within zero e (x ∷ es) = x ≡ e
  Within (suc k) e (x ∷ es) = (x ≡ e) ⊎ (((x.cursor == e.cursor) ≡ false) × Within k e es)

  -- No load among the calls comes when the time of an entry of `now` is over.
  abbrev pub InTime : ℤ → ℤ → List (Call Token) → Type 0
  InTime ttl now [] = Unit
  InTime ttl now (Call.saving draws token at ∷ calls) = InTime ttl now calls
  InTime ttl now (Call.loading c inst_id at ∷ calls) =
      (leb_ℤ ttl (at -ℤ now) ≡ false) × InTime ttl now calls

  find-Within :
      (k : ℕ) (e : Entry Token) (es : List (Entry Token))
      → Within k e es
      → find_cursor e.cursor es ≡ some e
  unfolding find_cursor
  find-Within zero e [] h = absurd h
  find-Within (suc k) e [] h = absurd h
  find-Within zero e (x ∷ es) h = here h
    where
      here : x ≡ e → find_cursor e.cursor (x ∷ es) ≡ some e
      here same = rw same (rw ((==_iff e.cursor e.cursor).1 refl) refl)
  find-Within (suc k) e (x ∷ es) (inl h) = here h
    where
      here : x ≡ e → find_cursor e.cursor (x ∷ es) ≡ some e
      here same = rw same (rw ((==_iff e.cursor e.cursor).1 refl) refl)
  find-Within (suc k) e (x ∷ es) (inr (other, later)) = rw other (find-Within k e es later)

  Within-suc :
      (k : ℕ) (e : Entry Token) (es : List (Entry Token)) → Within k e es → Within (suc k) e es
  Within-suc k e [] h = absurd (nothing k h)
    where
      nothing : (n : ℕ) → Within n e [] → ⊥
      nothing zero p = p
      nothing (suc n) p = p
  Within-suc zero e (x ∷ es) h = inl h
  Within-suc (suc k) e (x ∷ es) (inl h) = inl h
  Within-suc (suc k) e (x ∷ es) (inr (other, later)) = inr (other, Within-suc k e es later)

  Within-take :
      (k n : ℕ) (e : Entry Token) (es : List (Entry Token))
      → k < n
      → Within k e es
      → Within k e (take n es)
  Within-take k zero e es lt h = absurd (omega arith)
  Within-take zero (suc n) e [] lt h = h
  Within-take (suc k) (suc n) e [] lt h = h
  Within-take zero (suc n) e (x ∷ es) lt h = h
  Within-take (suc k) (suc n) e (x ∷ es) lt (inl h) = inl h
  Within-take (suc k) (suc n) e (x ∷ es) lt (inr (other, later)) =
      inr (other, Within-take k n e es (omega arith) later)

  -- Another cursor's entry removed.
  Within-remove :
      (k : ℕ) (c : ℕ) (e : Entry Token) (es : List (Entry Token))
      → (e.cursor == c) ≡ false
      → Within k e es
      → Within k e (remove_cursor c es)
  unfolding remove_cursor
  Within-remove zero c e [] ne h = h
  Within-remove (suc k) c e [] ne h = h
  Within-remove zero c e (x ∷ es) ne h =
      let stays : (x.cursor == c) ≡ false = ap (λ (y : Entry Token). y.cursor == c) h ∙ ne in
      rw stays h
  Within-remove (suc k) c e (x ∷ es) ne (inl h) =
      let stays : (x.cursor == c) ≡ false = ap (λ (y : Entry Token). y.cursor == c) h ∙ ne in
      rw stays (inl h)
  Within-remove (suc k) c e (x ∷ es) ne (inr (other, later)) = elim (Bool-cases (x.cursor == c)) [
    | inl gone ↦ rw gone (Within-suc k e es later)
    | inr stays ↦ rw stays (inr (other, Within-remove k c e es ne later))
  ]

  -- The parts of a registry that no call changes.
  record Fixed (r s : Registry Token) : Type 0 where
    capacity_is : s.capacity ≡ r.capacity
    ttl_is : s.ttl ≡ r.ttl

  -- What a call leaves: an entry that is not over is at most one place further back.
  abbrev Keeps : ℕ → Entry Token → Registry Token → Registry Token → Type 0
  Keeps k e r s = Fixed r s × Within (suc k) e s.order

  same_Fixed : (r s : Registry Token) → s.capacity ≡ r.capacity → s.ttl ≡ r.ttl → Fixed r s
  same_Fixed r s c t = record { capacity_is = c; ttl_is = t }

  load_entry-Keeps :
      (k : ℕ) (e x : Entry Token) (inst_id : Bytes) (at : ℤ) (r : Registry Token)
      → find_cursor x.cursor r.order ≡ some x
      → leb_ℤ r.ttl (at -ℤ e.created_at) ≡ false
      → Within k e r.order
      → Keeps k e r (load_entry x inst_id at r).1
  unfolding load_entry
  load_entry-Keeps k e x inst_id at r found valid h = elim (Bool-cases (e.cursor == x.cursor)) [
    | inl hit ↦
        let same : x ≡ e = some-injective (
          sym found
          ∙ ap (λ c. find_cursor c r.order) (sym ((==_iff e.cursor x.cursor).0 hit))
          ∙ find-Within k e r.order h) in
        let fresh : leb_ℤ r.ttl (at -ℤ x.created_at) ≡ false =
          ap (λ (y : Entry Token). leb_ℤ r.ttl (at -ℤ y.created_at)) same ∙ valid in
        rw fresh (elim (Bool-cases (bytes_eq x.inst_id inst_id)) [
          | inl own ↦ rw own (same_Fixed r _ refl refl, inl same)
          | inr other ↦ rw other (same_Fixed r r refl refl, Within-suc k e r.order h)
        ])
    | inr miss ↦
        let left = Within-remove k x.cursor e r.order miss h in
        let apart : (x.cursor == e.cursor) ≡ false = ground (arith, miss) in
        elim (Bool-cases (leb_ℤ r.ttl (at -ℤ x.created_at))) [
          | inl over ↦ rw over (same_Fixed r _ refl refl, Within-suc k e _ left)
          | inr fresh ↦ rw fresh (elim (Bool-cases (bytes_eq x.inst_id inst_id)) [
            | inl own ↦ rw own (same_Fixed r _ refl refl, inr (apart, left))
            | inr other ↦ rw other (same_Fixed r r refl refl, Within-suc k e r.order h)
          ])
        ]
  ]

  load_owned-Keeps :
      (k : ℕ) (e : Entry Token) (c : ℕ) (inst_id : Bytes) (at : ℤ) (r : Registry Token)
      → leb_ℤ r.ttl (at -ℤ e.created_at) ≡ false
      → Within k e r.order
      → Keeps k e r (load_owned c inst_id at r).1
  unfolding load_owned
  load_owned-Keeps k e c inst_id at r valid h =
      let unchanged : Keeps k e r r = (same_Fixed r r refl refl, Within-suc k e r.order h) in
      elim (Bool-cases (c == 0)) [
        | inl zero_cursor ↦ rw zero_cursor unchanged
        | inr real ↦ rw real (elim (Option-cases (find_cursor c r.order)) [
          | inl unknown ↦ rw unknown unchanged
          | inr (x, found) ↦
              let here = remove-found c r.order x found in
              rw found (
                load_entry-Keeps k e x inst_id at r (ap (λ d. find_cursor d r.order) here.0 ∙ found)
                  valid h)
        ])
      ]

  save-Keeps :
      (k : ℕ) (e : Entry Token) (draws : List ℕ) (token : Token) (at : ℤ) (r : Registry Token)
      → suc k < r.capacity
      → Within k e r.order
      → Keeps k e r (save draws token at r).1
  unfolding save save_cursor
  save-Keeps k e draws token at r room h = elim (Option-cases (new_cursor draws r.order)) [
    | inl undrawn ↦ rw undrawn (same_Fixed r r refl refl, Within-suc k e r.order h)
    | inr (c, drawn) ↦
        let new : Entry Token = record {
          cursor = c;
          inst_id = r.inst_id;
          token = token;
          created_at = at;
        } in
        let apart : (c == e.cursor) ≡ false = elim (Bool-cases (c == e.cursor)) [
          | inl hit ↦
              let known : find_cursor c r.order ≡ some e =
                ap (λ d. find_cursor d r.order) ((==_iff c e.cursor).0 hit)
                ∙ find-Within k e r.order h in
              let taken : exists_entry (find_cursor c r.order) ≡ true = ap exists_entry known in
              absurd (ground (arith, taken, (new_cursor-fresh draws r.order c drawn).1))
          | inr other ↦ other
        ] in
        rw drawn (
          same_Fixed r _ refl refl,
          Within-take (suc k) r.capacity e (new ∷ r.order) room (inr (apart, h)),
        )
  ]

  steps-Within :
      (k : ℕ) (e : Entry Token) (calls : List (Call Token)) (r : Registry Token)
      → k + length calls < r.capacity
      → InTime r.ttl e.created_at calls
      → Within k e r.order
      → (n : ℕ) × Within n e (steps calls r).order × ((steps calls r).ttl ≡ r.ttl)
  unfolding steps step
  steps-Within k e [] r room timely h = (k, h, refl)
  steps-Within k e (Call.saving draws token at ∷ calls) r room timely h =
      let next = (save draws token at r).1 in
      let (fixed, kept) = save-Keeps k e draws token at r (omega arith) h in
      let (n, found, ttl_is) =
        steps-Within (suc k) e calls next (omega (arith, fixed.capacity_is))
          (subst (λ t. InTime t e.created_at calls) (sym fixed.ttl_is) timely) kept in
      (n, found, ttl_is ∙ fixed.ttl_is)
  steps-Within k e (Call.loading c inst_id at ∷ calls) r room (valid, timely) h =
      let next = (load_owned c inst_id at r).1 in
      let (fixed, kept) = load_owned-Keeps k e c inst_id at r valid h in
      let (n, found, ttl_is) =
        steps-Within (suc k) e calls next (omega (arith, fixed.capacity_is))
          (subst (λ t. InTime t e.created_at calls) (sym fixed.ttl_is) timely) kept in
      (n, found, ttl_is ∙ fixed.ttl_is)

  load_found :
      (e : Entry Token) (inst_id : Bytes) (later : ℤ) (r : Registry Token)
      → (e.cursor == 0) ≡ false
      → find_cursor e.cursor r.order ≡ some e
      → leb_ℤ r.ttl (later -ℤ e.created_at) ≡ false
      → (load_owned e.cursor inst_id later r).0
        ≡ (if bytes_eq e.inst_id inst_id then some e.token else none)
  unfolding load_owned load_entry
  load_found e inst_id later r nonzero found valid =
      rw (nonzero, found, valid)
        (elim (Bool-cases (bytes_eq e.inst_id inst_id)) [
          | inl own ↦ rw own refl
          | inr other ↦ rw other refl
        ])

  -- Once one of the drawn numbers is not 0 and not in use, a token is saved under a cursor that is
  -- not 0. After any saves and loads, fewer than the capacity, none of them a load when the token's
  -- time is over, that cursor still loads that token for the instance that saved it, as long as its
  -- time is not over, and nothing for any other instance.
  pub load_owned-steps :
      (before after : List ℕ) (d : ℕ) (token : Token) (now later : ℤ) (inst_id : Bytes)
      (r : Registry Token) (calls : List (Call Token))
      → (d == 0) ≡ false
      → find_cursor d r.order ≡ none
      → length calls < r.capacity
      → InTime r.ttl now calls
      → leb_ℤ r.ttl (later -ℤ now) ≡ false
      → (c : ℕ) × ((save (before ++ d ∷ after) token now r).0 ≡ some c)
        × ((c == 0) ≡ false)
        × ((load_owned c inst_id later (steps calls (save (before ++ d ∷ after) token now r).1)).0
            ≡ (if bytes_eq r.inst_id inst_id then some token else none))
  unfolding save save_cursor
  load_owned-steps before after d token now later inst_id r calls nonzero unused room timely valid =
      let (c, drawn) = new_cursor-enough before after d r.order nonzero unused in
      let fresh = new_cursor-fresh (before ++ d ∷ after) r.order c drawn in
      let e : Entry Token = record {
        cursor = c;
        inst_id = r.inst_id;
        token = token;
        created_at = now;
      } in
      let start = save_cursor c token now r in
      let (n, there, ttl_is) =
        steps-Within 0 e calls start (omega arith) timely
          (Within-take 0 r.capacity e (e ∷ r.order) (omega arith) refl) in
      rw drawn (
        c,
        refl,
        fresh.0,
        load_found e inst_id later (steps calls start) fresh.0
            (find-Within n e (steps calls start).order there)
            (ap (λ t. leb_ℤ t (later -ℤ now)) ttl_is ∙ valid),
      )
