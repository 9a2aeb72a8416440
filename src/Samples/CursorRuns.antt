-- ===== src/Samples/CursorRuns.antt =====
-- Runs of the cursor registry.
use redimos.Prelude.{
  ℕ, false, ◌==◌, ◌≤◌, ◌≡◌, refl, none, some, List, [], ◌∷◌, Bytes, codes, if◌then◌else◌, length,
  bytes_eq, arith,
}
use redimos.Prelude.Int.{pos, pos_part, ◌-ℤ◌, leb_ℤ}
use redimos.Cursors.{Registry, new_registry, save, load_owned, find_cursor, default_capacity}
use redimos.Cursors.Bounded.{Call, steps, length-steps}
use redimos.Cursors.Retained.{load_owned-steps}

-- Two tokens for one place, and a load of the first.
abbrev registry_calls : List (Call Bytes)
registry_calls =
    Call.saving (0 ∷ 7 ∷ []) (codes "a") (pos 10)
    ∷ Call.saving (7 ∷ 8 ∷ []) (codes "b") (pos 20)
    ∷ Call.loading 7 (codes "here") (pos 30)
    ∷ []

length-steps_example :
    length (steps registry_calls (new_registry (codes "here") (pos 1) (pos 100))).order
    ≤ (if leb_ℤ (pos 1) (pos 0) then default_capacity else pos_part (pos 1))
length-steps_example = length-steps (codes "here") (pos 1) (pos 100) registry_calls

-- Two calls between the save and the load: another save, and a load by another instance.
abbrev between : List (Call Bytes)
between = Call.saving (9 ∷ []) (codes "b") (pos 20) ∷ Call.loading 7 (codes "there") (pos 30) ∷ []

abbrev roomy_registry : Registry Bytes
roomy_registry = new_registry (codes "here") (pos 3) (pos 100)

load_owned-steps_example :
    (c : ℕ) × ((save (0 ∷ 7 ∷ []) (codes "a") (pos 10) roomy_registry).0 ≡ some c)
    × ((c == 0) ≡ false)
    × ((load_owned c
          (codes "here")
          (pos 60)
          (steps between (save (0 ∷ 7 ∷ []) (codes "a") (pos 10) roomy_registry).1)).0
        ≡ (if bytes_eq roomy_registry.inst_id (codes "here") then some (codes "a") else none))
unfolding new_registry find_cursor ◌-ℤ◌
load_owned-steps_example =
    load_owned-steps (0 ∷ []) [] 7 (codes "a") (pos 10) (pos 60) (codes "here") roomy_registry
      between refl refl (omega arith) (refl, tt) refl
