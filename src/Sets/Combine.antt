-- ===== src/Sets/Combine.antt =====
-- `computeSetAlgebra` over keys that hold sets, and the replies of SUNION, SINTER and SDIFF.
use redimos.Prelude.{
  ◌≡◌, refl, ap, ap₂, sym, ◌∙◌, Bool, true, false, ◌&&◌, ◌||◌, not, Bool-cases, inl, inr, Option,
  none, some, List, [], ◌∷◌, Bytes, map, arith,
}
use redimos.Reply.{bulk_array, ok}
use redimos.Store.{Store, Meta, ◌>>=◌, return, reply_of, reply_to, >>=-eq_ok}
use redimos.Store.Laws.{is_some}
use redimos.Keys.{Env, key_pk}
use redimos.Collections.{State, live, not_live, on_state}
use redimos.Collections.Entries.{lookup, listed}
use redimos.Sets.{
  set_state, load_set_members, load_operands, operand_read, compute_set_algebra, algebra_reply,
  handle_set_algebra_read,
}
use redimos.Sets.Algebra.{
  SetOp, Operands, found, no_members, wrong_operand, combine, combine_sets, with_operand, stops,
}
use redimos.Sets.Laws.{SetLaws}
use redimos.Sets.Membership.{
  in_any, in_all, expected, listed-combine_sets, NoRepeats, combine_sets-NoRepeats, and_false,
}
use redimos.Sets.Steps.{Members, SetAt, load_set}

abbrev pub has : Bytes → Members → Bool
has x m = is_some (lookup x m)

-- The keys hold these sets.
abbrev pub AllSets : (b : Store) → Env → b.World → List Bytes → List Members → Type 0
AllSets b env w [] [] = Unit
AllSets b env w (pk ∷ pks) (m ∷ ms) = SetAt b env pk w m × AllSets b env w pks ms
AllSets b env w _ _ = ⊥

-- Some set has the member, and every set has it.
unfoldable pub some_has : Bytes → List Members → Bool
some_has x [] = false
some_has x (m ∷ ms) = has x m || some_has x ms

unfoldable pub each_has : Bytes → List Members → Bool
each_has x [] = true
each_has x (m ∷ ms) = has x m && each_has x ms

-- What the commands promise of a member, for the operands' sets.
unfoldable pub wanted : SetOp → Bytes → List Members → Bool
unfolding some_has each_has
wanted op x [] = false
wanted SetOp.union x (m ∷ ms) = has x m || some_has x ms
wanted SetOp.inter x (m ∷ ms) = has x m && each_has x ms
wanted SetOp.diff x (m ∷ ms) = has x m && not (some_has x ms)

-- The operands that were read list the members of the sets.
abbrev Lists : List (List Bytes) → List Members → Type 0
Lists [] [] = Unit
Lists (xs ∷ xss) (m ∷ ms) = ((x : Bytes) → listed x xs ≡ has x m) × Lists xss ms
Lists _ _ = ⊥

-- What the loop may end with on these sets.
abbrev Fair : SetOp → List Members → Operands → Type 0
Fair op ms (found xss) = Lists xss ms
Fair op ms no_members = (op ≡ SetOp.inter) × ((x : Bytes) → each_has x ms ≡ false)
Fair op ms _ = ⊥

in_any-some_has :
    (x : Bytes) (xss : List (List Bytes)) (ms : List Members)
    → Lists xss ms
    → in_any x xss ≡ some_has x ms
unfolding in_any some_has
in_any-some_has x [] [] fair = refl
in_any-some_has x [] (m ∷ ms) fair = elim fair [ ]
in_any-some_has x (xs ∷ xss) [] fair = elim fair [ ]
in_any-some_has x (xs ∷ xss) (m ∷ ms) (same, rest) =
    ap₂ (λ a c. a || c) (same x) (in_any-some_has x xss ms rest)

in_all-each_has :
    (x : Bytes) (xss : List (List Bytes)) (ms : List Members)
    → Lists xss ms
    → in_all x xss ≡ each_has x ms
unfolding in_all each_has
in_all-each_has x [] [] fair = refl
in_all-each_has x [] (m ∷ ms) fair = elim fair [ ]
in_all-each_has x (xs ∷ xss) [] fair = elim fair [ ]
in_all-each_has x (xs ∷ xss) (m ∷ ms) (same, rest) =
    ap₂ (λ a c. a && c) (same x) (in_all-each_has x xss ms rest)

expected-wanted :
    (op : SetOp) (x : Bytes) (xss : List (List Bytes)) (ms : List Members)
    → Lists xss ms
    → expected op x xss ≡ wanted op x ms
unfolding expected wanted
expected-wanted op x [] [] fair = refl
expected-wanted op x [] (m ∷ ms) fair = elim fair [ ]
expected-wanted SetOp.union x (xs ∷ xss) [] fair = elim fair [ ]
expected-wanted SetOp.inter x (xs ∷ xss) [] fair = elim fair [ ]
expected-wanted SetOp.diff x (xs ∷ xss) [] fair = elim fair [ ]
expected-wanted SetOp.union x (xs ∷ xss) (m ∷ ms) (same, rest) =
    ap₂ (λ a c. a || c) (same x) (in_any-some_has x xss ms rest)
expected-wanted SetOp.inter x (xs ∷ xss) (m ∷ ms) (same, rest) =
    ap₂ (λ a c. a && c) (same x) (in_all-each_has x xss ms rest)
expected-wanted SetOp.diff x (xs ∷ xss) (m ∷ ms) (same, rest) =
    ap₂ (λ a c. a && not c) (same x) (in_any-some_has x xss ms rest)

inter-each_has :
    (op : SetOp) (x : Bytes) (ms : List Members)
    → op ≡ SetOp.inter
    → each_has x ms ≡ false
    → wanted op x ms ≡ false
unfolding wanted each_has
inter-each_has op x [] e none_has = refl
inter-each_has op x (m ∷ ms) e none_has = rw e none_has

-- The result of a fair reading.
combine-Fair :
    (op : SetOp) (ms : List Members) (operands : Operands)
    → Fair op ms operands
    → (r : List Bytes) × (combine op operands ≡ some r)
      × ((x : Bytes) → listed x r ≡ wanted op x ms)
      × NoRepeats r
unfolding combine listed
combine-Fair op ms (found xss) fair = (
  combine_sets op xss,
  refl,
  λ x. listed-combine_sets op x xss ∙ expected-wanted op x xss ms fair,
  combine_sets-NoRepeats op xss,
)
combine-Fair op ms no_members (inter, empty) =
    ([], refl, λ x. sym (inter-each_has op x ms inter (empty x)), tt)
combine-Fair op ms wrong_operand fair = elim fair [ ]

-- An operand where the loop stops.
stops-empty : (op : SetOp) (xs : List Bytes) → stops op xs ≡ true → (op ≡ SetOp.inter) × (xs ≡ [])
stops-empty SetOp.inter [] h = (refl, refl)
stops-empty SetOp.inter (x ∷ xs) h = ground (arith, h)
stops-empty SetOp.union xs h = ground (arith, h)
stops-empty SetOp.diff xs h = ground (arith, h)

Fair-cons :
    (op : SetOp) (xs : List Bytes) (m : Members) (ms : List Members)
    → ((x : Bytes) → listed x xs ≡ has x m)
    → (operands : Operands) → Fair op ms operands
    → Fair op (m ∷ ms) (with_operand xs operands)
unfolding each_has
Fair-cons op xs m ms same (found xss) fair = (same, fair)
Fair-cons op xs m ms same no_members (inter, empty) =
    (inter, λ x. ap (λ a. has x m && a) (empty x) ∙ and_false (has x m))
Fair-cons op xs m ms same wrong_operand fair = elim fair [ ]

-- An empty first operand has no member.
stopped :
    (xs : List Bytes) (m : Members) (ms : List Members)
    → ((x : Bytes) → listed x xs ≡ has x m)
    → xs ≡ []
    → (x : Bytes) → each_has x (m ∷ ms) ≡ false
unfolding each_has listed
stopped xs m ms same empty x =
    let nothing : has x m ≡ false = sym (same x) ∙ rw empty in ap (λ a. a && each_has x ms) nothing

module _ (b : Store) (laws : SetLaws b) (env : Env) (w : b.World) where
  load_set_members_lem :
      (pk : Bytes) (m : Members)
      → SetAt b env pk w m
      → (xs : List Bytes) × (load_set_members b env pk w ≡ (w, ok (some xs)))
        × ((x : Bytes) → listed x xs ≡ has x m)
  unfolding load_set_members listed lookup is_some
  load_set_members_lem pk m held =
      let rest = λ (s : State).
        on_state (λ (_ : Meta). b.smembers pk >>= λ (ms : List Bytes). return (some ms))
          (return (some [])) (return none) s in
      elim (load_set b laws env pk w m held) [
        | inl (loaded, empty) ↦
            ([], >>=-eq_ok (set_state b env pk) rest w w not_live loaded, λ x. rw empty)
        | inr (there, loaded, ready, filled) ↦
            let (xs, ran, members) = laws.smembers_lem pk w in
            (
              xs,
              >>=-eq_ok (set_state b env pk) rest w w (live there) loaded
                  ∙ >>=-eq_ok (b.smembers pk) (λ (ms : List Bytes). return (some ms)) w w xs ran,
              λ x. members x ∙ ap is_some (ready.holds.items x),
            )
      ]

  load_operands_lem :
      (op : SetOp) (pks : List Bytes) (ms : List Members)
      → AllSets b env w pks ms
      → (operands : Operands) × (load_operands b env op pks w ≡ (w, ok operands))
        × Fair op ms operands
  unfolding load_operands
  load_operands_lem op [] [] held = (found [], refl, tt)
  load_operands_lem op [] (m ∷ ms) held = elim held [ ]
  load_operands_lem op (pk ∷ pks) [] held = elim held [ ]
  load_operands_lem op (pk ∷ pks) (m ∷ ms) (held, rest) =
      let (xs, ran, members) = load_set_members_lem pk m held in
      let first =
        >>=-eq_ok (load_set_members b env pk) (operand_read b env op (load_operands b env op pks)) w
          w (some xs) ran in
      elim (Bool-cases (stops op xs)) [
        | inl stop ↦
            let (inter, empty) = stops-empty op xs stop in
            (no_members, first ∙ rw stop, (inter, stopped xs m ms members empty))
        | inr go ↦
            let (operands, runs, fair) = load_operands_lem op pks ms rest in
            (
              with_operand xs operands,
              first
                  ∙ rw go (
                      >>=-eq_ok (load_operands b env op pks)
                        (λ (r : Operands). return (with_operand xs r)) w w operands runs),
              Fair-cons op xs m ms members operands fair,
            )
      ]

  pub compute_set_algebra_lem :
      (op : SetOp) (pks : List Bytes) (ms : List Members)
      → AllSets b env w pks ms
      → (r : List Bytes) × (compute_set_algebra b env op pks w ≡ (w, ok (some r)))
        × ((x : Bytes) → listed x r ≡ wanted op x ms)
        × NoRepeats r
  unfolding compute_set_algebra
  compute_set_algebra_lem op pks ms held =
      let (operands, ran, fair) = load_operands_lem op pks ms held in
      let (r, combined, members, once) = combine-Fair op ms operands fair in
      (
        r,
        >>=-eq_ok (load_operands b env op pks) (λ (o : Operands). return (combine op o)) w w
              operands ran
            ∙ ap (λ o. (w, ok o)) combined,
        members,
        once,
      )

  -- SUNION, SINTER and SDIFF over keys that each hold a set reply an array of exactly the members
  -- of the union, of the intersection, or of the first set without the later ones, each once, and
  -- write nothing. A key that has expired, or is absent with no member items left, holds the empty
  -- set.
  pub handle_set_algebra_read_lem :
      (op : SetOp) (keys : List Bytes) (ms : List Members)
      → AllSets b env w (map (key_pk env) keys) ms
      → (r : List Bytes) × (handle_set_algebra_read b env op keys w ≡ (w, bulk_array r))
        × ((x : Bytes) → listed x r ≡ wanted op x ms)
        × NoRepeats r
  unfolding handle_set_algebra_read reply_to
  handle_set_algebra_read_lem op keys ms held =
      let (r, ran, members, once) = compute_set_algebra_lem op (map (key_pk env) keys) ms held in
      (
        r,
        ap reply_of (
            >>=-eq_ok (compute_set_algebra b env op (map (key_pk env) keys))
              (λ (o : Option (List Bytes)). return (algebra_reply b env o)) w w (some r) ran),
        members,
        once,
      )
