-- ===== src/Sets/Pop.antt =====
-- SPOP removes what it replies.
use redimos.Prelude.{
  ℕ, ◌+◌, ◌≡◌, refl, ap, sym, ◌∙◌, Bool, true, false, inl, inr, some, List, [], ◌∷◌, Bytes, length,
  arith,
}
use redimos.Prelude.Int.{pos, ltb_ℤ}
use redimos.Args.Integer.{parse_int}
use redimos.Reply.{Reply, ok, null_bulk, bulk, bulk_array}
use redimos.Store.{Store, return, reply_of, reply_to, >>=-eq_ok, type_set}
use redimos.Keys.{Env, key_pk}
use redimos.Collections.{live, not_live, adjust_count, negated}
use redimos.Collections.Entries.{removes}
use redimos.Collections.Steps.{remove_lem}
use redimos.Sets.{set_state, parse_count, pop_live, members_reply, handle_spop}
use redimos.Sets.Laws.{SetLaws, at_most}
use redimos.Sets.Steps.{Members, SetAt, Elsewhere, load_set}

-- How many members a request asks for, by its arguments after the key: one by default.
abbrev pub Asks : List Bytes → ℕ → Type 0
Asks [] n = n ≡ 1
Asks (text ∷ []) n = parse_int text ≡ some (pos n)
Asks _ n = ⊥

-- The reply with the members: an array to a request with a count, else one member or null.
abbrev pub popped_reply : List Bytes → List Bytes → Reply
popped_reply [] [] = null_bulk
popped_reply [] (m ∷ ms) = bulk m
popped_reply (text ∷ rest) ms = bulk_array ms

has_count : List Bytes → Bool
has_count [] = false
has_count (text ∷ rest) = true

members_reply-has_count :
    (rest ms : List Bytes) → members_reply (has_count rest) ms ≡ popped_reply rest ms
unfolding has_count
members_reply-has_count [] [] = refl
members_reply-has_count [] (m ∷ ms) = refl
members_reply-has_count (text ∷ rest) ms = refl

parse_count-Asks :
    (name key : Bytes) (rest : List Bytes) (n : ℕ)
    → Asks rest n
    → parse_count true (name ∷ key ∷ rest) ≡ inl (has_count rest, pos n)
unfolding parse_count has_count
parse_count-Asks name key [] n one = rw one refl
parse_count-Asks name key (text ∷ []) n e =
    let sign : ltb_ℤ (pos n) (pos 0) ≡ false = ground arith in rw (e, sign) refl
parse_count-Asks name key (text ∷ more ∷ rest) n h = elim h [ ]

module _ (b : Store) (laws : SetLaws b) (env : Env) (name key : Bytes) (rest : List Bytes)
    (w : b.World) (m : Members) (held : SetAt b env (key_pk env key) w m) where
  -- SPOP without a count, or with a count that is no negative integer, on a key that holds a set,
  -- removes as many distinct members of it as asked for (one without a count), or all of a smaller
  -- set, replies them (in an array if there is a count, else the one member or null), and changes
  -- no other key.
  pub handle_spop_lem :
      (n : ℕ)
      → Asks rest n
      → (ms : List Bytes) × (w' : b.World) × (handle_spop b env (name ∷ key ∷ rest) w
          ≡ (w', popped_reply rest ms))
        × (length ms ≡ at_most n (length m))
        × (length m ≡ length ms + length (removes ms m))
        × SetAt b env (key_pk env key) w' (removes ms m)
        × Elsewhere b (key_pk env key) w w'
  unfolding handle_spop reply_to removes
  handle_spop_lem n asks =
      let pk = key_pk env key in
      let with_count = has_count rest in
      let count = pos n in
      let parsed = parse_count-Asks name key rest n asks in
      let (ms, popped, distinct, number) = laws.spop_lem pk count w in
      elim (load_set b laws env pk w m held) [
        | inl (loaded, empty) ↦ (
          [],
          w,
          rw (handle_spop, parsed)
              (ap reply_of (
                  >>=-eq_ok (set_state b env pk) (pop_live b env pk with_count count) w w not_live
                    loaded)
                ∙ ap (λ r. (w, r)) (members_reply-has_count rest [])),
          rw empty (ground arith),
          omega arith,
          held,
          record { metas = λ j ne. refl; views = λ j ne. refl },
        )
        | inr (found, loaded, ready, filled) ↦
            let (gone, removed, total, w', ran, holds, after) =
              remove_lem b laws.counts env (Unit {0}) b.member laws.view pk type_set b.srem
                laws.srem_laws ms w found m ready filled in
            let all : gone ≡ length ms =
              same_count (sym removed ∙ laws.srem_laws.result pk ms w) ∙ distinct in
            (
              ms,
              w',
              rw (handle_spop, parsed)
                  (ap reply_of (
                      >>=-eq_ok (set_state b env pk) (pop_live b env pk with_count count) w w
                        (live found) loaded
                      ∙ >>=-eq_ok (b.spop pk count) _ w (b.srem pk ms w).0 ms popped
                      ∙ >>=-eq_ok (adjust_count b env pk type_set (negated (length ms)))
                          (λ (_ : Unit {0}). return (members_reply with_count ms))
                          (b.srem pk ms w).0 w' tt
                          (ap (λ n. adjust_count b env pk type_set (negated n) (b.srem pk ms w).0)
                              (sym all)
                            ∙ ran))
                    ∙ ap (λ r. (w', r)) (members_reply-has_count rest ms)),
              number m ready.holds.distinct ready.holds.items,
              omega (arith, total, all),
              holds,
              after,
            )
      ]
    where
      same_count : {a c : ℕ} → ok a ≡ ok c → a ≡ c
      same_count e = ground (arith, e)
