-- ===== src/Sets/Stores.antt =====
-- SUNIONSTORE, SINTERSTORE and SDIFFSTORE replace the destination, whatever it held.
use redimos.Prelude.{
  ℕ, ◌≤◌, ◌≡◌, refl, ap, ◌∙◌, Bool, true, false, ◌||◌, Bool-cases, inl, inr, none, some, List, [],
  ◌∷◌, Bytes, map, if◌then◌else◌, length, bytes_eq, bytes_eq_self, arith,
}
use redimos.Prelude.Int.{pos}
use redimos.Reply.{int, ok}
use redimos.Store.{Store, return, reply_of, reply_to, >>=-eq_ok, >>=-eq_result, type_set}
use redimos.Store.Laws.{is_some}
use redimos.Keys.{Env, key_pk, delete_meta}
use redimos.Guard.{check_write}
use redimos.Guard.Limits.{AllWithin, Fits, check_write-Fits}
use redimos.Keys.Del.{delete_meta_lem, delete_meta_result, meta-delete_meta}
use redimos.Collections.{member_storable}
use redimos.Collections.Storable.{Storable, storable-within}
use redimos.Sets.Membership.{or_swap, or_false}
use redimos.Strings.{ensure_type_expiring}
use redimos.Collections.Entries.{lookup, put, puts, listed, lookup-put}
use redimos.Collections.Stored.{Unmoved-trans}
use redimos.Sets.{
  add_members, compute_set_algebra, replace_set, store_members, store_result,
  handle_set_algebra_store,
}
use redimos.Sets.Algebra.{SetOp}
use redimos.Sets.Laws.{SetLaws}
use redimos.Sets.Steps.{Members, units, SetAt, Elsewhere, open_set, add_members_lem}
use redimos.Sets.Combine.{AllSets, wanted, has, some_has, compute_set_algebra_lem}

has-put : (x y : Bytes) (m : Members) → has x (put y tt m) ≡ (bytes_eq y x || has x m)
unfolding is_some
has-put x y m =
    ap is_some (lookup-put y x tt m)
    ∙ elim (Bool-cases (bytes_eq y x)) [ inl same ↦ rw same | inr differ ↦ rw differ ]

has-puts :
    (x : Bytes) (ys : List Bytes) (m : Members)
    → has x (puts (units ys) m) ≡ (listed x ys || has x m)
unfolding puts listed
has-puts x [] m = refl
has-puts x (y ∷ ys) m =
    has-puts x ys (put y tt m)
    ∙ ap (λ a. listed x ys || a) (has-put x y m)
    ∙ or_swap (listed x ys) (bytes_eq y x) (has x m)

-- Members too long for a sort key are in no operand, so in no result.
abbrev pub AllStorable : List Members → Type 0
AllStorable [] = Unit
AllStorable (m ∷ ms) = Storable m × AllStorable ms

module _ (x : Bytes) (long : member_storable x ≡ false) where
  some_has-long : (ms : List Members) → AllStorable ms → some_has x ms ≡ false
  unfolding some_has is_some
  some_has-long [] s = refl
  some_has-long (m ∷ ms) (s, rest) = rw (s x long) (some_has-long ms rest)

  wanted-long : (op : SetOp) (ms : List Members) → AllStorable ms → wanted op x ms ≡ false
  unfolding wanted is_some
  wanted-long op [] s = refl
  wanted-long SetOp.union (m ∷ ms) (s, rest) = rw (s x long) (some_has-long ms rest)
  wanted-long SetOp.inter (m ∷ ms) (s, rest) = rw (s x long)
  wanted-long SetOp.diff (m ∷ ms) (s, rest) = rw (s x long)

within :
    (xs : List Bytes)
    → ((x : Bytes) → listed x xs ≡ true → member_storable x ≡ true)
    → AllWithin 1023 xs
unfolding listed
within [] short = tt
within (x ∷ xs) short = (
  storable-within x (short x (rw (bytes_eq_self x))),
  within xs (λ y later.
      short y
        (elim (Bool-cases (bytes_eq x y)) [ inl same ↦ rw same | inr differ ↦ rw differ later ])),
)

module _ (b : Store) (laws : SetLaws b) (env : Env) where
  -- Deleting the meta item, then the members, leaves the empty set.
  member-delete_meta :
      (pk j : Bytes) (w : b.World) → b.member (delete_meta b pk w).0 j ≡ b.member w j
  member-delete_meta pk j w =
      ap (λ r. b.member r.0 j) (delete_meta_lem b laws.counts.strings.metas pk w)
      ∙ after (is_some (b.meta w pk))
    where
      after :
          (existed : Bool)
          → b.member
              (if existed then b.enqueue pk (b.delete_meta pk w).0 else (b.delete_meta pk w).0)
              j
            ≡ b.member w j
      after true =
          laws.view.view-enqueue pk j (b.delete_meta pk w).0 ∙ laws.view.view-delete_meta pk j w
      after false = laws.view.view-delete_meta pk j w

  cleared_lem :
      (pk : Bytes) (w : b.World)
      → let w' = (b.delete_members pk (delete_meta b pk w).0).0 in
        SetAt b env pk w' [] × Elsewhere b pk w w'
  cleared_lem pk w =
      let w1 = (delete_meta b pk w).0 in
      let w2 = (b.delete_members pk w1).0 in
      let metas = λ (j : Bytes).
        laws.counts.strings.meta-delete_members pk j w1
        ∙ meta-delete_meta b laws.counts.strings.metas pk j w in
      let members = λ (j : Bytes). laws.view.view-delete_members pk j w1 in
      (
        (let gone : b.meta w2 pk ≡ none = metas pk ∙ rw (bytes_eq_self pk) in
            let bare : b.member w2 pk ≡ (λ _. none) = members pk ∙ rw (bytes_eq_self pk) in
            rw gone (refl, λ x. ap (λ g. g x) bare)),
        record {
          metas = λ j ne. metas j ∙ rw ne;
          views = λ j ne. members j ∙ rw ne (member-delete_meta pk j w);
        },
      )

  store_members_lem :
      (pk : Bytes) (r : List Bytes) (w : b.World)
      → SetAt b env pk w []
      → (w' : b.World) × (store_members b env pk r w
          ≡ (w', ok (int (pos (length (puts (units r) []))))))
        × SetAt b env pk w' (puts (units r) [])
        × Elsewhere b pk w w'
  unfolding store_members puts
  store_members_lem pk [] w held =
      (w, refl, held, record { metas = λ j ne. refl; views = λ j ne. refl })
  store_members_lem pk (x ∷ xs) w held =
      let (w1, found, opened, ready, before) = open_set b laws env pk w [] held in
      let (new, total, w', ran, holds, after) =
        add_members_lem b laws env pk x xs w1 found [] ready in
      let all : new ≡ length (puts (units (x ∷ xs)) []) = omega (arith, total) in
      (
        w',
        >>=-eq_ok (ensure_type_expiring b env pk type_set) _ w w1 tt opened
            ∙ >>=-eq_ok (add_members b env pk (x ∷ xs)) (λ (n : ℕ). return (int (pos n))) w1 w' new
                ran
            ∙ ap (λ n. (w', ok (int (pos n)))) all,
        holds,
        Unmoved-trans before after,
      )

  replace_set_lem :
      (dest : Bytes) (r : List Bytes) (w : b.World)
      → Fits dest r []
      → (w' : b.World) × (replace_set b env dest r w
          ≡ (w', ok (int (pos (length (puts (units r) []))))))
        × SetAt b env (key_pk env dest) w' (puts (units r) [])
        × Elsewhere b (key_pk env dest) w w'
  unfolding replace_set
  replace_set_lem dest r w fits =
      let pk = key_pk env dest in
      let w1 = (delete_meta b pk w).0 in
      let (held, before) = cleared_lem pk w in
      let (n, emptied) = laws.counts.strings.delete_members_result pk w1 in
      let (w', ran, holds, after) = store_members_lem pk r (b.delete_members pk w1).0 held in
      (
        w',
        >>=-eq_ok (check_write b dest r []) _ w w tt (check_write-Fits b dest r [] w fits)
            ∙ >>=-eq_result (delete_meta b pk) _ w (is_some (b.meta w pk))
                (delete_meta_result b laws.counts.strings.metas pk w)
            ∙ >>=-eq_result (b.delete_members pk) (λ (_ : ℕ). store_members b env pk r) w1 n emptied
            ∙ ran,
        holds,
        Unmoved-trans before after,
      )

  -- SUNIONSTORE, SINTERSTORE and SDIFFSTORE over keys that each hold a set of storable members, into
  -- a destination whose name fits the limit, whatever it held: the destination then holds exactly
  -- the members of the union, the intersection or the difference, the reply is their number, and no
  -- other key changes.
  pub handle_set_algebra_store_lem :
      (op : SetOp) (name dest : Bytes) (keys : List Bytes) (ms : List Members) (w : b.World)
      → AllSets b env w (map (key_pk env) keys) ms
      → AllStorable ms
      → length dest ≤ 1024
      → (w' : b.World) × (m : Members) × (handle_set_algebra_store b env op (name ∷ dest ∷ keys) w
          ≡ (w', int (pos (length m))))
        × SetAt b env (key_pk env dest) w' m
        × ((x : Bytes) → has x m ≡ wanted op x ms)
        × Elsewhere b (key_pk env dest) w w'
  unfolding handle_set_algebra_store reply_to lookup is_some
  handle_set_algebra_store_lem op name dest keys ms w held storable short =
      let pks = map (key_pk env) keys in
      let (r, ran, members, once) = compute_set_algebra_lem b laws env w op pks ms held in
      let fits : Fits dest r [] = record {
        key_fits = short;
        members_fit = within r (λ x there. elim (Bool-cases (member_storable x)) [
          | inl fine ↦ fine
          | inr long ↦ absurd (ground (arith, there, members x, wanted-long x long op ms storable))
        ]);
        values_fit = tt;
      } in
      let (w', runs, holds, elsewhere) = replace_set_lem dest r w fits in
      (
        w',
        puts (units r) [],
        ap reply_of (
            >>=-eq_ok (compute_set_algebra b env op pks) (store_result b env dest) w w (some r) ran
            ∙ runs),
        holds,
        (λ x. has-puts x r [] ∙ or_false (listed x r) ∙ members x),
        elsewhere,
      )
