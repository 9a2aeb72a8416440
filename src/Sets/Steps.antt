-- ===== src/Sets/Steps.antt =====
-- The steps of SADD, SREM and SISMEMBER on a key that holds a set, and the handlers.
use redimos.Prelude.{
  ℕ, ◌+◌, ◌-◌, ◌<◌, ◌≡◌, refl, ap, sym, subst, ◌∙◌, Bool, Bool-cases, ◌⊎◌, inl, inr, Option, List,
  [], ◌∷◌, Bytes, length, arith,
}
use redimos.Prelude.Int.{pos}
use redimos.Reply.{Reply, int, ok}
use redimos.Store.{
  Store, Meta, M, ◌>>=◌, return, reply_of, reply_to, >>=-eq_ok, >>=-eq_result, type_set,
}
use redimos.Store.Laws.{is_some}
use redimos.Keys.{Env, key_pk}
use redimos.Guard.{check_write}
use redimos.Guard.Limits.{Fits, check_write-Fits}
use redimos.Strings.{ensure_type_expiring}
use redimos.Collections.{
  State, live, not_live, load_meta_state, adjust_count, negated, flag_reply, member_storable,
  storable_members,
}
use redimos.Collections.Entries.{names, lookup, puts, removes, removes-empty}
use redimos.Collections.Stored.{Holds, Stored, Unmoved, Unmoved-trans}
use redimos.Collections.Steps.{Ready, load_lem, open_lem, write_lem, remove_lem}
use redimos.Collections.Storable.{Storable, removes-storable_members}
use redimos.Sets.{
  ensure_set_writable, add_members, remove_members, handle_sadd, handle_srem, handle_sis_member,
  handle_scard, rem_live, member_live, card_live,
}
use redimos.Sets.Laws.{SetLaws}

-- A set for a client: a map to the unit.
abbrev pub Members : Type 0
Members = List (Bytes × Unit {0})

abbrev pub units : List Bytes → Members
units [] = []
units (x ∷ xs) = (x, tt) ∷ units xs

pub names-units : (xs : List Bytes) → names (units xs) ≡ xs
names-units [] = refl
names-units (x ∷ xs) = ap (λ ys. x ∷ ys) (names-units xs)

-- The key is a set that holds the members `m` for a client, or is not live and `m` is empty.
abbrev pub SetAt : (b : Store) → Env → Bytes → b.World → Members → Type 0
SetAt b env pk w m = Stored (Unit {0}) env.now type_set (b.meta w pk) (b.member w pk) m

-- The two worlds differ at most in the key's meta item and members.
abbrev pub Elsewhere : (b : Store) → Bytes → b.World → b.World → Type 0
Elsewhere b pk w w' = Unmoved b (Bytes → Option (Unit {0})) b.member pk w w'

-- A handler replies `r`, leaves the members `m` under the key, and changes no other key.
abbrev pub Leaves : (b : Store) → Env → Bytes → b.World → b.World × Reply → Members × Reply → Type 0
Leaves b env pk w run (m, r) =
    (w' : b.World) × (run ≡ (w', r)) × SetAt b env pk w' m × Elsewhere b pk w w'

module _ (b : Store) (laws : SetLaws b) (env : Env) (pk : Bytes) where
  -- The key as the type step leaves it, with the members `m`.
  abbrev pub ReadyAt : Meta → Members → b.World → Type 0
  ReadyAt found m w = Ready b laws.counts env (Unit {0}) b.member laws.view pk type_set found m w

  pub load_set :
      (w : b.World) (m : Members)
      → SetAt b env pk w m
      → ((load_meta_state b env pk type_set w ≡ (w, ok not_live)) × (m ≡ []))
        ⊎ ((found : Meta) × (load_meta_state b env pk type_set w ≡ (w, ok (live found)))
            × ReadyAt found m w
            × (0 < length m))
  load_set = load_lem b laws.counts env (Unit {0}) b.member laws.view pk type_set

  pub open_set :
      (w : b.World) (m : Members)
      → SetAt b env pk w m
      → (w' : b.World) × (found : Meta) × (ensure_type_expiring b env pk type_set w ≡ (w', ok tt))
        × ReadyAt found m w'
        × Elsewhere b pk w w'
  open_set = open_lem b laws.counts env (Unit {0}) b.member laws.view pk type_set

  pub add_members_lem :
      (x : Bytes) (xs : List Bytes) (w : b.World) (found : Meta) (m : Members)
      → ReadyAt found m w
      → (new : ℕ) × (length (puts (units (x ∷ xs)) m) ≡ new + length m)
        × (w' : b.World) × (add_members b env pk (x ∷ xs) w ≡ (w', ok new))
        × SetAt b env pk w' (puts (units (x ∷ xs)) m)
        × Elsewhere b pk w w'
  unfolding add_members
  add_members_lem x xs w found m ready =
      let ys = names (units (x ∷ xs)) in
      let (new, written, total, w', ran, holds, after) =
        write_lem b laws.counts env (Unit {0}) b.member laws.view pk type_set
          (λ pk' ps. b.sadd pk' (names ps)) laws.sadd_laws x tt (units xs) w found m ready in
      (
        new,
        total,
        w',
        ap (λ zs. add_members b env pk zs w) (sym (names-units (x ∷ xs)))
            ∙ >>=-eq_result (b.sadd pk ys) _ w new written
            ∙ >>=-eq_ok (adjust_count b env pk type_set (pos new)) (λ (_ : Unit {0}). return new)
                (b.sadd pk ys w).0 w' tt ran,
        holds,
        after,
      )

  pub remove_members_lem :
      (xs : List Bytes) (w : b.World) (found : Meta) (m : Members)
      → ReadyAt found m w
      → 0 < length m
      → (gone : ℕ) × (length m ≡ gone + length (removes xs m))
        × (w' : b.World) × (remove_members b env pk xs w ≡ (w', ok gone))
        × SetAt b env pk w' (removes xs m)
        × Elsewhere b pk w w'
  unfolding remove_members
  remove_members_lem xs w found m ready filled =
      let (gone, deleted, total, w', ran, holds, after) =
        remove_lem b laws.counts env (Unit {0}) b.member laws.view pk type_set b.srem laws.srem_laws
          xs w found m ready filled in
      (
        gone,
        total,
        w',
        >>=-eq_result (b.srem pk xs) _ w gone deleted
            ∙ >>=-eq_ok (adjust_count b env pk type_set (negated gone))
                (λ (_ : Unit {0}). return gone) (b.srem pk xs w).0 w' tt ran,
        holds,
        after,
      )

module _ (b : Store) (laws : SetLaws b) (env : Env) (name key : Bytes) (w : b.World) (m : Members)
    (held : SetAt b env (key_pk env key) w m) where
  pub handle_sadd_lem :
      (x : Bytes) (xs : List Bytes)
      → Fits key (x ∷ xs) []
      → Leaves b env
          (key_pk env key)
          w
          (handle_sadd b env (name ∷ key ∷ x ∷ xs) w)
          (puts (units (x ∷ xs)) m, int (pos (length (puts (units (x ∷ xs)) m) - length m)))
  unfolding handle_sadd reply_to ensure_set_writable
  handle_sadd_lem x xs fits =
      let pk = key_pk env key in
      let (w1, found, opened, ready, before) = open_set b laws env pk w m held in
      let (new, total, w', ran, holds, after) =
        add_members_lem b laws env pk x xs w1 found m ready in
      let counted : new ≡ length (puts (units (x ∷ xs)) m) - length m = omega (arith, total) in
      (
        w',
        ap reply_of (
            >>=-eq_ok (ensure_set_writable b env pk key (x ∷ xs)) _ w w1 tt (
              >>=-eq_ok (check_write b key (x ∷ xs) []) _ w w tt
                (check_write-Fits b key (x ∷ xs) [] w fits)
              ∙ opened)
            ∙ >>=-eq_ok (add_members b env pk (x ∷ xs)) (λ (n : ℕ). return (int (pos n))) w1 w' new
                ran
            ∙ ap (λ n. (w', ok (int (pos n)))) counted),
        holds,
        Unmoved-trans before after,
      )

  pub handle_srem_lem :
      (xs : List Bytes)
      → Storable m
      → Leaves b env
          (key_pk env key)
          w
          (handle_srem b env (name ∷ key ∷ xs) w)
          (removes xs m, int (pos (length m - length (removes xs m))))
  unfolding handle_srem reply_to
  handle_srem_lem xs storable =
      let pk = key_pk env key in
      let same = removes-storable_members xs m storable in
      let rest = rem_live b env pk (storable_members xs) in
      elim (load_set b laws env pk w m held) [
        | inl (loaded, empty) ↦
            let nothing : 0 ≡ length m - length (removes xs m) = omega (arith, ap length empty) in
            (
              w,
              ap reply_of (>>=-eq_ok (load_meta_state b env pk type_set) rest w w not_live loaded)
                  ∙ ap (λ n. (w, int (pos n))) nothing,
              subst (λ ys. SetAt b env pk w ys) (sym (removes-empty xs m empty)) held,
              record { metas = λ j ne. refl; views = λ j ne. refl },
            )
        | inr (found, loaded, ready, filled) ↦
            let (gone, total, w', ran, holds, after) =
              remove_members_lem b laws env pk (storable_members xs) w found m ready filled in
            let removed : gone ≡ length m - length (removes xs m) =
              omega (arith, total, ap length same) in
            (
              w',
              ap reply_of (
                    >>=-eq_ok (load_meta_state b env pk type_set) rest w w (live found) loaded
                    ∙ >>=-eq_ok (remove_members b env pk (storable_members xs))
                        (λ (n : ℕ). return (int (pos n))) w w' gone ran)
                  ∙ ap (λ n. (w', int (pos n))) removed,
              subst (λ ys. SetAt b env pk w' ys) same holds,
              after,
            )
      ]

  -- A read on the state of the key that replies the same on an empty set as on an absent key.
  read_lem :
      (rest : State → M b.World Reply) (r : Reply)
      → (m ≡ [] → rest not_live w ≡ (w, ok r))
      → ((found : Meta)
          → Holds (Unit {0}) type_set found (b.member w (key_pk env key)) m
          → rest (live found) w ≡ (w, ok r))
      → Leaves b env
          (key_pk env key)
          w
          (reply_of ((load_meta_state b env (key_pk env key) type_set >>= rest) w))
          (m, r)
  read_lem rest r absent present =
      let pk = key_pk env key in
      (
        w,
        elim (load_set b laws env pk w m held) [
          | inl (loaded, empty) ↦ ap reply_of (
              >>=-eq_ok (load_meta_state b env pk type_set) rest w w not_live loaded ∙ absent empty)
          | inr (found, loaded, ready, filled) ↦ ap reply_of (
              >>=-eq_ok (load_meta_state b env pk type_set) rest w w (live found) loaded
              ∙ present found ready.holds)
        ],
        held,
        record { metas = λ j ne. refl; views = λ j ne. refl },
      )

  pub handle_sis_member_lem :
      (x : Bytes)
      → Storable m
      → Leaves b env
          (key_pk env key)
          w
          (handle_sis_member b env (name ∷ key ∷ x ∷ []) w)
          (m, flag_reply (is_some (lookup x m)))
  unfolding handle_sis_member reply_to lookup is_some
  handle_sis_member_lem x storable =
      let pk = key_pk env key in
      read_lem (member_live b env pk x) (flag_reply (is_some (lookup x m))) (λ empty. rw empty)
        (λ found holds. elim (Bool-cases (member_storable x)) [
          | inl fits ↦ rw fits (
              >>=-eq_ok (b.sis_member pk x) (λ (y : Bool). return (flag_reply y)) w w
                (is_some (b.member w pk x)) (laws.sis_member_lem pk x w)
              ∙ ap (λ v. (w, ok (flag_reply (is_some v)))) (holds.items x))
          | inr long ↦ rw (long, storable x long)
        ])

  pub handle_scard_lem :
      Leaves b env
        (key_pk env key)
        w
        (handle_scard b env (name ∷ key ∷ []) w)
        (m, int (pos (length m)))
  unfolding handle_scard reply_to
  handle_scard_lem =
      read_lem (card_live b env) (int (pos (length m))) (λ empty. rw empty)
        (λ found holds. ap (λ c. (w, ok (int c))) holds.count_is)
