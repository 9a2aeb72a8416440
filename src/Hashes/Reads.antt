-- ===== src/Hashes/Reads.antt =====
-- HGET, HEXISTS, HSTRLEN, HMGET and HLEN on a key that holds a map.
use redimos.Prelude.{
  ℕ, ◌≡◌, refl, ap, sym, ◌∙◌, Bool, true, false, Bool-cases, inl, inr, Option, List, [], ◌∷◌, Bytes,
  length, map, bytes_eq, bytes_eq_self, bytes_eq_iff, ap₂, arith,
}
use redimos.Prelude.Int.{pos}
use redimos.Reply.{Reply, int, opt_bulk_array, ok}
use redimos.Store.{Store, Meta, M, ◌>>=◌, return, reply_of, reply_to, >>=-eq_ok, type_hash}
use redimos.Store.Laws.{is_some}
use redimos.Keys.{Env, key_pk}
use redimos.Collections.{
  flag_reply, State, live, not_live, load_meta_state, member_storable, storable_members,
}
use redimos.Collections.Entries.{lookup, listed}
use redimos.Collections.Stored.{Holds}
use redimos.Collections.Steps.{load_lem}
use redimos.Collections.Storable.{Storable}
use redimos.Hashes.{
  get_live, exists_live, strlen_live, mget_live, len_live, handle_hget, handle_hexists,
  handle_hstrlen, handle_hmget, handle_hlen, optional_bulk,
}
use redimos.Hashes.Laws.{HashLaws, value_length}
use redimos.Hashes.Spec.{Command, Map, spec}
use redimos.Hashes.Steps.{HashAt, Leaves}

-- A requested name that the loop drops is not storable.
dropped :
    (f : Bytes) (fs : List Bytes)
    → listed f fs ≡ true
    → listed f (storable_members fs) ≡ false
    → member_storable f ≡ false
unfolding listed storable_members
dropped f [] asked gone = ground (arith, asked)
dropped f (g ∷ gs) asked gone = elim (Bool-cases (member_storable g)) [
  | inl fits ↦ elim (Bool-cases (bytes_eq g f)) [
    | inl same ↦
        let there : listed f (storable_members (g ∷ gs)) ≡ true = rw (fits, same) in
        absurd (ground (arith, there, gone))
    | inr differ ↦
        let same : listed f (storable_members (g ∷ gs)) ≡ listed f (storable_members gs) =
          rw (fits, differ) in
        dropped f gs (ground (arith, differ, asked)) (sym same ∙ gone)
  ]
  | inr long ↦ elim (Bool-cases (bytes_eq g f)) [
    | inl same ↦ ap member_storable (sym ((bytes_eq_iff g f).0 same)) ∙ long
    | inr differ ↦
        let same : listed f (storable_members (g ∷ gs)) ≡ listed f (storable_members gs) =
          rw long in
        dropped f gs (ground (arith, differ, asked)) (sym same ∙ gone)
  ]
]

map-listed :
    {g h : Bytes → Option Bytes} (fs : List Bytes)
    → ((f : Bytes) → listed f fs ≡ true → g f ≡ h f)
    → map g fs ≡ map h fs
unfolding listed
map-listed [] same = refl
map-listed (f ∷ fs) same =
    ap₂ (λ x xs. x ∷ xs) (same f (rw (bytes_eq_self f)))
      (map-listed fs (λ k later.
        same k (elim (Bool-cases (bytes_eq f k)) [ inl e ↦ rw e | inr n ↦ rw n later ])))

module _ (b : Store) (laws : HashLaws b) (env : Env) (name key : Bytes) (w : b.World) (m : Map)
    (held : HashAt b env (key_pk env key) w m) where
  -- A read on the state of the key that replies the same on an empty map as on an absent key.
  read_lem :
      (rest : State → M b.World Reply) (r : Reply)
      → (m ≡ [] → rest not_live w ≡ (w, ok r))
      → ((found : Meta)
          → Holds Bytes type_hash found (b.field w (key_pk env key)) m
          → rest (live found) w ≡ (w, ok r))
      → Leaves b env
          (key_pk env key)
          w
          (reply_of ((load_meta_state b env (key_pk env key) type_hash >>= rest) w))
          (m, r)
  read_lem rest r absent present =
      let pk = key_pk env key in
      (
        w,
        elim (load_lem b laws.counts env Bytes b.field laws.view pk type_hash w m held) [
          | inl (loaded, empty) ↦ ap reply_of (
              >>=-eq_ok (load_meta_state b env pk type_hash) rest w w not_live loaded
              ∙ absent empty)
          | inr (found, loaded, ready, filled) ↦ ap reply_of (
              >>=-eq_ok (load_meta_state b env pk type_hash) rest w w (live found) loaded
              ∙ present found ready.holds)
        ],
        held,
        record { metas = λ j ne. refl; views = λ j ne. refl },
      )

  pub handle_hget_lem :
      (f : Bytes)
      → Storable m
      → Leaves b env
          (key_pk env key)
          w
          (handle_hget b env (name ∷ key ∷ f ∷ []) w)
          (spec (Command.hget f) m)
  unfolding handle_hget reply_to spec lookup
  handle_hget_lem f storable =
      let pk = key_pk env key in
      read_lem (get_live b env pk f) (optional_bulk (lookup f m)) (λ empty. rw empty)
        (λ found holds. elim (Bool-cases (member_storable f)) [
          | inl fits ↦ rw fits (
              >>=-eq_ok (b.hget pk f) (λ (v : Option Bytes). return (optional_bulk v)) w w
                (b.field w pk f) (laws.hget_lem pk f w)
              ∙ ap (λ v. (w, ok (optional_bulk v))) (holds.items f))
          | inr long ↦ rw (long, storable f long)
        ])

  pub handle_hexists_lem :
      (f : Bytes)
      → Storable m
      → Leaves b env
          (key_pk env key)
          w
          (handle_hexists b env (name ∷ key ∷ f ∷ []) w)
          (spec (Command.hexists f) m)
  unfolding handle_hexists reply_to spec lookup is_some
  handle_hexists_lem f storable =
      let pk = key_pk env key in
      read_lem (exists_live b env pk f) (flag_reply (is_some (lookup f m))) (λ empty. rw empty)
        (λ found holds. elim (Bool-cases (member_storable f)) [
          | inl fits ↦ rw fits (
              >>=-eq_ok (b.hexists pk f) (λ (x : Bool). return (flag_reply x)) w w
                (is_some (b.field w pk f)) (laws.hexists_lem pk f w)
              ∙ ap (λ v. (w, ok (flag_reply (is_some v)))) (holds.items f))
          | inr long ↦ rw (long, storable f long)
        ])

  pub handle_hstrlen_lem :
      (f : Bytes)
      → Storable m
      → Leaves b env
          (key_pk env key)
          w
          (handle_hstrlen b env (name ∷ key ∷ f ∷ []) w)
          (spec (Command.hstrlen f) m)
  unfolding handle_hstrlen reply_to spec lookup
  handle_hstrlen_lem f storable =
      let pk = key_pk env key in
      read_lem (strlen_live b env pk f) (int (pos (value_length (lookup f m)))) (λ empty. rw empty)
        (λ found holds. elim (Bool-cases (member_storable f)) [
          | inl fits ↦ rw fits (
              >>=-eq_ok (b.hstrlen pk f) (λ (n : ℕ). return (int (pos n))) w w
                (value_length (b.field w pk f)) (laws.hstrlen_lem pk f w)
              ∙ ap (λ v. (w, ok (int (pos (value_length v))))) (holds.items f))
          | inr long ↦ rw (long, storable f long)
        ])

  pub handle_hlen_lem :
      Leaves b env (key_pk env key) w (handle_hlen b env (name ∷ key ∷ []) w) (spec Command.hlen m)
  unfolding handle_hlen reply_to spec
  handle_hlen_lem =
      read_lem (len_live b env) (int (pos (length m))) (λ empty. rw empty)
        (λ found holds. ap (λ c. (w, ok (int c))) holds.count_is)

  pub handle_hmget_lem :
      (fs : List Bytes)
      → Storable m
      → Leaves b env
          (key_pk env key)
          w
          (handle_hmget b env (name ∷ key ∷ fs) w)
          (m, opt_bulk_array (map (λ f. lookup f m) fs))
  unfolding handle_hmget reply_to lookup
  handle_hmget_lem fs storable =
      let pk = key_pk env key in
      let (vals, ran, answers) = laws.hmget_lem pk (storable_members fs) w in
      read_lem (mget_live b env pk fs) (opt_bulk_array (map (λ f. lookup f m) fs))
        (λ empty. rw empty)
        (λ found holds.
          >>=-eq_ok (b.hmget pk (storable_members fs))
            (λ (vs : Map). return (opt_bulk_array (map (λ f. lookup f vs) fs))) w w vals ran
          ∙ ap (λ vs. (w, ok (opt_bulk_array vs)))
              (map-listed fs (λ f asked.
                answers f ∙ elim (Bool-cases (listed f (storable_members fs))) [
                  | inl here ↦ rw here (holds.items f)
                  | inr gone ↦ rw (gone, storable f (dropped f fs asked gone))
                ])))
