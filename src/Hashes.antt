-- ===== src/Hashes.antt =====
-- The Hash commands of internal/command/hashes.go: field items under a key whose meta item counts
-- them.
pub mod Laws
pub mod Spec
pub mod Pairs
pub mod Steps
pub mod Reads
pub mod Refinement
use redimos.Prelude.{
  ℕ, ◌%◌, Bool, true, false, Option, none, some, List, [], ◌∷◌, ◌++◌, Bytes, codes, if◌then◌else◌,
  length, drop, map, leb, ◌==◌,
}
use redimos.Prelude.Int.{ℤ, pos}
use redimos.Reply.{
  Reply, status, error, int, bulk, null_bulk, bulk_array, opt_bulk_array, err_wrong_type,
  err_not_integer, err_not_valid_float, err_collection_too_large,
}
use redimos.Store.{Meta, Store, M, ◌>>=◌, ◌>>◌, return, reply_to, type_hash}
use redimos.Args.Integer.{parse_int}
use redimos.Guard.{check_write, max_member_name_size}
use redimos.Keys.{Env, arg, key_pk}
use redimos.Strings.{ensure_type_expiring}
use redimos.Collections.{
  flag_reply, State, load_meta_state, result_cap_exceeded, adjust_count, on_state, negated,
  storable_members, member_storable,
}
use redimos.Collections.Entries.{lookup}
use redimos.Table.Dispatch.{err_wrong_number_of_args}

-- `splitHashPairs`: the fields, the values, and the pairs.
unfoldable pub split_hash_pairs : List Bytes → List Bytes × List Bytes × List (Bytes × Bytes)
split_hash_pairs [] = ([], [], [])
split_hash_pairs (f ∷ []) = ([], [], [])
split_hash_pairs (f ∷ v ∷ rest) =
    let (fields, values, pairs) = split_hash_pairs rest in (f ∷ fields, v ∷ values, (f, v) ∷ pairs)

-- HGETALL's flat array.
unfoldable pub interleaved : List (Bytes × Bytes) → List Bytes
interleaved [] = []
interleaved ((f, v) ∷ ps) = f ∷ v ∷ interleaved ps

abbrev pub optional_bulk : Option Bytes → Reply
optional_bulk none = null_bulk
optional_bulk (some v) = bulk v

module _ (b : Store) (env : Env) where
  -- `hashState`
  abbrev hash_state : Bytes → M b.World State
  hash_state pk = load_meta_state b env pk type_hash

  abbrev wrong : M b.World Reply
  wrong = return (error err_wrong_type)

  unfoldable pub ensure_hash_writable :
      Bytes → Bytes → List Bytes → List Bytes → M b.World (Unit {0})
  unfolding ensure_type_expiring
  ensure_hash_writable pk key fields values = do
    check_write b key fields values
    ensure_type_expiring b env pk type_hash

  -- What HSET and HMSET share: the number of new fields.
  unfoldable pub set_fields : Bytes → List Bytes × List Bytes × List (Bytes × Bytes) → M b.World ℕ
  unfolding ensure_hash_writable adjust_count
  set_fields key (fields, values, pairs) = do
    ensure_hash_writable (key_pk env key) key fields values
    added ← b.hset (key_pk env key) pairs
    adjust_count b env (key_pk env key) type_hash (pos added)
    return added

  unfoldable pub handle_hset : List Bytes → b.World → b.World × Reply
  unfolding set_fields reply_to
  handle_hset args =
      if length (drop 2 args) % 2 == 0
      then reply_to (do
        added ← set_fields (arg args 1) (split_hash_pairs (drop 2 args))
        return (int (pos added)))
      else (λ w. (w, error (err_wrong_number_of_args (codes "hset"))))

  unfoldable pub handle_hmset : List Bytes → b.World → b.World × Reply
  unfolding set_fields reply_to
  handle_hmset args =
      if length (drop 2 args) % 2 == 0
      then reply_to (do
        _ ← set_fields (arg args 1) (split_hash_pairs (drop 2 args))
        return (status (codes "OK")))
      else (λ w. (w, error (codes "ERR wrong number of arguments for HMSET")))

  -- The count of a field that a write has created.
  abbrev count_if : Bool → Bytes → M b.World (Unit {0})
  count_if created pk = if created then adjust_count b env pk type_hash (pos 1) else return tt

  abbrev set_nx_rest : Bytes → Bytes → Bytes → M b.World Reply
  set_nx_rest pk field val = do
    set ← b.hset_nx pk field val
    count_if set pk
    return (flag_reply set)

  unfoldable pub handle_hset_nx : List Bytes → b.World → b.World × Reply
  unfolding ensure_hash_writable adjust_count reply_to
  handle_hset_nx args =
      let pk = key_pk env (arg args 1) in
      reply_to (do
        ensure_hash_writable pk (arg args 1) (arg args 2 ∷ []) (arg args 3 ∷ [])
        set_nx_rest pk (arg args 2) (arg args 3))

  abbrev get_live : Bytes → Bytes → State → M b.World Reply
  get_live pk field =
      on_state
        (λ (_ : Meta).
          if member_storable field
          then (do v ← b.hget pk field; return (optional_bulk v))
          else return null_bulk)
        (return null_bulk) wrong

  unfoldable pub handle_hget : List Bytes → b.World → b.World × Reply
  unfolding load_meta_state member_storable reply_to
  handle_hget args =
      let pk = key_pk env (arg args 1) in
      reply_to (do state ← hash_state pk; get_live pk (arg args 2) state)

  abbrev mget_live : Bytes → List Bytes → State → M b.World Reply
  mget_live pk fields =
      on_state
        (λ (_ : Meta). do
          vals ← b.hmget pk (storable_members fields)
          return (opt_bulk_array (map (λ f. lookup f vals) fields)))
        (return (opt_bulk_array (map (λ f. none) fields))) wrong

  unfoldable pub handle_hmget : List Bytes → b.World → b.World × Reply
  unfolding load_meta_state storable_members lookup reply_to
  handle_hmget args =
      let pk = key_pk env (arg args 1) in
      reply_to (do state ← hash_state pk; mget_live pk (drop 2 args) state)

  -- A whole-hash read, unless the count is past the result cap.
  abbrev read_all : M b.World (List Bytes) → State → M b.World Reply
  read_all read =
      on_state
        (λ m.
          if result_cap_exceeded b env m.count
          then return (error err_collection_too_large)
          else (do elems ← read; return (bulk_array elems)))
        (return (bulk_array [])) wrong

  unfoldable pub handle_hget_all : List Bytes → b.World → b.World × Reply
  unfolding load_meta_state result_cap_exceeded interleaved reply_to
  handle_hget_all args =
      let pk = key_pk env (arg args 1) in
      reply_to (do
        state ← hash_state pk
        read_all (do fields ← b.hget_all pk; return (interleaved fields)) state)

  unfoldable pub handle_hkeys : List Bytes → b.World → b.World × Reply
  unfolding load_meta_state result_cap_exceeded reply_to
  handle_hkeys args =
      let pk = key_pk env (arg args 1) in
      reply_to (do state ← hash_state pk; read_all (b.hkeys pk) state)

  unfoldable pub handle_hvals : List Bytes → b.World → b.World × Reply
  unfolding load_meta_state result_cap_exceeded reply_to
  handle_hvals args =
      let pk = key_pk env (arg args 1) in
      reply_to (do state ← hash_state pk; read_all (b.hvals pk) state)

  abbrev del_live : Bytes → List Bytes → State → M b.World Reply
  del_live pk names =
      on_state
        (λ (_ : Meta). do
          removed ← b.hdel pk names
          adjust_count b env pk type_hash (negated removed)
          return (int (pos removed)))
        (return (int (pos 0))) wrong

  unfoldable pub handle_hdel : List Bytes → b.World → b.World × Reply
  unfolding load_meta_state adjust_count storable_members reply_to
  handle_hdel args =
      let pk = key_pk env (arg args 1) in
      reply_to (do state ← hash_state pk; del_live pk (storable_members (drop 2 args)) state)

  abbrev exists_live : Bytes → Bytes → State → M b.World Reply
  exists_live pk field =
      on_state
        (λ (_ : Meta).
          if member_storable field
          then (do exists ← b.hexists pk field; return (flag_reply exists))
          else return (int (pos 0)))
        (return (int (pos 0))) wrong

  unfoldable pub handle_hexists : List Bytes → b.World → b.World × Reply
  unfolding load_meta_state member_storable reply_to
  handle_hexists args =
      let pk = key_pk env (arg args 1) in
      reply_to (do state ← hash_state pk; exists_live pk (arg args 2) state)

  abbrev len_live : State → M b.World Reply
  len_live = on_state (λ m. return (int m.count)) (return (int (pos 0))) wrong

  unfoldable pub handle_hlen : List Bytes → b.World → b.World × Reply
  unfolding load_meta_state reply_to
  handle_hlen args = reply_to (do state ← hash_state (key_pk env (arg args 1)); len_live state)

  abbrev strlen_live : Bytes → Bytes → State → M b.World Reply
  strlen_live pk field =
      on_state
        (λ (_ : Meta).
          if member_storable field
          then (do n ← b.hstrlen pk field; return (int (pos n)))
          else return (int (pos 0)))
        (return (int (pos 0))) wrong

  unfoldable pub handle_hstrlen : List Bytes → b.World → b.World × Reply
  unfolding load_meta_state member_storable reply_to
  handle_hstrlen args =
      let pk = key_pk env (arg args 1) in
      reply_to (do state ← hash_state pk; strlen_live pk (arg args 2) state)

  unfoldable pub handle_hincr_by : List Bytes → b.World → b.World × Reply
  unfolding ensure_hash_writable adjust_count reply_to
  handle_hincr_by args =
      let pk = key_pk env (arg args 1) in
      elim (parse_int (arg args 3)) [
        | none ↦ λ w. (w, error err_not_integer)
        | some delta ↦ reply_to (do
          ensure_hash_writable pk (arg args 1) (arg args 2 ∷ []) []
          next ← b.hincr_by pk (arg args 2) delta
          count_if next.1 pk
          return (int next.0))
      ]

  unfoldable pub handle_hincr_by_float : List Bytes → b.World → b.World × Reply
  unfolding ensure_hash_writable adjust_count reply_to
  handle_hincr_by_float args =
      let pk = key_pk env (arg args 1) in
      elim (b.parse_float (arg args 3)) [
        | none ↦ λ w. (w, error err_not_valid_float)
        | some delta ↦ reply_to (do
          ensure_hash_writable pk (arg args 1) (arg args 2 ∷ []) []
          next ← b.hincr_by_float pk (arg args 2) delta
          count_if next.1 pk
          return (bulk next.0))
      ]
