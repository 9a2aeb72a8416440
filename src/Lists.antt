-- ===== src/Lists.antt =====
-- The List commands of internal/command/lists.go, over the count
-- in the key's meta item and the element items of the store.
pub mod Remove
pub mod Combined
pub mod Removal
pub mod Laws
pub mod Counts
pub mod Push
pub mod Pop
use redimos.Prelude.{
  ℕ, suc, ◌-◌, ◌+◌, Bool, true, false, Option, none, some, List, [], ◌∷◌, ◌++◌, Bytes, codes,
  if◌then◌else◌, length, set, take, drop, ◌==◌, bytes_eq, ◌||◌, get_or,
}
use redimos.Prelude.Int.{ℤ, pos, negsuc, pos_part, ◌+ℤ◌, ◌-ℤ◌, ltb_ℤ, leb_ℤ, wrap64}
use redimos.Reply.{
  Reply, Result, status, error, int, bulk, null_bulk, bulk_array, ok, err_wrong_type,
  err_not_integer, err_no_such_key, err_index_out_of_range, err_syntax, err_collection_too_large,
}
use redimos.Store.{Meta, Store, M, ◌>>=◌, ◌>>◌, return, reply_to, type_list}
use redimos.Args.Integer.{parse_int}
use redimos.Guard.{check_write}
use redimos.Keys.{Env, arg, key_pk}
use redimos.Strings.{ensure_type_expiring}
use redimos.Collections.{
  State, not_live, other_type, live, load_meta_state, range_result_count, normalize_rank_range,
  result_cap_exceeded, adjust_count, on_state,
}
use redimos.Lists.Remove.{lrem_compute}
use redimos.Table.Casing.{to_upper}

module _ (b : Store) (env : Env) where
  abbrev list_state : Bytes → M b.World State
  list_state pk = load_meta_state b env pk type_list

  abbrev wrong : M b.World Reply
  wrong = return (error err_wrong_type)

  abbrev count_reply : Option Meta → Reply
  count_reply none = int (pos 0)
  count_reply (some m) = int m.count

  unfoldable pub push_common :
      (Bytes → List Bytes → M b.World ℕ) → Bytes → List Bytes → M b.World Reply
  push_common push pk elements = do
    pushed ← push pk elements
    adjust_count b env pk type_list (pos pushed)
    found ← b.load_meta pk
    return (count_reply found)

  -- `handleLPush` and `handleRPush`, which differ in the push.
  unfoldable pub push_step :
      (Bytes → List Bytes → M b.World ℕ) → Bytes → List Bytes → M b.World Reply
  unfolding push_common ensure_type_expiring
  push_step push key elements = do
    ensure_type_expiring b env (key_pk env key) type_list
    check_write b key [] elements
    push_common push (key_pk env key) elements

  unfoldable pub handle_lpush : List Bytes → b.World → b.World × Reply
  unfolding push_step reply_to
  handle_lpush args = reply_to (push_step b.lpush (arg args 1) (drop 2 args))

  unfoldable pub handle_rpush : List Bytes → b.World → b.World × Reply
  unfolding push_step reply_to
  handle_rpush args = reply_to (push_step b.rpush (arg args 1) (drop 2 args))

  abbrev push_x_live :
      (Bytes → List Bytes → M b.World ℕ) → Bytes → List Bytes → State → M b.World Reply
  push_x_live push key elements =
      on_state
        (λ (_ : Meta). check_write b key [] elements >> push_common push (key_pk env key) elements)
        (return (int (pos 0))) wrong

  unfoldable pub push_x_common :
      (Bytes → List Bytes → M b.World ℕ) → List Bytes → b.World → b.World × Reply
  unfolding push_common reply_to
  push_x_common push args = reply_to (do
    state ← list_state (key_pk env (arg args 1))
    push_x_live push (arg args 1) (drop 2 args) state)

  unfoldable pub handle_lpushx : List Bytes → b.World → b.World × Reply
  unfolding push_x_common
  handle_lpushx = push_x_common b.lpush

  unfoldable pub handle_rpushx : List Bytes → b.World → b.World × Reply
  unfolding push_x_common
  handle_rpushx = push_x_common b.rpush

  abbrev popped : Bytes → Option Bytes → M b.World Reply
  popped pk none = return null_bulk
  popped pk (some val) = do adjust_count b env pk type_list (negsuc 0); return (bulk val)

  abbrev pop_live : (Bytes → M b.World (Option Bytes)) → Bytes → State → M b.World Reply
  pop_live pop pk = on_state (λ (_ : Meta). pop pk >>= popped pk) (return null_bulk) wrong

  unfoldable pub pop_common :
      (Bytes → M b.World (Option Bytes)) → List Bytes → b.World → b.World × Reply
  unfolding adjust_count reply_to
  pop_common pop args =
      let pk = key_pk env (arg args 1) in reply_to (do state ← list_state pk; pop_live pop pk state)

  unfoldable pub handle_lpop : List Bytes → b.World → b.World × Reply
  unfolding pop_common
  handle_lpop = pop_common b.lpop

  unfoldable pub handle_rpop : List Bytes → b.World → b.World × Reply
  unfolding pop_common
  handle_rpop = pop_common b.rpop

  abbrev range_live : Bytes → ℤ → ℤ → State → M b.World Reply
  range_live pk start stop =
      on_state
        (λ m.
          if result_cap_exceeded b env (range_result_count m.count start stop)
          then return (error err_collection_too_large)
          else (do elements ← b.lrange pk start stop; return (bulk_array elements)))
        (return (bulk_array [])) wrong

  abbrev range_between : Bytes → Option ℤ → Option ℤ → b.World → b.World × Reply
  range_between pk (some start) (some stop) =
      reply_to (do state ← list_state pk; range_live pk start stop state)
  range_between pk _ _ = λ w. (w, error err_not_integer)

  unfoldable pub handle_lrange : List Bytes → b.World → b.World × Reply
  unfolding reply_to result_cap_exceeded range_result_count
  handle_lrange args =
      range_between (key_pk env (arg args 1)) (parse_int (arg args 2)) (parse_int (arg args 3))

  abbrev element_reply : Option Bytes → Reply
  element_reply none = null_bulk
  element_reply (some v) = bulk v

  abbrev index_live : Bytes → Option ℤ → State → M b.World Reply
  index_live pk index =
      on_state
        (λ (_ : Meta). elim index [
          | none ↦ return (error err_not_integer)
          | some i ↦ do found ← b.lindex pk i; return (element_reply found)
        ])
        (return null_bulk) wrong

  unfoldable pub handle_lindex : List Bytes → b.World → b.World × Reply
  unfolding reply_to
  handle_lindex args =
      let pk = key_pk env (arg args 1) in
      reply_to (do state ← list_state pk; index_live pk (parse_int (arg args 2)) state)

  abbrev length_of : State → Reply
  length_of = on_state (λ m. int m.count) (int (pos 0)) (error err_wrong_type)

  unfoldable pub handle_llen : List Bytes → b.World → b.World × Reply
  unfolding reply_to
  handle_llen args =
      reply_to (do state ← list_state (key_pk env (arg args 1)); return (length_of state))
