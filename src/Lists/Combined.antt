-- ===== src/Lists/Combined.antt =====
-- The List commands of internal/command/lists2.go, which read the whole list and write it again,
-- and RPOPLPUSH, which is a pop and a push.
use redimos.Prelude.{
  ℕ, suc, ◌-◌, ◌+◌, Bool, true, false, Option, none, some, List, [], ◌∷◌, ◌++◌, Bytes, codes,
  if◌then◌else◌, length, set, take, drop, ◌==◌, bytes_eq, ◌||◌,
}
use redimos.Prelude.Int.{ℤ, pos, negsuc, pos_part, ◌+ℤ◌, ◌-ℤ◌, ltb_ℤ, leb_ℤ, wrap64}
use redimos.Reply.{
  Reply, status, error, int, bulk, null_bulk, err_not_integer, err_no_such_key,
  err_index_out_of_range, err_syntax,
}
use redimos.Store.{Meta, Store, M, ◌>>=◌, ◌>>◌, return, reply_to, type_list}
use redimos.Args.Integer.{parse_int}
use redimos.Guard.{check_write}
use redimos.Keys.{Env, arg, key_pk}
use redimos.Strings.{ensure_type_expiring}
use redimos.Collections.{State, other_type, normalize_rank_range, adjust_count, on_state}
use redimos.Lists.{list_state, wrong}
use redimos.Lists.Remove.{lrem_compute}
use redimos.Table.Casing.{to_upper}

-- The first position of a value.
unfoldable pub index_of : Bytes → List Bytes → Option ℕ
index_of value [] = none
index_of value (x ∷ all) =
    let rest = index_of value all in
    if bytes_eq x value then some 0 else elim rest [ none ↦ none | some i ↦ some (suc i) ]

-- The elements in a resolved range.
abbrev pub within : List Bytes → Option (ℤ × ℤ) → List Bytes
within all none = []
within all (some (lo, hi)) = take (suc (pos_part hi) - pos_part lo) (drop (pos_part lo) all)

-- LSET's index: a negative one counts from the end.
abbrev pub resolved_index : ℤ → ℕ → ℤ
resolved_index index n = if ltb_ℤ index (pos 0) then wrap64 (index +ℤ pos n) else index

abbrev pub where_of : Bytes → Option Bool
where_of token =
    if bytes_eq (to_upper token) (codes "BEFORE")
    then some true
    else if bytes_eq (to_upper token) (codes "AFTER")
    then some false
    else none

module _ (b : Store) (env : Env) where
  abbrev set_at : Bytes → ℤ → Bytes → List Bytes → M b.World Reply
  set_at key i value all =
      if ltb_ℤ i (pos 0) || leb_ℤ (pos (length all)) i
      then return (error err_index_out_of_range)
      else (do
        check_write b key [] (value ∷ [])
        _ ← b.lreplace_all (key_pk env key) (set all (pos_part i) value)
        return (status (codes "OK")))

  abbrev set_live : Bytes → Option ℤ → Bytes → State → M b.World Reply
  set_live key index value =
      on_state
        (λ (_ : Meta). elim index [
          | none ↦ return (error err_not_integer)
          | some i ↦ do
            all ← b.lrange_all (key_pk env key)
            set_at key (resolved_index i (length all)) value all
        ])
        (return (error err_no_such_key)) (wrong b env)

  unfoldable pub handle_lset : List Bytes → b.World → b.World × Reply
  unfolding reply_to
  handle_lset args = reply_to (do
    state ← list_state b env (key_pk env (arg args 1))
    set_live (arg args 1) (parse_int (arg args 2)) (arg args 3) state)

  abbrev trim_live : Bytes → ℤ → ℤ → State → M b.World Reply
  trim_live pk start stop =
      on_state
        (λ m. do
          all ← b.lrange_all pk
          let new_list = within all (normalize_rank_range (pos (length all)) start stop)
          _ ← b.lreplace_all pk new_list
          adjust_count b env pk type_list (wrap64 (pos (length new_list) -ℤ m.count))
          return (status (codes "OK")))
        (return (status (codes "OK"))) (wrong b env)

  abbrev trim_between : Bytes → Option ℤ → Option ℤ → b.World → b.World × Reply
  trim_between pk (some start) (some stop) =
      reply_to (do state ← list_state b env pk; trim_live pk start stop state)
  trim_between pk _ _ = λ w. (w, error err_not_integer)

  unfoldable pub handle_ltrim : List Bytes → b.World → b.World × Reply
  unfolding reply_to normalize_rank_range adjust_count
  handle_ltrim args =
      trim_between (key_pk env (arg args 1)) (parse_int (arg args 2)) (parse_int (arg args 3))

  abbrev removed : Bytes → List Bytes × ℕ → M b.World Reply
  removed pk (new_list, n) = if n == 0 then return (int (pos 0)) else (do
    _ ← b.lreplace_all pk new_list
    adjust_count b env pk type_list (pos 0 -ℤ pos n)
    return (int (pos n)))

  abbrev rem_live : Bytes → ℤ → Bytes → State → M b.World Reply
  rem_live pk count value =
      on_state (λ (_ : Meta). do all ← b.lrange_all pk; removed pk (lrem_compute all count value))
        (return (int (pos 0))) (wrong b env)

  unfoldable pub handle_lrem : List Bytes → b.World → b.World × Reply
  unfolding reply_to lrem_compute adjust_count
  handle_lrem args = elim (parse_int (arg args 2)) [
    | none ↦ λ w. (w, error err_not_integer)
    | some count ↦
        let pk = key_pk env (arg args 1) in
        reply_to (do state ← list_state b env pk; rem_live pk count (arg args 3) state)
  ]

  abbrev insert_at : Bytes → Bytes → List Bytes → Option ℕ → M b.World Reply
  insert_at key value all none = return (int (negsuc 0))
  insert_at key value all (some at) = do
    check_write b key [] (value ∷ [])
    let new_list = take at all ++ value ∷ drop at all
    _ ← b.lreplace_all (key_pk env key) new_list
    adjust_count b env (key_pk env key) type_list (pos 1)
    return (int (pos (length new_list)))

  -- Where the value goes, next to the first pivot.
  abbrev position : Bool → Option ℕ → Option ℕ
  position before none = none
  position before (some i) = some (if before then i else i + 1)

  abbrev insert_live : Bytes → Bool → Bytes → Bytes → State → M b.World Reply
  insert_live key before pivot value =
      on_state
        (λ (_ : Meta). do
          all ← b.lrange_all (key_pk env key)
          insert_at key value all (position before (index_of pivot all)))
        (return (int (pos 0))) (wrong b env)

  unfoldable pub handle_linsert : List Bytes → b.World → b.World × Reply
  unfolding reply_to index_of adjust_count
  handle_linsert args = elim (where_of (arg args 2)) [
    | none ↦ λ w. (w, error err_syntax)
    | some before ↦ reply_to (do
      state ← list_state b env (key_pk env (arg args 1))
      insert_live (arg args 1) before (arg args 3) (arg args 4) state)
  ]

  abbrev rotated : Bytes → Option Bytes → M b.World Reply
  rotated pk none = return null_bulk
  rotated pk (some val) = do _ ← b.lpush pk (val ∷ []); return (bulk val)

  abbrev moved : Bytes → Bytes → Option Bytes → M b.World Reply
  moved src dst none = return null_bulk
  moved src dst (some val) = do
    adjust_count b env src type_list (negsuc 0)
    ensure_type_expiring b env dst type_list
    _ ← b.lpush dst (val ∷ [])
    adjust_count b env dst type_list (pos 1)
    return (bulk val)

  abbrev move_from : Bytes → Bytes → State → M b.World Reply
  move_from src dst =
      on_state
        (λ (_ : Meta).
          if bytes_eq src dst
          then b.rpop src >>= rotated src
          else (do state ← list_state b env dst; move_to src dst state))
        (return null_bulk) (wrong b env)
    where
      move_to : Bytes → Bytes → State → M b.World Reply
      move_to src dst other_type = (wrong b env)
      move_to src dst _ = b.rpop src >>= moved src dst

  unfoldable pub handle_rpoplpush : List Bytes → b.World → b.World × Reply
  unfolding reply_to adjust_count ensure_type_expiring
  handle_rpoplpush args =
      let src = key_pk env (arg args 1) in
      let dst = key_pk env (arg args 2) in
      reply_to (do state ← list_state b env src; move_from src dst state)
