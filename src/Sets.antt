-- ===== src/Sets.antt =====
-- The Set commands of internal/command/sets.go: member items under a key whose meta item counts
-- them, and the set algebra over several keys.
pub mod Algebra
pub mod Laws
pub mod Membership
pub mod Steps
pub mod Refinement
pub mod Combine
pub mod Stores
pub mod Move
pub mod Pop
use redimos.Prelude.{
  ℕ, Bool, true, false, ◌&&◌, Option, none, some, List, [], ◌∷◌, Bytes, codes, if◌then◌else◌,
  length, drop, map, ltb, ◌==◌, bytes_eq, ◌⊎◌, inl, inr,
}
use redimos.Prelude.Int.{ℤ, pos, ltb_ℤ}
use redimos.Reply.{
  Reply, error, int, bulk, null_bulk, bulk_array, err_wrong_type, err_not_integer, err_syntax,
  err_index_out_of_range, err_collection_too_large,
}
use redimos.Store.{Meta, Store, M, ◌>>=◌, ◌>>◌, return, reply_to, type_set}
use redimos.Args.Integer.{parse_int}
use redimos.Guard.{check_write}
use redimos.Keys.{Env, arg, key_pk, delete_meta}
use redimos.Strings.{ensure_type_expiring}
use redimos.Collections.{
  flag_reply, State, not_live, other_type, live, load_meta_state, result_cap_exceeded, adjust_count,
  on_state, negated, member_storable, storable_members,
}
use redimos.Sets.Algebra.{
  SetOp, Operands, found, no_members, wrong_operand, combine, with_operand, stops,
}

-- SPOP and SRANDMEMBER: without a count one member or null, with a count an array.
abbrev first_member : List Bytes → Reply
first_member [] = null_bulk
first_member (m ∷ ms) = bulk m

abbrev pub members_reply : Bool → List Bytes → Reply
members_reply true ms = bulk_array ms
members_reply false ms = first_member ms

-- The optional count of SPOP and SRANDMEMBER: whether it is given, and the number, or the error.
unfoldable pub parse_count : Bool → List Bytes → (Bool × ℤ) ⊎ Bytes
parse_count positive args =
    if length args == 3
    then (elim (parse_int (arg args 2)) [
      | none ↦ inr err_not_integer
      | some n ↦ if positive && ltb_ℤ n (pos 0) then inr err_index_out_of_range else inl (true, n)
    ])
    else if ltb 3 (length args)
    then inr err_syntax
    else inl (false, pos 1)

module _ (b : Store) (env : Env) where
  -- `setState`
  abbrev pub set_state : Bytes → M b.World State
  set_state pk = load_meta_state b env pk type_set

  abbrev wrong : M b.World Reply
  wrong = return (error err_wrong_type)

  abbrev absent : M b.World Reply
  absent = return (int (pos 0))

  unfoldable pub ensure_set_writable : Bytes → Bytes → List Bytes → M b.World (Unit {0})
  unfolding ensure_type_expiring
  ensure_set_writable pk key members = do
    check_write b key members []
    ensure_type_expiring b env pk type_set

  -- The members added to a key that is open for writing, counted.
  unfoldable pub add_members : Bytes → List Bytes → M b.World ℕ
  unfolding adjust_count
  add_members pk members = do
    added ← b.sadd pk members
    adjust_count b env pk type_set (pos added)
    return added

  unfoldable pub remove_members : Bytes → List Bytes → M b.World ℕ
  unfolding adjust_count
  remove_members pk members = do
    removed ← b.srem pk members
    adjust_count b env pk type_set (negated removed)
    return removed

  unfoldable pub handle_sadd : List Bytes → b.World → b.World × Reply
  unfolding ensure_set_writable add_members reply_to
  handle_sadd args =
      let pk = key_pk env (arg args 1) in
      reply_to (do
        ensure_set_writable pk (arg args 1) (drop 2 args)
        added ← add_members pk (drop 2 args)
        return (int (pos added)))

  abbrev rem_live : Bytes → List Bytes → State → M b.World Reply
  rem_live pk names =
      on_state (λ (_ : Meta). do n ← remove_members pk names; return (int (pos n))) absent wrong

  unfoldable pub handle_srem : List Bytes → b.World → b.World × Reply
  unfolding load_meta_state remove_members storable_members reply_to
  handle_srem args =
      let pk = key_pk env (arg args 1) in
      reply_to (do state ← set_state pk; rem_live pk (storable_members (drop 2 args)) state)

  -- A member too long to be stored is not looked up.
  abbrev test_member : Bytes → Bytes → M b.World Reply
  test_member pk member =
      if member_storable member
      then (do is_member ← b.sis_member pk member; return (flag_reply is_member))
      else absent

  abbrev member_live : Bytes → Bytes → State → M b.World Reply
  member_live pk member = on_state (λ (_ : Meta). test_member pk member) absent wrong

  unfoldable pub handle_sis_member : List Bytes → b.World → b.World × Reply
  unfolding load_meta_state member_storable reply_to
  handle_sis_member args =
      let pk = key_pk env (arg args 1) in
      reply_to (do state ← set_state pk; member_live pk (arg args 2) state)

  abbrev members_live : Bytes → State → M b.World Reply
  members_live pk =
      on_state
        (λ m.
          if result_cap_exceeded b env m.count
          then return (error err_collection_too_large)
          else (do members ← b.smembers pk; return (bulk_array members)))
        (return (bulk_array [])) wrong

  unfoldable pub handle_smembers : List Bytes → b.World → b.World × Reply
  unfolding load_meta_state result_cap_exceeded reply_to
  handle_smembers args =
      let pk = key_pk env (arg args 1) in reply_to (do state ← set_state pk; members_live pk state)

  abbrev card_live : State → M b.World Reply
  card_live = on_state (λ m. return (int m.count)) absent wrong

  unfoldable pub handle_scard : List Bytes → b.World → b.World × Reply
  unfolding load_meta_state reply_to
  handle_scard args = reply_to (do state ← set_state (key_pk env (arg args 1)); card_live state)

  abbrev pop_live : Bytes → Bool → ℤ → State → M b.World Reply
  pop_live pk with_count count =
      on_state
        (λ (_ : Meta). do
          removed ← b.spop pk count
          adjust_count b env pk type_set (negated (length removed))
          return (members_reply with_count removed))
        (return (members_reply with_count [])) wrong

  unfoldable pub handle_spop : List Bytes → b.World → b.World × Reply
  unfolding parse_count load_meta_state adjust_count reply_to
  handle_spop args =
      let pk = key_pk env (arg args 1) in
      elim (parse_count true args) [
        | inr text ↦ λ w. (w, error text)
        | inl (with_count, count) ↦
            reply_to (do state ← set_state pk; pop_live pk with_count count state)
      ]

  abbrev rand_live : Bytes → Bool → ℤ → State → M b.World Reply
  rand_live pk with_count count =
      on_state
        (λ (_ : Meta). do
          members ← b.srand_member pk count
          return (members_reply with_count members))
        (return (members_reply with_count [])) wrong

  unfoldable pub handle_srand_member : List Bytes → b.World → b.World × Reply
  unfolding parse_count load_meta_state reply_to
  handle_srand_member args =
      let pk = key_pk env (arg args 1) in
      elim (parse_count false args) [
        | inr text ↦ λ w. (w, error text)
        | inl (with_count, count) ↦
            reply_to (do state ← set_state pk; rand_live pk with_count count state)
      ]

  -- `loadSetMembers`: nothing for a live key of another type.
  unfoldable pub load_set_members : Bytes → M b.World (Option (List Bytes))
  unfolding load_meta_state
  load_set_members pk = do
    state ← set_state pk
    on_state (λ (_ : Meta). do members ← b.smembers pk; return (some members)) (return (some []))
        (return none) state

  abbrev operand_read : SetOp → M b.World Operands → Option (List Bytes) → M b.World Operands
  operand_read op rest none = return wrong_operand
  operand_read op rest (some ms) =
      if stops op ms
      then return no_members
      else (do operands ← rest; return (with_operand ms operands))

  -- The loop that reads the operands. An intersection stops at the first empty one.
  unfoldable pub load_operands : SetOp → List Bytes → M b.World Operands
  unfolding load_set_members
  load_operands op [] = return (found [])
  load_operands op (pk ∷ pks) = do
    members ← load_set_members pk
    operand_read op (load_operands op pks) members

  -- `computeSetAlgebra`
  unfoldable pub compute_set_algebra : SetOp → List Bytes → M b.World (Option (List Bytes))
  unfolding load_operands combine
  compute_set_algebra op pks = do operands ← load_operands op pks; return (combine op operands)

  abbrev algebra_reply : Option (List Bytes) → Reply
  algebra_reply none = error err_wrong_type
  algebra_reply (some members) = bulk_array members

  -- `handleSetAlgebraRead`
  unfoldable pub handle_set_algebra_read : SetOp → List Bytes → b.World → b.World × Reply
  unfolding compute_set_algebra reply_to
  handle_set_algebra_read op keys =
      reply_to
        (do result ← compute_set_algebra op (map (key_pk env) keys); return (algebra_reply result))

  -- A fresh set of the members under the destination.
  unfoldable pub store_members : Bytes → List Bytes → M b.World Reply
  unfolding ensure_type_expiring add_members
  store_members pk [] = return (int (pos 0))
  store_members pk (m ∷ ms) = do
    ensure_type_expiring b env pk type_set
    added ← add_members pk (m ∷ ms)
    return (int (pos added))

  unfoldable pub replace_set : Bytes → List Bytes → M b.World Reply
  unfolding store_members
  replace_set key members = do
    check_write b key members []
    _ ← delete_meta b (key_pk env key)
    _ ← b.delete_members (key_pk env key)
    store_members (key_pk env key) members

  abbrev store_result : Bytes → Option (List Bytes) → M b.World Reply
  store_result key none = wrong
  store_result key (some members) = replace_set key members

  -- `handleSetAlgebraStore`
  unfoldable pub handle_set_algebra_store : SetOp → List Bytes → b.World → b.World × Reply
  unfolding compute_set_algebra replace_set reply_to
  handle_set_algebra_store op args = reply_to (do
    result ← compute_set_algebra op (map (key_pk env) (drop 2 args))
    store_result (arg args 1) result)

  -- The two writes of SMOVE.
  unfoldable pub move_member : Bytes → Bytes → Bytes → M b.World Reply
  unfolding remove_members ensure_type_expiring add_members
  move_member src dst member = do
    check_write b dst (member ∷ []) []
    _ ← remove_members (key_pk env src) (member ∷ [])
    ensure_type_expiring b env (key_pk env dst) type_set
    _ ← add_members (key_pk env dst) (member ∷ [])
    return (int (pos 1))

  -- What SMOVE does once the destination is known not to be of another type.
  abbrev move_checked : Bytes → Bytes → Bytes → M b.World Reply
  move_checked src dst member =
      if member_storable member
      then (do
        is_member ← b.sis_member (key_pk env src) member
        if is_member then move_member src dst member else absent)
      else absent

  abbrev move_live : Bytes → Bytes → Bytes → State → M b.World Reply
  move_live src dst member =
      on_state
        (λ (_ : Meta).
          if bytes_eq (key_pk env src) (key_pk env dst)
          then test_member (key_pk env src) member
          else (do
            state ← set_state (key_pk env dst)
            on_state (λ (_ : Meta). move_checked src dst member) (move_checked src dst member) wrong
                state))
        absent wrong

  unfoldable pub handle_smove : List Bytes → b.World → b.World × Reply
  unfolding load_meta_state member_storable move_member reply_to
  handle_smove args = reply_to (do
    state ← set_state (key_pk env (arg args 1))
    move_live (arg args 1) (arg args 2) (arg args 3) state)
