-- ===== src/Strings/Setters.antt =====
-- SETNX, SETEX, PSETEX, GETSET and the INCR family of internal/command/strings.go.
use redimos.Prelude.{
  Bool, true, false, Option, none, some, List, [], ◌∷◌, ◌++◌, Bytes, codes, if◌then◌else◌,
}
use redimos.Prelude.Int.{ℤ, pos, negsuc, ◌-ℤ◌, leb_ℤ, wrap64}
use redimos.Reply.{
  Reply, status, error, int, bulk, null_bulk, err_not_integer, err_not_valid_float, err_wrong_type,
}
use redimos.Store.{Store, M, ◌>>=◌, ◌>>◌, return, reply_to, type_string}
use redimos.Args.Integer.{parse_int}
use redimos.Expiry.{sec_expiry_epoch, ms_expiry_epoch}
use redimos.Keys.{Env, arg, key_pk}
use redimos.Guard.{check_write}
use redimos.Table.Casing.{to_lower}
use redimos.Strings.{
  Current, other_type, overwrite_any_type, ensure_type_expiring, read_current_string,
}

unfoldable pub err_invalid_expire_time : Bytes → Bytes
err_invalid_expire_time cmd = codes "ERR invalid expire time in " ++ to_lower cmd

module _ (b : Store) (env : Env) where
  unfoldable pub handle_set_nx : List Bytes → b.World → b.World × Reply
  unfolding reply_to
  handle_set_nx args =
      let pk = key_pk env (arg args 1) in
      reply_to (do
        check_write b (arg args 1) [] (arg args 2 ∷ [])
        created ← b.create_type_if_absent pk type_string (pos 0) env.now
        if created
            then (do b.set_string pk (arg args 2); return (int (pos 1)))
            else return (int (pos 0)))

  unfoldable pub write_with_expiry : Bytes → Bytes → ℤ → M b.World Reply
  unfolding overwrite_any_type ensure_type_expiring
  write_with_expiry pk val exp_epoch = do
    overwrite_any_type b env pk
    ensure_type_expiring b env pk type_string
    b.set_string pk val
    _ ← b.set_expire pk exp_epoch
    return (status (codes "OK"))

  -- `setWithExpiry`
  unfoldable pub set_with_expiry : Bytes → Bytes → Bytes → Bool → Bytes → b.World → b.World × Reply
  unfolding write_with_expiry err_invalid_expire_time sec_expiry_epoch ms_expiry_epoch reply_to
  set_with_expiry key val expiry_arg is_millis cmd = elim (parse_int expiry_arg) [
    | none ↦ λ w. (w, error err_not_integer)
    | some n ↦
        if leb_ℤ n (pos 0)
        then (λ w. (w, error (err_invalid_expire_time cmd)))
        else reply_to (do
          check_write b key [] (val ∷ [])
          write_with_expiry (key_pk env key) val
              (if is_millis then ms_expiry_epoch env.now n else sec_expiry_epoch env.now n))
  ]

  unfoldable pub handle_set_ex : List Bytes → b.World → b.World × Reply
  unfolding set_with_expiry
  handle_set_ex args = set_with_expiry (arg args 1) (arg args 3) (arg args 2) false (codes "setex")

  unfoldable pub handle_pset_ex : List Bytes → b.World → b.World × Reply
  unfolding set_with_expiry
  handle_pset_ex args = set_with_expiry (arg args 1) (arg args 3) (arg args 2) true (codes "psetex")

  abbrev old_reply : Option Bytes → Reply
  old_reply none = null_bulk
  old_reply (some old) = bulk old

  unfoldable pub handle_get_set : List Bytes → b.World → b.World × Reply
  unfolding ensure_type_expiring reply_to
  handle_get_set args =
      let pk = key_pk env (arg args 1) in
      reply_to (do
        check_write b (arg args 1) [] (arg args 2 ∷ [])
        ensure_type_expiring b env pk type_string
        old ← b.get_set_string pk (arg args 2)
        _ ← b.persist pk
        return (old_reply old))

  -- `incrBy`
  unfoldable pub incr_by : Bytes → ℤ → b.World → b.World × Reply
  unfolding ensure_type_expiring reply_to
  incr_by key delta = reply_to (do
    check_write b key [] []
    ensure_type_expiring b env (key_pk env key) type_string
    next ← b.incr_by (key_pk env key) delta
    return (int next))

  unfoldable pub handle_incr : List Bytes → b.World → b.World × Reply
  unfolding incr_by
  handle_incr args = incr_by (arg args 1) (pos 1)

  unfoldable pub handle_decr : List Bytes → b.World → b.World × Reply
  unfolding incr_by
  handle_decr args = incr_by (arg args 1) (negsuc 0)

  unfoldable pub handle_incr_by : List Bytes → b.World → b.World × Reply
  unfolding incr_by
  handle_incr_by args = elim (parse_int (arg args 2)) [
    | none ↦ λ w. (w, error err_not_integer)
    | some n ↦ incr_by (arg args 1) n
  ]

  -- `-n` of the least int64 is itself.
  unfoldable pub handle_decr_by : List Bytes → b.World → b.World × Reply
  unfolding incr_by
  handle_decr_by args = elim (parse_int (arg args 2)) [
    | none ↦ λ w. (w, error err_not_integer)
    | some n ↦ incr_by (arg args 1) (wrap64 (pos 0 -ℤ n))
  ]

  unfoldable pub add_float : Bytes → Bytes → M b.World Reply
  unfolding ensure_type_expiring
  add_float key text = elim (b.parse_float text) [
    | none ↦ return (error err_not_valid_float)
    | some delta ↦ do
      check_write b key [] []
      ensure_type_expiring b env (key_pk env key) type_string
      val ← b.incr_by_float (key_pk env key) delta
      return (bulk val)
  ]

  abbrev unless_other_type : M b.World Reply → Current → M b.World Reply
  unless_other_type rest other_type = return (error err_wrong_type)
  unless_other_type rest _ = rest

  unfoldable pub handle_incr_by_float : List Bytes → b.World → b.World × Reply
  unfolding read_current_string add_float reply_to
  handle_incr_by_float args = reply_to (do
    cur ← read_current_string b env (key_pk env (arg args 1))
    unless_other_type (add_float (arg args 1) (arg args 2)) cur)
