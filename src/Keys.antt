-- ===== src/Keys.antt =====
-- The key commands of internal/command/keys.go over the meta items, with the part of
-- internal/meta/meta.go and internal/command/datacmd.go that they call.
pub mod Del
pub mod Expire
pub mod Persist
use redimos.Prelude.{
  ℕ, ◌+◌, Bool, true, false, ◌&&◌, ◌||◌, not, Option, none, some, List, [], ◌∷◌, Bytes, codes,
  if◌then◌else◌, get_or, drop, bytes_eq,
}
use redimos.Prelude.Int.{ℤ, pos, negsuc, ◌-ℤ◌, ◌*ℤ◌, leb_ℤ, eqb_ℤ, wrap64}
use redimos.Reply.{Reply, Result, status, error, int, ok, err, err_not_integer}
use redimos.Store.{
  Meta, Store, M, ◌>>=◌, ◌>>◌, return, reply_to, type_string, type_hash, type_list, type_set,
  type_zset,
}
use redimos.Args.Integer.{parse_int}
use redimos.Expiry.{
  is_expired, ms_deadline_to_sec, sec_expiry_epoch, ms_expiry_epoch, sec_timestamp_epoch,
}
use redimos.Keyspace.{encode_pk}

-- What a handler reads besides its arguments: `Config.MultiDB`, the connection's selected
-- database, the clock in epoch seconds, which is taken to stand still during one command, and
-- `Config.MaxCollectionResult`.
pub record Env : Type 0 where
  pub multi_db : Bool
  pub db : ℕ
  pub now : ℤ
  pub max_collection_result : ℤ

-- `args[i]`; the dispatcher has checked the number of arguments.
abbrev pub arg : List Bytes → ℕ → Bytes
arg args i = get_or args i []

abbrev pub key_pk : Env → Bytes → Bytes
key_pk env key = encode_pk env.multi_db env.db key

-- `redisTypeName`
unfoldable pub redis_type_name : Bytes → Bytes
redis_type_name t =
    if bytes_eq t type_string
    then codes "string"
    else if bytes_eq t type_hash
    then codes "hash"
    else if bytes_eq t type_list
    then codes "list"
    else if bytes_eq t type_set
    then codes "set"
    else if bytes_eq t type_zset
    then codes "zset"
    else codes "none"

unfoldable pub is_live : ℤ → Option Meta → Bool
unfolding is_expired
is_live now none = false
is_live now (some m) = not (is_expired m now)

module _ (b : Store) where
  -- `MetaStore.DeleteMeta`: the key is queued for the deleter only if an item was removed.
  unfoldable pub delete_meta : Bytes → M b.World Bool
  delete_meta pk = do
    existed ← b.delete_meta pk
    if existed then (λ w. (b.enqueue pk w, ok existed)) else return existed

module _ (b : Store) (env : Env) where
  unfoldable pub key_live : Bytes → M b.World Bool
  key_live pk = do found ← b.load_meta pk; return (is_live env.now found)

  -- The loop of `handleDel`, with the count so far.
  unfoldable pub del_loop : ℕ → List Bytes → M b.World Reply
  unfolding delete_meta is_live
  del_loop deleted [] = return (int (pos deleted))
  del_loop deleted (key ∷ keys) = do
    found ← b.load_meta (key_pk env key)
    _ ← delete_meta b (key_pk env key)
    del_loop (if is_live env.now found then deleted + 1 else deleted) keys

  unfoldable pub handle_del : List Bytes → b.World → b.World × Reply
  unfolding del_loop reply_to
  handle_del args = reply_to (del_loop 0 (drop 1 args))

  -- The loop of `handleExists`, which serves TOUCH too.
  unfoldable pub exists_loop : ℕ → List Bytes → M b.World Reply
  unfolding key_live
  exists_loop count [] = return (int (pos count))
  exists_loop count (key ∷ keys) = do
    live ← key_live (key_pk env key)
    exists_loop (if live then count + 1 else count) keys

  unfoldable pub handle_exists : List Bytes → b.World → b.World × Reply
  unfolding exists_loop reply_to
  handle_exists args = reply_to (exists_loop 0 (drop 1 args))

  abbrev type_reply : Option Meta → Reply
  type_reply none = status (codes "none")
  type_reply (some m) =
      if is_expired m env.now then status (codes "none") else status (redis_type_name m.type)

  unfoldable pub handle_type : List Bytes → b.World → b.World × Reply
  unfolding reply_to
  handle_type args =
      reply_to (do found ← b.load_meta (key_pk env (arg args 1)); return (type_reply found))

  -- `applyExpire` on a live key: an expiry in the past deletes it.
  unfoldable pub write_epoch : Bytes → ℤ → M b.World Reply
  unfolding delete_meta
  write_epoch pk exp_epoch =
      if leb_ℤ exp_epoch env.now then (do _ ← delete_meta b pk; return (int (pos 1))) else (do
        found ← b.set_expire pk exp_epoch
        return (if found then int (pos 1) else int (pos 0)))

  -- `applyExpire` after its argument is parsed.
  unfoldable pub apply_expire_epoch : (ℤ → ℤ → ℤ) → Bytes → ℤ → M b.World Reply
  unfolding key_live write_epoch
  apply_expire_epoch resolve_exp pk n = do
    live ← key_live pk
    let exp_epoch = resolve_exp env.now n
    if not live then return (int (pos 0)) else write_epoch pk exp_epoch

  unfoldable pub apply_expire : (ℤ → ℤ → ℤ) → List Bytes → b.World → b.World × Reply
  unfolding apply_expire_epoch reply_to
  apply_expire resolve_exp args = elim (parse_int (arg args 2)) [
    | none ↦ λ w. (w, error err_not_integer)
    | some n ↦ reply_to (apply_expire_epoch resolve_exp (key_pk env (arg args 1)) n)
  ]

  unfoldable pub handle_expire : List Bytes → b.World → b.World × Reply
  unfolding apply_expire
  handle_expire = apply_expire sec_expiry_epoch

  unfoldable pub handle_expire_at : List Bytes → b.World → b.World × Reply
  unfolding apply_expire
  handle_expire_at = apply_expire sec_timestamp_epoch

  unfoldable pub handle_pexpire : List Bytes → b.World → b.World × Reply
  unfolding apply_expire
  handle_pexpire = apply_expire ms_expiry_epoch

  unfoldable pub handle_pexpire_at : List Bytes → b.World → b.World × Reply
  unfolding apply_expire
  handle_pexpire_at = apply_expire ms_deadline_to_sec

  -- The last lines of `replyTTL`: -2 for no key, -1 for no expiry.
  unfoldable pub ttl_of : Bool → Option Meta → ℤ
  unfolding is_expired
  ttl_of millis none = negsuc 1
  ttl_of millis (some m) =
      let remaining = wrap64 (m.exp -ℤ env.now) in
      if is_expired m env.now
      then negsuc 1
      else if eqb_ℤ m.exp (pos 0)
      then negsuc 0
      else if millis
      then wrap64 (remaining *ℤ pos 1000)
      else remaining

  unfoldable pub reply_ttl : Bool → List Bytes → b.World → b.World × Reply
  unfolding ttl_of reply_to
  reply_ttl millis args =
      reply_to
        (do found ← b.load_meta (key_pk env (arg args 1)); return (int (ttl_of millis found)))

  unfoldable pub handle_ttl : List Bytes → b.World → b.World × Reply
  unfolding reply_ttl
  handle_ttl = reply_ttl false

  unfoldable pub handle_pttl : List Bytes → b.World → b.World × Reply
  unfolding reply_ttl
  handle_pttl = reply_ttl true

  -- There is an expiry to remove.
  unfoldable pub has_expiry : Option Meta → Bool
  unfolding is_expired
  has_expiry none = false
  has_expiry (some m) = not (is_expired m env.now || eqb_ℤ m.exp (pos 0))

  abbrev persist_found : Bytes → Option Meta → M b.World Reply
  persist_found pk found =
      if has_expiry found then (do _ ← b.persist pk; return (int (pos 1))) else return (int (pos 0))

  unfoldable pub handle_persist : List Bytes → b.World → b.World × Reply
  unfolding has_expiry reply_to
  handle_persist args =
      let pk = key_pk env (arg args 1) in
      reply_to (do found ← b.load_meta pk; persist_found pk found)
