-- ===== src/Strings.antt =====
-- The String commands GET, SET, STRLEN and GETRANGE of internal/command/strings.go, and APPEND and
-- SETRANGE with their compare-and-set loop of internal/command/strings_rmw.go.
pub mod Options
pub mod Laws
pub mod Ensure
pub mod Rmw
pub mod Append
pub mod Overwrite
pub mod Ranges
pub mod SetRange
pub mod Setters
pub mod Many
use redimos.Prelude.{
  ℕ, zero, suc, ◌+◌, ◌-◌, Bool, true, false, ◌&&◌, ◌||◌, not, Option, none, some, List, [], ◌∷◌,
  ◌++◌, Bytes, codes, if◌then◌else◌, length, take, drop, replicate, ltb, bytes_eq,
}
use redimos.Prelude.Int.{ℤ, pos, pos_part, ◌+ℤ◌, ◌-ℤ◌, ltb_ℤ, leb_ℤ, wrap64}
use redimos.Reply.{
  Reply, Result, status, error, int, bulk, null_bulk, ok, err, wrong_type, rmw_max_retries,
  err_not_integer, err_wrong_type, err_offset_out_of_range,
}
use redimos.Store.{Meta, Store, M, ◌>>=◌, ◌>>◌, return, throw, reply_to, type_string}
use redimos.Args.Integer.{parse_int}
use redimos.Expiry.{is_expired, max_int64}
use redimos.Keys.{Env, arg, key_pk, is_live, key_live, delete_meta}
use redimos.Guard.{check_write, check_value_size}
use redimos.Strings.Options.{SetOptions, Parsed, parsed, rejected, parse_set_options}

-- `storage.MaxRMWRetries`
abbrev pub max_rmw_retries : ℕ
max_rmw_retries = 50

-- What a handler has read of a String key: the value, or why there is none.
pub data Current : Type 0 where
  missing : Current
  other_type : Current
  present : Bytes → Current

-- The value that a live String key contributes.
abbrev pub stored : Option Bytes → Bytes
stored none = []
stored (some v) = v

abbrev pub exists_value : Option Bytes → Bool
exists_value none = false
exists_value (some v) = true

-- What a meta item says of a String command.
pub data Standing : Type 0 where
  absent live_string live_other : Standing

unfoldable pub standing : ℤ → Option Meta → Standing
unfolding is_expired
standing now none = absent
standing now (some m) =
    if is_expired m now
    then absent
    else if bytes_eq m.type type_string
    then live_string
    else live_other

-- `copy(buf[offset:], val)` into `base` filled with zeros up to `nl` bytes.
unfoldable pub splice : Bytes → ℕ → Bytes → Bytes
splice base offset val =
    take offset (base ++ replicate (offset - length base) 0)
    ++ val
    ++ drop (offset + length val) base

-- An index of GETRANGE: a negative one counts from the end, and stops at 0.
unfoldable pub from_end : ℕ → ℤ → ℤ
from_end strlen x =
    let i = if ltb_ℤ x (pos 0) then wrap64 (pos strlen +ℤ x) else x in
    if ltb_ℤ i (pos 0) then pos 0 else i

-- The end of `rangeBounds`: an end past the value stops at its last byte.
unfoldable pub clip : ℕ → ℤ → ℤ → ℕ × ℕ
clip strlen from to =
    let last = if leb_ℤ (pos strlen) to then pos strlen -ℤ pos 1 else to in
    if ltb_ℤ last from then (0, 0) else (pos_part from, pos_part (last +ℤ pos 1))

-- `rangeBounds` of GETRANGE: the half-open slice that [start, end] selects.
unfoldable pub range_bounds : ℕ → ℤ → ℤ → ℕ × ℕ
unfolding from_end clip
range_bounds strlen start end =
    if ltb_ℤ start (pos 0) && ltb_ℤ end (pos 0) && ltb_ℤ end start
    then (0, 0)
    else clip strlen (from_end strlen start) (from_end strlen end)

abbrev pub slice : ℕ × ℕ → Bytes → Bytes
slice (lo, hi) s = take (hi - lo) (drop lo s)

module _ (b : Store) (env : Env) where
  -- A taken-over expired key loses its stale items.
  unfoldable pub reclaim : Bytes → Bool → M b.World (Unit {0})
  reclaim pk took_over = if took_over then (do _ ← b.delete_members pk; return tt) else return tt

  unfoldable pub ensure_type_expiring : Bytes → Bytes → M b.World (Unit {0})
  unfolding reclaim
  ensure_type_expiring pk expected = do
    result ← b.ensure_type_expiring pk expected (pos 0) env.now
    reclaim pk result.1

  abbrev clear : Bytes → Option Meta → M b.World (Unit {0})
  clear pk none = return tt
  clear pk (some m) =
      if bytes_eq m.type type_string
      then return tt
      else (do _ ← b.delete_members pk; _ ← delete_meta b pk; return tt)

  -- `overwriteAnyType`: a key of another type loses its members, then its meta item.
  unfoldable pub overwrite_any_type : Bytes → M b.World (Unit {0})
  overwrite_any_type pk = do found ← b.load_meta pk; clear pk found

  abbrev read_standing : Bytes → Standing → M b.World Current
  read_standing pk absent = return missing
  read_standing pk live_other = return other_type
  read_standing pk live_string = do v ← b.get_string pk; return (present (stored v))

  unfoldable pub read_current_string : Bytes → M b.World Current
  read_current_string pk = do found ← b.load_meta pk; read_standing pk (standing env.now found)

  -- `readStringForRMW`: the standing of the key, and the value item as it is stored.
  unfoldable pub read_string_for_rmw : Bytes → M b.World (Standing × Option Bytes)
  read_string_for_rmw pk = do
    found ← b.load_meta pk
    phys ← b.get_string pk
    return (standing env.now found, phys)

  -- The logical value that a command builds on.
  abbrev pub base_of : Standing × Option Bytes → Bytes
  base_of (live_string, phys) = stored phys
  base_of (_, phys) = []

  abbrev pub type_check : Standing → M b.World (Unit {0})
  type_check live_other = throw wrong_type
  type_check _ = return tt

  -- The attempts that are left of `rmwString`.
  unfoldable pub rmw_loop : ℕ → Bytes → (Bytes → M b.World Bytes) → M b.World ℕ
  unfolding read_string_for_rmw ensure_type_expiring
  rmw_loop zero pk compute = throw rmw_max_retries
  rmw_loop (suc n) pk compute = do
    read ← read_string_for_rmw pk
    type_check read.0
    next ← compute (base_of read)
    ensure_type_expiring pk type_string
    done ← b.set_string_if_equals pk next (stored read.1) (exists_value read.1)
    if done then return (length next) else rmw_loop n pk compute

  unfoldable pub rmw_string : Bytes → (Bytes → M b.World Bytes) → M b.World ℕ
  unfolding rmw_loop
  rmw_string = rmw_loop max_rmw_retries

  abbrev pub length_reply : M b.World ℕ → b.World → b.World × Reply
  length_reply m = reply_to (do n ← m; return (int (pos n)))

  abbrev pub append_value : Bytes → Bytes → Bytes → M b.World Bytes
  append_value key val base = do check_write b key [] ((base ++ val) ∷ []); return (base ++ val)

  unfoldable pub handle_append : List Bytes → b.World → b.World × Reply
  unfolding rmw_string reply_to
  handle_append args =
      length_reply (rmw_string (key_pk env (arg args 1)) (append_value (arg args 1) (arg args 2)))

  -- The compute step of SETRANGE; a sum past int64 is refused as the largest int64 would be.
  abbrev pub set_range_value : Bytes → ℕ → Bytes → Bytes → M b.World Bytes
  set_range_value key offset val base =
      if ltb (max_int64 - length val) offset
      then (do check_value_size b (pos max_int64); return [])
      else (do
        check_write b key [] []
        check_value_size b (
            pos (
              if ltb (length base) (offset + length val) then offset + length val else length base))
        return (splice base offset val))

  abbrev current_length : Current → Reply
  current_length missing = int (pos 0)
  current_length other_type = error err_wrong_type
  current_length (present v) = int (pos (length v))

  abbrev pub set_range_at : Bytes → ℕ → Bytes → b.World → b.World × Reply
  set_range_at key offset [] =
      reply_to (do cur ← read_current_string (key_pk env key); return (current_length cur))
  set_range_at key offset (c ∷ val) =
      length_reply (rmw_string (key_pk env key) (set_range_value key offset (c ∷ val)))

  unfoldable pub handle_set_range : List Bytes → b.World → b.World × Reply
  unfolding rmw_string read_current_string splice reply_to
  handle_set_range args = elim (parse_int (arg args 2)) [
    | none ↦ λ w. (w, error err_not_integer)
    | some offset ↦
        if ltb_ℤ offset (pos 0)
        then (λ w. (w, error err_offset_out_of_range))
        else set_range_at (arg args 1) (pos_part offset) (arg args 3)
  ]

  unfoldable pub handle_strlen : List Bytes → b.World → b.World × Reply
  unfolding read_current_string reply_to
  handle_strlen args =
      reply_to (do cur ← read_current_string (key_pk env (arg args 1)); return (current_length cur))

  abbrev range_of : ℤ → ℤ → Current → Reply
  range_of start end missing = bulk []
  range_of start end other_type = error err_wrong_type
  range_of start end (present []) = bulk []
  range_of start end (present (c ∷ v)) =
      bulk (slice (range_bounds (length (c ∷ v)) start end) (c ∷ v))

  abbrev range_between : Bytes → Option ℤ → Option ℤ → b.World → b.World × Reply
  range_between key (some start) (some end) =
      reply_to (do cur ← read_current_string (key_pk env key); return (range_of start end cur))
  range_between key _ _ = λ w. (w, error err_not_integer)

  unfoldable pub handle_get_range : List Bytes → b.World → b.World × Reply
  unfolding read_current_string range_bounds reply_to
  handle_get_range args =
      range_between (arg args 1) (parse_int (arg args 2)) (parse_int (arg args 3))

  abbrev bulk_or_null : Option Bytes → Reply
  bulk_or_null none = null_bulk
  bulk_or_null (some v) = bulk v

  abbrev get_standing : Bytes → Standing → M b.World Reply
  get_standing pk absent = return null_bulk
  get_standing pk live_other = return (error err_wrong_type)
  get_standing pk live_string = do v ← b.get_string pk; return (bulk_or_null v)

  unfoldable pub handle_get : List Bytes → b.World → b.World × Reply
  unfolding reply_to
  handle_get args =
      let pk = key_pk env (arg args 1) in
      reply_to (do found ← b.load_meta pk; get_standing pk (standing env.now found))

  abbrev write_expiry : Bytes → SetOptions → M b.World (Unit {0})
  write_expiry pk o =
      if o.exp_set then (do _ ← b.set_expire pk o.exp_epoch; return tt) else return tt

  -- The NX branch of SET: the claim decides.
  unfoldable pub set_if_absent : Bytes → Bytes → SetOptions → M b.World Reply
  set_if_absent pk val o = do
    created ← b.create_type_if_absent pk type_string (pos 0) env.now
    if created
        then (do
          _ ← b.delete_members pk
          b.set_string pk val
          write_expiry pk o
          return (status (codes "OK")))
        else return null_bulk

  -- The rest of SET, which overwrites a key of any type.
  unfoldable pub set_any : Bytes → Bytes → SetOptions → M b.World Reply
  unfolding overwrite_any_type ensure_type_expiring
  set_any pk val o = do
    overwrite_any_type pk
    ensure_type_expiring pk type_string
    b.set_string pk val
    if o.exp_set
        then (do _ ← b.set_expire pk o.exp_epoch; return (status (codes "OK")))
        else (do _ ← b.persist pk; return (status (codes "OK")))

  unfoldable pub set_with : Bytes → Bytes → SetOptions → M b.World Reply
  unfolding set_if_absent set_any key_live
  set_with key val o = do
    check_write b key [] (val ∷ [])
    if o.nx
        then set_if_absent (key_pk env key) val o
        else if o.xx
        then (do
          live ← key_live b env (key_pk env key)
          if live then set_any (key_pk env key) val o else return null_bulk)
        else set_any (key_pk env key) val o

  unfoldable pub handle_set : List Bytes → b.World → b.World × Reply
  unfolding set_with reply_to
  handle_set args = elim (parse_set_options (drop 3 args) env.now) [
    | rejected text ↦ λ w. (w, error text)
    | parsed o ↦ reply_to (set_with (arg args 1) (arg args 2) o)
  ]
