-- ===== src/Strings/Many.antt =====
-- MGET, MSET and MSETNX of internal/command/strings.go.
pub mod Batches
pub mod Mset
use redimos.Prelude.{
  ℕ, zero, suc, ◌%◌, Bool, true, false, ◌&&◌, Option, none, some, List, [], ◌∷◌, Bytes, codes,
  if◌then◌else◌, length, take, drop, map, ◌==◌,
}
use redimos.Prelude.Int.{pos}
use redimos.Reply.{Reply, status, error, int, opt_bulk_array}
use redimos.Store.{Meta, Store, M, ◌>>=◌, ◌>>◌, return, reply_to, type_string}
use redimos.Keys.{Env, key_pk, key_live}
use redimos.Guard.{check_write}
use redimos.Strings.{Standing, live_string, standing, overwrite_any_type, ensure_type_expiring}
use redimos.Collections.Entries.{lookup}

abbrev pub err_mset_odd_args : Bytes
err_mset_odd_args = codes "ERR wrong number of arguments for MSET"

-- The arguments two by two.
unfoldable pub pairs_of : List Bytes → List (Bytes × Bytes)
pairs_of [] = []
pairs_of (k ∷ []) = []
pairs_of (k ∷ v ∷ rest) = (k, v) ∷ pairs_of rest

-- `msetBatchKeys`
abbrev pub mset_batch_keys : ℕ
mset_batch_keys = 25

abbrev is_string : Standing → Bool
is_string live_string = true
is_string _ = false

abbrev if_live : List (Bytes × Bool) → List Bytes
if_live [] = []
if_live ((pk, live) ∷ rest) = if live then pk ∷ if_live rest else if_live rest

abbrev value_of : List (Bytes × Bytes) → Bytes × Bool → Option Bytes
value_of vals (pk, live) = if live then lookup pk vals else none

module _ (b : Store) (env : Env) where
  -- The loop of MGET over the meta items: the partition keys, and which are live Strings.
  unfoldable pub load_all : List Bytes → M b.World (List (Bytes × Bool))
  unfolding standing
  load_all [] = return []
  load_all (key ∷ keys) = do
    found ← b.load_meta (key_pk env key)
    rest ← load_all keys
    return ((key_pk env key, is_string (standing env.now found)) ∷ rest)

  unfoldable pub handle_mget : List Bytes → b.World → b.World × Reply
  unfolding load_all lookup reply_to
  handle_mget args = reply_to (do
    keys ← load_all (drop 1 args)
    vals ← b.mget_strings (if_live keys)
    return (opt_bulk_array (map (value_of vals) keys)))

  -- The loop that checks every pair before anything is written.
  unfoldable pub check_pairs : List (Bytes × Bytes) → M b.World (Unit {0})
  check_pairs [] = return tt
  check_pairs ((key, val) ∷ ps) = do check_write b key [] (val ∷ []); check_pairs ps

  -- What MSET does with one pair.
  unfoldable pub set_pair : Bytes → Bytes → M b.World (Unit {0})
  unfolding overwrite_any_type ensure_type_expiring
  set_pair pk val = do
    overwrite_any_type b env pk
    ensure_type_expiring b env pk type_string
    b.set_string pk val
    _ ← b.persist pk
    return tt

  -- The inner loop of MSET.
  unfoldable pub set_pairs : List (Bytes × Bytes) → M b.World (Unit {0})
  unfolding set_pair
  set_pairs [] = return tt
  set_pairs ((key, val) ∷ ps) = do set_pair (key_pk env key) val; set_pairs ps

  -- The outer loop, on fuel: each batch takes at least one pair.
  unfoldable pub set_batches : ℕ → List (Bytes × Bytes) → M b.World (Unit {0})
  unfolding set_pairs
  set_batches zero ps = return tt
  set_batches (suc n) ps = do
    set_pairs (take mset_batch_keys ps)
    set_batches n (drop mset_batch_keys ps)

  unfoldable pub mset_pairs : List (Bytes × Bytes) → M b.World Reply
  unfolding check_pairs set_batches
  mset_pairs ps = do check_pairs ps; set_batches (length ps) ps; return (status (codes "OK"))

  unfoldable pub handle_mset : List Bytes → b.World → b.World × Reply
  unfolding pairs_of mset_pairs reply_to
  handle_mset args =
      if length (drop 1 args) % 2 == 0
      then reply_to (mset_pairs (pairs_of (drop 1 args)))
      else (λ w. (w, error err_mset_odd_args))

  -- The loop of MSETNX that stops at the first live key.
  unfoldable pub any_live : List (Bytes × Bytes) → M b.World Bool
  unfolding key_live
  any_live [] = return false
  any_live ((key, val) ∷ ps) = do
    live ← key_live b env (key_pk env key)
    if live then return true else any_live ps

  -- Its writes, which need not overwrite a key of another type.
  unfoldable pub create_pairs : List (Bytes × Bytes) → M b.World (Unit {0})
  unfolding ensure_type_expiring
  create_pairs [] = return tt
  create_pairs ((key, val) ∷ ps) = do
    ensure_type_expiring b env (key_pk env key) type_string
    b.set_string (key_pk env key) val
    _ ← b.persist (key_pk env key)
    create_pairs ps

  unfoldable pub mset_nx_pairs : List (Bytes × Bytes) → M b.World Reply
  unfolding check_pairs any_live create_pairs
  mset_nx_pairs ps = do
    check_pairs ps
    live ← any_live ps
    if live then return (int (pos 0)) else (do create_pairs ps; return (int (pos 1)))

  unfoldable pub handle_mset_nx : List Bytes → b.World → b.World × Reply
  unfolding pairs_of mset_nx_pairs reply_to
  handle_mset_nx args =
      if length (drop 1 args) % 2 == 0
      then reply_to (mset_nx_pairs (pairs_of (drop 1 args)))
      else (λ w. (w, error err_mset_odd_args))
