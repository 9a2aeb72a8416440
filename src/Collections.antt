-- ===== src/Collections.antt =====
-- What the collection commands share: the classification of a key by internal/command/state.go,
-- and the count, range and cap helpers of internal/command/datacmd.go.
pub mod Ranges
pub mod Entries
pub mod Laws
pub mod Counts
pub mod Writes
pub mod Stored
pub mod Steps
pub mod Storable
use redimos.Prelude.{
  ℕ, zero, suc, Bool, true, false, ◌&&◌, ◌||◌, Option, none, some, List, [], ◌∷◌, Bytes,
  if◌then◌else◌, bytes_eq, leb, length,
}
use redimos.Prelude.Int.{ℤ, pos, negsuc, ◌+ℤ◌, ◌-ℤ◌, ltb_ℤ, leb_ℤ, eqb_ℤ, wrap64}
use redimos.Reply.{Reply, Result, error, int, ok, err_collection_too_large}
use redimos.Store.{Meta, Store, M, ◌>>=◌, return}
use redimos.Expiry.{is_expired}
use redimos.Keys.{Env}
use redimos.Guard.{max_member_name_size}

-- The results of `loadMetaState`: not live, live with another type, or live as wanted.
pub data State : Type 0 where
  not_live : State
  other_type : State
  live : Meta → State

unfoldable pub classify : ℤ → Bytes → Option Meta → State
unfolding is_expired
classify now want none = not_live
classify now want (some m) =
    if is_expired m now then not_live else if bytes_eq m.type want then live m else other_type

-- A negative rank counts from the end.
unfoldable pub rank_from_end : ℤ → ℤ → ℤ
rank_from_end n x = if ltb_ℤ x (pos 0) then wrap64 (x +ℤ n) else x

-- The rest of `rangeResultCount`, which cuts the resolved ranks to the collection and counts them.
unfoldable pub count_between : ℤ → ℤ → ℤ → ℤ
count_between clen from to =
    let lo = if ltb_ℤ from (pos 0) then pos 0 else from in
    let hi = if leb_ℤ clen to then clen -ℤ pos 1 else to in
    if ltb_ℤ hi lo then pos 0 else wrap64 (wrap64 (hi -ℤ lo) +ℤ pos 1)

-- `rangeResultCount`
unfoldable pub range_result_count : ℤ → ℤ → ℤ → ℤ
unfolding rank_from_end count_between
range_result_count clen start stop =
    if leb_ℤ clen (pos 0)
    then pos 0
    else count_between clen (rank_from_end clen start) (rank_from_end clen stop)

-- The rest of `ZNormalizeRankRange`, from its clamped start on.
unfoldable pub bounds_between : ℤ → ℤ → ℤ → Option (ℤ × ℤ)
bounds_between n lo to =
    let hi = if leb_ℤ n to then n -ℤ pos 1 else to in
    if leb_ℤ n lo || ltb_ℤ hi (pos 0) || ltb_ℤ hi lo then none else some (lo, hi)

-- `ZNormalizeRankRange` of internal/storage/store_zsets.go: the inclusive bounds, if any.
unfoldable pub normalize_rank_range : ℤ → ℤ → ℤ → Option (ℤ × ℤ)
unfolding rank_from_end bounds_between
normalize_rank_range n start stop =
    let from = rank_from_end n start in
    let lo = if ltb_ℤ start (pos 0) && ltb_ℤ from (pos 0) then pos 0 else from in
    if eqb_ℤ n (pos 0) then none else bounds_between n lo (rank_from_end n stop)

-- `-int64(n)`
abbrev pub negated : ℕ → ℤ
negated zero = pos 0
negated (suc n) = negsuc n

-- `:1` or `:0`.
abbrev pub flag_reply : Bool → Reply
flag_reply true = int (pos 1)
flag_reply false = int (pos 0)

-- `memberStorable`: a longer name is in no collection.
unfoldable pub member_storable : Bytes → Bool
member_storable member = leb (length member) max_member_name_size

-- The loops of HMGET, HDEL and SREM that drop the other names.
unfoldable pub storable_members : List Bytes → List Bytes
unfolding member_storable
storable_members [] = []
storable_members (m ∷ ms) =
    let rest = storable_members ms in if member_storable m then m ∷ rest else rest

-- The rest of a handler, by the state of its key.
abbrev pub on_state {ℓ} : {W : Type ℓ} → (Meta → W) → W → W → State → W
on_state run absent wrong not_live = absent
on_state run absent wrong other_type = wrong
on_state run absent wrong (live m) = run m

module _ (b : Store) (env : Env) where
  unfoldable pub load_meta_state : Bytes → Bytes → M b.World State
  unfolding classify
  load_meta_state pk want = do found ← b.load_meta pk; return (classify env.now want found)

  -- `resultCapExceeded`; a cap of 0 disables the check.
  unfoldable pub result_cap_exceeded : ℤ → Bool
  result_cap_exceeded count =
      ltb_ℤ (pos 0) env.max_collection_result && ltb_ℤ env.max_collection_result count

  -- `adjustCount`: a removal that leaves no member deletes the meta item.
  unfoldable pub adjust_count : Bytes → Bytes → ℤ → M b.World (Unit {0})
  adjust_count pk type delta = if eqb_ℤ delta (pos 0) then return tt else (do
    new_count ← b.ensure_type pk type delta
    if ltb_ℤ delta (pos 0) && leb_ℤ new_count (pos 0)
        then (do _ ← b.delete_meta_if_empty pk; return tt)
        else return tt)
