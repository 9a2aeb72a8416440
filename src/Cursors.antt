-- ===== src/Cursors.antt =====
-- The cursor registry of internal/scan/registry.go: a bounded table of pagination tokens, least
-- recently used last. The map from cursors to elements of the list is a search in the list. The
-- mutex makes each call one step; the clock and the random numbers are arguments.
pub mod Bounded
pub mod Drawn
pub mod Retained
use redimos.Prelude.{
  ℕ, Bool, true, false, ◌||◌, not, Option, none, some, List, [], ◌∷◌, Bytes, if◌then◌else◌, take,
  ◌==◌, bytes_eq,
}
use redimos.Prelude.Int.{ℤ, pos, pos_part, ◌-ℤ◌, leb_ℤ}

-- `lruItem` with its `CursorEntry`; times in nanoseconds.
pub record Entry (Token : Type 0) : Type 0 where
  pub cursor : ℕ
  pub inst_id : Bytes
  pub token : Token
  pub created_at : ℤ

pub record Registry (Token : Type 0) : Type 0 where
  pub inst_id : Bytes
  pub capacity : ℕ
  pub ttl : ℤ
  pub order : List (Entry Token)

abbrev pub default_capacity : ℕ
default_capacity = 10000

-- Ten minutes.
abbrev pub default_ttl : ℤ
default_ttl = pos 600000000000

module _ {Token : Type 0} where
  -- `New`, with its defaults.
  unfoldable pub new_registry : Bytes → ℤ → ℤ → Registry Token
  new_registry inst_id capacity ttl = record {
    inst_id = inst_id;
    capacity = if leb_ℤ capacity (pos 0) then default_capacity else pos_part capacity;
    ttl = if leb_ℤ ttl (pos 0) then default_ttl else ttl;
    order = [];
  }

  -- `r.items[cursor]`
  unfoldable pub find_cursor : ℕ → List (Entry Token) → Option (Entry Token)
  find_cursor c [] = none
  find_cursor c (e ∷ es) = if e.cursor == c then some e else find_cursor c es

  abbrev pub exists_entry : Option (Entry Token) → Bool
  exists_entry none = false
  exists_entry (some e) = true

  -- `newCursorLocked` on the random numbers that are drawn: the first that is not 0 and not in use.
  unfoldable pub new_cursor : List ℕ → List (Entry Token) → Option ℕ
  unfolding find_cursor
  new_cursor [] es = none
  new_cursor (c ∷ draws) es =
      if c == 0 || exists_entry (find_cursor c es) then new_cursor draws es else some c

  -- `removeElementLocked` of the element with a cursor.
  unfoldable pub remove_cursor : ℕ → List (Entry Token) → List (Entry Token)
  remove_cursor c [] = []
  remove_cursor c (e ∷ es) = let rest = remove_cursor c es in if e.cursor == c then es else e ∷ rest

  -- `Save` once a cursor is drawn: the new entry in front, and what is past the capacity dropped
  -- from the back.
  unfoldable pub save_cursor : ℕ → Token → ℤ → Registry Token → Registry Token
  save_cursor c token now r = record r {
    order =
        take r.capacity
          (record { cursor = c; inst_id = r.inst_id; token = token; created_at = now } ∷ r.order);
  }

  abbrev pub saved : Token → ℤ → Registry Token → Option ℕ → Option ℕ × Registry Token
  saved token now r none = (none, r)
  saved token now r (some c) = (some c, save_cursor c token now r)

  unfoldable pub save : List ℕ → Token → ℤ → Registry Token → Option ℕ × Registry Token
  unfolding new_cursor save_cursor
  save draws token now r = saved token now r (new_cursor draws r.order)

  -- `load` of an entry that is there: gone if its time is over, refused to another instance.
  unfoldable pub load_entry :
      Entry Token → Bytes → ℤ → Registry Token → Option Token × Registry Token
  unfolding remove_cursor
  load_entry e inst_id now r =
      if leb_ℤ r.ttl (now -ℤ e.created_at)
      then (none, record r { order = remove_cursor e.cursor r.order })
      else if bytes_eq e.inst_id inst_id
      then (some e.token, record r { order = e ∷ remove_cursor e.cursor r.order })
      else (none, r)

  abbrev pub loaded :
      Bytes → ℤ → Registry Token → Option (Entry Token) → Option Token × Registry Token
  loaded inst_id now r none = (none, r)
  loaded inst_id now r (some e) = load_entry e inst_id now r

  -- `LoadOwned`; `Load` passes the registry's own instance.
  unfoldable pub load_owned : ℕ → Bytes → ℤ → Registry Token → Option Token × Registry Token
  unfolding find_cursor load_entry
  load_owned c inst_id now r =
      if c == 0 then (none, r) else loaded inst_id now r (find_cursor c r.order)
