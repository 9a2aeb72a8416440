-- ===== src/Samples/Backend.antt =====
-- A `Store` whose world is four functions, with the laws that the theorems ask for.
use redimos.Prelude.{
  ℕ, zero, suc, ◌+◌, ◌≡◌, refl, Bool, true, false, map, ◌&&◌, Option, none, some, List, [], ◌∷◌,
  ◌++◌, Bytes, codes, if◌then◌else◌, length, bytes_eq,
}
use redimos.Prelude.Int.{ℤ, pos, pos_part, ◌+ℤ◌}
use redimos.Reply.{Result, ok, err, wrong_type}
use redimos.Store.{Meta, Store, type_string, type_list, type_hash, type_set}
use redimos.Store.Laws.{MetaLaws, ViewLaws, is_some, with_exp}
use redimos.Keys.{Env}
use redimos.Lists.Laws.{ListLaws, pushed_front, first_of, last_of, taken as taken_of, left}
use redimos.Collections.Laws.{CountLaws, unless_empty, count_new, count_gone}
use redimos.Collections.Entries.{lookup, puts, remove, removes, names}
use redimos.Hashes.Laws.{value_length}
use redimos.Strings.Laws.{StringLaws, ensured, unchanged}

pub record Items : Type 0 where
  pub metas : Bytes → Option Meta
  pub values : Bytes → Option Bytes
  pub lists : Bytes → List Bytes
  pub hashes : Bytes → List (Bytes × Bytes)
  pub sets : Bytes → List (Bytes × Unit {0})
  pub queued : List Bytes
  pub interceptions : ℕ

abbrev pub at {ℓ} : {A : Type ℓ} → Bytes → A → (Bytes → A) → Bytes → A
at pk v f j = if bytes_eq pk j then v else f j

abbrev pub with_meta : Bytes → Option Meta → Items → Items
with_meta pk m w = record w { metas = at pk m w.metas }

abbrev with_list : Bytes → List Bytes → Items → Items
with_list pk xs w = record w { lists = at pk xs w.lists }

abbrev cas : Bytes → Bytes → Bool → Items → Items
cas pk new done w = record w {
  values = λ j. if done && bytes_eq pk j then some new else w.values j;
}

abbrev pub taken : Bytes → Option (Meta × Bool) → Items → Items × Result (ℤ × Bool)
taken pk none w = (w, err wrong_type)
taken pk (some (m, took)) w = (with_meta pk (some m) w, ok (m.count, took))

abbrev touch : (Option Meta → Option Meta) → Bytes → Items → Items × Result Bool
touch f pk w = (
  record w { metas = λ j. if bytes_eq pk j then f (w.metas j) else w.metas j },
  ok (is_some (w.metas pk)),
)

abbrev popped :
    (List Bytes → Option (Bytes × List Bytes)) → Bytes → Items → Items × Result (Option Bytes)
popped view pk w = (
  record w { lists = λ j. if bytes_eq pk j then left (view (w.lists j)) else w.lists j },
  ok (taken_of (view (w.lists pk))),
)

abbrev pub bump : Bytes → ℤ → Option Meta → Items → Items × Result ℤ
bump pk delta none w = (w, ok delta)
bump pk delta (some m) w =
    (with_meta pk (some (record m { count = m.count +ℤ delta })) w, ok (m.count +ℤ delta))

abbrev pushed :
    (List Bytes → List Bytes → List Bytes) → Bytes → List Bytes → Items → Items × Result ℕ
pushed f pk xs w = (
  record w { lists = λ j. if bytes_eq pk j then f xs (w.lists j) else w.lists j },
  ok (length xs),
)

abbrev pub with_hash : Bytes → (List (Bytes × Bytes) → List (Bytes × Bytes)) → Items → Items
with_hash pk f w = record w { hashes = λ j. if bytes_eq pk j then f (w.hashes j) else w.hashes j }

abbrev pub with_set : Bytes → (List (Bytes × Unit {0}) → List (Bytes × Unit {0})) → Items → Items
with_set pk f w = record w { sets = λ j. if bytes_eq pk j then f (w.sets j) else w.sets j }

abbrev pub set_fresh : Bytes → Bytes → Bytes → Option Bytes → Items → Items × Result Bool
set_fresh pk f v none w = (with_hash pk (puts ((f, v) ∷ [])) w, ok true)
set_fresh pk f v (some old) w = (w, ok false)

abbrev pub unit_pairs : List Bytes → List (Bytes × Unit {0})
unit_pairs [] = []
unit_pairs (x ∷ xs) = (x, tt) ∷ unit_pairs xs

-- So many different names, or all.
abbrev pub first_names : ℕ → List (Bytes × Unit {0}) → List Bytes
first_names zero m = []
first_names (suc n) [] = []
first_names (suc n) ((x, u) ∷ m) = x ∷ first_names n (remove x m)

-- The names that have a value, with it.
abbrev pub present_one : Bytes → Option Bytes → List (Bytes × Bytes) → List (Bytes × Bytes)
present_one f none rest = rest
present_one f (some v) rest = (f, v) ∷ rest

abbrev pub present : List Bytes → (Bytes → Option Bytes) → List (Bytes × Bytes)
present [] g = []
present (f ∷ fs) g = present_one f (g f) (present fs g)

abbrev pub memory : Store
memory = record {
  World = Items;
  Float = Unit {0};
  parse_float = λ s. none;
  load_meta = λ pk w. (w, ok (w.metas pk));
  ensure_type = λ pk t delta w. bump pk delta (w.metas pk) w;
  ensure_type_expiring = λ pk t delta now w. taken pk (ensured now t delta (w.metas pk)) w;
  create_type_if_absent = λ pk t delta now w. (w, ok false);
  set_expire = λ pk exp w. touch (with_exp exp) pk w;
  persist = λ pk w. touch (with_exp (pos 0)) pk w;
  delete_meta = λ pk w. touch (λ _. none) pk w;
  delete_meta_if_empty = λ pk w. touch unless_empty pk w;
  delete_members = λ pk w. (
    record w {
      values = at pk none w.values;
      lists = at pk [] w.lists;
      hashes = at pk [] w.hashes;
      sets = at pk [] w.sets;
    },
    ok 0,
  );
  enqueue = λ pk w. record w { queued = pk ∷ w.queued };
  add_interception = λ w. record w { interceptions = w.interceptions + 1 };
  get_string = λ pk w. (w, ok (w.values pk));
  set_string = λ pk v w. (record w { values = at pk (some v) w.values }, ok tt);
  set_string_if_equals = λ pk new old old_exists w. (
    cas pk new (unchanged (w.values pk) old old_exists) w,
    ok (unchanged (w.values pk) old old_exists),
  );
  lpush = λ pk xs w. pushed pushed_front pk xs w;
  rpush = λ pk xs w. pushed (λ ys old. old ++ ys) pk xs w;
  lpop = λ pk w. popped first_of pk w;
  rpop = λ pk w. popped last_of pk w;
  lrange = λ pk start stop w. (w, ok (w.lists pk));
  lindex = λ pk i w. (w, ok none);
  lrange_all = λ pk w. (w, ok (w.lists pk));
  lreplace_all = λ pk xs w. (with_list pk xs w, ok (length xs));
  get_set_string = λ pk v w. (record w { values = at pk (some v) w.values }, ok (w.values pk));
  mget_strings = λ pks w. (w, ok (present pks w.values));
  incr_by = λ pk n w. (w, ok n);
  incr_by_float = λ pk n w. (w, ok []);
  hset = λ pk ps w. (with_hash pk (puts ps) w, ok (count_new ps (λ f. lookup f (w.hashes pk))));
  hset_nx = λ pk f v w. set_fresh pk f v (lookup f (w.hashes pk)) w;
  hget = λ pk f w. (w, ok (lookup f (w.hashes pk)));
  hmget = λ pk fs w. (w, ok (present fs (λ f. lookup f (w.hashes pk))));
  hget_all = λ pk w. (w, ok (w.hashes pk));
  hkeys = λ pk w. (w, ok (names (w.hashes pk)));
  hvals = λ pk w. (w, ok (map (λ p. p.1) (w.hashes pk)));
  hdel = λ pk fs w. (with_hash pk (removes fs) w, ok (count_gone fs (λ f. lookup f (w.hashes pk))));
  hexists = λ pk f w. (w, ok (is_some (lookup f (w.hashes pk))));
  hstrlen = λ pk f w. (w, ok (value_length (lookup f (w.hashes pk))));
  hincr_by = λ pk f n w. (w, ok (n, false));
  hincr_by_float = λ pk f n w. (w, ok ([], false));
  sadd = λ pk ms w. (
    with_set pk (puts (unit_pairs ms)) w,
    ok (count_new (unit_pairs ms) (λ f. lookup f (w.sets pk))),
  );
  srem = λ pk ms w. (with_set pk (removes ms) w, ok (count_gone ms (λ f. lookup f (w.sets pk))));
  sis_member = λ pk x w. (w, ok (is_some (lookup x (w.sets pk))));
  smembers = λ pk w. (w, ok (names (w.sets pk)));
  spop = λ pk n w. (
    with_set pk (removes (first_names (pos_part n) (w.sets pk))) w,
    ok (first_names (pos_part n) (w.sets pk)),
  );
  srand_member = λ pk n w. (w, ok (names (w.sets pk)));
  meta = λ w. w.metas;
  value = λ w. w.values;
  elements = λ w. w.lists;
  field = λ w pk f. lookup f (w.hashes pk);
  member = λ w pk x. lookup x (w.sets pk);
  queue = λ w. w.queued;
}

abbrev pub memory_metas : MetaLaws memory
memory_metas = record {
  load_meta_lem = λ pk w. refl;
  delete_meta_result = λ pk w. refl;
  meta-delete_meta = λ pk j w. refl;
  meta-enqueue = λ pk j w. refl;
  queue-enqueue = λ pk w. refl;
  queue-delete_meta = λ pk w. refl;
  set_expire_result = λ pk exp w. refl;
  meta-set_expire = λ pk j exp w. refl;
  persist_result = λ pk w. refl;
  meta-persist = λ pk j w. refl;
}

pub value-taken :
    (pk j : Bytes) (o : Option (Meta × Bool)) (w : Items) → (taken pk o w).0.values j ≡ w.values j
value-taken pk j none w = refl
value-taken pk j (some (m, took)) w = refl

pub elements-taken :
    (pk j : Bytes) (o : Option (Meta × Bool)) (w : Items) → (taken pk o w).0.lists j ≡ w.lists j
elements-taken pk j none w = refl
elements-taken pk j (some (m, took)) w = refl

abbrev pub memory_strings : StringLaws memory
memory_strings = record {
  metas = memory_metas;
  ensure_result = λ pk t delta now w m took e. rw e;
  ensure_refused = λ pk t delta now w e. rw e;
  meta-ensure = λ pk t j delta now w m took e. rw e;
  value-ensure = λ pk t j delta now w. value-taken pk j (ensured now t delta (w.metas pk)) w;
  get_string_lem = λ pk w. refl;
  set_string_result = λ pk v w. refl;
  value-set_string = λ pk v j w. refl;
  meta-set_string = λ pk v j w. refl;
  cas_result = λ pk new old old_exists w. refl;
  value-cas = λ pk new old j old_exists w. refl;
  meta-cas = λ pk new old j old_exists w. refl;
  delete_members_result = λ pk w. (0, refl);
  value-delete_members = λ pk j w. refl;
  meta-delete_members = λ pk j w. refl;
  value-delete_meta = λ pk j w. refl;
  value-enqueue = λ pk j w. refl;
  value-set_expire = λ pk j exp w. refl;
  value-persist = λ pk j w. refl;
}

pub bumped :
    (pk : Bytes) (delta : ℤ) (o : Option Meta) (w : Items) (m : Meta)
    → o ≡ some m
    → (bump pk delta o w).1 ≡ ok (m.count +ℤ delta)
bumped pk delta o w m e = rw e

pub bumped_metas :
    (pk j : Bytes) (delta : ℤ) (o : Option Meta) (w : Items) (m : Meta)
    → o ≡ some m
    → (bump pk delta o w).0.metas j
      ≡ (if bytes_eq pk j then some (record m { count = m.count +ℤ delta }) else w.metas j)
bumped_metas pk j delta o w m e = rw e

pub bumped_lists :
    (pk j : Bytes) (delta : ℤ) (o : Option Meta) (w : Items)
    → (bump pk delta o w).0.lists j ≡ w.lists j
bumped_lists pk j delta none w = refl
bumped_lists pk j delta (some m) w = refl

abbrev pub memory_counts : CountLaws memory
memory_counts = record {
  strings = memory_strings;
  ensure_type_result = λ pk t delta w m e typed. bumped pk delta (w.metas pk) w m e;
  meta-ensure_type = λ pk t j delta w m e typed. bumped_metas pk j delta (w.metas pk) w m e;
  delete_if_empty_result = λ pk w. (is_some (w.metas pk), refl);
  meta-delete_if_empty = λ pk j w. refl;
}

abbrev pub memory_elements : ViewLaws memory (List Bytes) [] (λ w. w.lists)
memory_elements = record {
  view-ensure = λ pk t j delta now w. elements-taken pk j (ensured now t delta (w.metas pk)) w;
  view-ensure_type = λ pk t j delta w. bumped_lists pk j delta (w.metas pk) w;
  view-delete_if_empty = λ pk j w. refl;
  view-delete_members = λ pk j w. refl;
  view-delete_meta = λ pk j w. refl;
  view-enqueue = λ pk j w. refl;
}

pub memory_lists : ListLaws memory
memory_lists = record {
  counts = memory_counts;
  view = memory_elements;
  lpush_laws = record {
    result = λ pk xs w. refl;
    elements = λ pk j xs w. refl;
    metas = λ pk j xs w. refl;
  };
  rpush_laws = record {
    result = λ pk xs w. refl;
    elements = λ pk j xs w. refl;
    metas = λ pk j xs w. refl;
  };
  lpop_laws = record { result = λ pk w. refl; elements = λ pk j w. refl; metas = λ pk j w. refl };
  rpop_laws = record { result = λ pk w. refl; elements = λ pk j w. refl; metas = λ pk j w. refl };
}

abbrev pub env : Env
env = record { multi_db = false; db = 0; now = pos 1700000000; max_collection_result = pos 0 }

abbrev pub empty_items : Items
empty_items = record {
  metas = λ _. none;
  values = λ _. none;
  lists = λ _. [];
  hashes = λ _. [];
  sets = λ _. [];
  queued = [];
  interceptions = 0;
}

abbrev greeting : Meta
greeting = record { type = type_string; exp = pos 0; count = pos 0 }

abbrev pub stale : Meta
stale = record { type = type_list; exp = pos 1600000000; count = pos 2 }

-- `a` is a String "hello", `b` an expired list.
abbrev pub items : Items
items = record empty_items {
  metas = at (codes "a") (some greeting) (at (codes "b") (some stale) (λ _. none));
  values = at (codes "a") (some (codes "hello")) (λ _. none);
}

-- `l` is a live list of two elements.
abbrev pub pair : Meta
pair = record { type = type_list; exp = pos 0; count = pos 2 }

abbrev pub listed : Items
listed = record empty_items {
  metas = at (codes "l") (some pair) (λ _. none);
  lists = at (codes "l") (codes "x" ∷ codes "y" ∷ []) (λ _. []);
}

-- `h` is a live hash of two fields, `s` a live set of two members, `t` a live set of one.
abbrev pub two_fields : List (Bytes × Bytes)
two_fields = (codes "f", codes "1") ∷ (codes "g", codes "2") ∷ []

abbrev pub two_members : List (Bytes × Unit {0})
two_members = (codes "x", tt) ∷ (codes "y", tt) ∷ []

abbrev pub one_member : List (Bytes × Unit {0})
one_member = (codes "y", tt) ∷ []

abbrev counted : Bytes → ℕ → Option Meta
counted t n = some (record { type = t; exp = pos 0; count = pos n })

abbrev pub gathered : Items
gathered = record empty_items {
  metas =
      at (codes "h") (counted type_hash 2)
        (at (codes "s") (counted type_set 2) (at (codes "t") (counted type_set 1) (λ _. none)));
  hashes = at (codes "h") two_fields (λ _. []);
  sets = at (codes "s") two_members (at (codes "t") one_member (λ _. []));
}
