-- ===== src/Samples/Members.antt =====
-- The laws of hashes and sets hold for the store in memory.
use redimos.Prelude.Int.{ℤ, pos_part}
use redimos.Reply.{ok}
use redimos.Prelude.{
  ℕ, zero, suc, ◌+◌, Option-cases, length, bytes_eq_self, ◌≡◌, refl, ap, sym, ◌∙◌, fun_ext, Bool,
  true, false, Bool-cases, inl, inr, Option, none, some, List, [], ◌∷◌, Bytes, if◌then◌else◌,
  bytes_eq, bytes_eq_iff, arith,
}
use redimos.Store.{Meta}
use redimos.Store.Laws.{ViewLaws, is_some}
use redimos.Strings.Laws.{ensured}
use redimos.Collections.Entries.{
  lookup, puts, remove, removes, names, listed, Distinct, lookup-remove, length-remove,
  Distinct-remove,
}
use redimos.Collections.Laws.{put_items, drop_item, drop_items, count_new, count_gone}
use redimos.Collections.Writes.{put_items-lookup, drop_items-lookup}
use redimos.Hashes.Laws.{HashLaws}
use redimos.Sets.Laws.{SetLaws, at_most}
use redimos.Samples.Backend.{
  Items, memory, memory_counts, present, unit_pairs, first_names, taken, bump, set_fresh,
}

module _ {A : Type 0} where
  put_at :
      (x : Bool) (ps m : List (Bytes × A))
      → (λ (f : Bytes). lookup f (if x then puts ps m else m))
        ≡ (if x then put_items ps (λ f. lookup f m) else (λ f. lookup f m))
  put_at true ps m = fun_ext (λ f. sym (put_items-lookup ps (λ h. lookup h m) m (λ h. refl) f))
  put_at false ps m = refl

  drop_at :
      (x : Bool) (fs : List Bytes) (m : List (Bytes × A))
      → (λ (f : Bytes). lookup f (if x then removes fs m else m))
        ≡ (if x then drop_items fs (λ f. lookup f m) else (λ f. lookup f m))
  drop_at true fs m = fun_ext (λ f. sym (drop_items-lookup fs (λ h. lookup h m) m (λ h. refl) f))
  drop_at false fs m = refl

  abbrev look : List (Bytes × A) → Bytes → Option A
  look m f = lookup f m

  abbrev nothing : Bytes → Option A
  nothing f = none

  none_at :
      (x : Bool) (m : List (Bytes × A))
      → look (if x then [] else m) ≡ (if x then nothing else look m)
  unfolding lookup
  none_at true m = refl
  none_at false m = refl

  listed-names : (x : Bytes) (m : List (Bytes × A)) → listed x (names m) ≡ is_some (lookup x m)
  unfolding listed lookup is_some
  listed-names x [] = refl
  listed-names x ((f, a) ∷ m) = elim (Bool-cases (bytes_eq f x)) [
    | inl same ↦ rw same
    | inr differ ↦ rw differ (listed-names x m)
  ]

hashes-taken :
    (pk j : Bytes) (o : Option (Meta × Bool)) (w : Items) → (taken pk o w).0.hashes j ≡ w.hashes j
hashes-taken pk j none w = refl
hashes-taken pk j (some (m, took)) w = refl

sets-taken :
    (pk j : Bytes) (o : Option (Meta × Bool)) (w : Items) → (taken pk o w).0.sets j ≡ w.sets j
sets-taken pk j none w = refl
sets-taken pk j (some (m, took)) w = refl

hashes-bump :
    (pk j : Bytes) (delta : ℤ) (o : Option Meta) (w : Items)
    → (bump pk delta o w).0.hashes j ≡ w.hashes j
hashes-bump pk j delta none w = refl
hashes-bump pk j delta (some m) w = refl

sets-bump :
    (pk j : Bytes) (delta : ℤ) (o : Option Meta) (w : Items)
    → (bump pk delta o w).0.sets j ≡ w.sets j
sets-bump pk j delta none w = refl
sets-bump pk j delta (some m) w = refl

memory_fields : ViewLaws memory (Bytes → Option Bytes) (λ _. none) memory.field
memory_fields = record {
  view-ensure = λ pk t j delta now w.
      ap (λ m f. lookup f m) (hashes-taken pk j (ensured now t delta (w.metas pk)) w);
  view-ensure_type =
      λ pk t j delta w. ap (λ m f. lookup f m) (hashes-bump pk j delta (w.metas pk) w);
  view-delete_if_empty = λ pk j w. refl;
  view-delete_members = λ pk j w. none_at (bytes_eq pk j) (w.hashes j);
  view-delete_meta = λ pk j w. refl;
  view-enqueue = λ pk j w. refl;
}

memory_members : ViewLaws memory (Bytes → Option (Unit {0})) (λ _. none) memory.member
memory_members = record {
  view-ensure = λ pk t j delta now w.
      ap (λ m x. lookup x m) (sets-taken pk j (ensured now t delta (w.metas pk)) w);
  view-ensure_type = λ pk t j delta w. ap (λ m x. lookup x m) (sets-bump pk j delta (w.metas pk) w);
  view-delete_if_empty = λ pk j w. refl;
  view-delete_members = λ pk j w. none_at (bytes_eq pk j) (w.sets j);
  view-delete_meta = λ pk j w. refl;
  view-enqueue = λ pk j w. refl;
}

fresh_set :
    (pk f v : Bytes) (o : Option Bytes) (w : Items)
    → o ≡ none
    → set_fresh pk f v o w ≡ ((memory.hset pk ((f, v) ∷ []) w).0, ok true)
fresh_set pk f v o w e = rw e

stale_set :
    (pk f v old : Bytes) (o : Option Bytes) (w : Items)
    → o ≡ some old
    → set_fresh pk f v o w ≡ (w, ok false)
stale_set pk f v old o w e = rw e

both_none : (x : Bool) (o : Option Bytes) → o ≡ none → (if x then o else none) ≡ o
both_none true o e = refl
both_none false o e = sym e

lookup-present :
    (g : Bytes → Option Bytes) (fs : List Bytes) (f : Bytes)
    → lookup f (present fs g) ≡ (if listed f fs then g f else none)
unfolding lookup listed
lookup-present g [] f = refl
lookup-present g (k ∷ ks) f = elim (Option-cases (g k)) [
  | inl missing ↦ elim (Bool-cases (bytes_eq k f)) [
    | inl same ↦
        let e = ap g (sym ((bytes_eq_iff k f).0 same)) ∙ missing in
        rw (missing, same) (lookup-present g ks f ∙ both_none (listed f ks) (g f) e)
    | inr differ ↦ rw (missing, differ) (lookup-present g ks f)
  ]
  | inr (v, there) ↦ elim (Bool-cases (bytes_eq k f)) [
    | inl same ↦ rw (there, same) (sym there ∙ ap g ((bytes_eq_iff k f).0 same))
    | inr differ ↦ rw (there, differ) (lookup-present g ks f)
  ]
]

pub memory_hashes : HashLaws memory
memory_hashes = record {
  counts = memory_counts;
  view = memory_fields;
  hset_laws = record {
    result = λ pk ps w. refl;
    items = λ pk j ps w. put_at (bytes_eq pk j) ps (w.hashes j);
    metas = λ pk j ps w. refl;
  };
  hdel_laws = record {
    result = λ pk fs w. refl;
    items = λ pk j fs w. drop_at (bytes_eq pk j) fs (w.hashes j);
    metas = λ pk j fs w. refl;
  };
  hset_nx_absent = λ pk f v w e. fresh_set pk f v (lookup f (w.hashes pk)) w e;
  hset_nx_present = λ pk f v old w e. stale_set pk f v old (lookup f (w.hashes pk)) w e;
  hget_lem = λ pk f w. refl;
  hexists_lem = λ pk f w. refl;
  hstrlen_lem = λ pk f w. refl;
  hmget_lem = λ pk fs w. (
    present fs (λ f. lookup f (w.hashes pk)),
    refl,
    lookup-present (λ f. lookup f (w.hashes pk)) fs,
  );
}

unit_pairs-names : (m : List (Bytes × Unit {0})) → unit_pairs (names m) ≡ m
unit_pairs-names [] = refl
unit_pairs-names ((x, u) ∷ m) = ap (λ ys. (x, u) ∷ ys) (unit_pairs-names m)

hidden_twice {ℓ} :
    {A : Type ℓ} (x : Bool) (a c d : A)
    → (if x then a else if x then c else d) ≡ (if x then a else d)
hidden_twice true a c d = refl
hidden_twice false a c d = refl

-- The first name removed, from the list and from what it is read as.
dropped :
    (x : Bytes) (u : Unit {0}) (m : List (Bytes × Unit {0})) (g : Bytes → Option (Unit {0}))
    → ((f : Bytes) → g f ≡ lookup f ((x, u) ∷ m))
    → (f : Bytes) → drop_item x g f ≡ lookup f (remove x m)
unfolding lookup drop_item
dropped x u m g same f =
    ap (λ o. if bytes_eq x f then none else o) (same f)
    ∙ hidden_twice (bytes_eq x f) none (some u) (lookup f m)
    ∙ sym (lookup-remove x f m)

both_removed :
    (x : Bytes) (u : Unit {0}) (m xs : List (Bytes × Unit {0}))
    → ((f : Bytes) → lookup f ((x, u) ∷ m) ≡ lookup f xs)
    → (f : Bytes) → lookup f (remove x m) ≡ lookup f (remove x xs)
unfolding lookup drop_item
both_removed x u m xs same f =
    sym (dropped x u m (λ h. lookup h ((x, u) ∷ m)) (λ h. refl) f)
    ∙ ap (λ o. if bytes_eq x f then none else o) (same f)
    ∙ sym (lookup-remove x f xs)

first_names-gone :
    (n : ℕ) (m : List (Bytes × Unit {0})) (g : Bytes → Option (Unit {0}))
    → ((f : Bytes) → g f ≡ lookup f m)
    → count_gone (first_names n m) g ≡ length (first_names n m)
unfolding count_gone lookup is_some drop_item remove
first_names-gone zero m g same = refl
first_names-gone (suc n) [] g same = refl
first_names-gone (suc n) ((x, u) ∷ m) g same =
    let here : g x ≡ some u = same x ∙ rw (bytes_eq_self x) in
    let later = first_names-gone n (remove x m) (drop_item x g) (dropped x u m g same) in
    rw here (omega (arith, later))

first_names-length :
    (n : ℕ) (m xs : List (Bytes × Unit {0}))
    → Distinct xs
    → ((f : Bytes) → lookup f m ≡ lookup f xs)
    → length (first_names n m) ≡ at_most n (length xs)
unfolding lookup is_some remove
first_names-length zero m xs distinct same = ground arith
first_names-length (suc n) [] [] distinct same = ground arith
first_names-length (suc n) [] ((y, v) ∷ xs) distinct same =
    absurd (ground (arith, same y, bytes_eq_self y))
first_names-length (suc n) ((x, u) ∷ m) xs distinct same =
    let there : lookup x xs ≡ some u = sym (same x) ∙ rw (bytes_eq_self x) in
    let rest =
      first_names-length n (remove x m) (remove x xs) (Distinct-remove x xs distinct)
        (both_removed x u m xs same) in
    let total = length-remove x xs distinct in
    let one : length xs ≡ 1 + length (remove x xs) = total ∙ rw there in ground (arith, rest, one)

pub memory_sets : SetLaws memory
memory_sets = record {
  counts = memory_counts;
  view = memory_members;
  sadd_laws = record {
    result =
        λ pk ps w. ap (λ qs. ok (count_new qs (λ f. lookup f (w.sets pk)))) (unit_pairs-names ps);
    items = λ pk j ps w.
        ap (λ qs f. lookup f (if bytes_eq pk j then puts qs (w.sets j) else w.sets j))
          (unit_pairs-names ps)
        ∙ put_at (bytes_eq pk j) ps (w.sets j);
    metas = λ pk j ps w. refl;
  };
  srem_laws = record {
    result = λ pk fs w. refl;
    items = λ pk j fs w. drop_at (bytes_eq pk j) fs (w.sets j);
    metas = λ pk j fs w. refl;
  };
  sis_member_lem = λ pk x w. refl;
  smembers_lem = λ pk w. (names (w.sets pk), refl, λ x. listed-names x (w.sets pk));
  spop_lem = λ pk count w. (
    first_names (pos_part count) (w.sets pk),
    refl,
    first_names-gone (pos_part count) (w.sets pk) (λ f. lookup f (w.sets pk)) (λ f. refl),
    λ xs distinct same. first_names-length (pos_part count) (w.sets pk) xs distinct same,
  );
}
