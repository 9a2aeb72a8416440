-- ===== src/Samples/ListRuns.antt =====
-- Runs of the List commands in memory.
use redimos.Prelude.{
  ◌≡◌, ◌≢◌, refl, List, [], ◌∷◌, ◌++◌, some, Bytes, codes, length, bytes_eq, arith,
}
use redimos.Prelude.Int.{pos}
use redimos.Reply.{int, bulk}
use redimos.Store.{type_list}
use redimos.Keyspace.{encode_pk}
use redimos.Expiry.{is_expired}
use redimos.Keys.{key_pk, is_live}
use redimos.Guard.Limits.{Fits}
use redimos.Collections.{other_type, classify}
use redimos.Lists.{handle_lpush, handle_rpush, handle_lpop}
use redimos.Lists.Laws.{pushed_front, first_of, last_of}
use redimos.Lists.Counts.{Counted, contents}
use redimos.Lists.Push.{Pushed, handle_lpush_lem, handle_rpush_lem}
use redimos.Lists.Pop.{LiveList, Popped, handle_lpop_lem}
use redimos.Samples.Backend.{Items, memory, memory_lists, env, listed, pair}

abbrev key : Bytes
key = codes "l"

abbrev stored : List Bytes
stored = codes "x" ∷ codes "y" ∷ []

list_free : classify env.now type_list (listed.metas (key_pk env key)) ≢ other_type
unfolding classify is_expired encode_pk bytes_eq
list_free e = ground arith

list-Counted : Counted env.now (listed.metas (key_pk env key)) (listed.lists (key_pk env key))
unfolding is_expired encode_pk bytes_eq
list-Counted = λ _. refl

list_seen :
    stored ≡ contents env.now (listed.metas (key_pk env key)) (listed.lists (key_pk env key))
unfolding contents is_live is_expired encode_pk bytes_eq
list_seen = refl

small : Fits key [] (codes "z" ∷ [])
small = record { key_fits = omega arith; members_fit = tt; values_fit = (omega arith, tt) }

live_list : LiveList memory env.now (key_pk env key) pair listed
unfolding is_expired encode_pk bytes_eq
live_list = record { meta_is = refl; type_is = refl; alive = refl; count_is = refl }

list_first : first_of (listed.lists (key_pk env key)) ≡ some (codes "x", codes "y" ∷ [])
unfolding first_of encode_pk bytes_eq
list_first = refl

list_last : last_of (listed.lists (key_pk env key)) ≡ some (codes "y", codes "x" ∷ [])
unfolding last_of encode_pk bytes_eq
list_last = refl

handle_lpush_lem_example :
    (w' : Items) × (handle_lpush memory env (codes "LPUSH" ∷ key ∷ codes "z" ∷ []) listed
      ≡ (w', int (pos (length (pushed_front (codes "z" ∷ []) stored)))))
    × Pushed memory env.now (key_pk env key) (pushed_front (codes "z" ∷ []) stored) listed w'
handle_lpush_lem_example =
    handle_lpush_lem memory memory_lists env (codes "LPUSH") key (codes "z") [] listed list_free
      list-Counted small stored list_seen

handle_rpush_lem_example :
    (w' : Items) × (handle_rpush memory env (codes "RPUSH" ∷ key ∷ codes "z" ∷ []) listed
      ≡ (w', int (pos (length (stored ++ codes "z" ∷ [])))))
    × Pushed memory env.now (key_pk env key) (stored ++ codes "z" ∷ []) listed w'
handle_rpush_lem_example =
    handle_rpush_lem memory memory_lists env (codes "RPUSH") key (codes "z") [] listed list_free
      list-Counted small stored list_seen

handle_lpop_lem_example :
    (w' : Items) × (handle_lpop memory env (codes "LPOP" ∷ key ∷ []) listed
      ≡ (w', bulk (codes "x")))
    × Popped memory env.now (key_pk env key) pair (codes "y" ∷ []) listed w'
handle_lpop_lem_example =
    handle_lpop_lem memory memory_lists env (codes "LPOP") key (codes "x") (codes "y" ∷ []) pair
      listed live_list list_first
