-- ===== src/Samples/StringRuns.antt =====
-- Runs of the String commands in memory.
use redimos.Prelude.{
  true, false, ◌&&◌, get_or, ◌≡◌, ◌≢◌, refl, some, [], ◌∷◌, ◌++◌, Bytes, codes, length, bytes_eq,
  arith,
}
use redimos.Prelude.Int.{pos, negsuc}
use redimos.Reply.{status, int, bulk, ok}
use redimos.Store.{return}
use redimos.Keyspace.{encode_pk}
use redimos.Expiry.{is_expired}
use redimos.Keys.{key_pk, handle_ttl}
use redimos.Strings.{
  live_string, live_other, standing, base_of, rmw_loop, handle_append, handle_get, handle_set,
}
use redimos.Strings.Rmw.{Written, rmw_loop_lem}
use redimos.Strings.Append.{handle_append_lem}
use redimos.Strings.Overwrite.{handle_get-handle_set}
use redimos.Args.Integer.Numerals.{decimal}
use redimos.Args.Integer.Canonical.{parse_int-decimal}
use redimos.Strings.{splice, handle_set_range}
use redimos.Strings.SetRange.{length-splice, get_or-splice, handle_set_range_lem}
use redimos.Strings.Options.{
  SetOptions, parsed, parse_set_options, option_loop, flag, resolve_expiry,
}
use redimos.Strings.Options.Exclusive.{parse_set_options-Exclusive}
use redimos.Table.Casing.{to_lower, has_upper}
use redimos.Samples.Backend.{Items, memory, memory_strings, env, items, stale}

abbrev a : Bytes
a = codes "a"

a_string : standing env.now (items.metas (key_pk env a)) ≡ live_string
unfolding standing is_expired encode_pk bytes_eq
a_string = refl

a_free : standing env.now (items.metas (key_pk env a)) ≢ live_other
a_free e = let s = a_string in ground arith

a_hello :
    base_of memory env (standing env.now (items.metas (key_pk env a)), items.values (key_pk env a))
    ≡ codes "hello"
unfolding standing is_expired encode_pk bytes_eq
a_hello = refl

rmw_loop_lem_example :
    (w' : Items) × (rmw_loop memory env 2 (key_pk env a) (λ _. return (codes "new")) items
      ≡ (w', ok 3))
    × Written memory env.now (key_pk env a) (codes "new") items w'
rmw_loop_lem_example =
    rmw_loop_lem memory memory_strings env (key_pk env a) (λ _. return (codes "new")) 0 items
      (codes "new") a_free (λ u. refl)

handle_append_lem_example :
    (w' : Items) × (handle_append memory env (codes "APPEND" ∷ a ∷ codes "!" ∷ []) items
      ≡ (w', int (pos (length (codes "hello" ++ codes "!")))))
    × Written memory env.now (key_pk env a) (codes "hello" ++ codes "!") items w'
handle_append_lem_example =
    handle_append_lem memory memory_strings env (codes "APPEND") a (codes "!") items (codes "hello")
      a_free a_hello
      (record { key_fits = omega arith; members_fit = tt; values_fit = (omega arith, tt) })

-- `l` is a live list.
abbrev with_list : Items
with_list = record items { metas = λ j. some (record stale { exp = pos 0 }) }

l_other : standing env.now (with_list.metas (key_pk env (codes "l"))) ≡ live_other
unfolding standing is_expired encode_pk bytes_eq
l_other = refl

handle_get-handle_set_example :
    (w' : Items) × (handle_set memory env (codes "SET" ∷ a ∷ codes "v" ∷ []) items
      ≡ (w', status (codes "OK")))
    × (handle_get memory env (codes "GET" ∷ a ∷ []) w' ≡ (w', bulk (codes "v")))
    × (handle_ttl memory env (codes "GET" ∷ a ∷ []) w' ≡ (w', int (negsuc 0)))
    × Written memory env.now (key_pk env a) (codes "v") items w'
handle_get-handle_set_example =
    handle_get-handle_set memory memory_strings env (codes "SET") (codes "GET") a (codes "v") items
      (record { key_fits = omega arith; members_fit = tt; values_fit = (omega arith, tt) })

handle_set_range_lem_example :
    (w' : Items) × (handle_set_range memory env
        (codes "SETRANGE" ∷ a ∷ decimal (pos 3) ∷ codes "p!" ∷ [])
        items
      ≡ (w', int (pos (length (splice (codes "hello") 3 (codes "p!"))))))
    × Written memory env.now (key_pk env a) (splice (codes "hello") 3 (codes "p!")) items w'
handle_set_range_lem_example =
    handle_set_range_lem memory memory_strings env (codes "SETRANGE") a (decimal (pos 3)) items 3
      b'p' (codes "!") (codes "hello") (parse_int-decimal (pos 3) (omega arith, omega arith)) a_free
      a_hello (record { key_fits = omega arith; members_fit = tt; values_fit = tt })
      (let size = length-splice (codes "hello") 3 (codes "p!") in omega (arith, size))

get_or-splice_example : get_or (splice (codes "hello") 3 (codes "p!")) 3 0 ≡ b'p'
get_or-splice_example = get_or-splice (codes "hello") 3 (codes "p!") 3

abbrev only_new : SetOptions
only_new = record { nx = true; xx = false; exp_set = false; exp_epoch = pos 0 }

only_new_parsed : parse_set_options (codes "Nx" ∷ []) env.now ≡ parsed only_new
unfolding parse_set_options option_loop flag resolve_expiry bytes_eq to_lower has_upper
only_new_parsed = refl

parse_set_options-Exclusive_example : (only_new.nx && only_new.xx) ≡ false
parse_set_options-Exclusive_example =
    parse_set_options-Exclusive (codes "Nx" ∷ []) env.now only_new only_new_parsed
