-- ===== src/Samples/KeyRuns.antt =====
-- Runs of the key commands and of the size guard in memory.
use redimos.Prelude.{
  ℕ, ◌≡◌, refl, ◌∙◌, ◌&&◌, ◌↔◌, true, some, List, [], ◌∷◌, map, Bytes, codes, if◌then◌else◌,
  bytes_eq, replicate, length-replicate, arith,
}
use redimos.Prelude.Int.{pos, negsuc}
use redimos.Reply.{int, ok}
use redimos.Store.Laws.{with_exp}
use redimos.Args.Integer.{parse_int}
use redimos.Args.Integer.Numerals.{decimal}
use redimos.Args.Integer.Canonical.{parse_int-decimal}
use redimos.Expiry.{is_expired, sec_expiry_epoch}
use redimos.Keyspace.{encode_pk}
use redimos.Keys.{
  key_pk, is_live, handle_del, handle_exists, apply_expire, handle_expire, handle_ttl,
  handle_persist,
}
use redimos.Keys.Del.{live_count, first_occurrences, without, handle_exists_lem, handle_del_lem}
use redimos.Keys.Expire.{expiring, apply_expire_lem, handle_ttl-handle_expire}
use redimos.Keys.Persist.{expires_later, handle_persist_lem}
use redimos.Guard.{check_write}
use redimos.Guard.Limits.{Fits, check_write_iff}
use redimos.Samples.Backend.{Items, memory, memory_metas, env, items}

abbrev keys : List Bytes
keys = codes "a" ∷ codes "b" ∷ codes "a" ∷ []

handle_exists_lem_example :
    handle_exists memory env (codes "EXISTS" ∷ keys) items
    ≡ (items, int (pos (live_count env.now items.metas (map (key_pk env) keys))))
handle_exists_lem_example = handle_exists_lem memory memory_metas env (codes "EXISTS") keys items

handle_del_lem_example :
    ((handle_del memory env (codes "DEL" ∷ keys) items).1
      ≡ int (pos (live_count env.now items.metas (first_occurrences [] (map (key_pk env) keys)))))
    × ((j : Bytes)
        → (handle_del memory env (codes "DEL" ∷ keys) items).0.metas j
          ≡ without (map (key_pk env) keys) items.metas j)
handle_del_lem_example = handle_del_lem memory memory_metas env (codes "DEL") keys items

abbrev hundred : Bytes
hundred = decimal (pos 100)

parsed_100 : parse_int hundred ≡ some (pos 100)
parsed_100 = parse_int-decimal (pos 100) (omega arith, omega arith)

parsed_minus : parse_int (decimal (negsuc 4)) ≡ some (negsuc 4)
parsed_minus = parse_int-decimal (negsuc 4) (omega arith, omega arith)

a_live : is_live env.now (items.metas (key_pk env (codes "a"))) ≡ true
unfolding is_live is_expired encode_pk bytes_eq
a_live = refl

apply_expire_lem_example :
    ((apply_expire memory env sec_expiry_epoch (codes "EXPIRE" ∷ codes "a" ∷ hundred ∷ []) items).1
      ≡ int (if is_live env.now (items.metas (key_pk env (codes "a"))) then pos 1 else pos 0))
    × ((j : Bytes)
        → (apply_expire memory env sec_expiry_epoch
              (codes "EXPIRE" ∷ codes "a" ∷ hundred ∷ [])
              items).0.metas
            j
          ≡ (if is_live env.now (items.metas (key_pk env (codes "a")))
                && bytes_eq (key_pk env (codes "a")) j
              then expiring env.now (sec_expiry_epoch env.now (pos 100)) (items.metas j)
              else items.metas j))
apply_expire_lem_example =
    apply_expire_lem memory memory_metas env sec_expiry_epoch (codes "EXPIRE") (codes "a") hundred
      (pos 100) items parsed_100

handle_ttl-handle_expire_example :
    ((handle_expire memory env (codes "EXPIRE" ∷ codes "a" ∷ hundred ∷ []) items).1 ≡ int (pos 1))
    × ((handle_ttl memory env
          (codes "TTL" ∷ codes "a" ∷ [])
          (handle_expire memory env (codes "EXPIRE" ∷ codes "a" ∷ hundred ∷ []) items).0).1
        ≡ int (pos 100))
handle_ttl-handle_expire_example =
    handle_ttl-handle_expire memory memory_metas env 1700000000 100 (codes "EXPIRE") (codes "TTL")
      (codes "a") hundred items refl parsed_100 (omega arith) (omega arith) a_live

handle_persist_lem_example :
    ((handle_persist memory env (codes "PERSIST" ∷ codes "a" ∷ []) items).1
      ≡ int (if expires_later env.now (items.metas (key_pk env (codes "a"))) then pos 1 else pos 0))
    × ((j : Bytes)
        → (handle_persist memory env (codes "PERSIST" ∷ codes "a" ∷ []) items).0.metas j ≡ (
            if expires_later env.now (items.metas (key_pk env (codes "a")))
              && bytes_eq (key_pk env (codes "a")) j
            then with_exp (pos 0) (items.metas j)
            else items.metas j))
handle_persist_lem_example =
    handle_persist_lem memory memory_metas env (codes "PERSIST") (codes "a") items

-- `a` with an expiry time in the future.
abbrev fading : Items
fading = record items { metas = λ j. with_exp (pos 1800000000) (items.metas j) }

fading_persists :
    (handle_persist memory env (codes "PERSIST" ∷ codes "a" ∷ []) fading).1 ≡ int (pos 1)
fading_persists =
    (handle_persist_lem memory memory_metas env (codes "PERSIST") (codes "a") fading).0
    ∙ (unfold encode_pk bytes_eq with_exp in refl)

check_write_iff_example :
    (check_write memory (codes "key") (codes "m" ∷ []) (codes "v" ∷ []) items ≡ (items, ok tt))
    ↔ Fits (codes "key") (codes "m" ∷ []) (codes "v" ∷ [])
check_write_iff_example =
    check_write_iff memory (codes "key") (codes "m" ∷ []) (codes "v" ∷ []) items

abbrev long_key : Bytes
long_key = replicate 1025 65

long_key-unfit : ¬ Fits long_key [] []
long_key-unfit f =
    let h = f.key_fits in let n = length-replicate {A = ℕ} 1025 65 in omega (arith, h, n)
