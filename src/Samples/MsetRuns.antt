-- ===== src/Samples/MsetRuns.antt =====
-- A run of MSET in memory.
use redimos.Prelude.{◌≡◌, none, some, List, [], ◌∷◌, Bytes, codes, arith}
use redimos.Reply.{status, bulk}
use redimos.Keys.{key_pk}
use redimos.Strings.{handle_get}
use redimos.Strings.Many.{set_pairs, set_batches, handle_mset}
use redimos.Strings.Many.Batches.{set_batches-set_pairs}
use redimos.Strings.Many.Mset.{flattened, latest, AllFit, handle_get-handle_mset}
use redimos.Samples.Backend.{Items, memory, memory_strings, env, items}

abbrev pairs : List (Bytes × Bytes)
pairs = (codes "b", codes "1") ∷ (codes "c", codes "2") ∷ (codes "b", codes "3") ∷ []

pairs_fit : AllFit pairs
pairs_fit = (
  record { key_fits = omega arith; members_fit = tt; values_fit = (omega arith, tt) },
  (
    record { key_fits = omega arith; members_fit = tt; values_fit = (omega arith, tt) },
    (record { key_fits = omega arith; members_fit = tt; values_fit = (omega arith, tt) }, tt),
  ),
)

handle_get-handle_mset_example :
    (w' : Items) × (handle_mset memory env (codes "MSET" ∷ flattened pairs) items
      ≡ (w', status (codes "OK")))
    × ((key v : Bytes)
        → latest env (key_pk env key) pairs ≡ some v
        → handle_get memory env (codes "GET" ∷ key ∷ []) w' ≡ (w', bulk v))
    × ((j : Bytes)
        → latest env j pairs ≡ none
        → (w'.metas j ≡ items.metas j) × (w'.values j ≡ items.values j))
handle_get-handle_mset_example =
    handle_get-handle_mset memory memory_strings env (codes "MSET") (codes "GET") pairs items
      pairs_fit

set_batches-set_pairs_example :
    set_batches memory env 3 pairs items ≡ set_pairs memory env pairs items
set_batches-set_pairs_example = set_batches-set_pairs memory env 3 pairs items (omega arith)
