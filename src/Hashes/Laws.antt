-- ===== src/Hashes/Laws.antt =====
-- What the comments of the `Store` interface say of the Hash operations, as hypotheses.
use redimos.Prelude.{
  ℕ, ◌≡◌, true, false, Option, none, some, List, [], ◌∷◌, Bytes, if◌then◌else◌, length,
}
use redimos.Reply.{ok}
use redimos.Store.{Store}
use redimos.Store.Laws.{ViewLaws, is_some}
use redimos.Collections.Entries.{lookup, listed}
use redimos.Collections.Laws.{CountLaws, WriteLaws, RemoveLaws}

abbrev pub value_length : Option Bytes → ℕ
value_length none = 0
value_length (some v) = length v

pub record HashLaws (b : Store) : Type 0 where
  pub counts : CountLaws b
  pub view : ViewLaws b (Bytes → Option Bytes) (λ _. none) b.field
  pub hset_laws : WriteLaws b b.field b.hset
  pub hdel_laws : RemoveLaws b b.field b.hdel
  -- HSetNX writes a field that is not there as HSet does, and nothing otherwise.
  pub hset_nx_absent :
      (pk f v : Bytes) (w : b.World)
      → b.field w pk f ≡ none
      → b.hset_nx pk f v w ≡ ((b.hset pk ((f, v) ∷ []) w).0, ok true)
  pub hset_nx_present :
      (pk f v old : Bytes) (w : b.World)
      → b.field w pk f ≡ some old
      → b.hset_nx pk f v w ≡ (w, ok false)
  pub hget_lem : (pk f : Bytes) (w : b.World) → b.hget pk f w ≡ (w, ok (b.field w pk f))
  pub hexists_lem :
      (pk f : Bytes) (w : b.World) → b.hexists pk f w ≡ (w, ok (is_some (b.field w pk f)))
  pub hstrlen_lem :
      (pk f : Bytes) (w : b.World) → b.hstrlen pk f w ≡ (w, ok (value_length (b.field w pk f)))
  pub hmget_lem :
      (pk : Bytes) (fs : List Bytes) (w : b.World)
      → (vals : List (Bytes × Bytes)) × (b.hmget pk fs w ≡ (w, ok vals))
        × ((f : Bytes) → lookup f vals ≡ (if listed f fs then b.field w pk f else none))
