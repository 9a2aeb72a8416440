-- ===== src/Lists/Laws.antt =====
-- What the comments of the `Store` interface say of the List operations, as hypotheses.
use redimos.Prelude.{
  ℕ, ◌≡◌, Option, none, some, List, [], ◌∷◌, ◌++◌, Bytes, if◌then◌else◌, bytes_eq, length,
}
use redimos.Reply.{ok}
use redimos.Store.{Store, M}
use redimos.Store.Laws.{ViewLaws}
use redimos.Collections.Laws.{CountLaws}

-- LPUSH puts each element before the ones pushed so far.
unfoldable pub pushed_front : List Bytes → List Bytes → List Bytes
pushed_front [] old = old
pushed_front (x ∷ xs) old = pushed_front xs (x ∷ old)

-- The first element and the others.
unfoldable pub first_of : List Bytes → Option (Bytes × List Bytes)
first_of [] = none
first_of (x ∷ xs) = some (x, xs)

-- The last element and the others.
unfoldable pub last_of : List Bytes → Option (Bytes × List Bytes)
last_of [] = none
last_of (x ∷ xs) = elim (last_of xs) [ none ↦ some (x, []) | some (y, ys) ↦ some (y, x ∷ ys) ]

abbrev pub taken : Option (Bytes × List Bytes) → Option Bytes
taken none = none
taken (some (x, rest)) = some x

abbrev pub left : Option (Bytes × List Bytes) → List Bytes
left none = []
left (some (x, rest)) = rest

-- A push that leaves `f elements old`, and a pop that takes what `view` says.
pub record PushLaws (b : Store) (push : Bytes → List Bytes → M b.World ℕ)
    (f : List Bytes → List Bytes → List Bytes) : Type 0 where
  pub result : (pk : Bytes) (xs : List Bytes) (w : b.World) → (push pk xs w).1 ≡ ok (length xs)
  pub elements :
      (pk j : Bytes) (xs : List Bytes) (w : b.World)
      → b.elements (push pk xs w).0 j
        ≡ (if bytes_eq pk j then f xs (b.elements w j) else b.elements w j)
  pub metas :
      (pk j : Bytes) (xs : List Bytes) (w : b.World) → b.meta (push pk xs w).0 j ≡ b.meta w j

pub record PopLaws (b : Store) (pop : Bytes → M b.World (Option Bytes))
    (view : List Bytes → Option (Bytes × List Bytes)) : Type 0 where
  pub result : (pk : Bytes) (w : b.World) → (pop pk w).1 ≡ ok (taken (view (b.elements w pk)))
  pub elements :
      (pk j : Bytes) (w : b.World)
      → b.elements (pop pk w).0 j
        ≡ (if bytes_eq pk j then left (view (b.elements w j)) else b.elements w j)
  pub metas : (pk j : Bytes) (w : b.World) → b.meta (pop pk w).0 j ≡ b.meta w j

pub record ListLaws (b : Store) : Type 0 where
  pub counts : CountLaws b
  pub view : ViewLaws b (List Bytes) [] b.elements
  pub lpush_laws : PushLaws b b.lpush pushed_front
  pub rpush_laws : PushLaws b b.rpush (λ xs old. old ++ xs)
  pub lpop_laws : PopLaws b b.lpop first_of
  pub rpop_laws : PopLaws b b.rpop last_of
