-- ===== src/Store/Laws.antt =====
-- What the comments of the `Store` interface say of its operations, as hypotheses: each call
-- succeeds, answers from the current items and changes only the items that it names.
use redimos.Prelude.{
  ◌≡◌, Bool, true, false, Option, none, some, Bytes, if◌then◌else◌, bytes_eq, ◌∷◌,
}
use redimos.Prelude.Int.{ℤ, pos}
use redimos.Reply.{ok}
use redimos.Store.{Store, Meta}

unfoldable pub is_some {ℓ} : {A : Type ℓ} → Option A → Bool
is_some none = false
is_some (some a) = true

-- `UpdateItem SET exp` on a meta item, if there is one.
unfoldable pub with_exp : ℤ → Option Meta → Option Meta
with_exp exp none = none
with_exp exp (some m) = some (record m { exp = exp })

-- The operations on meta items. A read leaves the world as it is.
pub record MetaLaws (b : Store) : Type 0 where
  pub load_meta_lem : (pk : Bytes) (w : b.World) → b.load_meta pk w ≡ (w, ok (b.meta w pk))
  pub delete_meta_result :
      (pk : Bytes) (w : b.World) → (b.delete_meta pk w).1 ≡ ok (is_some (b.meta w pk))
  pub meta-delete_meta :
      (pk j : Bytes) (w : b.World)
      → b.meta (b.delete_meta pk w).0 j ≡ (if bytes_eq pk j then none else b.meta w j)
  pub meta-enqueue : (pk j : Bytes) (w : b.World) → b.meta (b.enqueue pk w) j ≡ b.meta w j
  pub queue-enqueue : (pk : Bytes) (w : b.World) → b.queue (b.enqueue pk w) ≡ pk ∷ b.queue w
  pub queue-delete_meta : (pk : Bytes) (w : b.World) → b.queue (b.delete_meta pk w).0 ≡ b.queue w
  pub set_expire_result :
      (pk : Bytes) (exp : ℤ) (w : b.World) → (b.set_expire pk exp w).1 ≡ ok (is_some (b.meta w pk))
  pub meta-set_expire :
      (pk j : Bytes) (exp : ℤ) (w : b.World)
      → b.meta (b.set_expire pk exp w).0 j
        ≡ (if bytes_eq pk j then with_exp exp (b.meta w j) else b.meta w j)
  pub persist_result : (pk : Bytes) (w : b.World) → (b.persist pk w).1 ≡ ok (is_some (b.meta w pk))
  pub meta-persist :
      (pk j : Bytes) (w : b.World)
      → b.meta (b.persist pk w).0 j
        ≡ (if bytes_eq pk j then with_exp (pos 0) (b.meta w j) else b.meta w j)

-- A part of the world that is kept under each key beside the meta item: the writes of meta items
-- leave it alone, and `delete_members` empties it.
pub record ViewLaws (b : Store) (V : Type 0) (empty : V) (view : b.World → Bytes → V) : Type 0 where
  pub view-ensure :
      (pk t j : Bytes) (delta now : ℤ) (w : b.World)
      → view (b.ensure_type_expiring pk t delta now w).0 j ≡ view w j
  pub view-ensure_type :
      (pk t j : Bytes) (delta : ℤ) (w : b.World) → view (b.ensure_type pk t delta w).0 j ≡ view w j
  pub view-delete_if_empty :
      (pk j : Bytes) (w : b.World) → view (b.delete_meta_if_empty pk w).0 j ≡ view w j
  pub view-delete_members :
      (pk j : Bytes) (w : b.World)
      → view (b.delete_members pk w).0 j ≡ (if bytes_eq pk j then empty else view w j)
  pub view-delete_meta : (pk j : Bytes) (w : b.World) → view (b.delete_meta pk w).0 j ≡ view w j
  pub view-enqueue : (pk j : Bytes) (w : b.World) → view (b.enqueue pk w) j ≡ view w j
