-- ===== src/Collections/Laws.antt =====
-- What the comments of the `Store` interface say of the count in a meta item, and of the writes of
-- the items of a hash or a set, as hypotheses.
use redimos.Prelude.{
  ℕ, ◌+◌, ◌≡◌, Bool, Option, none, some, List, [], ◌∷◌, Bytes, if◌then◌else◌, bytes_eq,
}
use redimos.Prelude.Int.{ℤ, pos, ◌+ℤ◌, leb_ℤ}
use redimos.Reply.{ok}
use redimos.Store.{Store, Meta, M}
use redimos.Store.Laws.{is_some}
use redimos.Strings.Laws.{StringLaws}

unfoldable pub unless_empty : Option Meta → Option Meta
unless_empty none = none
unless_empty (some m) = if leb_ℤ m.count (pos 0) then none else some m

-- The atomic ADD on the count, and the deletion on the condition that the count is not positive.
pub record CountLaws (b : Store) : Type 0 where
  pub strings : StringLaws b
  pub ensure_type_result :
      (pk t : Bytes) (delta : ℤ) (w : b.World) (m : Meta)
      → b.meta w pk ≡ some m
      → m.type ≡ t
      → (b.ensure_type pk t delta w).1 ≡ ok (m.count +ℤ delta)
  pub meta-ensure_type :
      (pk t j : Bytes) (delta : ℤ) (w : b.World) (m : Meta)
      → b.meta w pk ≡ some m
      → m.type ≡ t
      → b.meta (b.ensure_type pk t delta w).0 j
        ≡ (if bytes_eq pk j then some (record m { count = m.count +ℤ delta }) else b.meta w j)
  pub delete_if_empty_result :
      (pk : Bytes) (w : b.World) → (x : Bool) × ((b.delete_meta_if_empty pk w).1 ≡ ok x)
  pub meta-delete_if_empty :
      (pk j : Bytes) (w : b.World)
      → b.meta (b.delete_meta_if_empty pk w).0 j
        ≡ (if bytes_eq pk j then unless_empty (b.meta w j) else b.meta w j)

-- The items of one key, by name. Writes come one after the other; a name that was there before
-- counts for nothing when it is written, and for one when it is removed.
module _ {A : Type 0} where
  unfoldable pub put_item : Bytes → A → (Bytes → Option A) → Bytes → Option A
  put_item f v g h = if bytes_eq f h then some v else g h

  unfoldable pub drop_item : Bytes → (Bytes → Option A) → Bytes → Option A
  drop_item f g h = if bytes_eq f h then none else g h

  unfoldable pub put_items : List (Bytes × A) → (Bytes → Option A) → Bytes → Option A
  put_items [] g = g
  put_items ((f, v) ∷ ps) g = put_items ps (put_item f v g)

  unfoldable pub drop_items : List Bytes → (Bytes → Option A) → Bytes → Option A
  drop_items [] g = g
  drop_items (f ∷ fs) g = drop_items fs (drop_item f g)

  unfoldable pub count_new : List (Bytes × A) → (Bytes → Option A) → ℕ
  unfolding is_some put_item
  count_new [] g = 0
  count_new ((f, v) ∷ ps) g = (if is_some (g f) then 0 else 1) + count_new ps (put_item f v g)

  unfoldable pub count_gone : List Bytes → (Bytes → Option A) → ℕ
  unfolding is_some drop_item
  count_gone [] g = 0
  count_gone (f ∷ fs) g = (if is_some (g f) then 1 else 0) + count_gone fs (drop_item f g)

  -- A write of several items, and a removal of several names, that report these counts.
  pub record WriteLaws (b : Store) (item : b.World → Bytes → Bytes → Option A)
      (write : Bytes → List (Bytes × A) → M b.World ℕ) : Type 0 where
    pub result :
        (pk : Bytes) (ps : List (Bytes × A)) (w : b.World)
        → (write pk ps w).1 ≡ ok (count_new ps (item w pk))
    pub items :
        (pk j : Bytes) (ps : List (Bytes × A)) (w : b.World)
        → item (write pk ps w).0 j ≡ (if bytes_eq pk j then put_items ps (item w j) else item w j)
    pub metas :
        (pk j : Bytes) (ps : List (Bytes × A)) (w : b.World)
        → b.meta (write pk ps w).0 j ≡ b.meta w j

  pub record RemoveLaws (b : Store) (item : b.World → Bytes → Bytes → Option A)
      (delete : Bytes → List Bytes → M b.World ℕ) : Type 0 where
    pub result :
        (pk : Bytes) (fs : List Bytes) (w : b.World)
        → (delete pk fs w).1 ≡ ok (count_gone fs (item w pk))
    pub items :
        (pk j : Bytes) (fs : List Bytes) (w : b.World)
        → item (delete pk fs w).0 j ≡ (if bytes_eq pk j then drop_items fs (item w j) else item w j)
    pub metas :
        (pk j : Bytes) (fs : List Bytes) (w : b.World) → b.meta (delete pk fs w).0 j ≡ b.meta w j
