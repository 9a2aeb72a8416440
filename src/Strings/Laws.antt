-- ===== src/Strings/Laws.antt =====
-- What the comments of the `Store` interface say of the String operations, as hypotheses.
use redimos.Prelude.{
  ℕ, ◌≡◌, Bool, true, false, ◌&&◌, not, Option, none, some, Bytes, if◌then◌else◌, bytes_eq,
}
use redimos.Prelude.Int.{ℤ, pos, ◌+ℤ◌}
use redimos.Reply.{ok, err, wrong_type}
use redimos.Store.{Store, Meta}
use redimos.Store.Laws.{MetaLaws}
use redimos.Expiry.{is_expired}

abbrev pub fresh : Bytes → ℤ → Meta
fresh t delta = record { type = t; exp = pos 0; count = delta }

-- The conditional meta write by which every write command takes its key: the new meta item and
-- whether an expired key was taken over, or nothing for a live key of another type.
unfoldable pub ensured : ℤ → Bytes → ℤ → Option Meta → Option (Meta × Bool)
unfolding is_expired
ensured now t delta none = some (fresh t delta, false)
ensured now t delta (some m) =
    if is_expired m now
    then some (fresh t delta, true)
    else if bytes_eq m.type t
    then some (record m { count = m.count +ℤ delta }, false)
    else none

-- The condition of the compare-and-set: the value item is as it was read.
unfoldable pub unchanged : Option Bytes → Bytes → Bool → Bool
unchanged none old old_exists = not old_exists
unchanged (some v) old old_exists = old_exists && bytes_eq v old

pub record StringLaws (b : Store) : Type 0 where
  pub metas : MetaLaws b
  pub ensure_result :
      (pk t : Bytes) (delta now : ℤ) (w : b.World) (m : Meta) (took : Bool)
      → ensured now t delta (b.meta w pk) ≡ some (m, took)
      → (b.ensure_type_expiring pk t delta now w).1 ≡ ok (m.count, took)
  pub ensure_refused :
      (pk t : Bytes) (delta now : ℤ) (w : b.World)
      → ensured now t delta (b.meta w pk) ≡ none
      → b.ensure_type_expiring pk t delta now w ≡ (w, err wrong_type)
  pub meta-ensure :
      (pk t j : Bytes) (delta now : ℤ) (w : b.World) (m : Meta) (took : Bool)
      → ensured now t delta (b.meta w pk) ≡ some (m, took)
      → b.meta (b.ensure_type_expiring pk t delta now w).0 j
        ≡ (if bytes_eq pk j then some m else b.meta w j)
  pub value-ensure :
      (pk t j : Bytes) (delta now : ℤ) (w : b.World)
      → b.value (b.ensure_type_expiring pk t delta now w).0 j ≡ b.value w j
  pub get_string_lem : (pk : Bytes) (w : b.World) → b.get_string pk w ≡ (w, ok (b.value w pk))
  pub set_string_result : (pk v : Bytes) (w : b.World) → (b.set_string pk v w).1 ≡ ok tt
  pub value-set_string :
      (pk v j : Bytes) (w : b.World)
      → b.value (b.set_string pk v w).0 j ≡ (if bytes_eq pk j then some v else b.value w j)
  pub meta-set_string :
      (pk v j : Bytes) (w : b.World) → b.meta (b.set_string pk v w).0 j ≡ b.meta w j
  pub cas_result :
      (pk new old : Bytes) (old_exists : Bool) (w : b.World)
      → (b.set_string_if_equals pk new old old_exists w).1
        ≡ ok (unchanged (b.value w pk) old old_exists)
  pub value-cas :
      (pk new old j : Bytes) (old_exists : Bool) (w : b.World)
      → b.value (b.set_string_if_equals pk new old old_exists w).0 j ≡ (
          if unchanged (b.value w pk) old old_exists && bytes_eq pk j
          then some new
          else b.value w j)
  pub meta-cas :
      (pk new old j : Bytes) (old_exists : Bool) (w : b.World)
      → b.meta (b.set_string_if_equals pk new old old_exists w).0 j ≡ b.meta w j
  pub delete_members_result :
      (pk : Bytes) (w : b.World) → (n : ℕ) × ((b.delete_members pk w).1 ≡ ok n)
  pub value-delete_members :
      (pk j : Bytes) (w : b.World)
      → b.value (b.delete_members pk w).0 j ≡ (if bytes_eq pk j then none else b.value w j)
  pub meta-delete_members :
      (pk j : Bytes) (w : b.World) → b.meta (b.delete_members pk w).0 j ≡ b.meta w j
  pub value-delete_meta :
      (pk j : Bytes) (w : b.World) → b.value (b.delete_meta pk w).0 j ≡ b.value w j
  pub value-enqueue : (pk j : Bytes) (w : b.World) → b.value (b.enqueue pk w) j ≡ b.value w j
  pub value-set_expire :
      (pk j : Bytes) (exp : ℤ) (w : b.World) → b.value (b.set_expire pk exp w).0 j ≡ b.value w j
  pub value-persist : (pk j : Bytes) (w : b.World) → b.value (b.persist pk w).0 j ≡ b.value w j
