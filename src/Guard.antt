-- ===== src/Guard.antt =====
-- The size limits of internal/guard/size.go. A rejected write counts one interception.
pub mod Limits
use redimos.Prelude.{ℕ, Bool, true, false, ◌||◌, List, [], ◌∷◌, Bytes, if◌then◌else◌, ltb, length}
use redimos.Prelude.Int.{ℤ, pos, ltb_ℤ}
use redimos.Reply.{size_exceeded}
use redimos.Store.{Store, M, return, throw}

abbrev pub max_name_size : ℕ
max_name_size = 1024

abbrev pub max_member_name_size : ℕ
max_member_name_size = 1023

abbrev pub max_value_size : ℕ
max_value_size = 399360

unfoldable pub name_too_large : Bytes → Bool
name_too_large name = ltb max_name_size (length name)

unfoldable pub member_name_too_large : Bytes → Bool
member_name_too_large name = ltb max_member_name_size (length name)

unfoldable pub value_too_large : Bytes → Bool
value_too_large value = ltb max_value_size (length value)

-- A loop that stops at the first entry that fails the test.
unfoldable pub any_entry : (Bytes → Bool) → List Bytes → Bool
any_entry test [] = false
any_entry test (x ∷ xs) = if test x then true else any_entry test xs

module _ (b : Store) where
  abbrev pub reject_if : Bool → M b.World (Unit {0})
  reject_if true w = throw size_exceeded (b.add_interception w)
  reject_if false w = return tt w

  unfoldable pub check_key : Bytes → M b.World (Unit {0})
  unfolding name_too_large
  check_key key = reject_if (name_too_large key)

  unfoldable pub check_member : Bytes → M b.World (Unit {0})
  unfolding member_name_too_large
  check_member member = reject_if (member_name_too_large member)

  unfoldable pub check_value : Bytes → M b.World (Unit {0})
  unfolding value_too_large
  check_value value = reject_if (value_too_large value)

  unfoldable pub check_value_size : ℤ → M b.World (Unit {0})
  check_value_size n = reject_if (ltb_ℤ (pos max_value_size) n)

  -- `CheckWrite` stops at the first violation, so it counts once.
  unfoldable pub check_write : Bytes → List Bytes → List Bytes → M b.World (Unit {0})
  unfolding name_too_large member_name_too_large value_too_large any_entry
  check_write key members values =
      if name_too_large key
      then reject_if true
      else if any_entry member_name_too_large members
      then reject_if true
      else reject_if (any_entry value_too_large values)
