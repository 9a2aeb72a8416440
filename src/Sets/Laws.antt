-- ===== src/Sets/Laws.antt =====
-- What the comments of the `Store` interface say of the Set operations, as hypotheses.
use redimos.Prelude.{ℕ, ◌≡◌, Option, none, List, Bytes, length, if◌then◌else◌, leb}
use redimos.Prelude.Int.{ℤ, pos_part}
use redimos.Reply.{ok}
use redimos.Store.{Store}
use redimos.Store.Laws.{ViewLaws, is_some}
use redimos.Collections.Entries.{names, listed, lookup, Distinct}
use redimos.Collections.Laws.{CountLaws, WriteLaws, RemoveLaws, count_gone}

abbrev pub at_most : ℕ → ℕ → ℕ
at_most n size = if leb n size then n else size

pub record SetLaws (b : Store) : Type 0 where
  pub counts : CountLaws b
  pub view : ViewLaws b (Bytes → Option (Unit {0})) (λ _. none) b.member
  pub sadd_laws : WriteLaws b b.member (λ pk ps. b.sadd pk (names ps))
  pub srem_laws : RemoveLaws b b.member b.srem
  pub sis_member_lem :
      (pk x : Bytes) (w : b.World) → b.sis_member pk x w ≡ (w, ok (is_some (b.member w pk x)))
  pub smembers_lem :
      (pk : Bytes) (w : b.World)
      → (ms : List Bytes) × (b.smembers pk w ≡ (w, ok ms))
        × ((x : Bytes) → listed x ms ≡ is_some (b.member w pk x))
  -- SPop removes distinct members, whichever they are: as many as the count says, or all of a
  -- smaller set.
  pub spop_lem :
      (pk : Bytes) (count : ℤ) (w : b.World)
      → (ms : List Bytes) × (b.spop pk count w ≡ ((b.srem pk ms w).0, ok ms))
        × (count_gone ms (b.member w pk) ≡ length ms)
        × ((xs : List (Bytes × Unit {0}))
            → Distinct xs
            → ((f : Bytes) → b.member w pk f ≡ lookup f xs)
            → length ms ≡ at_most (pos_part count) (length xs))
