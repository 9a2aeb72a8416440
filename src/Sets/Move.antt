-- ===== src/Sets/Move.antt =====
-- SMOVE takes a member from one set to another.
use redimos.Prelude.{
  ℕ, ◌<◌, ◌≤◌, ◌≡◌, ap, sym, subst, ◌∙◌, true, false, Bool-cases, inl, inr, Option, none, some, [],
  ◌∷◌, Bytes, length, bytes_eq, arith,
}
use redimos.Prelude.Int.{pos}
use redimos.Reply.{int, ok}
use redimos.Store.{Store, Meta, return, reply_of, reply_to, >>=-eq_ok, type_set}
use redimos.Store.Laws.{is_some}
use redimos.Keys.{Env, key_pk}
use redimos.Guard.{check_write}
use redimos.Guard.Limits.{Fits, check_write-Fits}
use redimos.Strings.{ensure_type_expiring}
use redimos.Collections.{live, not_live, member_storable}
use redimos.Collections.Entries.{lookup, puts, removes, lookup-positive, bytes_eq-flip}
use redimos.Collections.Stored.{Stored, Unmoved-trans}
use redimos.Collections.Storable.{Storable, storable-within}
use redimos.Sets.{
  set_state, add_members, remove_members, move_member, move_checked, move_live, handle_smove,
}
use redimos.Sets.Laws.{SetLaws}
use redimos.Sets.Steps.{
  Members, units, SetAt, Elsewhere, ReadyAt, load_set, open_set, add_members_lem,
  remove_members_lem,
}

-- A set under a key that a step leaves alone.
SetAt-Elsewhere :
    (b : Store) (env : Env) (pk j : Bytes) (w w' : b.World) (m : Members)
    → bytes_eq pk j ≡ false
    → Elsewhere b pk w w'
    → SetAt b env j w m
    → SetAt b env j w' m
SetAt-Elsewhere b env pk j w w' m ne same held =
    subst
      (λ (p : Option Meta × (Bytes → Option (Unit {0}))).
        Stored (Unit {0}) env.now type_set p.0 p.1 m)
      (λ i. (sym (same.metas j ne) i, sym (same.views j ne) i)) held

-- A world that differs from `w` at most in the meta items and the members of two keys.
pub record BesidesTwo (b : Store) (p q : Bytes) (w w' : b.World) : Type 0 where
  pub metas : (j : Bytes) → bytes_eq p j ≡ false → bytes_eq q j ≡ false → b.meta w' j ≡ b.meta w j
  pub members :
      (j : Bytes) → bytes_eq p j ≡ false → bytes_eq q j ≡ false → b.member w' j ≡ b.member w j

Elsewhere-BesidesTwo :
    {b : Store} {p q : Bytes} {u v w : b.World}
    → Elsewhere b p u v
    → Elsewhere b q v w
    → BesidesTwo b p q u w
Elsewhere-BesidesTwo first second = record {
  metas = λ j off_p off_q. second.metas j off_q ∙ first.metas j off_p;
  members = λ j off_p off_q. second.views j off_q ∙ first.views j off_p;
}

module _ (b : Store) (laws : SetLaws b) (env : Env) (name src dst x : Bytes) (w : b.World)
    (from to : Members) (apart : bytes_eq (key_pk env src) (key_pk env dst) ≡ false)
    (held : SetAt b env (key_pk env src) w from) (other : SetAt b env (key_pk env dst) w to) where
  move_member_lem :
      (found : Meta)
      → ReadyAt b laws env (key_pk env src) found from w
      → 0 < length from
      → Fits dst (x ∷ []) []
      → (w' : b.World) × (move_member b env src dst x w ≡ (w', ok (int (pos 1))))
        × SetAt b env (key_pk env src) w' (removes (x ∷ []) from)
        × SetAt b env (key_pk env dst) w' (puts (units (x ∷ [])) to)
        × BesidesTwo b (key_pk env src) (key_pk env dst) w w'
  unfolding move_member
  move_member_lem found ready filled fits =
      let s = key_pk env src in
      let d = key_pk env dst in
      let (gone, total1, w1, removed, left, only_src) =
        remove_members_lem b laws env s (x ∷ []) w found from ready filled in
      let dst_same = SetAt-Elsewhere b env s d w w1 to apart only_src other in
      let (w2, there, opened, ready2, before) = open_set b laws env d w1 to dst_same in
      let (new, total2, w', added, holds, after) =
        add_members_lem b laws env d x [] w2 there to ready2 in
      (
        w',
        >>=-eq_ok (check_write b dst (x ∷ []) []) _ w w tt
              (check_write-Fits b dst (x ∷ []) [] w fits)
            ∙ >>=-eq_ok (remove_members b env s (x ∷ [])) _ w w1 gone removed
            ∙ >>=-eq_ok (ensure_type_expiring b env d type_set) _ w1 w2 tt opened
            ∙ >>=-eq_ok (add_members b env d (x ∷ [])) (λ (_ : ℕ). return (int (pos 1))) w2 w' new
                added,
        SetAt-Elsewhere b env d s w1 w' (removes (x ∷ []) from) (bytes_eq-flip s d apart)
            (Unmoved-trans before after) left,
        holds,
        Elsewhere-BesidesTwo only_src (Unmoved-trans before after),
      )

  -- SMOVE of a member of the source, between different keys that hold sets, the source's members
  -- storable and the destination's name within the limit of 1024 bytes, replies 1, takes the member
  -- out of the source, puts it into the destination, and changes no other key.
  pub handle_smove_lem :
      Storable from
      → lookup x from ≡ some tt
      → length dst ≤ 1024
      → (w' : b.World) × (handle_smove b env (name ∷ src ∷ dst ∷ x ∷ []) w ≡ (w', int (pos 1)))
        × SetAt b env (key_pk env src) w' (removes (x ∷ []) from)
        × SetAt b env (key_pk env dst) w' (puts (units (x ∷ [])) to)
        × BesidesTwo b (key_pk env src) (key_pk env dst) w w'
  unfolding handle_smove reply_to lookup is_some
  handle_smove_lem storable there short =
      let s = key_pk env src in
      let d = key_pk env dst in
      let fine : member_storable x ≡ true = elim (Bool-cases (member_storable x)) [
        | inl fits ↦ fits
        | inr long ↦ absurd (ground (arith, there, storable x long))
      ] in
      let fits : Fits dst (x ∷ []) [] = record {
        key_fits = short;
        members_fit = (storable-within x fine, tt);
        values_fit = tt;
      } in
      elim (load_set b laws env s w from held) [
        | inl (loaded, empty) ↦
            absurd (ground (arith, lookup-positive x tt from there, ap length empty))
        | inr (found, loaded, ready, filled) ↦
            let (w', ran, left, holds, others) = move_member_lem found ready filled fits in
            let is_in : b.sis_member s x w ≡ (w, ok true) =
              laws.sis_member_lem s x w
              ∙ ap (λ v. (w, ok (is_some v))) (ready.holds.items x ∙ there) in
            let checked : move_checked b env src dst x w ≡ (w', ok (int (pos 1))) =
              rw fine (>>=-eq_ok (b.sis_member s x) _ w w true is_in ∙ ran) in
            let start =
              >>=-eq_ok (set_state b env s) (move_live b env src dst x) w w (live found) loaded in
            let second : move_live b env src dst x (live found) w ≡ (w', ok (int (pos 1))) =
              rw apart (elim (load_set b laws env d w to other) [
                | inl (loaded2, empty2) ↦
                    >>=-eq_ok (set_state b env d) _ w w not_live loaded2 ∙ checked
                | inr (found2, loaded2, ready2, filled2) ↦
                    >>=-eq_ok (set_state b env d) _ w w (live found2) loaded2 ∙ checked
              ]) in
            (w', ap reply_of (start ∙ second), left, holds, others)
      ]

  -- SMOVE of a member that the source does not have, between different keys that hold sets of
  -- storable members, replies 0 and writes nothing.
  pub handle_smove_absent :
      Storable from
      → lookup x from ≡ none
      → handle_smove b env (name ∷ src ∷ dst ∷ x ∷ []) w ≡ (w, int (pos 0))
  unfolding handle_smove reply_to is_some
  handle_smove_absent storable missing =
      let s = key_pk env src in
      let d = key_pk env dst in
      elim (load_set b laws env s w from held) [
        | inl (loaded, empty) ↦
            ap reply_of
              (>>=-eq_ok (set_state b env s) (move_live b env src dst x) w w not_live loaded)
        | inr (found, loaded, ready, filled) ↦
            let is_out : b.sis_member s x w ≡ (w, ok false) =
              laws.sis_member_lem s x w
              ∙ ap (λ v. (w, ok (is_some v))) (ready.holds.items x ∙ missing) in
            let checked : move_checked b env src dst x w ≡ (w, ok (int (pos 0))) =
              elim (Bool-cases (member_storable x)) [
                | inl fine ↦ rw fine (>>=-eq_ok (b.sis_member s x) _ w w false is_out)
                | inr long ↦ rw long
              ] in
            let start =
              >>=-eq_ok (set_state b env s) (move_live b env src dst x) w w (live found) loaded in
            let second : move_live b env src dst x (live found) w ≡ (w, ok (int (pos 0))) =
              rw apart (elim (load_set b laws env d w to other) [
                | inl (loaded2, empty2) ↦
                    >>=-eq_ok (set_state b env d) _ w w not_live loaded2 ∙ checked
                | inr (found2, loaded2, ready2, filled2) ↦
                    >>=-eq_ok (set_state b env d) _ w w (live found2) loaded2 ∙ checked
              ]) in
            ap reply_of (start ∙ second)
      ]
