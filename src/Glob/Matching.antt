-- ===== src/Glob/Matching.antt =====
-- The matcher decides the language of patterns, with as much fuel as the pattern is long.
use redimos.Prelude.{
  ℕ, zero, suc, ◌≤◌, ◌<◌, ◌≡◌, ◌↔◌, refl, ap, sym, ◌∙◌, Bool, true, false, ◌||◌, Bool-cases, inl,
  inr, [], ◌∷◌, Bytes, length, ◌==◌, ==_iff, arith,
}
use redimos.Glob.{
  star, question, open_class, backslash, in_range, scan_class, match_class, drop_stars, is_empty,
  after_stars, after_class, turn, string_match_len, glob_match,
}
use redimos.Glob.Language.{Accepts, Matches, is_special}
use redimos.Glob.Classes.{match_class_complete}
use redimos.Glob.Soundness.{Suffix, any_suffix_complete, sound}

length-scan_class : (c : ℕ) (m : Bool) (p : Bytes) → length (scan_class c m p).1 ≤ length p
unfolding scan_class
length-scan_class c m [] = omega arith
length-scan_class c m (x ∷ []) = ground arith
length-scan_class c m (x ∷ y ∷ []) = ground (arith, length-scan_class c (m || x == c) (y ∷ []))
length-scan_class c m (x ∷ y ∷ z ∷ p) = ground (
  arith,
  length-scan_class c (m || y == c) (z ∷ p),
  length-scan_class c (m || in_range x z c) p,
  length-scan_class c (m || x == c) (y ∷ z ∷ p),
)

length-match_class : (c : ℕ) (p : Bytes) → length (match_class c p).1 ≤ length p
unfolding match_class
length-match_class c [] = length-scan_class c false []
length-match_class c (x ∷ p) =
    ground (arith, length-scan_class c false p, length-scan_class c false (x ∷ p))

length-drop_stars : (p : Bytes) → length (drop_stars p) ≤ length p
unfolding drop_stars
length-drop_stars [] = omega arith
length-drop_stars (x ∷ p) = ground (arith, length-drop_stars p)

-- A derivation whose leading stars are gone, on a suffix.
drop : (q s : Bytes) → Matches q s → (t : Bytes) × Suffix t s × Matches (drop_stars q) t
unfolding drop_stars
drop _ _ Matches.done = ([], Suffix.here, Matches.done)
drop _ _ (Matches.star_none {p} {s} m) = drop p s m
drop _ _ (Matches.star_one {p} {s} m) =
    let (t, part, r) = drop (star ∷ p) s m in (t, Suffix.there part, r)
drop _ _ (Matches.one {p} {s} {c} m) = (c ∷ s, Suffix.here, Matches.one m)
drop _ _ (Matches.class {p} {s} {rest} {c} e m) = (c ∷ s, Suffix.here, Matches.class e m)
drop _ _ (Matches.escaped {p} {s} {c} m) = (c ∷ s, Suffix.here, Matches.escaped m)
drop _ _ (Matches.bare_backslash {s} m) = (backslash ∷ s, Suffix.here, Matches.bare_backslash m)
drop _ _ (Matches.literal {p} {s} {c} e m) =
    let plain : (c == star) ≡ false = ground (arith, e) in
    (c ∷ s, Suffix.here, rw plain (Matches.literal e m))

stars_only : (q s : Bytes) → s ≡ [] → Matches q s → is_empty (drop_stars q) ≡ true
unfolding drop_stars
stars_only _ _ e Matches.done = refl
stars_only _ _ e (Matches.star_none {p} {s} m) = stars_only p s e m
stars_only _ _ e (Matches.star_one m) = ground (arith, e)
stars_only _ _ e (Matches.one m) = ground (arith, e)
stars_only _ _ e (Matches.class a m) = ground (arith, e)
stars_only _ _ e (Matches.escaped m) = ground (arith, e)
stars_only _ _ e (Matches.bare_backslash m) = ground (arith, e)
stars_only _ _ e (Matches.literal a m) = ground (arith, e)

module _ (n : ℕ) (go : Bytes → Bytes → Bool)
    (ih : (q t : Bytes) → Matches q t → length q < n → go q t ≡ true) where
  after_stars_complete :
      (q t s : Bytes) → Suffix t s → Matches q t → length q < n → after_stars go q s ≡ true
  after_stars_complete [] t s part m short = refl
  after_stars_complete (x ∷ q) t s part m short =
      any_suffix_complete (go (x ∷ q)) t s part (ih (x ∷ q) t m short)

  star_complete :
      (p s : Bytes) → Matches (star ∷ p) s → length p < n → after_stars go (drop_stars p) s ≡ true
  unfolding drop_stars
  star_complete p s m short =
      let (t, part, r) = drop (star ∷ p) s m in
      after_stars_complete (drop_stars p) t s part r (omega (arith, length-drop_stars p))

  class_complete :
      (p s rest : Bytes) (c : ℕ)
      → Accepts c p rest
      → Matches rest s
      → length p < n
      → after_class go (match_class c p) s ≡ true
  class_complete p s rest c accepted m short =
      let e = match_class_complete c p rest accepted in
      let fits : length rest < n =
        omega (arith, length-match_class c p, ap (λ (r : Bool × Bytes). length r.1) e) in
      ap (λ r. after_class go r s) e ∙ ih rest s m fits

  literal_complete :
      (p s : Bytes) (c : ℕ) → is_special c ≡ false → go p s ≡ true → turn go c p c s ≡ true
  literal_complete p s c e h =
      let a : (c == star) ≡ false = ground (arith, e) in
      let d : (c == question) ≡ false = ground (arith, e) in
      let f : (c == open_class) ≡ false = ground (arith, e) in
      let g : (c == backslash) ≡ false = ground (arith, e) in
      let same : (c == c) ≡ true = (==_iff c c).1 refl in rw (a, d, f, g, same) h

-- Completeness, with more fuel than the pattern is long.
complete : (n : ℕ) (q s : Bytes) → Matches q s → length q < n → string_match_len n q s ≡ true
unfolding string_match_len
complete zero q s m short = absurd (omega arith)
complete (suc n) _ _ Matches.done short = refl
complete (suc n) _ _ (Matches.star_none {p = p} {s = []} m) short =
    stars_only (star ∷ p) [] refl (Matches.star_none m)
complete (suc n) _ _ (Matches.star_none {p = p} {s = c ∷ s} m) short =
    star_complete n (string_match_len n) (complete n) p (c ∷ s) (Matches.star_none m) (omega arith)
complete (suc n) _ _ (Matches.star_one {p} {s} {c} m) short =
    star_complete n (string_match_len n) (complete n) p (c ∷ s) (Matches.star_one m) (omega arith)
complete (suc n) _ _ (Matches.one {p} {s} m) short = complete n p s m (omega arith)
complete (suc n) _ _ (Matches.class {p} {s} {rest} {c} e m) short =
    class_complete n (string_match_len n) (complete n) p s rest c e m (omega arith)
complete (suc n) _ _ (Matches.escaped {p} {s} {c} m) short =
    let same : (c == c) ≡ true = (==_iff c c).1 refl in rw same (complete n p s m (omega arith))
complete (suc n) _ _ (Matches.bare_backslash {s} m) short = complete n [] s m (omega arith)
complete (suc n) _ _ (Matches.literal {p} {s} {c} e m) short =
    literal_complete n (string_match_len n) (complete n) p s c e (complete n p s m (omega arith))

-- The matcher accepts a string exactly if the rules of the pattern language derive it: `*` takes
-- any bytes, `?` one byte, a class one byte that some item of it covers (a byte, an escaped byte,
-- or a range whose ends come in either order), a class with `^` one byte that no item covers, a
-- backslash the byte behind it, and every other byte itself. A class ends at its first `]` that is
-- no part of an item, or with the pattern.
pub glob_match_iff : (pattern s : Bytes) → (glob_match pattern s ≡ true) ↔ Matches pattern s
unfolding glob_match
glob_match_iff pattern s = (
  sound (suc (length pattern)) pattern s,
  λ m. complete (suc (length pattern)) pattern s m (omega arith),
)

-- More fuel than the pattern is long changes no answer: the loop ends within it.
pub string_match_len-enough :
    (n : ℕ) (pattern s : Bytes)
    → length pattern < n
    → string_match_len n pattern s ≡ glob_match pattern s
unfolding glob_match
string_match_len-enough n pattern s enough = elim (Bool-cases (string_match_len n pattern s)) [
  | inl hit ↦ hit ∙ sym ((glob_match_iff pattern s).1 (sound n pattern s hit))
  | inr miss ↦ elim (Bool-cases (string_match_len (suc (length pattern)) pattern s)) [
    | inl hit ↦
        let found = complete n pattern s (sound (suc (length pattern)) pattern s hit) enough in
        absurd (ground (arith, miss, found))
    | inr other ↦ miss ∙ sym other
  ]
]
