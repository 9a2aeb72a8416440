-- ===== src/Glob/Soundness.antt =====
-- What the matcher accepts is in the language of the pattern.
use redimos.Prelude.{
  ℕ, zero, suc, ◌≡◌, ◌⊎◌, refl, sym, subst, ◌∙◌, Bool, true, false, ◌&&◌, Bool-cases, inl, inr, [],
  ◌∷◌, Bytes, ◌==◌, ==_iff, arith,
}
use redimos.Glob.{
  star, question, open_class, backslash, match_class, drop_stars, is_empty, any_suffix, after_stars,
  after_class, after_backslash, turn, string_match_len,
}
use redimos.Glob.Language.{Matches}
use redimos.Glob.Classes.{match_class_sound}

pub data Suffix : Bytes → Bytes → Type 0 where
  here : {s : Bytes} → Suffix s s
  there : {t s : Bytes} {c : ℕ} → Suffix t s → Suffix t (c ∷ s)

nil-Suffix : (s : Bytes) → Suffix [] s
nil-Suffix [] = Suffix.here
nil-Suffix (c ∷ s) = Suffix.there (nil-Suffix s)

any_suffix_sound :
    (f : Bytes → Bool) (s : Bytes) → any_suffix f s ≡ true → (t : Bytes) × Suffix t s × (f t ≡ true)
unfolding any_suffix
any_suffix_sound f [] h = ([], Suffix.here, h)
any_suffix_sound f (c ∷ s) h = elim (Bool-cases (f (c ∷ s))) [
  | inl hit ↦ (c ∷ s, Suffix.here, hit)
  | inr miss ↦
      let (t, part, found) = any_suffix_sound f s (ground (arith, miss, h)) in
      (t, Suffix.there part, found)
]

pub any_suffix_complete :
    (f : Bytes → Bool) (t s : Bytes) → Suffix t s → f t ≡ true → any_suffix f s ≡ true
unfolding any_suffix
any_suffix_complete f t [] Suffix.here h = h
any_suffix_complete f t (c ∷ s) Suffix.here h = rw h
any_suffix_complete f t (c ∷ s) (Suffix.there part) h = elim (Bool-cases (f (c ∷ s))) [
  | inl hit ↦ rw hit
  | inr miss ↦ rw miss (any_suffix_complete f t s part h)
]

-- A star takes what stands before a suffix.
star-Suffix : (p t s : Bytes) → Suffix t s → Matches (star ∷ p) t → Matches (star ∷ p) s
star-Suffix p t s Suffix.here m = m
star-Suffix p t (c ∷ s) (Suffix.there part) m = Matches.star_one (star-Suffix p t s part m)

undrop : (p s : Bytes) → Matches (drop_stars p) s → Matches p s
unfolding drop_stars
undrop [] s m = m
undrop (x ∷ p) s m = elim (Bool-cases (x == star)) [
  | inl hit ↦
      let rest : drop_stars (x ∷ p) ≡ drop_stars p = rw hit in
      subst (λ y. Matches (y ∷ p) s) (sym ((==_iff x star).0 hit))
        (Matches.star_none (undrop p s (subst (λ q. Matches q s) rest m)))
  | inr miss ↦ subst (λ q. Matches q s) (rw miss) m
]

stars-Matches : (p : Bytes) → is_empty (drop_stars p) ≡ true → Matches p []
stars-Matches p h = undrop p [] (nothing (drop_stars p) h)
  where
    nothing : (q : Bytes) → is_empty q ≡ true → Matches q []
    nothing [] e = Matches.done
    nothing (x ∷ q) e = ground (arith, e)

special_cases :
    (x : ℕ)
    → (x ≡ star)
      ⊎ (((x == star) ≡ false)
          × ((x ≡ question)
              ⊎ (((x == question) ≡ false)
                  × ((x ≡ open_class)
                      ⊎ (((x == open_class) ≡ false)
                          × ((x ≡ backslash) ⊎ ((x == backslash) ≡ false)))))))
special_cases x = elim (Bool-cases (x == star)) [
  | inl a ↦ inl ((==_iff x star).0 a)
  | inr a ↦ inr (
    a,
    elim (Bool-cases (x == question)) [
      | inl b ↦ inl ((==_iff x question).0 b)
      | inr b ↦ inr (
        b,
        elim (Bool-cases (x == open_class)) [
          | inl c ↦ inl ((==_iff x open_class).0 c)
          | inr c ↦ inr (
            c,
            elim (Bool-cases (x == backslash)) [
              | inl d ↦ inl ((==_iff x backslash).0 d)
              | inr d ↦ inr d
            ],
          )
        ],
      )
    ],
  )
]

and_left : (a c : Bool) → (a && c) ≡ true → a ≡ true
and_left true c h = refl
and_left false c h = ground (arith, h)

and_right : (a c : Bool) → (a && c) ≡ true → c ≡ true
and_right true c h = h
and_right false c h = ground (arith, h)

-- A turn is sound if what it goes on with is.
module _ (go : Bytes → Bytes → Bool) (ih : (p s : Bytes) → go p s ≡ true → Matches p s) where
  after_stars_sound :
      (q s : Bytes) → after_stars go q s ≡ true → (t : Bytes) × Suffix t s × Matches q t
  after_stars_sound [] s h = ([], nil-Suffix s, Matches.done)
  after_stars_sound (x ∷ q) s h =
      let (t, part, found) = any_suffix_sound (go (x ∷ q)) s h in (t, part, ih (x ∷ q) t found)

  star_sound : (p s : Bytes) → after_stars go (drop_stars p) s ≡ true → Matches (star ∷ p) s
  star_sound p s h =
      let (t, part, m) = after_stars_sound (drop_stars p) s h in
      star-Suffix p t s part (Matches.star_none (undrop p t m))

  class_sound :
      (p s : Bytes) (c : ℕ)
      → after_class go (match_class c p) s ≡ true
      → Matches (open_class ∷ p) (c ∷ s)
  class_sound p s c h =
      let r = match_class c p in
      Matches.class (match_class_sound c p (and_left r.0 (go r.1 s) h))
        (ih r.1 s (and_right r.0 (go r.1 s) h))

  backslash_sound :
      (p s : Bytes) (c : ℕ) → after_backslash go c p s ≡ true → Matches (backslash ∷ p) (c ∷ s)
  backslash_sound [] s c h =
      let same = (==_iff backslash c).0 (and_left (backslash == c) (go [] s) h) in
      subst (λ y. Matches (backslash ∷ []) (y ∷ s)) same
        (Matches.bare_backslash (ih [] s (and_right (backslash == c) (go [] s) h)))
  backslash_sound (x ∷ p) s c h =
      let same = (==_iff x c).0 (and_left (x == c) (go p s) h) in
      subst (λ y. Matches (backslash ∷ y ∷ p) (c ∷ s)) (sym same)
        (Matches.escaped (ih p s (and_right (x == c) (go p s) h)))

  turn_sound :
      (x : ℕ) (p : Bytes) (c : ℕ) (s : Bytes) → turn go x p c s ≡ true → Matches (x ∷ p) (c ∷ s)
  turn_sound x p c s h = elim (special_cases x) [
    | inl e ↦ at e (star_sound p (c ∷ s) (subst (λ y. turn go y p c s ≡ true) e h))
    | inr (a, inl e) ↦ at e (Matches.one (ih p s (subst (λ y. turn go y p c s ≡ true) e h)))
    | inr (a, inr (d, inl e)) ↦ at e (class_sound p s c (subst (λ y. turn go y p c s ≡ true) e h))
    | inr (a, inr (d, inr (f, inl e))) ↦
        at e (backslash_sound p s c (subst (λ y. turn go y p c s ≡ true) e h))
    | inr (a, inr (d, inr (f, inr g))) ↦
        let plain : (x == c && go p s) ≡ true = sym (rw (a, d, f, g)) ∙ h in
        let same = (==_iff x c).0 (and_left (x == c) (go p s) plain) in
        subst (λ y. Matches (x ∷ p) (y ∷ s)) same
          (Matches.literal (rw (a, d, f, g)) (ih p s (and_right (x == c) (go p s) plain)))
  ]
    where
      at : {y : ℕ} → x ≡ y → Matches (y ∷ p) (c ∷ s) → Matches (x ∷ p) (c ∷ s)
      at e m = subst (λ z. Matches (z ∷ p) (c ∷ s)) (sym e) m

-- Soundness, with whatever fuel.
pub sound : (n : ℕ) (p s : Bytes) → string_match_len n p s ≡ true → Matches p s
unfolding string_match_len
sound zero p s h = ground (arith, h)
sound (suc n) [] [] h = Matches.done
sound (suc n) [] (c ∷ s) h = ground (arith, h)
sound (suc n) (x ∷ p) [] h = stars-Matches (x ∷ p) h
sound (suc n) (x ∷ p) (c ∷ s) h = turn_sound (string_match_len n) (sound n) x p c s h
