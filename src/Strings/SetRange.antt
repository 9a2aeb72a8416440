-- ===== src/Strings/SetRange.antt =====
-- What SETRANGE does with a valid offset, and what its splice contains byte by byte.
use redimos.Prelude.{
  ℕ, zero, suc, ◌+◌, ◌-◌, ◌≤◌, ◌<◌, ◌≡◌, ◌≢◌, refl, ap, ◌∙◌, false, some, List, [], ◌∷◌, ◌++◌,
  Bytes, if◌then◌else◌, length, get_or, get_or-pad, ltb→lt, Bool-cases, inl, inr, sym, take, drop,
  replicate, ltb, length-append, length-replicate, arith,
}
use redimos.Prelude.Int.{pos, ltb_ℤ}
use redimos.Reply.{int, ok}
use redimos.Store.{Store, return, reply_of, reply_to, >>=-eq_ok}
use redimos.Args.Integer.{parse_int}
use redimos.Expiry.{max_int64}
use redimos.Keys.{Env, key_pk}
use redimos.Guard.{check_write, check_value_size, max_value_size}
use redimos.Guard.Limits.{Fits, check_write-Fits}
use redimos.Strings.{
  live_other, standing, base_of, splice, set_range_value, set_range_at, handle_set_range,
  rmw_string,
}
use redimos.Strings.Laws.{StringLaws}
use redimos.Strings.Rmw.{Written, rmw_loop_lem}

module _ {ℓ} {A : Type ℓ} where
  length-take : (n : ℕ) (xs : List A) → n ≤ length xs → length (take n xs) ≡ n
  length-take zero xs h = refl
  length-take (suc n) [] h = absurd (omega arith)
  length-take (suc n) (x ∷ xs) h = ap suc (length-take n xs (omega arith))

  length-drop : (n : ℕ) (xs : List A) → length (drop n xs) ≡ length xs - n
  length-drop zero xs = omega arith
  length-drop (suc n) [] = omega arith
  length-drop (suc n) (x ∷ xs) = omega (arith, length-drop n xs)

  get_or-append_left :
      (xs ys : List A) (i : ℕ) (d : A) → i < length xs → get_or (xs ++ ys) i d ≡ get_or xs i d
  get_or-append_left [] ys i d h = absurd (omega arith)
  get_or-append_left (x ∷ xs) ys zero d h = refl
  get_or-append_left (x ∷ xs) ys (suc i) d h = get_or-append_left xs ys i d (omega arith)

  get_or-append_right :
      (xs ys : List A) (i : ℕ) (d : A) → get_or (xs ++ ys) (length xs + i) d ≡ get_or ys i d
  get_or-append_right [] ys i d = ap (λ j. get_or ys j d) (omega arith)
  get_or-append_right (x ∷ xs) ys i d =
      let next : length (x ∷ xs) + i ≡ suc (length xs + i) = omega arith in
      ap (λ j. get_or (x ∷ xs ++ ys) j d) next ∙ get_or-append_right xs ys i d

  get_or-take :
      (n : ℕ) (xs : List A) (i : ℕ) (d : A) → i < n → get_or (take n xs) i d ≡ get_or xs i d
  get_or-take zero xs i d h = absurd (omega arith)
  get_or-take (suc n) [] i d h = refl
  get_or-take (suc n) (x ∷ xs) zero d h = refl
  get_or-take (suc n) (x ∷ xs) (suc i) d h = get_or-take n xs i d (omega arith)

  get_or-drop : (n : ℕ) (xs : List A) (i : ℕ) (d : A) → get_or (drop n xs) i d ≡ get_or xs (n + i) d
  get_or-drop zero xs i d = ap (λ j. get_or xs j d) (omega arith)
  get_or-drop (suc n) [] i d = refl
  get_or-drop (suc n) (x ∷ xs) i d =
      let next : suc (n + i) ≡ suc n + i = omega arith in
      get_or-drop n xs i d ∙ ap (λ j. get_or (x ∷ xs) j d) next

module _ (base : Bytes) (offset : ℕ) (val : Bytes) where
  abbrev front : Bytes
  front = take offset (base ++ replicate (offset - length base) 0)

  length-front : length front ≡ offset
  length-front =
      let padded = length-append base (replicate (offset - length base) 0) in
      let zeros = length-replicate {A = ℕ} (offset - length base) 0 in
      length-take offset (base ++ replicate (offset - length base) 0) (omega arith)

  length-head : length (front ++ val) ≡ offset + length val
  length-head = let h = length-append front val in let f = length-front in omega arith

  -- The size of the buffer is the one that SETRANGE checks.
  pub length-splice :
      length (splice base offset val)
      ≡ (if ltb (length base) (offset + length val) then offset + length val else length base)
  unfolding splice
  length-splice =
      let whole = length-append (front ++ val) (drop (offset + length val) base) in
      let head = length-head in
      let back = length-drop (offset + length val) base in
      elim (Bool-cases (ltb (length base) (offset + length val))) [
        | inl longer ↦ rw longer (ground arith)
        | inr shorter ↦ rw shorter (ground arith)
      ]

  before : (i : ℕ) → i < offset → get_or (splice base offset val) i 0 ≡ get_or base i 0
  unfolding splice
  before i h =
      let f = length-front in
      let hd = length-head in
      get_or-append_left (front ++ val) (drop (offset + length val) base) i 0 (omega arith)
      ∙ get_or-append_left front val i 0 (omega arith)
      ∙ get_or-take offset (base ++ replicate (offset - length base) 0) i 0 h
      ∙ get_or-pad base (offset - length base) i 0

  within :
      (j : ℕ) → j < length val → get_or (splice base offset val) (offset + j) 0 ≡ get_or val j 0
  unfolding splice
  within j h =
      let hd = length-head in
      let place : offset + j ≡ length front + j = ap (λ n. n + j) (sym length-front) in
      get_or-append_left (front ++ val) (drop (offset + length val) base) (offset + j) 0
        (omega arith)
      ∙ ap (λ i. get_or (front ++ val) i 0) place
      ∙ get_or-append_right front val j 0

  after :
      (j : ℕ)
      → get_or (splice base offset val) (offset + length val + j) 0
        ≡ get_or base (offset + length val + j) 0
  unfolding splice
  after j =
      let place : offset + length val + j ≡ length (front ++ val) + j =
        ap (λ n. n + j) (sym length-head) in
      ap (λ i. get_or (splice base offset val) i 0) place
      ∙ get_or-append_right (front ++ val) (drop (offset + length val) base) j 0
      ∙ get_or-drop (offset + length val) base j 0

  -- The buffer that SETRANGE builds has the argument's bytes at the offset, the old bytes elsewhere,
  -- and zeros in a gap past the old end.
  pub get_or-splice :
      (i : ℕ)
      → get_or (splice base offset val) i 0 ≡ (
          if ltb i offset
          then get_or base i 0
          else if ltb i (offset + length val)
          then get_or val (i - offset) 0
          else get_or base i 0)
  get_or-splice i = elim (Bool-cases (ltb i offset)) [
    | inl early ↦ rw early (before i (ltb→lt i offset early))
    | inr late ↦ elim (Bool-cases (ltb i (offset + length val))) [
      | inl inside ↦
          let place : i ≡ offset + (i - offset) = ground arith in
          rw (late, inside)
            (ap (λ k. get_or (splice base offset val) k 0) place
              ∙ within (i - offset) (ground arith))
      | inr past ↦
          let place : i ≡ offset + length val + (i - (offset + length val)) = ground arith in
          rw (late, past)
            (ap (λ k. get_or (splice base offset val) k 0) place
              ∙ after (i - (offset + length val))
              ∙ ap (λ k. get_or base k 0) (sym place))
    ]
  ]

module _ (b : Store) (laws : StringLaws b) (env : Env) (name key text : Bytes) (w : b.World) where
  size_passes :
      (n : ℕ) (u : b.World) → n ≤ max_value_size → check_value_size b (pos n) u ≡ (u, ok tt)
  unfolding check_value_size
  size_passes n u h =
      let small : ltb_ℤ (pos max_value_size) (pos n) ≡ false = ground arith in rw small

  with_offset :
      (offset : ℕ) (val : Bytes)
      → parse_int text ≡ some (pos offset)
      → handle_set_range b env (name ∷ key ∷ text ∷ val ∷ []) w
        ≡ set_range_at b env key offset val w
  unfolding handle_set_range
  with_offset offset val e =
      let sign : ltb_ℤ (pos offset) (pos 0) ≡ false = ground arith in
      rw (e, handle_set_range) (rw sign)

  -- SETRANGE with a valid offset and a non-empty argument, on a key whose name fits the limit and
  -- that is not live with another type, and with a result within the size limit, stores the old
  -- value spliced with the argument, replies its length and changes no other key.
  pub handle_set_range_lem :
      (offset : ℕ) (c : ℕ) (val old : Bytes)
      → parse_int text ≡ some (pos offset)
      → standing env.now (b.meta w (key_pk env key)) ≢ live_other
      → base_of b env (standing env.now (b.meta w (key_pk env key)), b.value w (key_pk env key))
        ≡ old
      → Fits key [] []
      → length (splice old offset (c ∷ val)) ≤ max_value_size
      → (w' : b.World) × (handle_set_range b env (name ∷ key ∷ text ∷ (c ∷ val) ∷ []) w
          ≡ (w', int (pos (length (splice old offset (c ∷ val))))))
        × Written b env.now (key_pk env key) (splice old offset (c ∷ val)) w w'
  unfolding rmw_string reply_to
  handle_set_range_lem offset c val old e fine base fits small =
      let next = splice old offset (c ∷ val) in
      let size =
        if ltb (length old) (offset + length (c ∷ val))
        then offset + length (c ∷ val)
        else length old in
      let sized : length next ≡ size = length-splice old offset (c ∷ val) in
      let no_overflow : ltb (max_int64 - length (c ∷ val)) offset ≡ false = ground arith in
      let computed = λ (u : b.World).
        ap (λ x. set_range_value b env key offset (c ∷ val) x u) base
        ∙ rw no_overflow (
            >>=-eq_ok (check_write b key [] []) _ u u tt (check_write-Fits b key [] [] u fits)
            ∙ >>=-eq_ok (check_value_size b (pos size)) (λ (_ : Unit {0}). return next) u u tt
                (size_passes size u (omega arith))) in
      let (w', ran, written) =
        rmw_loop_lem b laws env (key_pk env key) (set_range_value b env key offset (c ∷ val)) 48 w
          next fine computed in
      (
        w',
        with_offset offset (c ∷ val) e
            ∙ ap reply_of (
                >>=-eq_ok
                  (rmw_string b env (key_pk env key) (set_range_value b env key offset (c ∷ val)))
                  (λ (n : ℕ). return (int (pos n))) w w' (length next) ran),
        written,
      )
