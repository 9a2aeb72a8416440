-- ===== src/Lists/Removal.antt =====
-- `lremCompute` against a filter: which occurrences go, by the sign of the count.
use redimos.Prelude.{
  ℕ, zero, suc, ◌+◌, ◌-◌, append-nil, ◌≤◌, ◌<◌, ◌≡◌, refl, ap, ap₂, sym, ◌∙◌, Bool, true, false,
  List, [], ◌∷◌, ◌++◌, map, Bytes, if◌then◌else◌, length, length-append, ltb, bytes_eq, Bool-cases,
  inl, inr, arith, ◌⊎◌,
}
use redimos.Prelude.Int.{ℤ, pos, negsuc, neg_part, pos_part, ◌-ℤ◌}
use redimos.Lists.Remove.{
  drop_forward, drop_backward, mark, kept, removed_count, drop_marks, lrem_compute,
}

-- How many elements equal the value, and the others.
unfoldable pub occurrences : Bytes → List Bytes → ℕ
occurrences value [] = 0
occurrences value (x ∷ all) =
    if bytes_eq x value then suc (occurrences value all) else occurrences value all

unfoldable pub others : Bytes → List Bytes → List Bytes
others value [] = []
others value (x ∷ all) = if bytes_eq x value then others value all else x ∷ others value all

module _ (value : Bytes) where
  abbrev every : List Bytes → List Bool
  every = map (λ x. bytes_eq x value)

  abbrev no_one : List Bytes → List Bool
  no_one = map (λ _. false)

  occurrences-length : (all : List Bytes) → occurrences value all ≤ length all
  unfolding occurrences
  occurrences-length [] = omega arith
  occurrences-length (x ∷ all) = ground (arith, occurrences-length all)

  forward_none : (all : List Bytes) → drop_forward value zero all ≡ no_one all
  unfolding drop_forward
  forward_none [] = refl
  forward_none (x ∷ all) = ap (λ m. false ∷ m) (forward_none all)

  forward_miss :
      (k : ℕ) (x : Bytes) (all : List Bytes)
      → bytes_eq x value ≡ false
      → drop_forward value k (x ∷ all) ≡ false ∷ drop_forward value k all
  unfolding drop_forward
  forward_miss zero x all e = refl
  forward_miss (suc k) x all e = rw e

  forward_hit :
      (k : ℕ) (x : Bytes) (all : List Bytes)
      → bytes_eq x value ≡ true
      → drop_forward value (suc k) (x ∷ all) ≡ true ∷ drop_forward value k all
  unfolding drop_forward
  forward_hit k x all e = rw e

  forward_lem :
      (xs ys : List Bytes) (k : ℕ)
      → drop_forward value (occurrences value xs + k) (xs ++ ys)
        ≡ every xs ++ drop_forward value k ys
  unfolding occurrences
  forward_lem [] ys k = ap (λ n. drop_forward value n ys) (omega arith)
  forward_lem (x ∷ xs) ys k = elim (Bool-cases (bytes_eq x value)) [
    | inl hit ↦
        let step : suc (occurrences value xs) + k ≡ suc (occurrences value xs + k) = omega arith in
        rw (hit, step)
          (forward_hit (occurrences value xs + k) x (xs ++ ys) hit
            ∙ ap (λ m. true ∷ m) (forward_lem xs ys k))
    | inr miss ↦ rw miss (
        forward_miss (occurrences value xs + k) x (xs ++ ys) miss
        ∙ ap (λ m. false ∷ m) (forward_lem xs ys k))
  ]

  backward_lem :
      (ys : List Bytes) (k : ℕ) → drop_backward value (occurrences value ys + k) ys ≡ (every ys, k)
  unfolding drop_backward occurrences
  backward_lem [] k = ap (λ n. ([], n)) (omega arith)
  backward_lem (y ∷ ys) k = elim (Bool-cases (bytes_eq y value)) [
    | inl hit ↦
        let total : occurrences value (y ∷ ys) + k ≡ occurrences value ys + suc k = ground arith in
        ap (λ n. drop_backward value n (y ∷ ys)) total
        ∙ ap (mark value y) (backward_lem ys (suc k))
        ∙ rw hit
    | inr miss ↦
        let total : occurrences value (y ∷ ys) + k ≡ occurrences value ys + k = ground arith in
        ap (λ n. drop_backward value n (y ∷ ys)) total
        ∙ ap (mark value y) (backward_lem ys k)
        ∙ mark_miss y (every ys) k miss
        ∙ rw miss
  ]
    where
      mark_miss :
          (y : Bytes) (marks : List Bool) (k : ℕ)
          → bytes_eq y value ≡ false
          → mark value y (marks, k) ≡ (false ∷ marks, k)
      mark_miss y marks zero e = refl
      mark_miss y marks (suc k) e = rw e

  backward_rest :
      (xs ys : List Bytes)
      → drop_backward value (occurrences value ys) (xs ++ ys) ≡ (no_one xs ++ every ys, 0)
  unfolding drop_backward
  backward_rest [] ys = ap (λ n. drop_backward value n ys) (omega arith) ∙ backward_lem ys 0
  backward_rest (x ∷ xs) ys = ap (mark value x) (backward_rest xs ys)

  kept-append :
      (f : Bytes → Bool) (xs ys : List Bytes) (m : List Bool)
      → kept (xs ++ ys) (map f xs ++ m) ≡ kept xs (map f xs) ++ kept ys m
  unfolding kept
  kept-append f [] ys m = refl
  kept-append f (x ∷ xs) ys m = ground (arith, kept-append f xs ys m)

  removed_count-append :
      (f : Bytes → Bool) (xs : List Bytes) (m : List Bool)
      → removed_count (map f xs ++ m) ≡ removed_count (map f xs) + removed_count m
  unfolding removed_count
  removed_count-append f [] m = omega arith
  removed_count-append f (x ∷ xs) m = ground (arith, removed_count-append f xs m)

  kept-every : (xs : List Bytes) → kept xs (every xs) ≡ others value xs
  unfolding kept others
  kept-every [] = refl
  kept-every (x ∷ xs) = ground (arith, kept-every xs)

  removed_count-every : (xs : List Bytes) → removed_count (every xs) ≡ occurrences value xs
  unfolding removed_count occurrences
  removed_count-every [] = refl
  removed_count-every (x ∷ xs) = ground (arith, removed_count-every xs)

  kept-no_one : (xs : List Bytes) → kept xs (no_one xs) ≡ xs
  unfolding kept
  kept-no_one [] = refl
  kept-no_one (x ∷ xs) = ap (λ r. x ∷ r) (kept-no_one xs)

  removed_count-no_one : (xs : List Bytes) → removed_count (no_one xs) ≡ 0
  unfolding removed_count
  removed_count-no_one [] = refl
  removed_count-no_one (x ∷ xs) = removed_count-no_one xs

  forward_rest :
      (xs ys : List Bytes)
      → drop_forward value (occurrences value xs) (xs ++ ys) ≡ every xs ++ no_one ys
  forward_rest xs ys =
      ap (λ n. drop_forward value n (xs ++ ys)) (omega arith)
      ∙ forward_lem xs ys 0
      ∙ ap (λ m. every xs ++ m) (forward_none ys)

  -- What a split list with marks on one part leaves.
  first_part :
      (xs ys : List Bytes) → kept (xs ++ ys) (every xs ++ no_one ys) ≡ others value xs ++ ys
  first_part xs ys =
      kept-append (λ x. bytes_eq x value) xs ys (no_one ys)
      ∙ ap₂ ◌++◌ (kept-every xs) (kept-no_one ys)

  second_part :
      (xs ys : List Bytes) → kept (xs ++ ys) (no_one xs ++ every ys) ≡ xs ++ others value ys
  second_part xs ys =
      kept-append (λ _. false) xs ys (every ys) ∙ ap₂ ◌++◌ (kept-no_one xs) (kept-every ys)

  -- The cap on the magnitude leaves a count of occurrences as it is.
  capped :
      (xs ys zs : List Bytes)
      → length zs ≡ length xs + length ys
      → (if ltb (length zs) (occurrences value xs) then length zs else occurrences value xs)
        ≡ occurrences value xs
  capped xs ys zs e = let h = occurrences-length xs in ground arith

  removed_first :
      (xs ys : List Bytes) → removed_count (every xs ++ no_one ys) ≡ occurrences value xs
  removed_first xs ys =
      let left = removed_count-append (λ x. bytes_eq x value) xs (no_one ys) in
      let here = removed_count-every xs in let none = removed_count-no_one ys in omega arith

  removed_second :
      (xs ys : List Bytes) → removed_count (no_one xs ++ every ys) ≡ occurrences value ys
  removed_second xs ys =
      let left = removed_count-append (λ _. false) xs (every ys) in
      let here = removed_count-every ys in let none = removed_count-no_one xs in omega arith

  marks_pos :
      (all : List Bytes) (k : ℕ)
      → 0 < k
      → k ≤ length all
      → drop_marks all (pos k) value ≡ drop_forward value k all
  unfolding drop_marks
  marks_pos all k hp hk = ground arith

  marks_negsuc :
      (all : List Bytes) (k : ℕ)
      → suc k ≤ length all
      → drop_marks all (negsuc k) value ≡ (drop_backward value (suc k) all).0
  unfolding drop_marks ◌-ℤ◌
  marks_negsuc all k hk = ground arith

  -- LREM with a positive count removes that many occurrences from the head: cut the list after
  -- that many, and they go from the first part while the second stays.
  pub lrem_compute_head :
      (xs ys : List Bytes)
      → 0 < occurrences value xs
      → lrem_compute (xs ++ ys) (pos (occurrences value xs)) value
        ≡ (others value xs ++ ys, occurrences value xs)
  unfolding lrem_compute
  lrem_compute_head xs ys h =
      let long = occurrences-length xs in
      let total = length-append xs ys in
      let marks =
        marks_pos (xs ++ ys) (occurrences value xs) h (omega arith) ∙ forward_rest xs ys in
      ap (λ m. (kept (xs ++ ys) m, removed_count m)) marks
      ∙ ap₂ (λ (l : List Bytes) (n : ℕ). (l, n)) (first_part xs ys) (removed_first xs ys)

  -- LREM with a negative count removes that many occurrences from the tail.
  pub lrem_compute_tail :
      (xs ys : List Bytes) (k : ℕ)
      → occurrences value ys ≡ suc k
      → lrem_compute (xs ++ ys) (negsuc k) value ≡ (xs ++ others value ys, suc k)
  unfolding lrem_compute
  lrem_compute_tail xs ys k e =
      let long = occurrences-length ys in
      let total = length-append xs ys in
      let marks =
        marks_negsuc (xs ++ ys) k (omega arith)
        ∙ ap (λ n. (drop_backward value n (xs ++ ys)).0) (sym e)
        ∙ ap (λ r. r.0) (backward_rest xs ys) in
      ap (λ m. (kept (xs ++ ys) m, removed_count m)) marks
      ∙ ap₂ (λ (l : List Bytes) (n : ℕ). (l, n)) (second_part xs ys) (removed_second xs ys ∙ e)

  marks_past_pos :
      (all : List Bytes) (k : ℕ)
      → 0 < k
      → (j : ℕ) × (drop_marks all (pos k) value ≡ drop_forward value j all)
        × ((length all ≤ j) ⊎ (j ≡ k))
  unfolding drop_marks
  marks_past_pos all k hp = elim (Bool-cases (ltb (length all) k)) [
    | inl over ↦ (length all, ground arith, inl (omega arith))
    | inr under ↦ (k, ground arith, inr refl)
  ]

  marks_past_negsuc :
      (all : List Bytes) (k : ℕ)
      → (j : ℕ) × (drop_marks all (negsuc k) value ≡ (drop_backward value j all).0)
        × ((length all ≤ j) ⊎ (j ≡ suc k))
  unfolding drop_marks ◌-ℤ◌
  marks_past_negsuc all k = elim (Bool-cases (ltb (length all) (suc k))) [
    | inl over ↦ (length all, ground arith, inl (omega arith))
    | inr under ↦ (suc k, ground arith, inr refl)
  ]

  forward_past : (k : ℕ) → drop_forward value k [] ≡ []
  unfolding drop_forward
  forward_past k = refl

  forward_every :
      (all : List Bytes) (j : ℕ) → occurrences value all ≤ j → drop_forward value j all ≡ every all
  forward_every all j h =
      ap₂ (λ n l. drop_forward value n l) (omega arith) (sym (append-nil all))
      ∙ forward_lem all [] (j - occurrences value all)
      ∙ ap (λ m. every all ++ m) (forward_past (j - occurrences value all))
      ∙ append-nil (every all)

  backward_every :
      (all : List Bytes) (j : ℕ)
      → occurrences value all ≤ j
      → (drop_backward value j all).0 ≡ every all
  backward_every all j h =
      ap (λ n. (drop_backward value n all).0) (omega arith)
      ∙ ap (λ r. r.0) (backward_lem all (j - occurrences value all))

  -- Whether the count asks for every occurrence.
  abbrev AsksForEvery : ℤ → List Bytes → Type 0
  AsksForEvery count all =
      (count ≡ pos 0) ⊎ (occurrences value all ≤ pos_part count + neg_part count)

  marks_every :
      (all : List Bytes) (count : ℤ)
      → AsksForEvery count all
      → drop_marks all count value ≡ every all
  marks_every all (pos zero) h = unfold drop_marks in refl
  marks_every all (pos (suc k)) h =
      let (j, e, size) = marks_past_pos all (suc k) (omega arith) in
      let long = occurrences-length all in e ∙ forward_every all j (ground arith)
  marks_every all (negsuc k) h =
      let (j, e, size) = marks_past_negsuc all k in
      let long = occurrences-length all in e ∙ backward_every all j (ground arith)

  -- LREM with count 0, or with a magnitude at least the number of occurrences (the least int64
  -- too), removes every occurrence, keeps the others in order and counts what it removed.
  pub lrem_compute_every :
      (all : List Bytes) (count : ℤ)
      → (count ≡ pos 0) ⊎ (occurrences value all ≤ pos_part count + neg_part count)
      → lrem_compute all count value ≡ (others value all, occurrences value all)
  unfolding lrem_compute
  lrem_compute_every all count h =
      ap (λ m. (kept all m, removed_count m)) (marks_every all count h)
      ∙ ap₂ (λ (l : List Bytes) (n : ℕ). (l, n)) (kept-every all) (removed_count-every all)
