-- ===== src/Strings/Many/Batches.antt =====
-- The batches in which MSET writes leave what one loop over the pairs leaves, faults included.
use redimos.Prelude.{
  ℕ, zero, suc, ◌≤◌, ◌≡◌, refl, ◌∙◌, List, [], ◌∷◌, Bytes, length, take, drop, arith,
}
use redimos.Reply.{Result, ok, err}
use redimos.Store.{Store, M, ◌>>=◌, resume}
use redimos.Keys.{Env, key_pk}
use redimos.Strings.Many.{mset_batch_keys, set_pair, set_pairs, set_batches}

module _ {W : Type 0} {A : Type 0} {B : Type 0} {C : Type 0} where
  resume_assoc :
      (r : W × Result A) (f : A → M W B) (g : B → M W C)
      → resume (resume r f) g ≡ resume r (λ a w. resume (f a w) g)
  resume_assoc (w, ok a) f g = refl
  resume_assoc (w, err e) f g = refl

module _ {W : Type 0} {A : Type 0} {B : Type 0} where
  resume_congr :
      (r : W × Result A) (f g : A → M W B)
      → ((a : A) (w : W) → f a w ≡ g a w)
      → resume r f ≡ resume r g
  resume_congr (w, ok a) f g same = same a w
  resume_congr (w, err e) f g same = refl

length-drop_le : {A : Type 0} (n : ℕ) (xs : List A) → length (drop n xs) ≤ length xs
length-drop_le zero xs = omega arith
length-drop_le (suc n) [] = omega arith
length-drop_le (suc n) (x ∷ xs) = omega (arith, length-drop_le n xs)

module _ (b : Store) (env : Env) where
  set_pairs-split :
      (n : ℕ) (ps : List (Bytes × Bytes)) (w : b.World)
      → (set_pairs b env (take n ps) >>= λ _. set_pairs b env (drop n ps)) w ≡ set_pairs b env ps w
  unfolding set_pairs ◌>>=◌
  set_pairs-split zero ps w = refl
  set_pairs-split (suc n) [] w = refl
  set_pairs-split (suc n) ((key, val) ∷ ps) w =
      resume_assoc (set_pair b env (key_pk env key) val w) (λ _. set_pairs b env (take n ps))
        (λ _. set_pairs b env (drop n ps))
      ∙ resume_congr (set_pair b env (key_pk env key) val w)
          (λ _ w1. resume (set_pairs b env (take n ps) w1) (λ _. set_pairs b env (drop n ps)))
          (λ _. set_pairs b env ps) (λ _ w1. set_pairs-split n ps w1)

  -- With a batch for each pair, the batches of MSET do what one loop over all pairs does, on every
  -- store and whatever faults its calls return.
  pub set_batches-set_pairs :
      (n : ℕ) (ps : List (Bytes × Bytes)) (w : b.World)
      → length ps ≤ n
      → set_batches b env n ps w ≡ set_pairs b env ps w
  unfolding set_batches set_pairs ◌>>=◌
  set_batches-set_pairs zero [] w enough = refl
  set_batches-set_pairs zero (p ∷ ps) w enough = absurd (omega arith)
  set_batches-set_pairs (suc n) [] w enough = set_batches-set_pairs n [] w (omega arith)
  set_batches-set_pairs (suc n) (p ∷ ps) w enough =
      resume_congr (set_pairs b env (take mset_batch_keys (p ∷ ps)) w)
        (λ _. set_batches b env n (drop mset_batch_keys (p ∷ ps)))
        (λ _. set_pairs b env (drop mset_batch_keys (p ∷ ps)))
        (λ _ w1.
          set_batches-set_pairs n (drop mset_batch_keys (p ∷ ps)) w1
            (omega (arith, length-drop_le 24 ps)))
      ∙ set_pairs-split mset_batch_keys (p ∷ ps) w
