-- ===== src/Lists/Pop.antt =====
-- LPOP and RPOP keep the count, and remove the key with its last element.
use redimos.Prelude.{
  ℕ, suc, ◌≡◌, ◌≢◌, inl, inr, Option-cases, refl, ap, sym, ◌∙◌, true, false, Option, none, some,
  List, [], ◌∷◌, Bytes, if◌then◌else◌, length, bytes_eq, bytes_eq_self, arith,
}
use redimos.Prelude.Int.{ℤ, pos, negsuc, ◌+ℤ◌, leb_ℤ}
use redimos.Reply.{bulk, ok}
use redimos.Store.{Store, Meta, M, return, reply_of, reply_to, >>=-eq_ok, >>=-eq_result, type_list}
use redimos.Expiry.{is_expired}
use redimos.Keys.{Env, key_pk}
use redimos.Collections.{live, classify, load_meta_state, adjust_count}
use redimos.Lists.{pop_common, pop_live, popped, handle_lpop, handle_rpop}
use redimos.Lists.Laws.{ListLaws, PopLaws, first_of, last_of, taken, left}
use redimos.Lists.Counts.{Counted, Kept}
use redimos.Collections.Counts.{adjust_lem}

-- A live list that counts its elements.
pub record LiveList (b : Store) (now : ℤ) (pk : Bytes) (m : Meta) (w : b.World) : Type 0 where
  pub meta_is : b.meta w pk ≡ some m
  pub type_is : m.type ≡ type_list
  pub alive : is_expired m now ≡ false
  pub count_is : m.count ≡ pos (length (b.elements w pk))

-- What a pop leaves: the other elements, counted, and no meta item if there is none.
pub record Popped (b : Store) (now : ℤ) (pk : Bytes) (m : Meta) (rest : List Bytes) (w w' : b.World)
    : Type 0 where
  pub elements_are : b.elements w' pk ≡ rest
  pub meta_is : b.meta w' pk ≡ (
      if leb_ℤ (pos (length rest)) (pos 0)
      then none
      else some (record m { count = pos (length rest) }))
  pub counted : Counted now (b.meta w' pk) (b.elements w' pk)
  pub kept : Kept b pk w w'

classify-live :
    (now : ℤ) (m : Meta)
    → is_expired m now ≡ false
    → m.type ≡ type_list
    → classify now type_list (some m) ≡ live m
unfolding classify
classify-live now m alive typed =
    let same : bytes_eq m.type type_list ≡ true = rw typed (bytes_eq_self type_list) in
    rw (alive, same)

one_less : (n : ℕ) → pos (suc n) +ℤ negsuc 0 ≡ pos n
unfolding ◌+ℤ◌
one_less n = ground arith

Counted-rest :
    (now : ℤ) (m : Meta) (rest : List Bytes)
    → Counted now
        (if leb_ℤ (pos (length rest)) (pos 0)
          then none
          else some (record m { count = pos (length rest) }))
        rest
Counted-rest now m [] = refl
Counted-rest now m (x ∷ rest) =
    let more : leb_ℤ (pos (length (x ∷ rest))) (pos 0) ≡ false = ground arith in rw more (λ _. refl)

last_of-eq-none : (xs : List Bytes) → last_of xs ≡ none → length xs ≡ 0
unfolding last_of
last_of-eq-none [] h = refl
last_of-eq-none (x ∷ xs) h = ground arith

last_of-cons :
    (y z : Bytes) (ys zs : List Bytes)
    → last_of ys ≡ some (z, zs)
    → last_of (y ∷ ys) ≡ some (z, y ∷ zs)
unfolding last_of
last_of-cons y z ys zs e = rw e

last_of-single : (y : Bytes) (ys : List Bytes) → last_of ys ≡ none → last_of (y ∷ ys) ≡ some (y, [])
unfolding last_of
last_of-single y ys e = rw e

length-last_of :
    (xs : List Bytes) (x : Bytes) (rest : List Bytes)
    → last_of xs ≡ some (x, rest)
    → length xs ≡ suc (length rest)
length-last_of [] x rest h = absurd (no_last x rest h)
  where
    no_last : (x : Bytes) (rest : List Bytes) → last_of [] ≢ some (x, rest)
    no_last x rest e = unfold last_of in ground arith
length-last_of (y ∷ ys) x rest h = elim (Option-cases (last_of ys)) [
  | inl nothing ↦
      let empty = last_of-eq-none ys nothing in
      let single = sym (last_of-single y ys nothing) ∙ h in ground arith
  | inr ((z, zs), e) ↦
      let ih = length-last_of ys z zs e in
      let longer = sym (last_of-cons y z ys zs e) ∙ h in ground arith
]

length-first_of :
    (xs : List Bytes) (x : Bytes) (rest : List Bytes)
    → first_of xs ≡ some (x, rest)
    → length xs ≡ suc (length rest)
unfolding first_of
length-first_of [] x rest h = ground arith
length-first_of (y ∷ ys) x rest h = ground arith

module _ (b : Store) (laws : ListLaws b) (env : Env) (pop : Bytes → M b.World (Option Bytes))
    (view : List Bytes → Option (Bytes × List Bytes)) (pops : PopLaws b pop view)
    (sizes : (xs : List Bytes) (x : Bytes) (rest : List Bytes)
      → view xs ≡ some (x, rest)
      → length xs ≡ suc (length rest)) where
  pop_common_lem :
      (name key x : Bytes) (rest : List Bytes) (m : Meta) (w : b.World)
      → LiveList b env.now (key_pk env key) m w
      → view (b.elements w (key_pk env key)) ≡ some (x, rest)
      → (w' : b.World) × (pop_common b env pop (name ∷ key ∷ []) w ≡ (w', bulk x))
        × Popped b env.now (key_pk env key) m rest w w'
  unfolding pop_common load_meta_state reply_to
  pop_common_lem name key x rest m w list seen =
      let pk = key_pk env key in
      let w1 = (pop pk w).0 in
      let state : load_meta_state b env pk type_list w ≡ (w, ok (live m)) =
        >>=-eq_ok (b.load_meta pk)
          (λ (found : Option Meta). return (classify env.now type_list found)) w w (b.meta w pk)
          (laws.counts.strings.metas.load_meta_lem pk w)
        ∙ ap (λ o. (w, ok (classify env.now type_list o))) list.meta_is
        ∙ ap (λ s. (w, ok s)) (classify-live env.now m list.alive list.type_is) in
      let meta1 : b.meta w1 pk ≡ some m = pops.metas pk pk w ∙ list.meta_is in
      let count : m.count ≡ pos (suc (length rest)) =
        list.count_is ∙ ap pos (sizes (b.elements w pk) x rest seen) in
      let less : m.count +ℤ negsuc 0 ≡ pos (length rest) =
        ap (λ c. c +ℤ negsuc 0) count ∙ one_less (length rest) in
      let (w2, ran, adjusted) =
        adjust_lem b laws.counts env (List Bytes) [] b.elements laws.view pk type_list w1 m
          (negsuc 0) (length rest) meta1 list.type_is less (λ h. ground arith) in
      let found : (pop pk w).1 ≡ ok (some x) = pops.result pk w ∙ ap (λ v. ok (taken v)) seen in
      let list_is : b.elements w2 pk ≡ rest =
        adjusted.views pk ∙ pops.elements pk pk w ∙ rw (bytes_eq_self pk) (ap left seen) in
      (
        w2,
        ap reply_of (
            >>=-eq_ok (load_meta_state b env pk type_list) (pop_live b env pop pk) w w (live m)
              state
            ∙ >>=-eq_result (pop pk) (popped b env pk) w (some x) found
            ∙ >>=-eq_ok (adjust_count b env pk type_list (negsuc 0))
                (λ (_ : Unit {0}). return (bulk x)) w1 w2 tt ran),
        record {
          elements_are = list_is;
          meta_is = adjusted.meta_is;
          counted = rw (adjusted.meta_is, list_is) (Counted-rest env.now m rest);
          kept = record {
            metas = λ j ne. adjusted.metas j ne ∙ pops.metas pk j w;
            lists = λ j ne. adjusted.views j ∙ pops.elements pk j w ∙ rw ne;
          };
        },
      )

module _ (b : Store) (laws : ListLaws b) (env : Env) (name key x : Bytes) (rest : List Bytes)
    (m : Meta) (w : b.World) where
  -- LPOP on a live list with an exact count and a first element replies that element, leaves the
  -- others with an exact count, removes the meta item exactly if there is no other, and changes
  -- no other key.
  pub handle_lpop_lem :
      LiveList b env.now (key_pk env key) m w
      → first_of (b.elements w (key_pk env key)) ≡ some (x, rest)
      → (w' : b.World) × (handle_lpop b env (name ∷ key ∷ []) w ≡ (w', bulk x))
        × Popped b env.now (key_pk env key) m rest w w'
  unfolding handle_lpop
  handle_lpop_lem =
      pop_common_lem b laws env b.lpop first_of laws.lpop_laws length-first_of name key x rest m w

  -- RPOP on a live list with an exact count and a last element replies that element, leaves the
  -- others with an exact count, removes the meta item exactly if there is no other, and changes no
  -- other key.
  pub handle_rpop_lem :
      LiveList b env.now (key_pk env key) m w
      → last_of (b.elements w (key_pk env key)) ≡ some (x, rest)
      → (w' : b.World) × (handle_rpop b env (name ∷ key ∷ []) w ≡ (w', bulk x))
        × Popped b env.now (key_pk env key) m rest w w'
  unfolding handle_rpop
  handle_rpop_lem =
      pop_common_lem b laws env b.rpop last_of laws.rpop_laws length-last_of name key x rest m w
