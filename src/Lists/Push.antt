-- ===== src/Lists/Push.antt =====
-- LPUSH and RPUSH keep the count and reply it.
use redimos.Prelude.{
  ℕ, ◌+◌, ◌<◌, ◌≡◌, ◌≢◌, refl, ap, sym, ◌∙◌, Bool, true, false, ◌&&◌, Option, some, List, [], ◌∷◌,
  ◌++◌, Bytes, if◌then◌else◌, length, length-append, bytes_eq, bytes_eq_self, arith,
}
use redimos.Prelude.Int.{ℤ, pos, ◌+ℤ◌, leb_ℤ}
use redimos.Reply.{int, ok}
use redimos.Store.{Store, Meta, M, return, reply_of, reply_to, >>=-eq_ok, >>=-eq_result, type_list}
use redimos.Expiry.{is_expired}
use redimos.Keys.{Env, key_pk, is_live}
use redimos.Guard.{check_write}
use redimos.Guard.Limits.{Fits, check_write-Fits}
use redimos.Strings.{ensure_type_expiring}
use redimos.Strings.Ensure.{ensure_lem, view-ensure_lem}
use redimos.Collections.{other_type, classify, adjust_count}
use redimos.Lists.{push_common, push_step, count_reply, handle_lpush, handle_rpush}
use redimos.Lists.Laws.{ListLaws, PushLaws, pushed_front}
use redimos.Lists.Counts.{Counted, contents, open_list, Kept}
use redimos.Collections.Counts.{adjust_lem}

-- What a push leaves: the new elements under a live list that counts them.
pub record Pushed (b : Store) (now : ℤ) (pk : Bytes) (new : List Bytes) (w w' : b.World)
    : Type 0 where
  pub elements_are : b.elements w' pk ≡ new
  pub live : is_live now (b.meta w' pk) ≡ true
  pub counted : Counted now (b.meta w' pk) (b.elements w' pk)
  pub kept : Kept b pk w w'

add_counts : (m n k : ℕ) → k ≡ m + n → pos n +ℤ pos m ≡ pos k
unfolding ◌+ℤ◌
add_counts m n k h = ground arith

live_counted :
    (now : ℤ) (m : Meta) (c : ℤ)
    → is_expired m now ≡ false
    → is_live now (some (record m { count = c })) ≡ true
unfolding is_live is_expired
live_counted now m c h = ground arith

length-pushed_front : (xs old : List Bytes) → length (pushed_front xs old) ≡ length xs + length old
unfolding pushed_front
length-pushed_front [] old = omega arith
length-pushed_front (x ∷ xs) old = omega (arith, length-pushed_front xs (x ∷ old))

module _ (b : Store) (laws : ListLaws b) (env : Env) (push : Bytes → List Bytes → M b.World ℕ)
    (f : List Bytes → List Bytes → List Bytes) (pushes : PushLaws b push f)
    (sizes : (xs old : List Bytes) → length (f xs old) ≡ length xs + length old) where
  push_common_lem :
      (pk : Bytes) (elements old : List Bytes) (w : b.World) (m : Meta)
      → b.elements w pk ≡ old
      → b.meta w pk ≡ some m
      → m.type ≡ type_list
      → is_expired m env.now ≡ false
      → m.count ≡ pos (length old)
      → 0 < length elements
      → (w' : b.World) × (push_common b env push pk elements w
          ≡ (w', ok (int (pos (length (f elements old))))))
        × Pushed b env.now pk (f elements old) w w'
  unfolding push_common
  push_common_lem pk elements old w m same held typed alive count some_new =
      let w1 = (push pk elements w).0 in
      let held1 : b.meta w1 pk ≡ some m = pushes.metas pk pk elements w ∙ held in
      let total : m.count +ℤ pos (length elements) ≡ pos (length (f elements old)) =
        ap (λ c. c +ℤ pos (length elements)) count
        ∙ add_counts (length elements) (length old) (length (f elements old))
            (sizes elements old) in
      let (w2, ran, adjusted) =
        adjust_lem b laws.counts env (List Bytes) [] b.elements laws.view pk type_list w1 m
          (pos (length elements)) (length (f elements old)) held1 typed total
          (λ _. omega (arith, sizes elements old)) in
      let more : leb_ℤ (pos (length (f elements old))) (pos 0) ≡ false =
        ground (arith, sizes elements old) in
      let meta_is : b.meta w2 pk ≡ some (record m { count = pos (length (f elements old)) }) =
        adjusted.meta_is ∙ rw more in
      let list_is : b.elements w2 pk ≡ f elements old =
        adjusted.views pk ∙ pushes.elements pk pk elements w ∙ rw (bytes_eq_self pk, same) in
      (
        w2,
        >>=-eq_result (push pk elements) _ w (length elements) (pushes.result pk elements w)
            ∙ >>=-eq_ok (adjust_count b env pk type_list (pos (length elements))) _ w1 w2 tt ran
            ∙ >>=-eq_ok (b.load_meta pk) (λ (o : Option Meta). return (count_reply b env o)) w2 w2
                (b.meta w2 pk) (laws.counts.strings.metas.load_meta_lem pk w2)
            ∙ ap (λ o. (w2, ok (count_reply b env o))) meta_is,
        record {
          elements_are = list_is;
          live =
              ap (is_live env.now) meta_is
              ∙ live_counted env.now m (pos (length (f elements old))) alive;
          counted = rw (meta_is, list_is) (λ _. refl);
          kept = record {
            metas = λ j ne. adjusted.metas j ne ∙ pushes.metas pk j elements w;
            lists = λ j ne. adjusted.views j ∙ pushes.elements pk j elements w ∙ rw ne;
          };
        },
      )

  -- A push of at least one element that fits, on a key that is not live with another type.
  push_step_lem :
      (name key : Bytes) (x : Bytes) (xs : List Bytes) (w : b.World)
      → classify env.now type_list (b.meta w (key_pk env key)) ≢ other_type
      → Counted env.now (b.meta w (key_pk env key)) (b.elements w (key_pk env key))
      → Fits key [] (x ∷ xs)
      → (old : List Bytes)
      → old ≡ contents env.now (b.meta w (key_pk env key)) (b.elements w (key_pk env key))
      → (w' : b.World) × (push_step b env push key (x ∷ xs) w
          ≡ (w', ok (int (pos (length (f (x ∷ xs) old))))))
        × Pushed b env.now (key_pk env key) (f (x ∷ xs) old) w w'
  unfolding push_step
  push_step_lem name key x xs w fine counted fits old seen =
      let pk = key_pk env key in
      let (m, took, opened) = open_list env.now (b.meta w pk) (b.elements w pk) fine counted in
      let (w1, typed, e) = ensure_lem b laws.counts.strings env pk type_list w m took opened.ran in
      let lists =
        view-ensure_lem b laws.counts.strings env pk type_list w (List Bytes) [] b.elements
          laws.view m took opened.ran w1 typed in
      let list1 : b.elements w1 pk ≡ old =
        lists pk ∙ only_took took pk ∙ opened.rest_is ∙ sym seen in
      let meta1 : b.meta w1 pk ≡ some m = e.metas pk ∙ rw (bytes_eq_self pk) in
      let (w', ran, pushed) =
        push_common_lem pk (x ∷ xs) old w1 m list1 meta1 opened.type_is opened.alive
          (opened.count_is ∙ ap (λ l. pos (length l)) (sym seen)) (omega arith) in
      (
        w',
        >>=-eq_ok (ensure_type_expiring b env pk type_list) _ w w1 tt typed
            ∙ >>=-eq_ok (check_write b key [] (x ∷ xs)) _ w1 w1 tt
                (check_write-Fits b key [] (x ∷ xs) w1 fits)
            ∙ ran,
        record {
          elements_are = pushed.elements_are;
          live = pushed.live;
          counted = pushed.counted;
          kept = record {
            metas = λ j ne. pushed.kept.metas j ne ∙ e.metas j ∙ rw ne;
            lists = λ j ne. pushed.kept.lists j ne ∙ lists j ∙ other_key took pk j ne;
          };
        },
      )
    where
      only_took :
          (took : Bool) (pk : Bytes)
          → (if took && bytes_eq pk pk then [] else b.elements w pk)
            ≡ (if took then [] else b.elements w pk)
      only_took true pk = rw (bytes_eq_self pk)
      only_took false pk = refl

      other_key :
          (took : Bool) (pk j : Bytes)
          → bytes_eq pk j ≡ false
          → (if took && bytes_eq pk j then [] else b.elements w j) ≡ b.elements w j
      other_key true pk j ne = rw ne
      other_key false pk j ne = refl

module _ (b : Store) (laws : ListLaws b) (env : Env) (name key x : Bytes) (xs : List Bytes)
    (w : b.World) where
  -- LPUSH of elements that fit, on a key whose name fits and that is not live with another type and
  -- whose count is exact, puts them before the list that a live key has (each before the ones
  -- pushed so far), keeps the count exact, replies the new length and changes no other key.
  pub handle_lpush_lem :
      classify env.now type_list (b.meta w (key_pk env key)) ≢ other_type
      → Counted env.now (b.meta w (key_pk env key)) (b.elements w (key_pk env key))
      → Fits key [] (x ∷ xs)
      → (old : List Bytes)
      → old ≡ contents env.now (b.meta w (key_pk env key)) (b.elements w (key_pk env key))
      → (w' : b.World) × (handle_lpush b env (name ∷ key ∷ x ∷ xs) w
          ≡ (w', int (pos (length (pushed_front (x ∷ xs) old)))))
        × Pushed b env.now (key_pk env key) (pushed_front (x ∷ xs) old) w w'
  unfolding handle_lpush reply_to
  handle_lpush_lem fine counted fits old seen =
      let (w', ran, pushed) =
        push_step_lem b laws env b.lpush pushed_front laws.lpush_laws length-pushed_front name key x
          xs w fine counted fits old seen in
      (w', ap reply_of ran, pushed)

  -- RPUSH of elements that fit, on a key whose name fits and that is not live with another type and
  -- whose count is exact, puts them in order after the list that a live key has, keeps the count
  -- exact, replies the new length and changes no other key.
  pub handle_rpush_lem :
      classify env.now type_list (b.meta w (key_pk env key)) ≢ other_type
      → Counted env.now (b.meta w (key_pk env key)) (b.elements w (key_pk env key))
      → Fits key [] (x ∷ xs)
      → (old : List Bytes)
      → old ≡ contents env.now (b.meta w (key_pk env key)) (b.elements w (key_pk env key))
      → (w' : b.World) × (handle_rpush b env (name ∷ key ∷ x ∷ xs) w
          ≡ (w', int (pos (length (old ++ x ∷ xs)))))
        × Pushed b env.now (key_pk env key) (old ++ x ∷ xs) w w'
  unfolding handle_rpush reply_to
  handle_rpush_lem fine counted fits old seen =
      let sizes = λ (ys : List Bytes) (o : List Bytes). appended ys o in
      let (w', ran, pushed) =
        push_step_lem b laws env b.rpush (λ ys o. o ++ ys) laws.rpush_laws sizes name key x xs w
          fine counted fits old seen in
      (w', ap reply_of ran, pushed)
    where
      appended : (ys o : List Bytes) → length (o ++ ys) ≡ length ys + length o
      appended ys o = omega (arith, length-append o ys)
