-- ===== src/Strings/Append.antt =====
-- What APPEND does on every key.
use redimos.Prelude.{ℕ, ◌≡◌, ◌≢◌, ap, ◌∙◌, [], ◌∷◌, ◌++◌, Bytes, length}
use redimos.Prelude.Int.{pos}
use redimos.Reply.{error, int, wrong_type, err_wrong_type, write_store_error}
use redimos.Store.{Store, return, reply_of, reply_to, >>=-eq_ok, >>=-eq_err}
use redimos.Keys.{Env, key_pk}
use redimos.Guard.{check_write}
use redimos.Guard.Limits.{Fits, check_write-Fits}
use redimos.Strings.{live_other, standing, base_of, append_value, handle_append, rmw_string}
use redimos.Strings.Laws.{StringLaws}
use redimos.Strings.Rmw.{Written, rmw_loop_lem, rmw_loop_refused}

module _ (b : Store) (laws : StringLaws b) (env : Env) (name key val : Bytes) (w : b.World) where
  -- APPEND on a key that is not live with another type, with a result within the size limits,
  -- stores the old value (empty for an absent or expired key) followed by the argument, leaves a
  -- live String and every other key as it was, and replies the new length.
  pub handle_append_lem :
      (old : Bytes)
      → standing env.now (b.meta w (key_pk env key)) ≢ live_other
      → base_of b env (standing env.now (b.meta w (key_pk env key)), b.value w (key_pk env key))
        ≡ old
      → Fits key [] ((old ++ val) ∷ [])
      → (w' : b.World) × (handle_append b env (name ∷ key ∷ val ∷ []) w
          ≡ (w', int (pos (length (old ++ val)))))
        × Written b env.now (key_pk env key) (old ++ val) w w'
  unfolding handle_append rmw_string reply_to
  handle_append_lem old fine base fits =
      let next = old ++ val in
      let computed = λ (u : b.World).
        ap (λ x. append_value b env key val x u) base
        ∙ >>=-eq_ok (check_write b key [] (next ∷ [])) (λ (_ : Unit {0}). return next) u u tt
            (check_write-Fits b key [] (next ∷ []) u fits) in
      let (w', ran, written) =
        rmw_loop_lem b laws env (key_pk env key) (append_value b env key val) 48 w next fine
          computed in
      (
        w',
        ap reply_of (
            >>=-eq_ok (rmw_string b env (key_pk env key) (append_value b env key val))
              (λ (n : ℕ). return (int (pos n))) w w' (length next) ran),
        written,
      )

  -- On a live key of another type APPEND replies the wrong-type error and changes nothing.
  pub handle_append_refused :
      standing env.now (b.meta w (key_pk env key)) ≡ live_other
      → handle_append b env (name ∷ key ∷ val ∷ []) w ≡ (w, error err_wrong_type)
  unfolding handle_append rmw_string reply_to write_store_error
  handle_append_refused other = ap reply_of (
      >>=-eq_err (rmw_string b env (key_pk env key) (append_value b env key val))
        (λ (n : ℕ). return (int (pos n))) w w wrong_type
        (rmw_loop_refused b laws env (key_pk env key) (append_value b env key val) 49 w other))
