-- ===== src/Sets/Refinement.antt =====
-- The handlers of one set implement commands on a finite set: a history of them replies what the
-- set replies.
use redimos.Prelude.{◌-◌, ◌≡◌, refl, ap, ◌∙◌, List, [], ◌∷◌, Bytes, codes, length, subst, sym}
use redimos.Prelude.Int.{pos}
use redimos.Reply.{Reply, int}
use redimos.Store.{Store}
use redimos.Store.Laws.{is_some}
use redimos.Keys.{Env, key_pk}
use redimos.Guard.Limits.{Fits, AllWithin}
use redimos.Collections.{flag_reply}
use redimos.Collections.Entries.{lookup, puts, removes}
use redimos.Collections.Stored.{Unmoved-trans}
use redimos.Collections.Storable.{Storable, Storable-puts, Storable-removes}
use redimos.Sets.{handle_sadd, handle_srem, handle_sis_member, handle_scard}
use redimos.Sets.Laws.{SetLaws}
use redimos.Sets.Steps.{
  Members, units, names-units, SetAt, Elsewhere, Leaves, handle_sadd_lem, handle_srem_lem,
  handle_sis_member_lem, handle_scard_lem,
}

-- SADD and SREM of at least one member, SISMEMBER and SCARD on one key.
pub data Command : Type 0 where
  sadd srem : Bytes → List Bytes → Command
  sis_member : Bytes → Command
  scard : Command

unfoldable pub spec : Command → Members → Members × Reply
unfolding lookup puts removes is_some
spec (Command.sadd x xs) m =
    let new = puts (units (x ∷ xs)) m in (new, int (pos (length new - length m)))
spec (Command.srem x xs) m =
    (removes (x ∷ xs) m, int (pos (length m - length (removes (x ∷ xs) m))))
spec (Command.sis_member x) m = (m, flag_reply (is_some (lookup x m)))
spec Command.scard m = (m, int (pos (length m)))

unfoldable pub spec_run : List Command → Members → Members × List Reply
unfolding spec
spec_run [] m = (m, [])
spec_run (c ∷ cs) m =
    let (m1, reply) = spec c m in let (m2, replies) = spec_run cs m1 in (m2, reply ∷ replies)

-- The handler of a command, on the arguments that a client sends for it.
unfoldable pub execute : (b : Store) → Env → Bytes → Command → b.World → b.World × Reply
unfolding handle_sadd handle_srem handle_sis_member handle_scard
execute b env key (Command.sadd x xs) = handle_sadd b env (codes "SADD" ∷ key ∷ x ∷ xs)
execute b env key (Command.srem x xs) = handle_srem b env (codes "SREM" ∷ key ∷ x ∷ xs)
execute b env key (Command.sis_member x) =
    handle_sis_member b env (codes "SISMEMBER" ∷ key ∷ x ∷ [])
execute b env key Command.scard = handle_scard b env (codes "SCARD" ∷ key ∷ [])

unfoldable pub run : (b : Store) → Env → Bytes → List Command → b.World → b.World × List Reply
unfolding execute
run b env key [] w = (w, [])
run b env key (c ∷ cs) w =
    let (w1, reply) = execute b env key c w in
    let (w2, replies) = run b env key cs w1 in (w2, reply ∷ replies)

abbrev pub FitsCommand : Bytes → Command → Type 0
FitsCommand key (Command.sadd x xs) = Fits key (x ∷ xs) []
FitsCommand key _ = Unit

abbrev pub AllFit : Bytes → List Command → Type 0
AllFit key [] = Unit
AllFit key (c ∷ cs) = FitsCommand key c × AllFit key cs

Storable-spec :
    (key : Bytes) (c : Command) (m : Members)
    → FitsCommand key c
    → Storable m
    → Storable (spec c m).0
unfolding spec
Storable-spec key (Command.sadd x xs) m fits s =
    Storable-puts (units (x ∷ xs)) m
      (subst (AllWithin 1023) (sym (names-units (x ∷ xs))) fits.members_fit) s
Storable-spec key (Command.srem x xs) m fits s = Storable-removes (x ∷ xs) m s
Storable-spec key (Command.sis_member x) m fits s = s
Storable-spec key Command.scard m fits s = s

module _ (b : Store) (laws : SetLaws b) (env : Env) (key : Bytes) where
  execute_lem :
      (c : Command) (w : b.World) (m : Members)
      → SetAt b env (key_pk env key) w m
      → Storable m
      → FitsCommand key c
      → Leaves b env (key_pk env key) w (execute b env key c w) (spec c m)
  unfolding execute spec
  execute_lem (Command.sadd x xs) w m held s fits =
      handle_sadd_lem b laws env (codes "SADD") key w m held x xs fits
  execute_lem (Command.srem x xs) w m held s fits =
      handle_srem_lem b laws env (codes "SREM") key w m held (x ∷ xs) s
  execute_lem (Command.sis_member x) w m held s fits =
      handle_sis_member_lem b laws env (codes "SISMEMBER") key w m held x s
  execute_lem Command.scard w m held s fits =
      handle_scard_lem b laws env (codes "SCARD") key w m held

  -- A history of SADD, SREM, SISMEMBER and SCARD on one key at one clock reading, so that no expiry
  -- time comes during it, and whose writes fit the limits, replies command by command what the same
  -- history on a finite set replies, and leaves under the key the set that it leaves; no other key
  -- changes. It starts from any set of storable members that the key holds: the members of a live
  -- set, and the empty set for an expired key or for an absent key under which no member items are
  -- left.
  pub set_run_refines :
      (cs : List Command) (w : b.World) (m : Members)
      → SetAt b env (key_pk env key) w m
      → Storable m
      → AllFit key cs
      → (w' : b.World) × (run b env key cs w ≡ (w', (spec_run cs m).1))
        × SetAt b env (key_pk env key) w' (spec_run cs m).0
        × Elsewhere b (key_pk env key) w w'
  unfolding run spec_run
  set_run_refines [] w m held s fits =
      (w, refl, held, record { metas = λ j ne. refl; views = λ j ne. refl })
  set_run_refines (c ∷ cs) w m held s (fits, rest) =
      let (w1, ran, held1, before) = execute_lem c w m held s fits in
      let (w2, runs, held2, after) =
        set_run_refines cs w1 (spec c m).0 held1 (Storable-spec key c m fits s) rest in
      (
        w2,
        ap (λ r. ((run b env key cs r.0).0, r.1 ∷ (run b env key cs r.0).1)) ran
            ∙ ap (λ r. (r.0, (spec c m).1 ∷ r.1)) runs,
        held2,
        Unmoved-trans before after,
      )
