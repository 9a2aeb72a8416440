-- ===== src/Hashes/Refinement.antt =====
-- The Hash handlers implement commands on a finite map: a history of them replies what the map
-- replies.
use redimos.Prelude.{
  ◌≡◌, refl, ap, ◌∙◌, Option-cases, inl, inr, Option, List, [], ◌∷◌, Bytes, codes,
}
use redimos.Reply.{Reply}
use redimos.Store.{Store}
use redimos.Keys.{Env, key_pk}
use redimos.Guard.Limits.{Fits}
use redimos.Collections.Entries.{names, lookup, puts}
use redimos.Collections.Stored.{Unmoved, Unmoved-trans}
use redimos.Collections.Storable.{Storable, Storable-puts, Storable-removes}
use redimos.Hashes.{
  interleaved, handle_hset, handle_hmset, handle_hset_nx, handle_hget, handle_hexists,
  handle_hstrlen, handle_hmget, handle_hdel, handle_hlen,
}
use redimos.Hashes.Laws.{HashLaws}
use redimos.Hashes.Pairs.{values}
use redimos.Hashes.Spec.{Command, Map, spec, spec_run}
use redimos.Hashes.Steps.{
  HashAt, Leaves, handle_hset_lem, handle_hmset_lem, handle_hset_nx_lem, handle_hdel_lem,
}
use redimos.Hashes.Reads.{
  handle_hget_lem, handle_hexists_lem, handle_hstrlen_lem, handle_hmget_lem, handle_hlen_lem,
}

-- The handler of a command, on the arguments that a client sends for it.
unfoldable pub execute : (b : Store) → Env → Bytes → Command → b.World → b.World × Reply
unfolding handle_hset handle_hmset handle_hset_nx handle_hget handle_hexists handle_hstrlen
    handle_hmget handle_hdel handle_hlen interleaved
execute b env key (Command.hset f v) = handle_hset b env (codes "HSET" ∷ key ∷ f ∷ v ∷ [])
execute b env key (Command.hmset f v ps) =
    handle_hmset b env (codes "HMSET" ∷ key ∷ interleaved ((f, v) ∷ ps))
execute b env key (Command.hset_nx f v) = handle_hset_nx b env (codes "HSETNX" ∷ key ∷ f ∷ v ∷ [])
execute b env key (Command.hget f) = handle_hget b env (codes "HGET" ∷ key ∷ f ∷ [])
execute b env key (Command.hexists f) = handle_hexists b env (codes "HEXISTS" ∷ key ∷ f ∷ [])
execute b env key (Command.hstrlen f) = handle_hstrlen b env (codes "HSTRLEN" ∷ key ∷ f ∷ [])
execute b env key (Command.hmget f fs) = handle_hmget b env (codes "HMGET" ∷ key ∷ f ∷ fs)
execute b env key (Command.hdel f fs) = handle_hdel b env (codes "HDEL" ∷ key ∷ f ∷ fs)
execute b env key Command.hlen = handle_hlen b env (codes "HLEN" ∷ key ∷ [])

unfoldable pub run : (b : Store) → Env → Bytes → List Command → b.World → b.World × List Reply
unfolding execute
run b env key [] w = (w, [])
run b env key (c ∷ cs) w =
    let (w1, reply) = execute b env key c w in
    let (w2, replies) = run b env key cs w1 in (w2, reply ∷ replies)

-- The writes of a command are within the size limits.
abbrev pub FitsCommand : Bytes → Command → Type 0
FitsCommand key (Command.hset f v) = Fits key (f ∷ []) (v ∷ [])
FitsCommand key (Command.hmset f v ps) = Fits key (names ((f, v) ∷ ps)) (values ((f, v) ∷ ps))
FitsCommand key (Command.hset_nx f v) = Fits key (f ∷ []) (v ∷ [])
FitsCommand key _ = Unit

abbrev pub AllFit : Bytes → List Command → Type 0
AllFit key [] = Unit
AllFit key (c ∷ cs) = FitsCommand key c × AllFit key cs

Storable-spec :
    (key : Bytes) (c : Command) (m : Map) → FitsCommand key c → Storable m → Storable (spec c m).0
unfolding spec puts
Storable-spec key (Command.hset f v) m fits s = Storable-puts ((f, v) ∷ []) m fits.members_fit s
Storable-spec key (Command.hmset f v ps) m fits s = Storable-puts ((f, v) ∷ ps) m fits.members_fit s
Storable-spec key (Command.hset_nx f v) m fits s = elim (Option-cases (lookup f m)) [
  | inl missing ↦ rw (missing, spec) (Storable-puts ((f, v) ∷ []) m fits.members_fit s)
  | inr (old, there) ↦ rw (there, spec) s
]
Storable-spec key (Command.hget f) m fits s = s
Storable-spec key (Command.hexists f) m fits s = s
Storable-spec key (Command.hstrlen f) m fits s = s
Storable-spec key (Command.hmget f fs) m fits s = s
Storable-spec key (Command.hdel f fs) m fits s = Storable-removes (f ∷ fs) m s
Storable-spec key Command.hlen m fits s = s

module _ (b : Store) (laws : HashLaws b) (env : Env) (key : Bytes) where
  execute_lem :
      (c : Command) (w : b.World) (m : Map)
      → HashAt b env (key_pk env key) w m
      → Storable m
      → FitsCommand key c
      → Leaves b env (key_pk env key) w (execute b env key c w) (spec c m)
  unfolding execute spec puts interleaved
  execute_lem (Command.hset f v) w m held s fits =
      handle_hset_lem b laws env (codes "HSET") key w m held f v [] fits
  execute_lem (Command.hmset f v ps) w m held s fits =
      handle_hmset_lem b laws env (codes "HMSET") key w m held f v ps fits
  execute_lem (Command.hset_nx f v) w m held s fits =
      handle_hset_nx_lem b laws env (codes "HSETNX") key w m held f v fits
  execute_lem (Command.hget f) w m held s fits =
      handle_hget_lem b laws env (codes "HGET") key w m held f s
  execute_lem (Command.hexists f) w m held s fits =
      handle_hexists_lem b laws env (codes "HEXISTS") key w m held f s
  execute_lem (Command.hstrlen f) w m held s fits =
      handle_hstrlen_lem b laws env (codes "HSTRLEN") key w m held f s
  execute_lem (Command.hmget f fs) w m held s fits =
      handle_hmget_lem b laws env (codes "HMGET") key w m held (f ∷ fs) s
  execute_lem (Command.hdel f fs) w m held s fits =
      handle_hdel_lem b laws env (codes "HDEL") key w m held (f ∷ fs) s
  execute_lem Command.hlen w m held s fits = handle_hlen_lem b laws env (codes "HLEN") key w m held

  -- A history of HSET, HMSET, HSETNX, HGET, HMGET, HEXISTS, HSTRLEN, HLEN and HDEL on one key at
  -- one clock reading, so that no expiry time comes during it, and whose writes fit the limits,
  -- replies command by command what the same history on a finite map replies, and leaves under the
  -- key the map that it leaves; no other key changes. It starts from any map of storable names that
  -- the key holds: the fields of a live hash, and the empty map for an expired key or for an absent
  -- key under which no field items are left.
  pub run_refines :
      (cs : List Command) (w : b.World) (m : Map)
      → HashAt b env (key_pk env key) w m
      → Storable m
      → AllFit key cs
      → (w' : b.World) × (run b env key cs w ≡ (w', (spec_run cs m).1))
        × HashAt b env (key_pk env key) w' (spec_run cs m).0
        × Unmoved b (Bytes → Option Bytes) b.field (key_pk env key) w w'
  unfolding run spec_run
  run_refines [] w m held s fits =
      (w, refl, held, record { metas = λ j ne. refl; views = λ j ne. refl })
  run_refines (c ∷ cs) w m held s (fits, rest) =
      let (w1, ran, held1, before) = execute_lem c w m held s fits in
      let (w2, runs, held2, after) =
        run_refines cs w1 (spec c m).0 held1 (Storable-spec key c m fits s) rest in
      (
        w2,
        ap (λ r. ((run b env key cs r.0).0, r.1 ∷ (run b env key cs r.0).1)) ran
            ∙ ap (λ r. (r.0, (spec c m).1 ∷ r.1)) runs,
        held2,
        Unmoved-trans before after,
      )
