-- ===== src/Hashes/Spec.antt =====
-- What a hash promises to a client: commands on a finite map. Nothing here knows of counts, types,
-- sort keys or the result of a conditional write.
use redimos.Prelude.{◌-◌, none, some, List, [], ◌∷◌, Bytes, codes, map, length}
use redimos.Prelude.Int.{pos}
use redimos.Reply.{Reply, status, int, opt_bulk_array}
use redimos.Store.Laws.{is_some}
use redimos.Collections.{flag_reply}
use redimos.Collections.Entries.{lookup, put, puts, removes}
use redimos.Hashes.{optional_bulk}
use redimos.Hashes.Laws.{value_length}

-- HSET of one pair, as the command table admits it, HMSET of at least one pair, HMGET and HDEL of at
-- least one field, and the other commands on one key.
pub data Command : Type 0 where
  hmset : Bytes → Bytes → List (Bytes × Bytes) → Command
  hset hset_nx : Bytes → Bytes → Command
  hget hexists hstrlen : Bytes → Command
  hmget hdel : Bytes → List Bytes → Command
  hlen : Command

abbrev pub Map : Type 0
Map = List (Bytes × Bytes)

abbrev pub added_reply : Map → Map → Reply
added_reply old new = int (pos (length new - length old))

unfoldable pub spec : Command → Map → Map × Reply
unfolding lookup put puts removes is_some
spec (Command.hset f v) m = (put f v m, added_reply m (put f v m))
spec (Command.hmset f v ps) m = (puts ((f, v) ∷ ps) m, status (codes "OK"))
spec (Command.hset_nx f v) m = elim (lookup f m) [
  | none ↦ (put f v m, int (pos 1))
  | some old ↦ (m, int (pos 0))
]
spec (Command.hget f) m = (m, optional_bulk (lookup f m))
spec (Command.hexists f) m = (m, flag_reply (is_some (lookup f m)))
spec (Command.hstrlen f) m = (m, int (pos (value_length (lookup f m))))
spec (Command.hmget f fs) m = (m, opt_bulk_array (map (λ g. lookup g m) (f ∷ fs)))
spec (Command.hdel f fs) m =
    (removes (f ∷ fs) m, int (pos (length m - length (removes (f ∷ fs) m))))
spec Command.hlen m = (m, int (pos (length m)))

-- The replies of a history of commands.
unfoldable pub spec_run : List Command → Map → Map × List Reply
unfolding spec
spec_run [] m = (m, [])
spec_run (c ∷ cs) m =
    let (m1, reply) = spec c m in let (m2, replies) = spec_run cs m1 in (m2, reply ∷ replies)
