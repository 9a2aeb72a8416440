-- ===== src/Lib.antt =====
-- Verification of redimos, a server that speaks the Redis 3.2 protocol over items in DynamoDB.
--
-- A command is looked up in a table of names and reaches its handler in internal/command with the connection's selected database. The
-- handler parses its arguments, encodes the key to a partition key, checks sizes, reads the meta
-- item (type, expiry time, member count) and the data items through the `Store` interface, and
-- writes one RESP reply. The development models this path for the key, String, List, Hash
-- and Set commands.
--
-- What models what:
--   Prelude            shared names, Boolean tests, byte strings, lists, integers, int64 wrap-around
--   Args               internal/command/args.go: `ParseInt`
--   Reply              internal/resp/writer.go (replies and error texts) and `writeStoreError` of
--                      internal/command/datacmd.go
--   Store              internal/storage/store.go: `Meta` and the `Store` interface; the step monad
--                      that stands for the checks of `err` after every call
--   Expiry             `IsExpired` of internal/meta/meta.go; the time conversions of
--                      internal/command/keys.go
--   Keyspace           `encodePK` and `decodePK` of internal/command/datacmd.go
--   Keys               internal/command/keys.go: DEL, EXISTS, TOUCH, TYPE, EXPIRE, EXPIREAT, PEXPIRE,
--                      PEXPIREAT, TTL, PTTL, PERSIST; `DeleteMeta` of internal/meta/meta.go
--   Guard              internal/guard/size.go
--   Table              internal/command/table.go and `Dispatch` of internal/command/router.go, with
--                      the error texts of internal/resp/writer.go that it uses
--   Breaker            internal/storage/breaker.go, one call after another
--   Cursors            internal/scan/registry.go, with the clock and the random numbers as arguments
--   Strings            internal/command/strings.go (Strings/Setters and Strings/Many have
--                      SETNX, SETEX, GETSET, the INCR family, MGET, MSET and MSETNX),
--                      internal/command/strings_parse.go, internal/command/strings_rmw.go (APPEND,
--                      SETRANGE and the compare-and-set loop)
--   Collections        internal/command/state.go; `adjustCount`, `rangeResultCount` and
--                      `resultCapExceeded` of internal/command/datacmd.go; `ZNormalizeRankRange` of
--                      internal/storage/store_zsets.go
--   Lists              internal/command/lists.go; Lists/Combined and Lists/Remove have
--                      internal/command/lists2.go
--   Glob               internal/command/glob.go
--   Hashes             internal/command/hashes.go without HSCAN
--   Sets               internal/command/sets.go without SSCAN; Sets/Algebra has the part of
--                      `computeSetAlgebra` that works in memory
--   Samples            a store in memory, and runs of the theorems on it
--
-- A command or method keeps its name (`handleLPush` is `handle_lpush`); a Go function that takes the
-- router takes here the store `b` and the environment `env` (the selected database, the
-- configuration that the handlers read, and the clock). An outcome is the next world of the store
-- beside the reply or the fault. The clock stands still during one command. Byte strings are lists
-- of natural numbers; int64 arithmetic that can wrap goes through `wrap64`.
--
-- The store is a parameter, since its implementation stands on the redimo client and DynamoDB. What
-- the theorems need of it stands in Store/Laws, Strings/Laws, Collections/Laws,
-- Lists/Laws, Hashes/Laws and Sets/Laws, as the comments of the
-- interface document it: calls succeed, one caller at a time, and each changes only the item that it
-- names. Faults are modelled as results of the calls, which the step monad passes on to the reply.
-- The counter of intercepted writes, a process-wide atomic in internal/guard, is a step of the
-- store.
--
-- A hash or a set holds a finite map for a client: a list of distinct names in no promised order
-- (Collections/Entries). Collections/Stored says when a key holds one, Hashes/Spec and
-- Sets/Refinement what a client is promised of it. An absent key holds the empty map only if no
-- items are left under it: DEL removes the meta item and queues the items, and until the lazy
-- deleter has removed them, a write that creates the key again finds them.
--
-- Bounds: the compare-and-set loop has the 50 attempts of `MaxRMWRetries`; with no other writer two
-- suffice. The pattern matcher has one turn for each byte of the pattern and one more, and MSET one
-- batch for each pair, which are proved to be enough. Every other loop is a recursion on a list.
--
-- Not modelled: the network and RESP encoding, metrics, the slow log, the timeouts,
-- concurrent clients, the lazy deleter and the sweeper, the SCAN commands that use
-- the cursors, sorted sets, bit operations, HyperLogLog and geo commands, and floating-point arguments.
pub mod Prelude
pub mod Args
pub mod Reply
pub mod Store
pub mod Expiry
pub mod Keyspace
pub mod Keys
pub mod Guard
pub mod Table
pub mod Strings
pub mod Collections
pub mod Lists
pub mod Breaker
pub mod Cursors
pub mod Glob
pub mod Hashes
pub mod Sets
pub mod Samples
