-- ===== src/Store.antt =====
-- The storage seam: `Meta` and the `Store` interface of internal/storage/store.go, as far as the
-- modelled commands call it. The implementation stands on the redimo client and DynamoDB, so it
-- is a parameter: a world, the operations on it, and what can be observed of a world.
pub mod Laws
use redimos.Prelude.{ℕ, ◌≡◌, ap, Bool, true, false, Option, none, some, List, Bytes, codes}
use redimos.Prelude.Int.{ℤ}
use redimos.Reply.{Reply, Fault, Result, ok, err, write_store_error}

-- `Meta`: the attributes t, exp (epoch seconds, 0 for never) and cnt of a key's meta item.
pub record Meta : Type 0 where
  pub type : Bytes
  pub exp : ℤ
  pub count : ℤ

abbrev pub type_string : Bytes
type_string = codes "str"

abbrev pub type_hash : Bytes
type_hash = codes "hash"

abbrev pub type_list : Bytes
type_list = codes "list"

abbrev pub type_set : Bytes
type_set = codes "set"

abbrev pub type_zset : Bytes
type_zset = codes "zset"

-- The methods of `Store` by partition key. Each takes the world and returns the next one beside
-- its result or a fault. `enqueue` is the `DeletionEnqueuer` of internal/meta/meta.go.
pub record Store : Type 1 where
  pub World : Type 0
  -- float64, and `ParseFloat` over strconv.
  pub Float : Type 0
  pub parse_float : Bytes → Option Float
  pub load_meta : Bytes → World → World × Result (Option Meta)
  pub ensure_type : Bytes → Bytes → ℤ → World → World × Result ℤ
  pub ensure_type_expiring : Bytes → Bytes → ℤ → ℤ → World → World × Result (ℤ × Bool)
  pub create_type_if_absent : Bytes → Bytes → ℤ → ℤ → World → World × Result Bool
  pub set_expire : Bytes → ℤ → World → World × Result Bool
  pub persist : Bytes → World → World × Result Bool
  pub delete_meta : Bytes → World → World × Result Bool
  pub delete_meta_if_empty : Bytes → World → World × Result Bool
  pub delete_members : Bytes → World → World × Result ℕ
  pub enqueue : Bytes → World → World
  -- The interception counter of internal/guard, which the process keeps beside the items.
  pub add_interception : World → World
  pub get_string : Bytes → World → World × Result (Option Bytes)
  pub set_string : Bytes → Bytes → World → World × Result (Unit {0})
  pub set_string_if_equals : Bytes → Bytes → Bytes → Bool → World → World × Result Bool
  pub lpush : Bytes → List Bytes → World → World × Result ℕ
  pub rpush : Bytes → List Bytes → World → World × Result ℕ
  pub lpop : Bytes → World → World × Result (Option Bytes)
  pub rpop : Bytes → World → World × Result (Option Bytes)
  pub lrange : Bytes → ℤ → ℤ → World → World × Result (List Bytes)
  pub lindex : Bytes → ℤ → World → World × Result (Option Bytes)
  pub lrange_all : Bytes → World → World × Result (List Bytes)
  pub lreplace_all : Bytes → List Bytes → World → World × Result ℕ
  pub get_set_string : Bytes → Bytes → World → World × Result (Option Bytes)
  pub mget_strings : List Bytes → World → World × Result (List (Bytes × Bytes))
  pub incr_by : Bytes → ℤ → World → World × Result ℤ
  pub incr_by_float : Bytes → Float → World → World × Result Bytes
  pub hset : Bytes → List (Bytes × Bytes) → World → World × Result ℕ
  pub hset_nx : Bytes → Bytes → Bytes → World → World × Result Bool
  pub hget : Bytes → Bytes → World → World × Result (Option Bytes)
  pub hmget : Bytes → List Bytes → World → World × Result (List (Bytes × Bytes))
  pub hget_all : Bytes → World → World × Result (List (Bytes × Bytes))
  pub hkeys : Bytes → World → World × Result (List Bytes)
  pub hvals : Bytes → World → World × Result (List Bytes)
  pub hdel : Bytes → List Bytes → World → World × Result ℕ
  pub hexists : Bytes → Bytes → World → World × Result Bool
  pub hstrlen : Bytes → Bytes → World → World × Result ℕ
  pub hincr_by : Bytes → Bytes → ℤ → World → World × Result (ℤ × Bool)
  pub hincr_by_float : Bytes → Bytes → Float → World → World × Result (Bytes × Bool)
  pub sadd : Bytes → List Bytes → World → World × Result ℕ
  pub srem : Bytes → List Bytes → World → World × Result ℕ
  pub sis_member : Bytes → Bytes → World → World × Result Bool
  pub smembers : Bytes → World → World × Result (List Bytes)
  pub spop : Bytes → ℤ → World → World × Result (List Bytes)
  pub srand_member : Bytes → ℤ → World → World × Result (List Bytes)
  -- What a world holds under a partition key: the meta item, the String value item, the list
  -- elements from head to tail, the value of each hash field, whether a set member is there; and
  -- the keys handed to the lazy deleter, last first.
  pub meta : World → Bytes → Option Meta
  pub value : World → Bytes → Option Bytes
  pub elements : World → Bytes → List Bytes
  pub field : World → Bytes → Bytes → Option Bytes
  pub member : World → Bytes → Bytes → Option (Unit {0})
  pub queue : World → List Bytes

-- A step of a handler: `if err != nil { return …, err }` after every call is the bind.
abbrev pub M {ℓ} : Type 0 → Type ℓ → Type ℓ
M W A = W → W × Result A

-- What follows a call: the rest on success, and nothing more after a fault.
abbrev pub resume {ℓ κ} :
    {W : Type 0} {A : Type ℓ} {B : Type κ} → W × Result A → (A → M W B) → W × Result B
resume (w, ok a) f = f a w
resume (w, err e) f = (w, err e)

infixl 5 ◌>>=◌ ◌>>◌
unfoldable pub ◌>>=◌ {ℓ κ} : {W : Type 0} {A : Type ℓ} {B : Type κ} → M W A → (A → M W B) → M W B
◌>>=◌ m f w = resume (m w) f

abbrev pub ◌>>◌ {ℓ κ} : {W : Type 0} {A : Type ℓ} {B : Type κ} → M W A → M W B → M W B
m >> k = m >>= λ _. k

abbrev pub return {ℓ} : {W : Type 0} {A : Type ℓ} → A → M W A
return a w = (w, ok a)

abbrev pub throw {ℓ} : {W : Type 0} {A : Type ℓ} → Fault → M W A
throw e w = (w, err e)

-- A handler's outcome: the next world and what it wrote, a fault by `writeStoreError`.
abbrev pub reply_of : {W : Type 0} → W × Result Reply → W × Reply
reply_of (w, ok a) = (w, a)
reply_of (w, err e) = (w, write_store_error e)

unfoldable pub reply_to : {W : Type 0} → M W Reply → W → W × Reply
reply_to m w = reply_of (m w)

-- A handler's step whose outcome is known.
module _ {W : Type 0} {A : Type 0} {B : Type 0} where
  pub >>=-eq_ok :
      (m : M W A) (f : A → M W B) (w w' : W) (a : A) → m w ≡ (w', ok a) → (m >>= f) w ≡ f a w'
  unfolding ◌>>=◌
  >>=-eq_ok m f w w' a e = ap (λ p. resume p f) e

  pub >>=-eq_err :
      (m : M W A) (f : A → M W B) (w w' : W) (e : Fault)
      → m w ≡ (w', err e)
      → (m >>= f) w ≡ (w', err e)
  unfolding ◌>>=◌
  >>=-eq_err m f w w' e h = ap (λ p. resume p f) h

  -- A step of which only the result is known.
  pub >>=-eq_result :
      (m : M W A) (f : A → M W B) (w : W) (a : A) → (m w).1 ≡ ok a → (m >>= f) w ≡ f a (m w).0
  >>=-eq_result m f w a e = >>=-eq_ok m f w (m w).0 a (λ i. ((m w).0, e i))
