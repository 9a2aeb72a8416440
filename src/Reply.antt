-- ===== src/Reply.antt =====
-- The RESP2 replies of internal/resp/writer.go, as values, and the mapping of storage faults to
-- them by `writeStoreError` of internal/command/datacmd.go.
use redimos.Prelude.{Option, List, Bytes, codes}
use redimos.Prelude.Int.{ℤ}

-- What a handler writes: one constructor for each kind of RESP2 element that it uses.
pub data Reply : Type 0 where
  status : Bytes → Reply
  error : Bytes → Reply
  int : ℤ → Reply
  bulk : Bytes → Reply
  null_bulk : Reply
  bulk_array : List Bytes → Reply
  opt_bulk_array : List (Option Bytes) → Reply

-- The sentinel errors of internal/storage and internal/meta that reach a handler; `unmapped` is
-- any other backend error.
pub data Fault : Type 0 where
  wrong_type size_exceeded throttled not_integer not_float incr_overflow : Fault
  incr_nan_or_infinity score_out_of_range hash_not_integer hash_not_float : Fault
  rmw_max_retries unmapped : Fault

pub data Result {ℓ} (A : Type ℓ) : Type ℓ where
  ok : A → Result A
  err : Fault → Result A

abbrev pub err_wrong_type : Bytes
err_wrong_type = codes "WRONGTYPE Operation against a key holding the wrong kind of value"

abbrev pub err_not_integer : Bytes
err_not_integer = codes "ERR value is not an integer or out of range"

abbrev pub err_syntax : Bytes
err_syntax = codes "ERR syntax error"

abbrev pub err_not_valid_float : Bytes
err_not_valid_float = codes "ERR value is not a valid float"

abbrev pub err_incr_decr_overflow : Bytes
err_incr_decr_overflow = codes "ERR increment or decrement would overflow"

abbrev pub err_score_out_of_range : Bytes
err_score_out_of_range = codes "ERR value is out of range"

abbrev pub err_incr_nan_or_infinity : Bytes
err_incr_nan_or_infinity = codes "ERR increment would produce NaN or Infinity"

abbrev pub err_hash_not_integer : Bytes
err_hash_not_integer = codes "ERR hash value is not an integer"

abbrev pub err_hash_not_float : Bytes
err_hash_not_float = codes "ERR hash value is not a valid float"

abbrev pub err_value_exceeds_backend_limit : Bytes
err_value_exceeds_backend_limit = codes "ERR value exceeds backend limit (400KB)"

abbrev pub err_backend_throttled : Bytes
err_backend_throttled = codes "ERR backend throttled, retry later"

abbrev pub err_backend_error : Bytes
err_backend_error = codes "ERR backend error, retry later"

abbrev pub err_rmw_max_retries : Bytes
err_rmw_max_retries = codes "ERR read-modify-write exceeded retry limit under contention"

abbrev pub err_collection_too_large : Bytes
err_collection_too_large = codes "ERR collection size exceeds the configured maximum result limit"

abbrev pub err_offset_out_of_range : Bytes
err_offset_out_of_range = codes "ERR offset is out of range"

abbrev pub err_no_such_key : Bytes
err_no_such_key = codes "ERR no such key"

abbrev pub err_index_out_of_range : Bytes
err_index_out_of_range = codes "ERR index out of range"

-- The error text that a fault is reported with.
unfoldable pub write_store_error : Fault → Reply
write_store_error wrong_type = error err_wrong_type
write_store_error size_exceeded = error err_value_exceeds_backend_limit
write_store_error throttled = error err_backend_throttled
write_store_error not_integer = error err_not_integer
write_store_error not_float = error err_not_valid_float
write_store_error incr_overflow = error err_incr_decr_overflow
write_store_error incr_nan_or_infinity = error err_incr_nan_or_infinity
write_store_error score_out_of_range = error err_score_out_of_range
write_store_error hash_not_integer = error err_hash_not_integer
write_store_error hash_not_float = error err_hash_not_float
write_store_error rmw_max_retries = error err_rmw_max_retries
write_store_error unmapped = error err_backend_error
