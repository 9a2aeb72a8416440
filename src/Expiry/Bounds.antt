-- ===== src/Expiry/Bounds.antt =====
-- The conversions overflow nowhere, and say what they compute. The clock is a number of seconds
-- since 1970 whose milliseconds fit in an int64.
use redimos.Prelude.{ℕ, ◌+◌, ◌-◌, ◌*◌, ◌/◌, ◌≤◌, ◌<◌, ◌≡◌, arith, if◌then◌else◌, ltb}
use redimos.Prelude.Int.{ℤ, pos, negsuc, ◌+ℤ◌, ◌-ℤ◌, ◌*ℤ◌, ◌≤ℤ◌, IsInt64, wrap64, quot_pos, ltb_ℤ}
use redimos.Expiry.{max_int64, max_seconds, ms_deadline_to_sec, sec_expiry_epoch, ms_expiry_epoch}

-- An EXPIRE time that fits is added to the clock with no wrap-around, and one that would leave the
-- millisecond range resolves to the clock itself.
pub sec_expiry_epoch_lem :
    (t : ℕ) (n : ℤ)
    → t ≤ max_seconds
    → IsInt64 n
    → sec_expiry_epoch (pos t) n ≡ (if ltb_ℤ (pos (max_seconds - t)) n then pos t else pos t +ℤ n)
unfolding sec_expiry_epoch ◌+ℤ◌ ◌-ℤ◌ wrap64
sec_expiry_epoch_lem t n ht hn = ground arith

-- A positive number of milliseconds that fits resolves to a second strictly after the clock: the
-- whole seconds are added, and anything below a second counts as one.
pub ms_expiry_epoch_future :
    (t k : ℕ)
    → t ≤ max_seconds
    → 0 < k
    → t * 1000 + k ≤ max_int64
    → ms_expiry_epoch (pos t) (pos k) ≡ pos (if ltb k 1000 then t + 1 else t + k / 1000)
unfolding ms_expiry_epoch ms_deadline_to_sec ◌+ℤ◌ ◌-ℤ◌ ◌*ℤ◌ wrap64 quot_pos
ms_expiry_epoch_future t k ht hk hf = ground arith

-- Zero or negative milliseconds never resolve to a second after the clock.
pub ms_expiry_epoch_past :
    (t : ℕ) (n : ℤ) → t ≤ max_seconds → IsInt64 n → n ≤ℤ pos 0 → ms_expiry_epoch (pos t) n ≤ℤ pos t
unfolding ms_expiry_epoch ms_deadline_to_sec ◌+ℤ◌ ◌-ℤ◌ ◌*ℤ◌ wrap64 quot_pos
ms_expiry_epoch_past t (pos n) ht hn h = ground arith
ms_expiry_epoch_past t (negsuc n) ht hn h = ground arith

-- PEXPIRE with a whole number of seconds resolves as EXPIRE does, overflow included.
pub ms_expiry_epoch-sec_expiry_epoch :
    (t k : ℕ)
    → t ≤ max_seconds
    → k ≤ max_seconds
    → ms_expiry_epoch (pos t) (pos (k * 1000)) ≡ sec_expiry_epoch (pos t) (pos k)
unfolding ms_expiry_epoch sec_expiry_epoch ms_deadline_to_sec ◌+ℤ◌ ◌-ℤ◌ ◌*ℤ◌ wrap64 quot_pos
ms_expiry_epoch-sec_expiry_epoch t k ht hk = ground arith
