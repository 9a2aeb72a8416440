-- ===== src/Expiry.antt =====
-- Expiry times: `IsExpired` of internal/meta/meta.go and the conversions of
-- internal/command/keys.go, with Go's wrapping int64 arithmetic written out.
pub mod Bounds
use redimos.Prelude.{ℕ, Bool, ◌&&◌, if◌then◌else◌}
use redimos.Prelude.Int.{ℤ, pos, ◌+ℤ◌, ◌-ℤ◌, ◌*ℤ◌, ltb_ℤ, leb_ℤ, quot_pos, wrap64}
use redimos.Store.{Meta}

-- `math.MaxInt64` and `math.MaxInt64 / 1000`
abbrev pub max_int64 : ℕ
max_int64 = 9223372036854775807

abbrev pub max_seconds : ℕ
max_seconds = 9223372036854775

unfoldable pub is_expired : Meta → ℤ → Bool
is_expired m now_epoch = ltb_ℤ (pos 0) m.exp && leb_ℤ m.exp now_epoch

unfoldable pub ms_deadline_to_sec : ℤ → ℤ → ℤ
ms_deadline_to_sec now deadline_ms =
    let sec = quot_pos deadline_ms 1000 in
    if ltb_ℤ (wrap64 (now *ℤ pos 1000)) deadline_ms && leb_ℤ sec now
    then wrap64 (now +ℤ pos 1)
    else sec

unfoldable pub sec_expiry_epoch : ℤ → ℤ → ℤ
sec_expiry_epoch now n =
    if ltb_ℤ (wrap64 (pos max_seconds -ℤ now)) n then now else wrap64 (now +ℤ n)

unfoldable pub ms_expiry_epoch : ℤ → ℤ → ℤ
ms_expiry_epoch now n =
    let now_ms = wrap64 (now *ℤ pos 1000) in
    if ltb_ℤ (wrap64 (pos max_int64 -ℤ now_ms)) n
    then now
    else ms_deadline_to_sec now (wrap64 (now_ms +ℤ n))

-- The function that `handleExpireAt` hands to `applyExpire`.
unfoldable pub sec_timestamp_epoch : ℤ → ℤ → ℤ
sec_timestamp_epoch now ts = if ltb_ℤ (pos max_seconds) ts then now else ts
