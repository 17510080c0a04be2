-- ===== src/Assets/Day.antt =====
-- The Addis Ababa day of packages/shared/src/constants.ts.
use alkeva.Common.{◌*◌, ℕ, ◌+◌, ◌/◌, ◌≤◌, ◌≡◌, arith}
use alkeva.Common.Int.{sub_ℕ, ◌+ℤ◌, pos, pos_part, neg_part, ◌≤ℤ◌}
use alkeva.Assets.{eat_day_start_utc, eat_offset_ms, day_ms}

-- The day of an instant began at or before it, less than 24 hours earlier.
pub eat_day_start_utc_bounds :
    (now : ℕ)
    → (eat_day_start_utc now ≤ℤ pos now)
      × (pos_part (pos now) + neg_part (eat_day_start_utc now) + 1
          ≤ pos_part (eat_day_start_utc now) + day_ms)
unfolding eat_day_start_utc
eat_day_start_utc_bounds now = ground arith

back : (a b : ℕ) → sub_ℕ a b +ℤ pos b ≡ pos a
unfolding ◌+ℤ◌
back a b = ground arith

-- The day starts at a midnight of Addis Ababa, three hours ahead of UTC, at or before the instant
-- and less than 24 hours earlier.
pub eat_day_start_utc_midnight :
    (now : ℕ)
    → (day : ℕ) × (eat_day_start_utc now +ℤ pos 10800000 ≡ pos (day * 86400000))
      × (eat_day_start_utc now ≤ℤ pos now)
      × (pos_part (pos now) + neg_part (eat_day_start_utc now) + 1
          ≤ pos_part (eat_day_start_utc now) + 86400000)
unfolding eat_day_start_utc
eat_day_start_utc_midnight now = (
  (now + eat_offset_ms) / day_ms,
  back ((now + eat_offset_ms) / day_ms * day_ms) eat_offset_ms,
  ground arith,
  ground arith,
)
