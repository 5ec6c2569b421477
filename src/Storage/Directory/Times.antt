-- ===== src/Storage/Directory/Times.antt =====
-- The directory of a time stamp (gpdir.go).
use go_probe.Common.{ℕ, ◌+◌, ◌*◌, ◌/◌, ◌%◌, ◌^◌, ◌<◌, ◌≤◌, ◌≡◌, refl, arith, lt→ltb}
use go_probe.Storage.Directory.{epoch_day, dir_timestamp}

dir_timestamp_lem :
    (timestamp : ℕ)
    → timestamp < 2 ^ 63
    → dir_timestamp timestamp ≡ timestamp / epoch_day * epoch_day
unfolding dir_timestamp
dir_timestamp_lem timestamp h = rw (lt→ltb _ _ h) refl

-- A time stamp from 1970 on lies within the day that its directory starts with, and every time stamp
-- within this day has the same directory.
pub dir_timestamp-day :
    (timestamp other : ℕ)
    → timestamp < 2 ^ 63
    → other < 2 ^ 63
    → dir_timestamp timestamp ≤ other
    → other < dir_timestamp timestamp + epoch_day
    → (dir_timestamp timestamp ≤ timestamp)
      × (timestamp < dir_timestamp timestamp + epoch_day)
      × (dir_timestamp timestamp % epoch_day ≡ 0)
      × (dir_timestamp other ≡ dir_timestamp timestamp)
dir_timestamp-day timestamp other h g low high =
    let e = dir_timestamp_lem timestamp h in
    let f = dir_timestamp_lem other g in
    (omega (arith, e), omega (arith, e), omega (arith, e), omega (arith, e, f, low, high))
