-- ===== src/Model/Time.antt =====
-- The nanosecond columns and the timestamps that they stand for.
use vibedbfs.Prelude.{◌+◌, ◌≡◌, ℤ, pos, negsuc, ◌≤ℤ◌, arith, ltb, if◌then◌else◌}
use vibedbfs.Model.{Timestamp, to_ns, from_ns, billion, i64_max}

-- The sign that is lost: a time less than one second before the epoch.
abbrev pub mirrored : ℤ → ℤ
mirrored (pos n) = pos n
mirrored (negsuc n) = if ltb (n + 1) billion then pos (n + 1) else negsuc n

-- Every i64 of nanoseconds survives the way to a timestamp and back, but for a time less than one
-- second before the epoch, whose sign is lost.
pub to_ns-from_ns :
    (n : ℤ) → negsuc i64_max ≤ℤ n → n ≤ℤ pos i64_max → to_ns (from_ns n) ≡ mirrored n
unfolding to_ns from_ns
to_ns-from_ns (pos n) lo hi = ground arith
to_ns-from_ns (negsuc n) lo hi = ground arith

pub to_ns_range : (t : Timestamp) → (negsuc i64_max ≤ℤ to_ns t) × (to_ns t ≤ℤ pos i64_max)
unfolding to_ns
to_ns_range t = ground arith
