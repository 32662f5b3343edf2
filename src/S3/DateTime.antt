-- ===== src/S3/DateTime.antt =====
-- The instants and differences of Python's `datetime` that
-- awscli/customizations/s3/syncstrategy/base.py uses.
-- An instant is its count of microseconds from the first instant of year 1, in UTC.
use m_awsexp.Common.{ℕ, ◌+◌, ◌-◌, ◌*◌, ◌/◌, ◌%◌, ◌≡◌, leb, if◌then◌else◌, arith}
use m_awsexp.Common.Int.{ℤ, pos, negsuc, pos_part, neg_part, sub_ℕ}

abbrev pub DateTime : Type 0
DateTime = ℕ

abbrev pub micros_per_day : ℕ
micros_per_day = 86_400_000_000

-- Python keeps 0 ≤ microseconds < 10^6 and 0 ≤ seconds < 86400; the sign is in the days.
pub record TimeDelta : Type 0 where
  pub days : ℤ
  pub seconds : ℕ
  pub microseconds : ℕ

-- A difference of `d ≥ 0` microseconds, and one of `-d`.
abbrev forward : ℕ → TimeDelta
forward d = record {
  days = pos (d / micros_per_day);
  seconds = d % micros_per_day / 1_000_000;
  microseconds = d % 1_000_000;
}

abbrev backward : ℕ → TimeDelta
backward d =
    let n = (d + micros_per_day - 1) / micros_per_day in
    let r = n * micros_per_day - d in
    record { days = negsuc (n - 1); seconds = r / 1_000_000; microseconds = r % 1_000_000 }

-- `a - b` of two datetimes
unfoldable pub sub_datetime : DateTime → DateTime → TimeDelta
sub_datetime a b = if leb b a then forward (a - b) else backward (b - a)

-- `total_seconds` of base.py, in millionths: the source divides this number by 10^6, which under
-- Python 3 changes neither its sign nor whether it is 0.
unfoldable pub total_seconds : TimeDelta → ℤ
total_seconds td =
    sub_ℕ (td.microseconds + (td.seconds + pos_part td.days * 24 * 3600) * 1_000_000)
      (neg_part td.days * 24 * 3600 * 1_000_000)

-- The parts of a difference add up to the difference.
pub total_seconds-sub_datetime : (a b : DateTime) → total_seconds (sub_datetime a b) ≡ sub_ℕ a b
unfolding total_seconds sub_datetime
total_seconds-sub_datetime a b = ground arith
