-- ===== src/Time.antt =====
-- Go's time.Time and time.Duration, as far as the program uses them. Every time that the program
-- computes with is in UTC, so a day has 24 hours and `AddDate(0, 0, 1)` adds 24 hours.
pub mod Day
use zenithpay_retry.Base.{
  ℕ, suc, ◌+◌, ◌-◌, ◌*◌, ◌/◌, ◌%◌, Bool, ℤ, pos, negsuc, ◌+ℤ◌, ◌-ℤ◌, ◌*ℤ◌, ltb, leb_ℤ, ltb_ℤ,
  if◌then◌else◌,
}

-- Nanoseconds since a fixed midnight.
abbrev pub Time : Type 0
Time = ℤ

-- Nanoseconds, an int64.
abbrev pub Duration : Type 0
Duration = ℤ

abbrev pub minute_ns : ℕ
minute_ns = 60_000_000_000

abbrev pub hour_ns : ℕ
hour_ns = 3_600_000_000_000

abbrev pub day_ns : ℕ
day_ns = 86_400_000_000_000

abbrev pub minutes : ℕ → Duration
minutes n = pos (n * minute_ns)

abbrev pub hours : ℕ → Duration
hours n = pos (n * hour_ns)

-- int64 arithmetic wraps: the pattern of 64 bits, read as a signed number.
bits_64 : ℤ → ℕ
bits_64 (pos n) = n % 18_446_744_073_709_551_616
bits_64 (negsuc n) = 18_446_744_073_709_551_615 - n % 18_446_744_073_709_551_616

unfoldable pub wrap_64 : ℤ → ℤ
unfolding bits_64
wrap_64 z =
    let b = bits_64 z in
    if ltb b 9_223_372_036_854_775_808 then pos b else negsuc (18_446_744_073_709_551_615 - b)

-- How far into its day a time is.
unfoldable pub day_offset : Time → ℕ
day_offset (pos n) = n % day_ns
day_offset (negsuc n) = day_ns - 1 - n % day_ns

-- t.Hour()
unfoldable pub hour_of : Time → ℕ
hour_of t = day_offset t / hour_ns

-- time.Date(t.Year(), t.Month(), t.Day(), h, 0, 0, 0, t.Location())
unfoldable pub at_hour : Time → ℤ → Time
at_hour t h = t -ℤ pos (day_offset t) +ℤ h *ℤ pos hour_ns

-- t.Before(u)
abbrev pub before : Time → Time → Bool
before t u = ltb_ℤ t u
