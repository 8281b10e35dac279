-- ===== src/Time/Day.antt =====
-- Where a time stands in its day.
use zenithpay_retry.Base.{
  ℕ, ◌+◌, ◌*◌, ◌<◌, ◌≡◌, ℤ, pos, negsuc, ◌+ℤ◌, ◌-ℤ◌, ◌*ℤ◌, ◌≤ℤ◌, pos_part, neg_part, arith,
  +ℤ_parts, -ℤ_parts,
}
use zenithpay_retry.Time.{Time, hour_ns, day_ns, day_offset, at_hour, wrap_64}

pub day_offset-lt : (t : Time) → day_offset t < day_ns
unfolding day_offset
day_offset-lt (pos n) = omega arith
day_offset-lt (negsuc n) = omega arith

-- A time that lies less than a day after the midnight of `t` has that distance for its offset.
pub day_offset-add :
    (t u : Time) (x : ℕ)
    → x < day_ns
    → pos_part u + neg_part t + day_offset t ≡ neg_part u + pos_part t + x
    → day_offset u ≡ x
unfolding day_offset
day_offset-add (pos m) (pos n) x h e = omega arith
day_offset-add (pos m) (negsuc n) x h e = omega arith
day_offset-add (negsuc m) (pos n) x h e = omega arith
day_offset-add (negsuc m) (negsuc n) x h e = omega arith

-- The same for a time in the next day.
pub day_offset-add_day :
    (t u : Time) (x : ℕ)
    → x < day_ns
    → pos_part u + neg_part t + day_offset t ≡ neg_part u + pos_part t + x + day_ns
    → day_offset u ≡ x
unfolding day_offset
day_offset-add_day (pos m) (pos n) x h e = omega arith
day_offset-add_day (pos m) (negsuc n) x h e = omega arith
day_offset-add_day (negsuc m) (pos n) x h e = omega arith
day_offset-add_day (negsuc m) (negsuc n) x h e = omega arith

pub wrap_64-eq_self :
    (z : ℤ)
    → negsuc 9_223_372_036_854_775_807 ≤ℤ z
    → z ≤ℤ pos 9_223_372_036_854_775_807
    → wrap_64 z ≡ z
unfolding wrap_64
wrap_64-eq_self (pos n) lo hi = ground arith
wrap_64-eq_self (negsuc n) lo hi = ground arith

pub at_hour_parts :
    (t : Time) (h : ℕ)
    → pos_part (at_hour t (pos h)) + neg_part t + day_offset t
      ≡ neg_part (at_hour t (pos h)) + pos_part t + h * hour_ns
unfolding at_hour ◌*ℤ◌
at_hour_parts t h =
    ground (
      arith,
      +ℤ_parts (t -ℤ pos (day_offset t)) (pos (h * hour_ns)),
      -ℤ_parts t (pos (day_offset t)),
    )

-- Wrapping in the middle of a sum does not change the wrapped sum.
pub wrap_64_idem : (a b : ℤ) → wrap_64 (wrap_64 a +ℤ b) ≡ wrap_64 (a +ℤ b)
unfolding wrap_64 ◌+ℤ◌
wrap_64_idem (pos m) (pos n) = ground arith
wrap_64_idem (pos m) (negsuc n) = ground arith
wrap_64_idem (negsuc m) (pos n) = ground arith
wrap_64_idem (negsuc m) (negsuc n) = ground arith
