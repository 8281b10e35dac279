-- ===== src/Domain/Decline/Window.antt =====
-- snapToBusinessHours: the next time at which the window is open.
use zenithpay_retry.Base.{
  ℕ, ◌+◌, ◌-◌, ◌*◌, ◌≤◌, ◌<◌, pos, ◌+ℤ◌, ◌≤ℤ◌, ◌<ℤ◌, pos_part, neg_part, arith, +ℤ_parts,
}
use native.Mathlib.Decide.{dec_lt}
use zenithpay_retry.Time.{Time, hour_ns, day_ns, day_offset, hour_of, at_hour}
use zenithpay_retry.Time.Day.{day_offset-lt, day_offset-add, day_offset-add_day, at_hour_parts}
use zenithpay_retry.Domain.Decline.{snap_to_business_hours}

-- The window from hour `s` up to hour `e` is open at `t`.
abbrev pub IsOpen : ℕ → ℕ → Time → Type 0
IsOpen s e t = (s ≤ hour_of t) × (hour_of t < e)

-- `r` is the first time from `t` on at which the window is open.
pub record IsNextOpen (s e : ℕ) (t r : Time) : Type 0 where
  pub not_before : t ≤ℤ r
  pub is_open : IsOpen s e r
  pub first : (u : Time) → t ≤ℤ u → u <ℤ r → ¬ IsOpen s e u

module _ (s e : ℕ) (h : s < e) (k : e ≤ 24) (t : Time) where
  inside : IsOpen s e t → IsNextOpen s e t t
  inside o = record { not_before = omega arith; is_open = o; first = λ u a b _. omega arith }

  -- Too early in the day: the window opens later on that day.
  early : hour_of t < s → IsNextOpen s e t (at_hour t (pos s))
  unfolding hour_of
  early before = record {
    not_before = omega (arith, at_hour_parts t s);
    is_open = omega (
      arith,
      day_offset-add t (at_hour t (pos s)) (s * hour_ns) (omega arith)
          (omega (arith, at_hour_parts t s)),
    );
    first = λ u a b o.
        let x = pos_part u + neg_part t + day_offset t - neg_part u - pos_part t in
        omega (
          arith,
          at_hour_parts t s,
          day_offset-add t u x (omega (arith, at_hour_parts t s)) (omega arith),
        );
  }

  -- How far `u` lies after the midnight of `t`.
  abbrev since_midnight : Time → ℕ
  since_midnight u = pos_part u + neg_part t + day_offset t - neg_part u - pos_part t

  -- Too late in the day: the window opens on the next one, and was shut in between.
  late : e ≤ hour_of t → IsNextOpen s e t (at_hour t (pos s) +ℤ pos day_ns)
  unfolding hour_of
  late after = record {
    not_before = omega (arith, at_hour_parts t s, +ℤ_parts next (pos day_ns), day_offset-lt t);
    is_open = omega (
      arith,
      day_offset-add_day t (next +ℤ pos day_ns) (s * hour_ns) (omega arith)
          (omega (arith, at_hour_parts t s, +ℤ_parts next (pos day_ns))),
    );
    first = λ u a b o. elim (dec_lt (since_midnight u) day_ns) [
      | yes same_day ↦ omega (arith, day_offset-add t u (since_midnight u) same_day (omega arith))
      | no next_day ↦ omega (
        arith,
        at_hour_parts t s,
        +ℤ_parts next (pos day_ns),
        day_offset-add_day t u (since_midnight u - day_ns)
            (omega (arith, at_hour_parts t s, +ℤ_parts next (pos day_ns))) (omega arith),
      )
    ];
  }
    where
      next : Time
      next = at_hour t (pos s)

  -- For a window from hour s to a later hour e of at most 24, snapToBusinessHours returns the first
  -- time from t on at which the window is open.
  pub snap-IsNextOpen : IsNextOpen s e t (snap_to_business_hours t (pos s) (pos e))
  unfolding snap_to_business_hours
  snap-IsNextOpen = elim (dec_lt (hour_of t) s) [
    | yes before ↦ ground (arith, early before)
    | no reached ↦ elim (dec_lt (hour_of t) e) [
      | yes within ↦ ground (arith, inside (omega arith, within))
      | no passed ↦ ground (arith, late (omega arith))
    ]
  ]
