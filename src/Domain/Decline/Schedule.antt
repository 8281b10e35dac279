-- ===== src/Domain/Decline/Schedule.antt =====
-- The times of a plan, by backoff type.
use native.Mathlib.Nat.{zero-add, add-zero}
use mathlib.Core.Path.{subst}
use zenithpay_retry.Base.{
  ℕ, zero, suc, ◌+◌, ◌-◌, ◌<◌, ◌≡◌, refl, ap, ◌∙◌, Bool, false, some, List, pos, ◌+ℤ◌, Run, done,
  collect, collect_total, Collects-get_elem?, ◌>>=◌, length, get_elem?, get_elem?-of_lt, ltb,
  str_eq, arith, Bool-cases, inl, inr, if◌then◌else◌,
}
use zenithpay_retry.Float.{Float64}
use zenithpay_retry.Time.{Time, Duration, wrap_64}
use zenithpay_retry.Time.Day.{wrap_64_idem}
use zenithpay_retry.Domain.Decline.{
  RetryStrategy, backoff_exponential, backoff_business_hours, delay_at, snap_to_business_hours,
  business_window, build_fixed_times, build_business_hours_times, exponential_delay,
  exponential_times_from, build_exponential_times, build_scheduled_times,
}

-- The index that a schedule reads: the attempt's own, or the last one.
abbrev pub clamp : ℕ → ℕ → ℕ
clamp i n = if ltb i n then i else n - 1

delay_at_total :
    (delays : List Duration) (i : ℕ)
    → 0 < length delays
    → (d : Duration) × (delay_at delays i ≡ done d)
      × (get_elem? delays (clamp i (length delays)) ≡ some d)
unfolding delay_at
delay_at_total delays i h =
    let (d, e) = get_elem?-of_lt delays (clamp i (length delays)) (ground arith) in
    (d, ground arith, e)

-- The sum of the first n delays.
pub sum_delays : (ℕ → Duration) → ℕ → Duration
sum_delays delay zero = pos 0
sum_delays delay (suc n) = sum_delays delay n +ℤ delay n

length-exponential_times_from :
    (delay : ℕ → Duration) (base : Time) (n i : ℕ) (cumulative : Duration)
    → length (exponential_times_from delay base n i cumulative) ≡ n
unfolding exponential_times_from
length-exponential_times_from delay base zero i c = refl
length-exponential_times_from delay base (suc n) i c =
    ap suc (length-exponential_times_from delay base n (suc i) (wrap_64 (c +ℤ delay i)))

-- From round i on, with the wrapped sum of the first i delays, entry j holds the wrapped sum of the
-- first i + j + 1.
exponential_times_from-get :
    (delay : ℕ → Duration) (base : Time) (n i : ℕ) (cumulative : Duration) (j : ℕ) (t : Time)
    → cumulative ≡ wrap_64 (sum_delays delay i)
    → get_elem? (exponential_times_from delay base n i cumulative) j ≡ some t
    → t ≡ base +ℤ wrap_64 (sum_delays delay (suc (i + j)))
unfolding exponential_times_from sum_delays
exponential_times_from-get delay base zero i c j t e h = absurd (ground arith)
exponential_times_from-get delay base (suc n) i c zero t e h =
    rw add-zero (cc (wrap_64_idem (sum_delays delay i) (delay i)))
exponential_times_from-get delay base (suc n) i c (suc j) t e h =
    let shift : suc i + j ≡ i + suc j = omega arith in
    subst (λ k. t ≡ base +ℤ wrap_64 (sum_delays delay (suc k))) shift
      (exponential_times_from-get delay base n (suc i) (wrap_64 (c +ℤ delay i)) j t
        (ap (λ x. wrap_64 (x +ℤ delay i)) e ∙ wrap_64_idem (sum_delays delay i) (delay i)) h)

module _ {F : Type 0} ⦃f : Float64 F⦄ where
  abbrev pub is_exponential : RetryStrategy F → Bool
  is_exponential s = str_eq s.backoff_type backoff_exponential

  abbrev pub is_business_hours : RetryStrategy F → Bool
  is_business_hours s = str_eq s.backoff_type backoff_business_hours

  -- A strategy with which neither a plan nor a simulated payment indexes an empty list.
  pub record IsComplete (s : RetryStrategy F) : Type 0 where
    pub has_delays : is_exponential s ≡ false → 0 < length s.delays
    pub has_rates : 0 < length s.per_attempt_rates

  -- What the delay of attempt i + 1 makes of the base time.
  abbrev fixed_time : RetryStrategy F → Time → Duration → Time
  fixed_time s base d =
      if is_business_hours s
      then snap_to_business_hours (base +ℤ d)
          (business_window s.business_hours_start s.business_hours_end).0
          (business_window s.business_hours_start s.business_hours_end).1
      else base +ℤ d

  -- `t` is the time at which the strategy schedules attempt i + 1.
  abbrev pub IsScheduledAt : RetryStrategy F → Time → ℕ → Time → Type 0
  IsScheduledAt s base i t =
      if is_exponential s
      then (t ≡ base +ℤ wrap_64 (sum_delays (exponential_delay s) (suc i)))
      else (d : Duration) × (get_elem? s.delays (clamp i (length s.delays)) ≡ some d)
        × (t ≡ fixed_time s base d)

  -- A loop over the delays finishes, with one time for each attempt.
  from_delays :
      (s : RetryStrategy F) (make : Duration → Time)
      → 0 < length s.delays
      → (ts : List Time) × (collect s.max_attempts 0
            (λ i. delay_at s.delays i >>= λ d. done (make d))
          ≡ done ts)
        × (length ts ≡ s.max_attempts)
        × ((i : ℕ) (t : Time)
            → get_elem? ts i ≡ some t
            → (d : Duration) × (get_elem? s.delays (clamp i (length s.delays)) ≡ some d)
              × (t ≡ make d))
  from_delays s make h =
      let (ts, r, l, c) = collect_total s.max_attempts 0 body total in
      (ts, r, l, λ i t e. read i t (Collects-get_elem? body 0 ts i t c e))
    where
      body : ℕ → Run Time
      body i = delay_at s.delays i >>= λ d. done (make d)

      total : (i : ℕ) → (t : Time) × (body i ≡ done t)
      total i = let (d, e, _) = delay_at_total s.delays i h in (make d, rw e)

      read :
          (i : ℕ) (t : Time)
          → body (0 + i) ≡ done t
          → (d : Duration) × (get_elem? s.delays (clamp i (length s.delays)) ≡ some d)
            × (t ≡ make d)
      read i t e = let (d, p, q) = delay_at_total s.delays i h in (d, q, ground (arith, zero-add i))

  exponential_get :
      (s : RetryStrategy F) (base : Time) (i : ℕ) (t : Time)
      → get_elem? (build_exponential_times s base) i ≡ some t
      → t ≡ base +ℤ wrap_64 (sum_delays (exponential_delay s) (suc i))
  unfolding build_exponential_times
  exponential_get s base i t h =
      subst (λ k. t ≡ base +ℤ wrap_64 (sum_delays (exponential_delay s) (suc k))) (zero-add i)
        (exponential_times_from-get (exponential_delay s) base s.max_attempts 0 (pos 0) i t
          (unfold sum_delays wrap_64 in refl) h)

  -- A complete strategy schedules one time for each attempt, as its backoff type says.
  pub build_scheduled_times_total :
      (s : RetryStrategy F) (base : Time)
      → IsComplete s
      → (ts : List Time) × (build_scheduled_times s base ≡ done ts)
        × (length ts ≡ s.max_attempts)
        × ((i : ℕ) (t : Time) → get_elem? ts i ≡ some t → IsScheduledAt s base i t)
  unfolding build_scheduled_times build_fixed_times build_business_hours_times
  build_scheduled_times_total s base c = elim (Bool-cases (is_exponential s)) [
    | inl e ↦ (
      build_exponential_times s base,
      ground arith,
      unfold build_exponential_times in
          length-exponential_times_from (exponential_delay s) base s.max_attempts 0 (pos 0),
      λ i t h. rw e (exponential_get s base i t h),
    )
    | inr e ↦ elim (Bool-cases (is_business_hours s)) [
      | inl b ↦
          let (ts, r, l, g) = from_delays s (fixed_time s base) (c.has_delays e) in
          (ts, rw (e, b) (rw b at r), l, λ i t h. rw e (g i t h))
      | inr b ↦
          let (ts, r, l, g) = from_delays s (fixed_time s base) (c.has_delays e) in
          (ts, rw (e, b) (rw b at r), l, λ i t h. rw e (g i t h))
    ]
  ]
