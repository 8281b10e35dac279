-- ===== src/Domain/Decline.antt =====
-- internal/domain/decline.go: the strategy table, decline classification and retry plans.
-- `retryStrategies` is a package variable that the configuration changes once, at startup: here it
-- is an argument.
pub mod Processors
pub mod Window
pub mod Schedule
pub mod Plan
pub mod Codes
use zenithpay_retry.Base.{
  ℕ, zero, suc, ◌+◌, ◌-◌, ◌*◌, ◌%◌, String, Bool, true, false, ◌&&◌, Option, none, some, List, [],
  ◌∷◌, ℤ, pos, negsuc, ◌+ℤ◌, Dict, lookup, contains, Run, done, panic, index, collect, ◌>>=◌,
  length, ltb, leb_ℤ, ltb_ℤ, str_eq, if◌then◌else◌,
}
use zenithpay_retry.Float.{Float64}
use zenithpay_retry.Time.{Time, Duration, minutes, hours, day_ns, wrap_64, hour_of, at_hour}
use zenithpay_retry.Domain.Models.{DeclineCategory, hard_decline, soft_decline, RetryPlan}

-- BackoffType is a string in Go as well.
abbrev pub backoff_fixed : String
backoff_fixed = "fixed"

abbrev pub backoff_exponential : String
backoff_exponential = "exponential"

abbrev pub backoff_business_hours : String
backoff_business_hours = "business_hours"

-- MaxAttempts is only ever assigned a literal or a positive number.
pub record RetryStrategy (F : Type 0) : Type 0 where
  pub decline_code : String
  pub category : DeclineCategory
  pub max_attempts : ℕ
  pub delays : List Duration
  pub per_attempt_rates : List F
  pub use_alt_processor : Bool
  pub description : String
  pub backoff_type : String
  pub base_delay : Duration
  pub backoff_multiplier : F
  pub business_hours_start : ℤ
  pub business_hours_end : ℤ

unfoldable pub hard_decline_codes : Dict String
hard_decline_codes =
    ("stolen_card", "Card has been reported as stolen")
    ∷ ("fraud_suspected", "Issuer suspects fraudulent activity")
    ∷ ("invalid_card", "Card number does not exist")
    ∷ ("expired_card", "Card is past its expiration date")
    ∷ []

unfoldable pub available_processors : List String
available_processors =
    "stripe_latam" ∷ "adyen_apac" ∷ "dlocal_br" ∷ "payu_mx" ∷ "mercadopago_co" ∷ []

-- The fields that a literal of the table leaves out are zero.
module _ {F : Type 0} ⦃f : Float64 F⦄ where
  unfoldable pub soft_strategy :
      String → ℕ → List Duration → List F → Bool → String → RetryStrategy F
  soft_strategy code attempts delays rates alternate description = record {
    decline_code = code;
    category = soft_decline;
    max_attempts = attempts;
    delays = delays;
    per_attempt_rates = rates;
    use_alt_processor = alternate;
    description = description;
    backoff_type = "";
    base_delay = pos 0;
    backoff_multiplier = f.decimal 0 0;
    business_hours_start = pos 0;
    business_hours_end = pos 0;
  }

  -- The initial value of `retryStrategies`.
  unfoldable pub default_strategies : Dict (RetryStrategy F)
  unfolding soft_strategy
  default_strategies =
      (
        "insufficient_funds",
        soft_strategy "insufficient_funds" 3 (hours 2 ∷ hours 24 ∷ hours 48 ∷ [])
            (f.decimal 12 2 ∷ f.decimal 17 2 ∷ f.decimal 22 2 ∷ []) false
            "Customer may add funds; retry with increasing delays",
      )
      ∷ (
        "issuer_timeout",
        soft_strategy "issuer_timeout" 3 (pos 0 ∷ minutes 5 ∷ minutes 30 ∷ [])
            (f.decimal 40 2 ∷ f.decimal 30 2 ∷ f.decimal 25 2 ∷ []) true
            "Network issue; retry immediately via alternative processor",
      )
      ∷ (
        "do_not_honor",
        soft_strategy "do_not_honor" 3 (hours 24 ∷ hours 48 ∷ hours 72 ∷ [])
            (f.decimal 12 2 ∷ f.decimal 15 2 ∷ f.decimal 10 2 ∷ []) false
            "Generic decline with temporary risk flags; retry after cool-down",
      )
      ∷ (
        "processor_error",
        soft_strategy "processor_error" 3 (pos 0 ∷ minutes 5 ∷ hours 1 ∷ [])
            (f.decimal 35 2 ∷ f.decimal 25 2 ∷ f.decimal 20 2 ∷ []) true
            "Technical failure on processor side; retry via alternative processor",
      )
      ∷ (
        "authentication_failed",
        soft_strategy "authentication_failed" 2 (hours 1 ∷ hours 6 ∷ [])
            (f.decimal 15 2 ∷ f.decimal 12 2 ∷ []) false
            "3DS verification incomplete; retry with fresh auth window",
      )
      ∷ []

-- GetRetryStrategy; `none` is the nil pointer.
unfoldable pub get_retry_strategy {ℓ} : {S : Type ℓ} → Dict S → String → Option S
get_retry_strategy strategies code = lookup code strategies

unfoldable pub is_hard_decline : String → Bool
is_hard_decline code = contains code hard_decline_codes

unfoldable pub classify_decline :
    {F : Type 0} → Dict (RetryStrategy F) → String → DeclineCategory × String
classify_decline strategies code = elim (lookup code hard_decline_codes) [
  | some reason ↦ (hard_decline, reason)
  | none ↦ elim (lookup code strategies) [
    | some strategy ↦ (soft_decline, strategy.description)
    | none ↦ (hard_decline, "Unknown decline code, treating as hard decline for safety")
  ]
]

-- The loop of GetAvailableProcessors.
unfoldable pub other_processors : String → List String → List String
other_processors excluded [] = []
other_processors excluded (p ∷ ps) =
    let rest = other_processors excluded ps in if str_eq p excluded then rest else p ∷ rest

unfoldable pub get_available_processors : String → List String
get_available_processors excluded = other_processors excluded available_processors

-- strategy.Delays[i], or the last delay for any extra attempt. Without delays Go's index is -1 and
-- panics, as the index 0 of an empty list does here.
unfoldable pub delay_at : List Duration → ℕ → Run Duration
delay_at delays i =
    if ltb i (length delays) then index delays i else index delays (length delays - 1)

unfoldable pub snap_to_business_hours : Time → ℤ → ℤ → Time
snap_to_business_hours t start_hour end_hour =
    let hour = pos (hour_of t) in
    if leb_ℤ start_hour hour && ltb_ℤ hour end_hour
    then t
    else let next = at_hour t start_hour in if leb_ℤ end_hour hour then next +ℤ pos day_ns else next

is_zero : ℤ → Bool
is_zero z = leb_ℤ z (pos 0) && leb_ℤ (pos 0) z

-- The window that buildBusinessHoursTimes uses: 9 to 17 where the strategy sets none.
unfoldable pub business_window : ℤ → ℤ → ℤ × ℤ
unfolding is_zero
business_window start_hour end_hour =
    if is_zero start_hour && is_zero end_hour then (pos 9, pos 17) else (start_hour, end_hour)

-- The loop of buildExponentialTimes: `n` rounds from round `i`.
exponential_times_from : (ℕ → Duration) → Time → ℕ → ℕ → Duration → List Time
exponential_times_from delay base_time zero i cumulative = []
exponential_times_from delay base_time (suc n) i cumulative =
    let cumulative' = wrap_64 (cumulative +ℤ delay i) in
    (base_time +ℤ cumulative') ∷ exponential_times_from delay base_time n (suc i) cumulative'

-- processors[i] of the plan.
unfoldable pub processor_at : Bool → String → List String → ℕ → Run String
processor_at alternate original others i =
    if alternate && ltb 0 i && ltb 0 (length others)
    then index others ((i - 1) % length others)
    else done original

module _ {F : Type 0} ⦃f : Float64 F⦄ where
  -- The loop of pow, `exp` rounds from `result`.
  pow_from : F → ℕ → F → F
  pow_from base zero result = result
  pow_from base (suc exp) result = pow_from base exp (f.mul result base)

  unfoldable pub pow : F → ℕ → F
  unfolding pow_from
  pow base exp = pow_from base exp (f.decimal 1 0)

  unfoldable pub build_fixed_times : RetryStrategy F → Time → Run (List Time)
  build_fixed_times strategy base_time =
      collect strategy.max_attempts 0
        λ i. do delay ← delay_at strategy.delays i; done (base_time +ℤ delay)

  unfoldable pub build_business_hours_times : RetryStrategy F → Time → Run (List Time)
  build_business_hours_times strategy base_time =
      let window = business_window strategy.business_hours_start strategy.business_hours_end in
      collect strategy.max_attempts 0 λ i. do
        delay ← delay_at strategy.delays i
        done (snap_to_business_hours (base_time +ℤ delay) window.0 window.1)

  -- One delay of buildExponentialTimes, with the defaults for what the strategy leaves out.
  unfoldable pub exponential_delay : RetryStrategy F → ℕ → Duration
  exponential_delay strategy i =
      let multiplier =
        if f.le strategy.backoff_multiplier (f.decimal 0 0)
        then f.decimal 20 1
        else strategy.backoff_multiplier in
      let base = if leb_ℤ strategy.base_delay (pos 0) then minutes 5 else strategy.base_delay in
      f.to_int (f.mul (f.of_int base) (pow multiplier i))

  unfoldable pub build_exponential_times : RetryStrategy F → Time → List Time
  unfolding exponential_times_from
  build_exponential_times strategy base_time =
      exponential_times_from (exponential_delay strategy) base_time strategy.max_attempts 0 (pos 0)

  unfoldable pub build_scheduled_times : RetryStrategy F → Time → Run (List Time)
  build_scheduled_times strategy base_time =
      if str_eq strategy.backoff_type backoff_exponential
      then done (build_exponential_times strategy base_time)
      else if str_eq strategy.backoff_type backoff_business_hours
      then build_business_hours_times strategy base_time
      else build_fixed_times strategy base_time

  -- BuildRetryPlan; `done none` is the nil plan.
  unfoldable pub build_retry_plan :
      Dict (RetryStrategy F) → String → String → Time → Run (Option RetryPlan)
  build_retry_plan strategies code original base_time = elim (get_retry_strategy strategies code) [
    | none ↦ done none
    | some strategy ↦ do
      times ← build_scheduled_times strategy base_time
      processors ←
          collect strategy.max_attempts 0
            (processor_at strategy.use_alt_processor original (get_available_processors original))
      done (
          some (record {
            max_attempts = strategy.max_attempts;
            strategy = strategy.description;
            plan_code = code;
            scheduled_times = times;
            processors = processors;
          }))
  ]
