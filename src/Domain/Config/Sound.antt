-- ===== src/Domain/Config/Sound.antt =====
-- The strategies of the table, and what validation asks of an override.
use zenithpay_retry.Base.{
  ℕ, suc, ◌≡◌, refl, ◌⊎◌, inl, inr, String, true, false, Option, none, some, List, [], ◌∷◌, ℤ, pos,
  ◌<ℤ◌, ◌≤ℤ◌, Dict, lookup, All, eq_iff, arith, Option-cases,
}
use zenithpay_retry.Float.{Float64}
use zenithpay_retry.Time.{Duration}
use zenithpay_retry.Domain.Decline.{
  RetryStrategy, backoff_fixed, backoff_exponential, backoff_business_hours,
}
use zenithpay_retry.Domain.Config.Rounds.{Merged, merged, run_keeps, insert_everywhere}
use zenithpay_retry.Domain.Config.{
  new_rates, StrategyConfig, is_known_backoff, sets_hours, is_no_probability, check_rates,
  validate_strategy_config, new_strategy, existing_strategy, overridden, apply_strategy_overrides,
}

abbrev pub IsKnown : String → Type 0
IsKnown b =
    (b ≡ "") ⊎ ((b ≡ backoff_fixed) ⊎ ((b ≡ backoff_exponential) ⊎ (b ≡ backoff_business_hours)))

-- Both hours zero, or an interval that ends at an hour from 1 to 23. The start may be negative.
abbrev pub IsWindow : ℤ → ℤ → Type 0
IsWindow start end =
    ((start ≡ pos 0) × (end ≡ pos 0)) ⊎ ((start <ℤ end) × (pos 0 <ℤ end) × (end ≤ℤ pos 23))

module _ {F : Type 0} ⦃f : Float64 F⦄ where
  -- Neither below 0 nor above 1.
  abbrev pub IsProbability : F → Type 0
  IsProbability rate = (f.lt rate (f.decimal 0 0) ≡ false) × (f.lt (f.decimal 1 0) rate ≡ false)

  -- A multiplier that is set is above 1.
  abbrev pub IsGrowth : F → Type 0
  IsGrowth m = f.lt (f.decimal 0 0) m ≡ true → f.le m (f.decimal 1 0) ≡ false

  pub record IsConfigured (s : RetryStrategy F) : Type 0 where
    pub known : IsKnown s.backoff_type
    pub growth : IsGrowth s.backoff_multiplier
    pub window : IsWindow s.business_hours_start s.business_hours_end
    pub probabilities : All IsProbability s.per_attempt_rates

  check_rates-All :
      (code : String) (i : ℕ) (rates : List F)
      → check_rates code i rates ≡ none
      → All IsProbability rates
  unfolding check_rates is_no_probability
  check_rates-All code i [] h = tt
  check_rates-All code i (r ∷ rates) h =
      (ground arith, check_rates-All code (suc i) rates (ground arith))

  module _ (code : String) (cfg : StrategyConfig F)
      (accepted : validate_strategy_config code cfg ≡ none) where
    accepted_backoff : IsKnown cfg.backoff_type
    unfolding validate_strategy_config is_known_backoff
    accepted_backoff = ground (
      arith,
      eq_iff cfg.backoff_type "",
      eq_iff cfg.backoff_type backoff_fixed,
      eq_iff cfg.backoff_type backoff_exponential,
      eq_iff cfg.backoff_type backoff_business_hours,
    )

    accepted-IsGrowth : IsGrowth cfg.backoff_multiplier
    unfolding validate_strategy_config
    accepted-IsGrowth h = ground arith

    accepted_window :
        sets_hours cfg.business_hours_start cfg.business_hours_end ≡ true
        → (cfg.business_hours_start <ℤ cfg.business_hours_end)
          × (pos 0 <ℤ cfg.business_hours_end)
          × (cfg.business_hours_end ≤ℤ pos 23)
    unfolding validate_strategy_config sets_hours
    accepted_window h = ground arith

    accepted_rates : check_rates code 0 cfg.per_attempt_rates ≡ none
    unfolding validate_strategy_config
    accepted_rates = ground arith

    overridden-IsConfigured :
        (delays : List Duration) (base_delay : Duration) (s : RetryStrategy F)
        → IsConfigured s
        → IsConfigured (overridden cfg delays base_delay s)
    unfolding overridden new_rates
    overridden-IsConfigured delays base_delay s h = record {
      known = ground (arith, accepted_backoff, h.known);
      growth = λ e. ground (arith, accepted-IsGrowth, h.growth);
      window = ground (arith, accepted_window, h.window);
      probabilities =
          rates cfg.per_attempt_rates (check_rates-All code 0 cfg.per_attempt_rates accepted_rates);
    }
      where
        rates :
            (rs : List F)
            → All IsProbability rs
            → All IsProbability (new_rates rs s.per_attempt_rates)
        rates [] a = h.probabilities
        rates (r ∷ rs) a = a

  abbrev pub AllConfigured : Dict (RetryStrategy F) → Type 0
  AllConfigured table =
      (code : String) (s : RetryStrategy F) → lookup code table ≡ some s → IsConfigured s

  -- A strategy that a merge by an accepted override gives.
  Merged-IsConfigured :
      (parse_duration : String → Option Duration) (code : String) (cfg : StrategyConfig F)
      (s t : RetryStrategy F)
      → validate_strategy_config code cfg ≡ none
      → IsConfigured s
      → Merged parse_duration code cfg s (inr t)
      → IsConfigured t
  Merged-IsConfigured parse_duration code cfg s t q h (merged delays base_delay e e') =
      overridden-IsConfigured code cfg q delays base_delay s h

no_conditions : {A : Type 0} (xs : List A) → All (λ _. Unit {0}) xs
no_conditions [] = tt
no_conditions (x ∷ xs) = (tt, no_conditions xs)

-- A number is not below itself, at zero.
module _ {F : Type 0} ⦃f : Float64 F⦄ (parse_duration : String → Option Duration)
    (irreflexive : f.lt (f.decimal 0 0) (f.decimal 0 0) ≡ false) where
  new_strategy-IsConfigured : (code : String) → IsConfigured {F = F} (new_strategy code)
  unfolding new_strategy
  new_strategy-IsConfigured code = record {
    known = inl refl;
    growth = λ e. ground arith;
    window = inl (refl, refl);
    probabilities = tt;
  }

  existing-IsConfigured :
      (code : String) (table : Dict (RetryStrategy F))
      → AllConfigured table
      → IsConfigured (existing_strategy code table)
  unfolding existing_strategy
  existing-IsConfigured code table h = elim (Option-cases (lookup code table)) [
    | inl e ↦ rw (e, existing_strategy) (new_strategy-IsConfigured code)
    | inr (s, e) ↦ rw (e, existing_strategy) (h code s e)
  ]

  -- Whatever the overrides, and whether they are accepted or not, every strategy of the table then
  -- has a known backoff type, rates from 0 to 1, a multiplier above 1 if one is set, and no window
  -- or one that ends after its start at an hour from 1 to 23; if every strategy had before, and if
  -- zero is not below itself.
  pub apply_strategy_overrides-AllConfigured :
      (overrides : List (String × StrategyConfig F)) (table : Dict (RetryStrategy F))
      → AllConfigured table
      → AllConfigured (apply_strategy_overrides parse_duration overrides table).0
  apply_strategy_overrides-AllConfigured overrides table h =
      run_keeps parse_duration (λ _. Unit) AllConfigured
        (λ code cfg t s _ q m i.
          insert_everywhere (λ _. IsConfigured) code s t
            (Merged-IsConfigured parse_duration code cfg (existing_strategy code t) s q
              (existing-IsConfigured code t i) m)
            i)
        overrides table (no_conditions overrides) h
