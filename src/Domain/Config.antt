-- ===== src/Domain/Config.antt =====
-- internal/domain/config.go: the overrides of the strategy table that a JSON file gives. Reading
-- and decoding the file and parsing durations are the standard library's: they are arguments.
pub mod Rounds
pub mod Equipped
pub mod Sound
use zenithpay_retry.Base.{
  ℕ, suc, pos_part, String, Bool, true, false, not, ◌&&◌, ◌||◌, Option, none, some, List, [], ◌∷◌,
  ℤ, pos, ltb_ℤ, leb_ℤ, Dict, lookup, insert, ◌⊎◌, inl, inr, str_eq, if◌then◌else◌,
}
use zenithpay_retry.Float.{Float64}
use zenithpay_retry.Time.{Duration}
use zenithpay_retry.Domain.Decline.{
  RetryStrategy, soft_strategy, backoff_fixed, backoff_exponential, backoff_business_hours,
}

pub record StrategyConfig (F : Type 0) : Type 0 where
  pub max_attempts : ℤ
  pub delays : List String
  pub per_attempt_rates : List F
  pub use_alt_processor : Bool
  pub backoff_type : String
  pub base_delay : String
  pub backoff_multiplier : F
  pub business_hours_start : ℤ
  pub business_hours_end : ℤ
  pub description : String

-- The errors, with the decline code, the text or the index that the message names.
pub data ConfigError : Type 0 where
  unreadable unparsable : String → ConfigError
  invalid_backoff_type : String → ConfigError
  invalid_multiplier : String → ConfigError
  hours_out_of_range hours_not_ordered : String → ConfigError
  invalid_rate : ℕ → String → ConfigError
  invalid_delay invalid_base_delay : String → String → ConfigError

unfoldable pub is_known_backoff : String → Bool
is_known_backoff b =
    str_eq b backoff_fixed || str_eq b backoff_exponential || str_eq b backoff_business_hours

-- start > 0 || end > 0
unfoldable pub sets_hours : ℤ → ℤ → Bool
sets_hours start end = ltb_ℤ (pos 0) start || ltb_ℤ (pos 0) end

-- `if n > 0 { existing.MaxAttempts = n }`
unfoldable pub new_max : ℤ → ℕ → ℕ
new_max n old = if ltb_ℤ (pos 0) n then pos_part n else old

module _ {F : Type 0} ⦃f : Float64 F⦄ where
  -- rate < 0 || rate > 1.0
  unfoldable pub is_no_probability : F → Bool
  is_no_probability rate = f.lt rate (f.decimal 0 0) || f.lt (f.decimal 1 0) rate

  -- The loop over the rates, from index `i` on.
  unfoldable pub check_rates : String → ℕ → List F → Option ConfigError
  unfolding is_no_probability
  check_rates code i [] = none
  check_rates code i (rate ∷ rates) =
      let rest = check_rates code (suc i) rates in
      if is_no_probability rate then some (invalid_rate i code) else rest

  unfoldable pub validate_strategy_config : String → StrategyConfig F → Option ConfigError
  unfolding is_known_backoff sets_hours
  validate_strategy_config code cfg =
      let start = cfg.business_hours_start in
      let end = cfg.business_hours_end in
      if not (str_eq cfg.backoff_type "") && not (is_known_backoff cfg.backoff_type)
      then some (invalid_backoff_type code)
      else if f.lt (f.decimal 0 0) cfg.backoff_multiplier
          && f.le cfg.backoff_multiplier (f.decimal 1 0)
      then some (invalid_multiplier code)
      else if sets_hours start end && (ltb_ℤ (pos 23) start || ltb_ℤ (pos 23) end)
      then some (hours_out_of_range code)
      else if sets_hours start end && leb_ℤ end start
      then some (hours_not_ordered code)
      else check_rates code 0 cfg.per_attempt_rates

  -- The strategy of a code that the table does not have yet.
  unfoldable pub new_strategy : String → RetryStrategy F
  unfolding soft_strategy
  new_strategy code = soft_strategy code 0 [] [] false ""

  unfoldable pub existing_strategy : String → Dict (RetryStrategy F) → RetryStrategy F
  unfolding new_strategy
  existing_strategy code table = elim (lookup code table) [ none ↦ new_strategy code | some s ↦ s ]

-- With time.ParseDuration; `inl` is the text that it refuses.
module _ (parse_duration : String → Option Duration) where
  unfoldable pub parse_delays : List String → String ⊎ List Duration
  parse_delays [] = inr []
  parse_delays (d ∷ ds) = elim (parse_duration d) [
    | none ↦ inl d
    | some t ↦ elim (parse_delays ds) [ inl e ↦ inl e | inr ts ↦ inr (t ∷ ts) ]
  ]

  unfoldable pub new_delays : List String → List Duration → String ⊎ List Duration
  unfolding parse_delays
  new_delays [] old = inr old
  new_delays (d ∷ ds) old = parse_delays (d ∷ ds)

  unfoldable pub new_base_delay : String → Duration → String ⊎ Duration
  new_base_delay text old =
      if str_eq text ""
      then inr old
      else elim (parse_duration text) [ none ↦ inl text | some d ↦ inr d ]

module _ {F : Type 0} ⦃f : Float64 F⦄ where
  -- `if len(rates) > 0 { existing.PerAttemptRates = rates }`
  unfoldable pub new_rates : List F → List F → List F
  new_rates [] old = old
  new_rates (rate ∷ rates) old = rate ∷ rates

  -- The strategy with the fields that are set.
  unfoldable pub overridden :
      StrategyConfig F → List Duration → Duration → RetryStrategy F → RetryStrategy F
  overridden cfg delays base_delay s = record s {
    max_attempts = new_max cfg.max_attempts s.max_attempts;
    delays = delays;
    per_attempt_rates = new_rates cfg.per_attempt_rates s.per_attempt_rates;
    use_alt_processor = cfg.use_alt_processor || s.use_alt_processor;
    description = if str_eq cfg.description "" then s.description else cfg.description;
    backoff_type = if str_eq cfg.backoff_type "" then s.backoff_type else cfg.backoff_type;
    base_delay = base_delay;
    backoff_multiplier =
        if f.lt (f.decimal 0 0) cfg.backoff_multiplier
        then cfg.backoff_multiplier
        else s.backoff_multiplier;
    business_hours_start =
        if sets_hours cfg.business_hours_start cfg.business_hours_end
        then cfg.business_hours_start
        else s.business_hours_start;
    business_hours_end =
        if sets_hours cfg.business_hours_start cfg.business_hours_end
        then cfg.business_hours_end
        else s.business_hours_end;
  }

module _ {F : Type 0} ⦃f : Float64 F⦄ (parse_duration : String → Option Duration) where
  unfoldable pub merge : String → StrategyConfig F → RetryStrategy F → ConfigError ⊎ RetryStrategy F
  unfolding overridden new_delays new_base_delay
  merge code cfg s = elim (new_delays parse_duration cfg.delays s.delays) [
    | inl d ↦ inl (invalid_delay d code)
    | inr delays ↦ elim (new_base_delay parse_duration cfg.base_delay s.base_delay) [
      | inl d ↦ inl (invalid_base_delay d code)
      | inr base_delay ↦ inr (overridden cfg delays base_delay s)
    ]
  ]

  -- One round of the loop over the overrides.
  unfoldable pub apply_override :
      String
      → StrategyConfig F
      → Dict (RetryStrategy F)
      → Dict (RetryStrategy F) × Option ConfigError
  unfolding validate_strategy_config merge existing_strategy
  apply_override code cfg table = elim (validate_strategy_config code cfg) [
    | some e ↦ (table, some e)
    | none ↦ elim (merge code cfg (existing_strategy code table)) [
      | inl e ↦ (table, some e)
      | inr s ↦ (insert code s table, none)
    ]
  ]

  -- The overrides stand in the order in which the range visits them. An error ends the loop, and
  -- what was applied before stays.
  unfoldable pub apply_strategy_overrides :
      List (String × StrategyConfig F)
      → Dict (RetryStrategy F)
      → Dict (RetryStrategy F) × Option ConfigError
  unfolding apply_override
  apply_strategy_overrides [] table = (table, none)
  apply_strategy_overrides ((code, cfg) ∷ rest) table =
      let (table', failure) = apply_override code cfg table in
      elim failure [ some e ↦ (table', some e) | none ↦ apply_strategy_overrides rest table' ]

  -- With os.ReadFile and json.Unmarshal; an empty path leaves the defaults.
  unfoldable pub load_retry_config :
      (String → Option String)
      → (String → Option (List (String × StrategyConfig F)))
      → String
      → Dict (RetryStrategy F)
      → Dict (RetryStrategy F) × Option ConfigError
  unfolding apply_strategy_overrides
  load_retry_config read_file decode path table =
      if str_eq path "" then (table, none) else elim (read_file path) [
        | none ↦ (table, some (unreadable path))
        | some text ↦ elim (decode text) [
          | none ↦ (table, some (unparsable path))
          | some overrides ↦ apply_strategy_overrides overrides table
        ]
      ]
