-- ===== src/Examples/Configs.antt =====
-- The overrides of the strategy table, at a configuration for one new code and one known one.
use zenithpay_retry.Base.{
  ◌≡◌, ◌≢◌, refl, inl, inr, String, true, false, Option, none, some, List, [], ◌∷◌, pos, All,
  contains, ◌⊎◌, insert, lookup, str_eq, eq_iff, arith, if◌then◌else◌,
}
use zenithpay_retry.Float.{Micros, micros_float}
use zenithpay_retry.Time.{Duration, hours}
use zenithpay_retry.Domain.Decline.{default_strategies, soft_strategy}
use zenithpay_retry.Domain.Decline.Plan.{AllComplete}
use zenithpay_retry.Domain.Config.{StrategyConfig, check_rates, apply_strategy_overrides}
use zenithpay_retry.Domain.Config.Sound.{AllConfigured, apply_strategy_overrides-AllConfigured}
use zenithpay_retry.Domain.Config.Equipped.{
  AllEquipped, Brings, apply_strategy_overrides-AllComplete, apply_strategy_overrides-other,
}

-- A parser that knows one text.
abbrev pub one_hour : String → Option Duration
one_hour text = if str_eq text "1h" then some (hours 1) else none

abbrev lost_network : StrategyConfig Micros
lost_network = record {
  max_attempts = pos 2;
  delays = "1h" ∷ [];
  per_attempt_rates = 400_000 ∷ 200_000 ∷ [];
  use_alt_processor = true;
  backoff_type = "business_hours";
  base_delay = "";
  backoff_multiplier = 0;
  business_hours_start = pos 9;
  business_hours_end = pos 17;
  description = "network lost";
}

abbrev more_attempts : StrategyConfig Micros
more_attempts = record {
  max_attempts = pos 5;
  delays = [];
  per_attempt_rates = [];
  use_alt_processor = false;
  backoff_type = "";
  base_delay = "";
  backoff_multiplier = 0;
  business_hours_start = pos 0;
  business_hours_end = pos 0;
  description = "";
}

abbrev pub configs : List (String × StrategyConfig Micros)
configs = ("network_lost", lost_network) ∷ ("issuer_timeout", more_attempts) ∷ []

defaults_equipped : AllEquipped (default_strategies {F = Micros})
unfolding default_strategies soft_strategy lookup
defaults_equipped code s e = record { some_delays = ground arith; some_rates = ground arith }

defaults_configured : AllConfigured (default_strategies {F = Micros})
unfolding default_strategies lookup soft_strategy
defaults_configured code s e = record {
  known = ground arith;
  growth = λ q. ground arith;
  window = ground arith;
  probabilities = ground arith;
}

-- The configuration is accepted.
applied : (apply_strategy_overrides one_hour configs default_strategies).1 ≡ none
unfolding apply_strategy_overrides default_strategies soft_strategy check_rates lookup insert
applied = refl

apply_strategy_overrides-AllConfigured_example :
    AllConfigured (apply_strategy_overrides one_hour configs default_strategies).0
apply_strategy_overrides-AllConfigured_example =
    apply_strategy_overrides-AllConfigured one_hour refl configs default_strategies
      defaults_configured

pub configs_allowed :
    All (λ o. (contains o.0 (default_strategies {F = Micros}) ≡ true) ⊎ Brings o.1) configs
unfolding default_strategies lookup
configs_allowed = (inr (omega arith, omega arith), (inl refl, tt))

apply_strategy_overrides-AllComplete_example :
    AllComplete (apply_strategy_overrides one_hour configs default_strategies).0
apply_strategy_overrides-AllComplete_example =
    apply_strategy_overrides-AllComplete one_hour configs default_strategies configs_allowed
      defaults_equipped

others : All (λ o. o.0 ≢ "do_not_honor") configs
others = (
  λ e. ground (arith, eq_iff "network_lost" "do_not_honor"),
  (λ e. ground (arith, eq_iff "issuer_timeout" "do_not_honor"), tt),
)

apply_strategy_overrides-other_example :
    lookup "do_not_honor" (apply_strategy_overrides one_hour configs default_strategies).0
    ≡ lookup "do_not_honor" (default_strategies {F = Micros})
apply_strategy_overrides-other_example =
    apply_strategy_overrides-other one_hour configs default_strategies "do_not_honor" others
