-- ===== src/Domain/Config/Rounds.antt =====
-- One round of the loop over the overrides: an error, or the merged strategy.
use mathlib.Core.Path.{subst}
use zenithpay_retry.Base.{
  ◌≡◌, inl, inr, ◌⊎◌, String, Option, none, some, Dict, lookup, insert, lookup-insert, eq_iff,
  str_eq, arith, Bool-cases, Option-cases, Sum-cases, List, [], ◌∷◌, All,
}
use zenithpay_retry.Float.{Float64}
use zenithpay_retry.Time.{Duration}
use zenithpay_retry.Domain.Decline.{RetryStrategy}
use zenithpay_retry.Domain.Config.{
  StrategyConfig, ConfigError, validate_strategy_config, existing_strategy, new_delays,
  new_base_delay, overridden, merge, apply_override, apply_strategy_overrides, invalid_delay,
  invalid_base_delay,
}

module _ {F : Type 0} ⦃f : Float64 F⦄ (parse_duration : String → Option Duration) where
  -- How a merge ends.
  pub data Merged (code : String) (cfg : StrategyConfig F) (s : RetryStrategy F)
      : ConfigError ⊎ RetryStrategy F → Type 0 where
    bad_delay :
        (d : String)
        → new_delays parse_duration cfg.delays s.delays ≡ inl d
        → Merged code cfg s (inl (invalid_delay d code))
    bad_base_delay :
        (d : String)
        → new_base_delay parse_duration cfg.base_delay s.base_delay ≡ inl d
        → Merged code cfg s (inl (invalid_base_delay d code))
    merged :
        (delays : List Duration) (base_delay : Duration)
        → new_delays parse_duration cfg.delays s.delays ≡ inr delays
        → new_base_delay parse_duration cfg.base_delay s.base_delay ≡ inr base_delay
        → Merged code cfg s (inr (overridden cfg delays base_delay s))

  pub merge-Merged :
      (code : String) (cfg : StrategyConfig F) (s : RetryStrategy F)
      → Merged code cfg s (merge parse_duration code cfg s)
  unfolding merge
  merge-Merged code cfg s = elim (Sum-cases (new_delays parse_duration cfg.delays s.delays)) [
    | inl (d, e) ↦ rw (e, merge) (bad_delay d e)
    | inr (ds, e) ↦ elim (Sum-cases (new_base_delay parse_duration cfg.base_delay s.base_delay)) [
      | inl (d, e') ↦ rw (e, merge, e') (bad_base_delay d e')
      | inr (b, e') ↦ rw (e, merge, e') (merged ds b e e')
    ]
  ]

  -- How a round ends.
  pub data Round (code : String) (cfg : StrategyConfig F) (table : Dict (RetryStrategy F))
      : Dict (RetryStrategy F) × Option ConfigError → Type 0 where
    invalid :
        (e : ConfigError)
        → validate_strategy_config code cfg ≡ some e
        → Round code cfg table (table, some e)
    unmergeable :
        (e : ConfigError)
        → validate_strategy_config code cfg ≡ none
        → Merged code cfg (existing_strategy code table) (inl e)
        → Round code cfg table (table, some e)
    set :
        (s : RetryStrategy F)
        → validate_strategy_config code cfg ≡ none
        → Merged code cfg (existing_strategy code table) (inr s)
        → Round code cfg table (insert code s table, none)

  pub apply_override-Round :
      (code : String) (cfg : StrategyConfig F) (table : Dict (RetryStrategy F))
      → Round code cfg table (apply_override parse_duration code cfg table)
  unfolding apply_override
  apply_override-Round code cfg table = elim (Option-cases (validate_strategy_config code cfg)) [
    | inr (e, q) ↦ rw (q, apply_override) (invalid e q)
    | inl q ↦
        let m = merge-Merged code cfg (existing_strategy code table) in
        elim (Sum-cases (merge parse_duration code cfg (existing_strategy code table))) [
          | inl (e, r) ↦
              rw (q, apply_override, r)
                (unmergeable e q (subst (Merged code cfg (existing_strategy code table)) r m))
          | inr (s, r) ↦
              rw (q, apply_override, r)
                (set s q (subst (Merged code cfg (existing_strategy code table)) r m))
        ]
  ]

  module _ (Allowed : String × StrategyConfig F → Type 0) (Inv : Dict (RetryStrategy F) → Type 0)
      (step : (code : String) (cfg : StrategyConfig F) (table : Dict (RetryStrategy F))
          (s : RetryStrategy F)
        → Allowed (code, cfg)
        → validate_strategy_config code cfg ≡ none
        → Merged code cfg (existing_strategy code table) (inr s)
        → Inv table
        → Inv (insert code s table)) where
    after_round :
        (code : String) (cfg : StrategyConfig F) (rest : List (String × StrategyConfig F))
        (table : Dict (RetryStrategy F)) (x : Dict (RetryStrategy F) × Option ConfigError)
        → Allowed (code, cfg)
        → Inv table
        → ((t : Dict (RetryStrategy F))
            → Inv t
            → Inv (apply_strategy_overrides parse_duration rest t).0)
        → Round code cfg table x
        → Inv
            (elim x.1 as (λ _. Dict (RetryStrategy F) × Option ConfigError) [
              | some e ↦ (x.0, some e)
              | none ↦ apply_strategy_overrides parse_duration rest x.0
            ]).0
    after_round code cfg rest table _ a i next (invalid e q) = i
    after_round code cfg rest table _ a i next (unmergeable e q m) = i
    after_round code cfg rest table _ a i next (set s q m) =
        next (insert code s table) (step code cfg table s a q m i)

    -- What every accepted override keeps, a run of the loop keeps, whether it fails or not.
    pub run_keeps :
        (overrides : List (String × StrategyConfig F)) (table : Dict (RetryStrategy F))
        → All Allowed overrides
        → Inv table
        → Inv (apply_strategy_overrides parse_duration overrides table).0
    unfolding apply_strategy_overrides
    run_keeps [] table a i = i
    run_keeps ((code, cfg) ∷ rest) table a i =
        after_round code cfg rest table (apply_override parse_duration code cfg table) a.0 i
          (λ t j. run_keeps rest t a.1 j) (apply_override-Round code cfg table)

-- A property of every strategy of a table survives an insertion that has it.
pub insert_everywhere :
    {F : Type 0} (P : String → RetryStrategy F → Type 0) (code : String) (s : RetryStrategy F)
    (table : Dict (RetryStrategy F))
    → P code s
    → ((c : String) (t : RetryStrategy F) → lookup c table ≡ some t → P c t)
    → (c : String) (t : RetryStrategy F) → lookup c (insert code s table) ≡ some t
    → P c t
insert_everywhere P code s table p h c t e = elim (Bool-cases (str_eq code c)) [
  | inl q ↦
      let same : code ≡ c = ground (arith, eq_iff code c) in
      let found : s ≡ t = ground (arith, lookup-insert code c s table, e) in
      subst (λ x. P x t) same (subst (P code) found p)
  | inr q ↦ h c t (ground (arith, lookup-insert code c s table, e))
]
