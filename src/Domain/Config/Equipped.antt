-- ===== src/Domain/Config/Equipped.antt =====
-- Which overrides leave a table that the engine can work with, and which codes they touch.
use zenithpay_retry.Base.{
  ◌<◌, ◌≡◌, ◌≢◌, refl, ◌⊎◌, inl, inr, String, true, Option, some, List, [], ◌∷◌, Dict, lookup,
  contains, lookup-insert, All, length, eq_iff, arith, Option-cases, Sum-cases,
}
use zenithpay_retry.Float.{Float64}
use zenithpay_retry.Time.{Duration}
use zenithpay_retry.Domain.Decline.{RetryStrategy}
use zenithpay_retry.Domain.Decline.Plan.{AllComplete}
use zenithpay_retry.Domain.Config.{
  StrategyConfig, new_rates, existing_strategy, parse_delays, new_delays, overridden,
  apply_strategy_overrides,
}
use zenithpay_retry.Domain.Config.Rounds.{Merged, merged, run_keeps, insert_everywhere}

-- Delays and rates are given.
pub record IsEquipped {F : Type 0} (s : RetryStrategy F) : Type 0 where
  pub some_delays : 0 < length s.delays
  pub some_rates : 0 < length s.per_attempt_rates

abbrev pub AllEquipped : {F : Type 0} → Dict (RetryStrategy F) → Type 0
AllEquipped {F} table =
    (code : String) (s : RetryStrategy F) → lookup code table ≡ some s → IsEquipped s

-- An override that may be the first for its code.
abbrev pub Brings : {F : Type 0} → StrategyConfig F → Type 0
Brings cfg = (0 < length cfg.delays) × (0 < length cfg.per_attempt_rates)

length-new_rates :
    {F : Type 0} ⦃f : Float64 F⦄ (rates old : List F)
    → (0 < length rates) ⊎ (0 < length old)
    → 0 < length (new_rates rates old)
unfolding new_rates
length-new_rates [] old h = ground arith
length-new_rates (r ∷ rates) old h = omega arith

module _ (parse_duration : String → Option Duration) where
  length-parse_delays :
      (texts : List String) (delays : List Duration)
      → parse_delays parse_duration texts ≡ inr delays
      → length delays ≡ length texts
  unfolding parse_delays
  length-parse_delays [] delays e = ground arith
  length-parse_delays (d ∷ ds) delays e = elim (Option-cases (parse_duration d)) [
    | inl p ↦ ground arith
    | inr (t, p) ↦ elim (Sum-cases (parse_delays parse_duration ds)) [
      | inl (bad, q) ↦ ground arith
      | inr (ts, q) ↦ let rest = length-parse_delays ds ts q in ground arith
    ]
  ]

  length-new_delays :
      (texts : List String) (old delays : List Duration)
      → new_delays parse_duration texts old ≡ inr delays
      → (0 < length texts) ⊎ (0 < length old)
      → 0 < length delays
  unfolding new_delays
  length-new_delays [] old delays e h = ground arith
  length-new_delays (d ∷ ds) old delays e h = omega (arith, length-parse_delays (d ∷ ds) delays e)

module _ {F : Type 0} ⦃f : Float64 F⦄ (parse_duration : String → Option Duration) where
  overridden-IsEquipped :
      (code : String) (cfg : StrategyConfig F) (table : Dict (RetryStrategy F))
      (t : RetryStrategy F)
      → (contains code table ≡ true) ⊎ Brings cfg
      → AllEquipped table
      → Merged parse_duration code cfg (existing_strategy code table) (inr t)
      → IsEquipped t
  unfolding overridden existing_strategy
  overridden-IsEquipped code cfg table t h all (merged delays base_delay e e') =
      let (d, r) = equipped in
      record {
        some_delays =
            length-new_delays parse_duration cfg.delays (existing_strategy code table).delays delays
              e d;
        some_rates =
            length-new_rates cfg.per_attempt_rates (existing_strategy code table).per_attempt_rates
              r;
      }
    where
      equipped :
          ((0 < length cfg.delays) ⊎ (0 < length (existing_strategy code table).delays))
          × ((0 < length cfg.per_attempt_rates)
              ⊎ (0 < length (existing_strategy code table).per_attempt_rates))
      equipped = elim (Option-cases (lookup code table)) [
        | inl q ↦ ground arith
        | inr (s, q) ↦
            let k = all code s q in rw (q, existing_strategy) (inr k.some_delays, inr k.some_rates)
      ]

  -- If every strategy of the table has delays and rates, and every override for a new code brings
  -- both, then every strategy is complete after the overrides, which is what the engine needs not
  -- to panic.
  pub apply_strategy_overrides-AllComplete :
      (overrides : List (String × StrategyConfig F)) (table : Dict (RetryStrategy F))
      → All (λ o. (contains o.0 table ≡ true) ⊎ Brings o.1) overrides
      → AllEquipped table
      → AllComplete (apply_strategy_overrides parse_duration overrides table).0
  apply_strategy_overrides-AllComplete overrides table allowed all code s e =
      let (equipped, _) =
        run_keeps parse_duration (λ o. (contains o.0 table ≡ true) ⊎ Brings o.1)
          (λ t. AllEquipped t × ((c : String) → contains c table ≡ true → contains c t ≡ true))
          (λ c cfg t s' a _ m (i, kept). (
            insert_everywhere (λ _. IsEquipped) c s' t
                (overridden-IsEquipped c cfg t s'
                  (elim a [ inl known ↦ inl (kept c known) | inr b ↦ inr b ]) i m)
                i,
            λ k known. ground (arith, lookup-insert c k s' t, kept k known, eq_iff c k),
          ))
          overrides table allowed (all, λ c known. known) in
      let k = equipped code s e in
      record { has_delays = λ _. k.some_delays; has_rates = k.some_rates }

  -- The strategy of a code that no override names stays as it was.
  pub apply_strategy_overrides-other :
      (overrides : List (String × StrategyConfig F)) (table : Dict (RetryStrategy F))
      (code : String)
      → All (λ o. o.0 ≢ code) overrides
      → lookup code (apply_strategy_overrides parse_duration overrides table).0 ≡ lookup code table
  apply_strategy_overrides-other overrides table code others =
      run_keeps parse_duration (λ o. o.0 ≢ code) (λ t. lookup code t ≡ lookup code table)
        (λ c cfg t s other _ m i. ground (arith, lookup-insert c code s t, eq_iff c code, other, i))
        overrides table others refl
