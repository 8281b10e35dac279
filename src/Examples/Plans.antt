-- ===== src/Examples/Plans.antt =====
-- Classification, plans and payments.
use zenithpay_retry.Base.{
  ◌≡◌, ◌↔◌, refl, true, false, some, [], ◌∷◌, pos, Dict, lookup, contains, done, panic, arith,
}
use zenithpay_retry.Float.{Micros, micros_float}
use zenithpay_retry.Time.{minutes}
use zenithpay_retry.Domain.Models.{RetryPlan, soft_decline}
use zenithpay_retry.Domain.Decline.{
  RetryStrategy, soft_strategy, default_strategies, classify_decline, is_hard_decline,
  build_retry_plan, snap_to_business_hours,
}
use zenithpay_retry.Domain.Decline.Window.{IsNextOpen, snap-IsNextOpen}
use zenithpay_retry.Domain.Decline.Plan.{
  IsPlanFor, build_retry_plan_lem, build_retry_plan_panics, classify_decline_lem,
}
use zenithpay_retry.Examples.Scenario.{table, table-AllComplete}

classify_decline_lem_example :
    ((classify_decline table "issuer_timeout").0 ≡ soft_decline)
    ↔ ((is_hard_decline "issuer_timeout" ≡ false) × (contains "issuer_timeout" table ≡ true))
classify_decline_lem_example = classify_decline_lem table "issuer_timeout"

abbrev timeout_strategy : RetryStrategy Micros
timeout_strategy =
    soft_strategy "issuer_timeout" 3 (pos 0 ∷ minutes 5 ∷ minutes 30 ∷ [])
      (400_000 ∷ 300_000 ∷ 250_000 ∷ []) true
      "Network issue; retry immediately via alternative processor"

timeout_found : lookup "issuer_timeout" table ≡ some timeout_strategy
unfolding default_strategies lookup soft_strategy
timeout_found = refl

build_retry_plan_lem_example :
    (plan : RetryPlan) × (build_retry_plan table "issuer_timeout" "stripe_latam" (pos 0)
      ≡ done (some plan))
    × IsPlanFor timeout_strategy "issuer_timeout" "stripe_latam" (pos 0) plan
build_retry_plan_lem_example =
    build_retry_plan_lem table "issuer_timeout" "stripe_latam" (pos 0) timeout_strategy
      timeout_found (table-AllComplete "issuer_timeout" timeout_strategy timeout_found)

abbrev bare_strategy : RetryStrategy Micros
bare_strategy = soft_strategy "custom" 2 [] [] false "no delays"

abbrev bare_table : Dict (RetryStrategy Micros)
bare_table = ("custom", bare_strategy) ∷ []

build_retry_plan_panics_example :
    build_retry_plan bare_table "custom" "stripe_latam" (pos 0) ≡ panic
unfolding soft_strategy lookup
build_retry_plan_panics_example =
    build_retry_plan_panics bare_table "custom" "stripe_latam" (pos 0) bare_strategy refl refl refl
      (omega arith)

-- 18:30 snaps to 9:00 of the next day.
snap-IsNextOpen_example :
    IsNextOpen 9 17
      (pos 66_600_000_000_000)
      (snap_to_business_hours (pos 66_600_000_000_000) (pos 9) (pos 17))
snap-IsNextOpen_example = snap-IsNextOpen 9 17 (omega arith) (omega arith) (pos 66_600_000_000_000)
