-- ===== src/Retry/Simulator.antt =====
-- internal/retry/simulator.go.
pub mod Rates
use Prim.Native.String.{◌++◌}
use zenithpay_retry.Base.{
  ℕ, suc, ◌-◌, String, Bool, true, false, Option, none, some, List, Dict, Run, done, panic, index,
  length, leb, ◌==◌, itoa, if◌then◌else◌,
}
use zenithpay_retry.Float.{Float64}
use zenithpay_retry.Domain.Decline.{RetryStrategy, get_retry_strategy}
use zenithpay_retry.Retry.World.{World}

pub record SimResult : Type 0 where
  pub success : Bool
  pub response_code : String
  pub response_message : String

unfoldable pub approval : ℕ → String → SimResult
approval attempt_num processor = record {
  success = true;
  response_code = "APPROVED";
  response_message =
      "Transaction approved by " ++ (processor ++ (" on attempt " ++ itoa attempt_num));
}

unfoldable pub refusal : String → ℕ → String → SimResult
refusal code attempt_num processor = record {
  success = false;
  response_code = "DECLINE_" ++ code;
  response_message =
      "Retry attempt "
      ++ (itoa attempt_num ++ (" failed via " ++ (processor ++ (": " ++ (code ++ " persists")))));
}

unfoldable pub not_retryable_result : SimResult
not_retryable_result = record {
  success = false;
  response_code = "HARD_DECLINE";
  response_message = "Transaction not retryable";
}

-- strategy.PerAttemptRates[idx], where idx is the attempt's index or the last one. For the attempt
-- number 0, which the engine never passes, and without rates Go's index is -1 and panics; the index
-- 0 of an empty list does so here.
unfoldable pub success_rate {ℓ} : {F : Type ℓ} → List F → ℕ → Run F
success_rate rates attempt_num =
    let idx = attempt_num - 1 in
    if attempt_num == 0
    then panic
    else index rates (if leb (length rates) idx then length rates - 1 else idx)

module _ {F : Type 0} ⦃f : Float64 F⦄ (strategies : Dict (RetryStrategy F)) where
  -- ProcessPayment
  unfoldable pub process_payment : String → ℕ → String → World F → World F × Run SimResult
  process_payment code attempt_num processor w = elim (get_retry_strategy strategies code) [
    | none ↦ (w, done not_retryable_result)
    | some strategy ↦ elim (success_rate strategy.per_attempt_rates attempt_num) [
      | panic ↦ (w, panic)
      | done rate ↦ (
        record w { draws = suc w.draws },
        done (
            if f.lt (w.rolls w.draws) rate
            then approval attempt_num processor
            else refusal code attempt_num processor),
      )
    ]
  ]
