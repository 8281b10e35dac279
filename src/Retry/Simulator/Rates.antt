-- ===== src/Retry/Simulator/Rates.antt =====
-- The rate that decides a simulated payment.
use native.Mathlib.Decide.{dec_lt}
use zenithpay_retry.Base.{
  ℕ, suc, ◌-◌, ◌<◌, ◌≡◌, ◌≢◌, String, none, some, List, Dict, lookup, Run, done, panic, length,
  get_elem?, get_elem?-of_lt, Option-cases, inl, inr, arith, if◌then◌else◌,
}
use zenithpay_retry.Float.{Float64}
use zenithpay_retry.Domain.Decline.{RetryStrategy, get_retry_strategy}
use zenithpay_retry.Domain.Decline.Schedule.{clamp}
use zenithpay_retry.Domain.Decline.Plan.{AllComplete}
use zenithpay_retry.Retry.World.{World}
use zenithpay_retry.Retry.Simulator.{
  SimResult, approval, refusal, not_retryable_result, success_rate, process_payment,
}

success_rate_total :
    {F : Type 0} (rates : List F) (n : ℕ)
    → 0 < n
    → 0 < length rates
    → (r : F) × (success_rate rates n ≡ done r)
      × (get_elem? rates (clamp (n - 1) (length rates)) ≡ some r)
unfolding success_rate
success_rate_total rates n some_number h =
    let (r, e) = get_elem?-of_lt rates (clamp (n - 1) (length rates)) (ground arith) in
    (r, ground arith, e)

no_rate : {F : Type 0} (rates : List F) (n : ℕ) → n ≡ 0 → success_rate rates n ≡ panic
unfolding success_rate
no_rate rates n h = ground arith

module _ {F : Type 0} ⦃f : Float64 F⦄ (strategies : Dict (RetryStrategy F)) where
  -- What a payment does: without a strategy it fails and draws no number; with one it draws one
  -- number, and succeeds exactly if that lies below the rate of the attempt, or the last rate. The
  -- attempt number 0 panics.
  pub data Paid (code : String) (n : ℕ) (processor : String) (w : World F)
      : World F × Run SimResult → Type 0 where
    no_strategy :
        lookup code strategies ≡ none → Paid code n processor w (w, done not_retryable_result)
    no_number : n ≡ 0 → lookup code strategies ≢ none → Paid code n processor w (w, panic)
    drawn :
        (s : RetryStrategy F) (r : F)
        → lookup code strategies ≡ some s
        → 0 < n
        → get_elem? s.per_attempt_rates (clamp (n - 1) (length s.per_attempt_rates)) ≡ some r
        → Paid code n processor w (
          record w { draws = suc w.draws },
          done
              (if f.lt (w.rolls w.draws) r then approval n processor else refusal code n processor),
        )

  pub process_payment-Paid :
      (code : String) (n : ℕ) (processor : String) (w : World F)
      → AllComplete strategies
      → Paid code n processor w (process_payment strategies code n processor w)
  unfolding process_payment get_retry_strategy
  process_payment-Paid code n processor w all = elim (Option-cases (lookup code strategies)) [
    | inl e ↦ rw (e, process_payment, get_retry_strategy) (no_strategy e)
    | inr (s, e) ↦ elim (dec_lt 0 n) [
      | no z ↦
          let zero_number : n ≡ 0 = omega arith in
          rw (e, process_payment, get_retry_strategy, no_rate s.per_attempt_rates n zero_number)
            (no_number zero_number (λ q. cc))
      | yes h ↦
          let (r, q, at) = success_rate_total s.per_attempt_rates n h (all code s e).has_rates in
          rw (e, process_payment, get_retry_strategy, q) (drawn s r e h at)
    ]
  ]
