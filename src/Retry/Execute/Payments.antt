-- ===== src/Retry/Execute/Payments.antt =====
-- internal/retry/engine.go, ExecuteRetry: the attempt that comes of a simulated payment.
use zenithpay_retry.Base.{◌≡◌, ◌<◌, refl, ℕ, String, Dict, Run, done, arith}
use zenithpay_retry.Float.{Float64}
use zenithpay_retry.Domain.Models.{RetryAttempt}
use zenithpay_retry.Domain.Decline.{RetryStrategy}
use zenithpay_retry.Domain.Decline.Plan.{AllComplete}
use zenithpay_retry.Retry.World.{World, now, tick}
use zenithpay_retry.Retry.Simulator.{SimResult, process_payment}
use zenithpay_retry.Retry.Simulator.Rates.{
  Paid, no_strategy, no_number, drawn, process_payment-Paid,
}
use zenithpay_retry.Retry.Execute.{Intent, attempt_of, simulate}

module _ {F : Type 0} ⦃f : Float64 F⦄ (strategies : Dict (RetryStrategy F)) where
  -- The attempt says what the simulator answered to the payment, and when.
  pub record IsAnswered (code : String) (w w₁ : World F) (a : RetryAttempt) : Type 0 where
    pub after : World F
    pub result : SimResult
    pub paid : Paid strategies code a.attempt_number a.processor w (after, done result)
    pub same_success : a.success ≡ result.success
    pub same_code : a.response_code ≡ result.response_code
    pub same_message : a.response_msg ≡ result.response_message
    pub executed : a.executed_at ≡ now after
    pub then_on : w₁ ≡ tick after

  simulated_payment :
      (code processor : String) (n : ℕ) (w : World F) (x : World F × Run SimResult)
      → 0 < n
      → Paid strategies code n processor w x
      → (w' : World F) × (r : SimResult) × (x ≡ (w', done r))
        × (w'.store ≡ w.store)
        × (w'.notifier ≡ w.notifier)
        × Paid strategies code n processor w (w', done r)
  simulated_payment code processor n w x h (no_strategy e) = (w, _, refl, refl, refl, no_strategy e)
  simulated_payment code processor n w x h (no_number z e) = absurd (ground arith)
  simulated_payment code processor n w x h (drawn s r e k q) =
      (_, _, refl, refl, refl, drawn s r e k q)

  simulate_from :
      (i : Intent) (w w' : World F) (r : SimResult)
      → process_payment strategies i.tx.decline_code i.attempt_num i.processor w ≡ (w', done r)
      → simulate strategies i w ≡ (tick w', done (attempt_of i r (now w')))
  unfolding simulate
  simulate_from i w w' r e = ground arith

  -- A simulated payment gives an attempt for the intent with the simulator's answer, and leaves the
  -- store and the events alone.
  pub simulate_total :
      (i : Intent) (w : World F)
      → AllComplete strategies
      → 0 < i.attempt_num
      → (w' : World F) × (a : RetryAttempt) × (simulate strategies i w ≡ (w', done a))
        × (w'.store ≡ w.store)
        × (w'.notifier ≡ w.notifier)
        × (a.attempt_number ≡ i.attempt_num)
        × (a.processor ≡ i.processor)
        × (a.scheduled_at ≡ i.scheduled_at)
        × IsAnswered i.tx.decline_code w w' a
  unfolding attempt_of
  simulate_total i w all some_number =
      let (w', r, e, s, n, paid) =
        simulated_payment i.tx.decline_code i.processor i.attempt_num w _ some_number
          (process_payment-Paid strategies i.tx.decline_code i.attempt_num i.processor w all) in
      (
        tick w',
        attempt_of i r (now w'),
        simulate_from i w w' r e,
        s,
        n,
        refl,
        refl,
        refl,
        record {
          after = w';
          result = r;
          paid = paid;
          same_success = refl;
          same_code = refl;
          same_message = refl;
          executed = refl;
          then_on = refl;
        },
      )
