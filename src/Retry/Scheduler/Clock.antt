-- ===== src/Retry/Scheduler/Clock.antt =====
-- ExecuteRetry reads the clock, and only moves it on.
use zenithpay_retry.Base.{
  ℕ, suc, ◌≤◌, ◌≡◌, refl, ◌∙◌, String, Dict, Run, done, panic, Outcome, ok, err, panicked, arith,
}
use zenithpay_retry.Float.{Float64}
use zenithpay_retry.Domain.Models.{TransactionStatus, RetryAttempt}
use zenithpay_retry.Domain.Decline.{RetryStrategy}
use zenithpay_retry.Store.{UpdateError, update_func}
use zenithpay_retry.Retry.World.{World, EngineError, now, tick, notify}
use zenithpay_retry.Retry.Simulator.{SimResult, process_payment}
use zenithpay_retry.Retry.Simulator.Rates.{
  Paid, no_strategy, no_number, drawn, process_payment-Paid,
}
use zenithpay_retry.Domain.Decline.Plan.{AllComplete}
use zenithpay_retry.Retry.Execute.{
  Intent, Prepared, refuse, exhaust, attempt, crash, report, commit, give_up, simulate, carry_out,
  after_prepare, prepare, execute_retry, attempt_of, record_attempt,
}

-- The same clock, at the same reading or a later one.
abbrev pub GoesOn : {F : Type 0} → World F → World F → Type 0
GoesOn w w' = (w'.clock ≡ w.clock) × (w.ticks ≤ w'.ticks)

module _ {F : Type 0} where
  report-GoesOn :
      (i : Intent) (w : World F) (r : Outcome (UpdateError EngineError) TransactionStatus)
      → GoesOn w (report i w r).0
  unfolding report notify
  report-GoesOn i w (ok status) = (refl, omega arith)
  report-GoesOn i w (err e) = (refl, omega arith)
  report-GoesOn i w panicked = (refl, omega arith)

module _ {F : Type 0} ⦃f : Float64 F⦄ (strategies : Dict (RetryStrategy F)) where
  Paid-GoesOn :
      (code processor : String) (n : ℕ) (w : World F) (x : World F × Run SimResult)
      → Paid strategies code n processor w x
      → GoesOn w x.0
  Paid-GoesOn code processor n w x (no_strategy e) = (refl, omega arith)
  Paid-GoesOn code processor n w x (no_number z e) = (refl, omega arith)
  Paid-GoesOn code processor n w x (drawn s r e h q) = (refl, omega arith)

  after_payment :
      (i : Intent) (w w' : World F) (r : Run SimResult)
      → GoesOn w w'
      → GoesOn w
          (elim r as (λ _. World F × Run RetryAttempt) [
            | panic ↦ (w', panic)
            | done r ↦ (tick w', done (attempt_of i r (now w')))
          ]).0
  after_payment i w w' panic h = h
  after_payment i w w' (done r) (same, later) = (same, omega (arith, later))

  after_simulate :
      (id : String) (i : Intent) (w w' : World F) (r : Run RetryAttempt)
      → GoesOn w w'
      → GoesOn w
          (elim r as (λ _. World F × Outcome EngineError (Unit {0})) [
            | panic ↦ (w', panicked)
            | done a ↦ commit id i a w'
          ]).0
  unfolding commit
  after_simulate id i w w' panic h = h
  after_simulate id i w w' (done a) (same, later) =
      let (s, result) = update_func id (record_attempt a (now w')) w'.store in
      let (same', later') =
        report-GoesOn i (record w' { store = s; ticks = suc w'.ticks }) result in
      (same' ∙ same, omega (arith, later, later'))

  carry_out-GoesOn :
      (id : String) (i : Intent) (w : World F)
      → AllComplete strategies
      → GoesOn w (carry_out strategies id i w).0
  unfolding carry_out simulate
  carry_out-GoesOn id i w all =
      let (w', r) = process_payment strategies i.tx.decline_code i.attempt_num i.processor w in
      let h =
        Paid-GoesOn i.tx.decline_code i.processor i.attempt_num w (w', r)
          (process_payment-Paid strategies i.tx.decline_code i.attempt_num i.processor w all) in
      let (w'', a) = simulate strategies i w in
      after_simulate id i w w'' a (after_payment i w w' r h)

  after_prepare-GoesOn :
      (id : String) (q : Prepared) (w : World F)
      → AllComplete strategies
      → GoesOn w (after_prepare strategies id q w).0
  unfolding after_prepare give_up notify
  after_prepare-GoesOn id (refuse e) w all = (refl, omega arith)
  after_prepare-GoesOn id (exhaust tx n) w all = (refl, omega arith)
  after_prepare-GoesOn id (attempt i) w all = carry_out-GoesOn id i w all
  after_prepare-GoesOn id crash w all = (refl, omega arith)

  pub execute_retry-GoesOn :
      (id : String) (w : World F)
      → AllComplete strategies
      → GoesOn w (execute_retry strategies id w).0
  unfolding execute_retry
  execute_retry-GoesOn id w all = after_prepare-GoesOn id (prepare id w.store) w all
