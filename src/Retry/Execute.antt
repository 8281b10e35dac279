-- ===== src/Retry/Execute.antt =====
-- internal/retry/engine.go, ExecuteRetry. The log output is left out. It reads the store, simulates
-- the payment outside the store's lock and then updates the store: these steps are functions of
-- their own, so that calls can also be interleaved.
pub mod Reads
pub mod Payments
pub mod Behaviour
pub mod Effects
pub mod Diagram
pub mod Moves
use zenithpay_retry.Base.{
  ℕ, zero, suc, ◌+◌, ◌-◌, String, Bool, true, false, Option, none, some, List, [], ◌∷◌, ◌++◌, Dict,
  Run, done, panic, get_elem?, length, ltb, leb, ◌==◌, Outcome, ok, err, panicked, if◌then◌else◌,
}
use zenithpay_retry.Float.{Float64}
use zenithpay_retry.Time.{Time}
use zenithpay_retry.Domain.Models.{
  Transaction, TransactionStatus, scheduled, retrying, recovered, failed_final, rejected, EventType,
  retry_succeeded, retry_failed, retry_exhausted, RetryPlan, RetryAttempt,
}
use zenithpay_retry.Domain.Decline.{RetryStrategy}
use zenithpay_retry.Store.{Store, UpdateError, missing, refused, update_func, get}
use zenithpay_retry.Retry.World.{
  World, now, tick, notify, EngineError, unknown_id, not_retryable, attempts_exhausted,
}
use zenithpay_retry.Retry.Simulator.{SimResult, process_payment}

-- status != scheduled && status != retrying, negated
unfoldable pub is_eligible : TransactionStatus → Bool
is_eligible scheduled = true
is_eligible retrying = true
is_eligible _ = false

-- What an attempt needs from the transaction as it was read.
pub record Intent : Type 0 where
  pub tx : Transaction
  pub attempt_num : ℕ
  pub processor : String
  pub scheduled_at : Time

-- What ExecuteRetry decides from its first read of the store.
pub data Prepared : Type 0 where
  refuse : EngineError → Prepared
  exhaust : Transaction → ℕ → Prepared
  attempt : Intent → Prepared
  crash : Prepared

-- The two reads of the plan at the attempt's index.
unfoldable pub aim : Transaction → ℕ → Option String → Option Time → Prepared
aim tx attempt_num (some processor) (some at) =
    attempt
      (record { tx = tx; attempt_num = attempt_num; processor = processor; scheduled_at = at })
aim tx attempt_num _ _ = crash

unfoldable pub prepare_planned : Transaction → RetryPlan → Prepared
unfolding aim
prepare_planned tx plan =
    let attempt_num = length tx.retry_attempts + 1 in
    if ltb plan.max_attempts attempt_num
    then exhaust tx attempt_num
    else aim tx attempt_num (get_elem? plan.processors (attempt_num - 1))
        (get_elem? plan.scheduled_times (attempt_num - 1))

unfoldable pub prepare_tx : Transaction → Prepared
unfolding is_eligible prepare_planned
prepare_tx tx =
    if is_eligible tx.status
    then elim tx.retry_plan [ none ↦ refuse not_retryable | some plan ↦ prepare_planned tx plan ]
    else refuse not_retryable

-- From the read of the store up to the simulation.
unfoldable pub prepare : String → Store → Prepared
unfolding prepare_tx
prepare id s = elim (get id s) [ none ↦ refuse unknown_id | some tx ↦ prepare_tx tx ]

-- The callback that marks a transaction as exhausted, at the time `t`.
unfoldable pub mark_exhausted : Time → Transaction → Outcome EngineError (Transaction × Unit {0})
mark_exhausted t tx =
    ok (record tx { status = failed_final; next_retry_at = none; updated_at = t }, tt)

-- The status and the next retry after the attempt of that number.
unfoldable pub settle :
    RetryPlan → RetryAttempt → Transaction → Outcome EngineError (Transaction × TransactionStatus)
settle plan a tx =
    if a.success
    then ok (record tx { status = recovered; next_retry_at = none }, recovered)
    else if leb plan.max_attempts a.attempt_number
    then ok (record tx { status = failed_final; next_retry_at = none }, failed_final)
    else elim (get_elem? plan.scheduled_times a.attempt_number) [
      | none ↦ panicked
      | some next ↦ ok (record tx { status = retrying; next_retry_at = some next }, retrying)
    ]

-- A nil plan is dereferenced only after a failed attempt.
unfoldable pub settle_optional :
    Option RetryPlan
    → RetryAttempt
    → Transaction
    → Outcome EngineError (Transaction × TransactionStatus)
unfolding settle
settle_optional (some plan) a tx = settle plan a tx
settle_optional none a tx =
    if a.success
    then ok (record tx { status = recovered; next_retry_at = none }, recovered)
    else panicked

-- The callback that records an attempt at the time `t`, after checking that the transaction is
-- still eligible and that no other call has recorded an attempt since.
unfoldable pub record_attempt :
    RetryAttempt → Time → Transaction → Outcome EngineError (Transaction × TransactionStatus)
unfolding is_eligible settle_optional
record_attempt a t tx =
    if is_eligible tx.status
    then if length tx.retry_attempts + 1 == a.attempt_number
      then settle_optional tx.retry_plan a
          (record tx { retry_attempts = tx.retry_attempts ++ a ∷ []; updated_at = t })
      else err not_retryable
    else err not_retryable

-- UpdateFunc's error as ExecuteRetry returns it.
unfoldable pub update_error : UpdateError EngineError → EngineError
update_error missing = unknown_id
update_error (refused e) = e

-- The event that is sent for the final status.
unfoldable pub event_for : TransactionStatus → EventType
event_for recovered = retry_succeeded
event_for failed_final = retry_exhausted
event_for _ = retry_failed

-- The record of an attempt that was carried out at the time `executed`.
unfoldable pub attempt_of : Intent → SimResult → Time → RetryAttempt
attempt_of i result executed = record {
  attempt_number = i.attempt_num;
  processor = i.processor;
  scheduled_at = i.scheduled_at;
  executed_at = executed;
  success = result.success;
  response_code = result.response_code;
  response_msg = result.response_message;
}

module _ {F : Type 0} where
  -- The update with the attempt's result, and the event about it. The event is built from the
  -- transaction as it was read before the attempt.
  unfoldable pub report :
      Intent
      → World F
      → Outcome (UpdateError EngineError) TransactionStatus
      → World F × Outcome EngineError (Unit {0})
  unfolding event_for update_error
  report i w (ok status) = (notify i.tx (event_for status) i.attempt_num w, ok tt)
  report i w (err e) = (w, err (update_error e))
  report i w panicked = (w, panicked)

  unfoldable pub commit :
      String → Intent → RetryAttempt → World F → World F × Outcome EngineError (Unit {0})
  unfolding report
  commit id i a w =
      let (s, result) = update_func id (record_attempt a (now w)) w.store in
      report i (record w { store = s; ticks = suc w.ticks }) result

  -- The branch that finds no attempt left; UpdateFunc's error is not looked at.
  unfoldable pub give_up :
      String → Transaction → ℕ → World F → World F × Outcome EngineError (Unit {0})
  give_up id tx attempt_num w =
      let (s, _) = update_func id (mark_exhausted (now w)) w.store in
      (
        notify tx retry_exhausted (attempt_num - 1) (record w { store = s; ticks = suc w.ticks }),
        err attempts_exhausted,
      )

module _ {F : Type 0} ⦃f : Float64 F⦄ (strategies : Dict (RetryStrategy F)) where
  -- The payment, outside the store's lock.
  unfoldable pub simulate : Intent → World F → World F × Run RetryAttempt
  simulate i w =
      let (w', result) = process_payment strategies i.tx.decline_code i.attempt_num i.processor w in
      elim result [ panic ↦ (w', panic) | done r ↦ (tick w', done (attempt_of i r (now w'))) ]

  unfoldable pub carry_out : String → Intent → World F → World F × Outcome EngineError (Unit {0})
  carry_out id i w =
      let (w', result) = simulate i w in
      elim result [ panic ↦ (w', panicked) | done a ↦ commit id i a w' ]

  unfoldable pub after_prepare :
      String → Prepared → World F → World F × Outcome EngineError (Unit {0})
  after_prepare id (refuse e) w = (w, err e)
  after_prepare id (exhaust tx n) w = give_up id tx n w
  after_prepare id (attempt i) w = carry_out id i w
  after_prepare id crash w = (w, panicked)

  -- ExecuteRetry
  unfoldable pub execute_retry : String → World F → World F × Outcome EngineError (Unit {0})
  execute_retry id w = after_prepare id (prepare id w.store) w
