-- ===== src/Examples/Calls.antt =====
-- Submit, ExecuteRetry and ProcessAllPending on the scenario.
use mathlib.Core.Option.{some-injective}
use zenithpay_retry.Base.{
  ◌≡◌, str_eq, refl, ap, sym, ◌∙◌, String, true, false, some, [], ◌∷◌, ◌++◌, lookup, ok, ◌&&◌,
  if◌then◌else◌, arith,
}
use zenithpay_retry.Float.{micros_float}
use zenithpay_retry.Time.{hours}
use zenithpay_retry.Domain.Models.{
  retrying, Transaction, RetryAttempt, TransactionStatus, WebhookEvent,
}
use zenithpay_retry.Store.Index.{pending_tx}
use zenithpay_retry.Lifecycle.Advance.{IsWaiting, IsRecorded, record_attempt-IsRecorded}
use zenithpay_retry.Retry.Submit.{submit}
use zenithpay_retry.Retry.Submit.Behaviour.{Submitted, submit-Submitted}
use zenithpay_retry.Retry.Simulator.{process_payment, success_rate, refusal}
use zenithpay_retry.Domain.Decline.{get_retry_strategy, default_strategies}
use zenithpay_retry.Store.{get, update_func, is_pending_status, is_due}
use zenithpay_retry.Retry.Execute.{
  is_eligible, attempt_of, settle, settle_optional, record_attempt, commit, simulate, carry_out,
  after_prepare, prepare, execute_retry,
}
use zenithpay_retry.Retry.Execute.Behaviour.{Executed, execute_retry-Executed}
use zenithpay_retry.Retry.Execute.Effects.{IsSafe}
use zenithpay_retry.Retry.Execute.Moves.{Moved, execute_retry-Moved, IsLogged, execute_retry-logs}
use zenithpay_retry.Retry.World.{now}
use zenithpay_retry.Retry.Batch.Due.{OneMore, process_due_retries-attempts}
use zenithpay_retry.Retry.Batch.{process_due_retries, Tally, finished, process_all_pending}
use zenithpay_retry.Retry.Batch.Drain.{Enough}
use zenithpay_retry.Retry.Batch.Total.{process_all_pending-total}
use zenithpay_retry.Examples.Scenario.{
  table, table-AllComplete, no_time, start, request, plan, waiting_tx, waiting, waiting-IsSafe,
  waiting_order, only_waiting,
}

submit-Submitted_example :
    let (w', r) = submit table no_time request start in Submitted table no_time request start w' r
submit-Submitted_example = submit-Submitted table no_time request start table-AllComplete

execute_retry-Executed_example :
    let (w', r) = execute_retry table "txn_2" waiting in Executed table "txn_2" waiting w' r
execute_retry-Executed_example =
    execute_retry-Executed table "txn_2" waiting table-AllComplete waiting-IsSafe.live

found_waiting : lookup "txn_2" waiting.store.transactions ≡ some waiting_tx
unfolding lookup
found_waiting = refl

execute_retry-Moved_example :
    Moved "txn_2" (execute_retry table "txn_2" waiting).0.store "txn_2" waiting_tx
execute_retry-Moved_example =
    execute_retry-Moved table "txn_2" "txn_2" waiting waiting_tx table-AllComplete waiting-IsSafe
      found_waiting

first_call_succeeds : (execute_retry table "txn_2" waiting).1 ≡ ok tt
unfolding execute_retry after_prepare prepare get lookup carry_out simulate process_payment
    get_retry_strategy default_strategies success_rate commit update_func record_attempt attempt_of
    refusal
first_call_succeeds = refl

execute_retry-logs_example :
    let w' = (execute_retry table "txn_2" waiting).0 in
    (tx u : Transaction) × (e : WebhookEvent) × (lookup "txn_2" waiting.store.transactions
      ≡ some tx)
    × (lookup "txn_2" w'.store.transactions ≡ some u)
    × (is_eligible tx.status ≡ true)
    × (w'.notifier.events ≡ waiting.notifier.events ++ e ∷ [])
    × (w'.notifier.deliveries ≡ (
        if str_eq tx.webhook_url ""
        then waiting.notifier.deliveries
        else waiting.notifier.deliveries ++ (tx.webhook_url, e) ∷ []))
    × IsLogged tx u e
execute_retry-logs_example =
    execute_retry-logs table "txn_2" waiting table-AllComplete waiting-IsSafe first_call_succeeds

round_budget : (id : String) → Enough 2 id waiting
round_budget id tx p e planned =
    let same : p ≡ plan =
      some-injective _ _
        (sym planned ∙ ap (λ (x : Transaction). x.retry_plan) (only_waiting id tx e).1) in
    rw same (omega arith)

process_all_pending-total_example :
    let (w', pr) = process_all_pending table 3 ("txn_2" ∷ []) waiting in
    ((t : Tally) × (pr ≡ finished t))
    × IsSafe w'
    × ((id : String) → pending_tx (lookup id w'.store.transactions) ≡ false)
process_all_pending-total_example =
    process_all_pending-total table 2 ("txn_2" ∷ []) waiting table-AllComplete waiting-IsSafe
      waiting_order round_budget

abbrev first_attempt : RetryAttempt
first_attempt = record {
  attempt_number = 1;
  processor = "dlocal_br";
  scheduled_at = hours 1;
  executed_at = hours 2;
  success = false;
  response_code = "DECLINE_authentication_failed";
  response_msg = "";
}

-- The transaction that a reset and a new submission leave under the same id, with its own plan.
abbrev resubmitted_tx : Transaction
resubmitted_tx = record waiting_tx {
  retry_plan = some (record plan { processors = "stripe_latam" ∷ "stripe_latam" ∷ [] });
}

-- The update of a call that was under way since before the reset lets its attempt pass, although it
-- went to a processor of the old plan.
stale_attempt_recorded :
    (u : Transaction) × (record_attempt first_attempt (hours 2) resubmitted_tx ≡ ok (u, retrying))
    × (u.retry_attempts ≡ first_attempt ∷ [])
unfolding record_attempt settle_optional settle is_eligible
stale_attempt_recorded = (_, refl, refl)

waiting_tx-IsWaiting : IsWaiting plan waiting_tx
waiting_tx-IsWaiting = record {
  on_plan = record { planned = refl; soft = refl; times = refl; routes = refl; follows = tt };
  failed = tt;
  within = omega arith;
  next = refl;
}

record_attempt-IsRecorded_example :
    (u : Transaction) × (st : TransactionStatus) × (record_attempt first_attempt
        (hours 2)
        waiting_tx
      ≡ ok (u, st))
    × (u.updated_at ≡ hours 2)
    × IsRecorded plan waiting_tx first_attempt u st
unfolding is_eligible
record_attempt-IsRecorded_example =
    record_attempt-IsRecorded plan waiting_tx first_attempt (hours 2) refl waiting_tx-IsWaiting
      (record { numbered = refl; routed = refl; timed = refl })

process_due_retries-attempts_example :
    let w = record waiting { clock = λ n. hours 2 } in
    let (w', through) = process_due_retries table ("txn_2" ∷ []) w in
    (through ≡ true)
    × (if is_pending_status waiting_tx.status && is_due (now w) waiting_tx
        then OneMore waiting_tx (lookup "txn_2" w'.store.transactions)
        else lookup "txn_2" w'.store.transactions ≡ some waiting_tx)
process_due_retries-attempts_example =
    process_due_retries-attempts table ("txn_2" ∷ []) (record waiting { clock = λ n. hours 2 })
      waiting_tx table-AllComplete
      (record { live = waiting-IsSafe.live; indexed = waiting-IsSafe.indexed }) waiting_order
      found_waiting
