-- ===== src/Examples/Races.antt =====
-- Two calls of ExecuteRetry that carry out the same attempt at the same time.
use zenithpay_retry.Base.{String, ◌≢◌, pos, ◌≡◌, refl, some, [], ◌∷◌, All, lookup, done, ok, err}
use zenithpay_retry.Float.{Micros, micros_float}
use zenithpay_retry.Time.{hours}
use zenithpay_retry.Domain.Models.{RetryAttempt}
use zenithpay_retry.Domain.Decline.{get_retry_strategy, default_strategies}
use zenithpay_retry.Lifecycle.{IsLive}
use zenithpay_retry.Lifecycle.Attempts.{Fits}
use zenithpay_retry.Store.{get, update_func, clear}
use zenithpay_retry.Retry.World.{World, not_retryable}
use zenithpay_retry.Retry.Simulator.{process_payment, success_rate, refusal}
use zenithpay_retry.Retry.Execute.{
  Intent, crash, attempt, attempt_of, prepare, simulate, commit, record_attempt,
}
use zenithpay_retry.Retry.Execute.Effects.{IsSafe}
use zenithpay_retry.Retry.Concurrent.{
  paying, recording, Reach, idle, next, begins, pays, records, submits,
}
use zenithpay_retry.Retry.Concurrent.Resets.{
  Overlaps, quiet, change, steps, clears_store, clears_log,
}
use zenithpay_retry.Retry.Concurrent.Resets.Safe.{IsCalm, Overlaps-IsSafe}
use zenithpay_retry.Retry.Submit.{submit}
use zenithpay_retry.Webhook.{clear_events}
use zenithpay_retry.Retry.Concurrent.Commit.{commit_once}
use zenithpay_retry.Retry.Concurrent.Safe.{CannotPanic, Reach-IsSafe}
use zenithpay_retry.Examples.Scenario.{
  table, table-AllComplete, no_time, plan, request, waiting_tx, waiting, waiting-IsSafe,
}

abbrev intent : Intent
intent = record {
  tx = waiting_tx;
  attempt_num = 1;
  processor = "dlocal_br";
  scheduled_at = hours 1;
}

both_read : prepare "txn_2" waiting.store ≡ attempt intent
unfolding prepare get lookup
both_read = refl

abbrev paid_attempt : RetryAttempt
paid_attempt = attempt_of intent (refusal "authentication_failed" 1 "dlocal_br") (pos 0)

abbrev paid_world : World Micros
paid_world = record waiting { draws = 1; ticks = 1 }

paid : simulate table intent waiting ≡ (paid_world, done paid_attempt)
unfolding simulate process_payment get_retry_strategy default_strategies success_rate lookup
paid = refl

-- Both calls have read the transaction, and one has been carried through.
race :
    Reach table no_time waiting
      (commit "txn_2" intent paid_attempt paid_world).0
      (paying "txn_2" intent ∷ [])
race =
    next
      (next
        (next (next idle (begins "txn_2" intent [] both_read))
          (begins "txn_2" intent (paying "txn_2" intent ∷ []) both_read))
        (pays [] "txn_2" intent (paying "txn_2" intent ∷ []) paid_world paid_attempt paid))
      (records [] "txn_2" intent paid_attempt (paying "txn_2" intent ∷ []))

Reach-IsSafe_example :
    let w = (commit "txn_2" intent paid_attempt paid_world).0 in
    IsSafe w × All (CannotPanic table w) (paying "txn_2" intent ∷ [])
Reach-IsSafe_example =
    Reach-IsSafe table table-AllComplete no_time waiting
      (commit "txn_2" intent paid_attempt paid_world).0 (paying "txn_2" intent ∷ []) waiting-IsSafe
      race

found : lookup "txn_2" waiting.store.transactions ≡ some waiting_tx
unfolding lookup
found = refl

first_succeeds : (commit "txn_2" intent paid_attempt waiting).1 ≡ ok tt
unfolding commit update_func record_attempt lookup attempt_of refusal
first_succeeds = refl

fits : Fits plan 0 paid_attempt
unfolding attempt_of
fits = record { numbered = refl; routed = refl; timed = refl }

waiting_tx-IsLive : IsLive waiting_tx
waiting_tx-IsLive = waiting-IsSafe.live "txn_2" waiting_tx found

commit_once_example :
    let (w', _) = commit "txn_2" intent paid_attempt waiting in
    let (w'', r) = commit "txn_2" intent paid_attempt w' in
    (w''.store ≡ w'.store) × (w''.notifier ≡ w'.notifier) × (r ≡ err not_retryable)
commit_once_example =
    commit_once "txn_2" intent intent paid_attempt paid_attempt waiting waiting_tx plan 0 found
      waiting_tx-IsLive refl fits refl first_succeeds

-- The data are cleared and a transaction is submitted under the same id while a call is under way.
abbrev cleared : World Micros
cleared = record paid_world {
  store = clear paid_world.store;
  notifier = clear_events paid_world.notifier;
}

abbrev resubmitted : World Micros
resubmitted = (submit table no_time (record request { transaction_id = "txn_2" }) cleared).0

overlap : Overlaps table no_time waiting (commit "txn_2" intent paid_attempt resubmitted).0 []
overlap =
    change
      (change
        (change
          (change
            (change
              (change quiet
                (steps waiting (paying "txn_2" intent ∷ []) (begins "txn_2" intent [] both_read)))
              (steps paid_world (recording "txn_2" intent paid_attempt ∷ [])
                (pays [] "txn_2" intent [] paid_world paid_attempt paid)))
            clears_store)
          clears_log)
        (steps resubmitted (recording "txn_2" intent paid_attempt ∷ []) (
          submits (record request { transaction_id = "txn_2" })
            (recording "txn_2" intent paid_attempt ∷ []))))
      (steps (commit "txn_2" intent paid_attempt resubmitted).0 []
        (records [] "txn_2" intent paid_attempt []))

Overlaps-IsSafe_example :
    let w = (commit "txn_2" intent paid_attempt resubmitted).0 in
    IsCalm w.store × All (CannotPanic table w) [] × ((id : String) → prepare id w.store ≢ crash)
Overlaps-IsSafe_example =
    Overlaps-IsSafe table table-AllComplete no_time waiting
      (commit "txn_2" intent paid_attempt resubmitted).0 [] waiting-IsSafe overlap
