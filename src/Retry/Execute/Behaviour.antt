-- ===== src/Retry/Execute/Behaviour.antt =====
-- ExecuteRetry on a store of live transactions: the four ways in which a call ends.
use mathlib.Core.Path.{subst}
use zenithpay_retry.Base.{
  ℕ, suc, ◌+◌, ◌-◌, ◌≡◌, refl, ap, sym, ◌∙◌, String, true, false, none, some, Dict, length, lookup,
  done, Outcome, ok, err, arith,
}
use zenithpay_retry.Float.{Float64}
use zenithpay_retry.Time.{Time}
use zenithpay_retry.Domain.Models.{
  Transaction, TransactionStatus, failed_final, RetryPlan, RetryAttempt, retry_exhausted,
}
use zenithpay_retry.Domain.Decline.{RetryStrategy}
use zenithpay_retry.Domain.Decline.Plan.{AllComplete}
use zenithpay_retry.Store.{put}
use zenithpay_retry.Store.Updates.{update_func-eq_put}
use zenithpay_retry.Webhook.{send}
use zenithpay_retry.Lifecycle.{AllLive}
use zenithpay_retry.Lifecycle.Attempts.{Fits}
use zenithpay_retry.Lifecycle.Advance.{IsWaiting, IsRecorded, record_attempt-IsRecorded}
use zenithpay_retry.Retry.World.{
  World, now, tick, notify, EngineError, unknown_id, not_retryable, attempts_exhausted,
}
use zenithpay_retry.Retry.Execute.{
  Intent, Prepared, is_eligible, mark_exhausted, record_attempt, event_for, report, commit, give_up,
  simulate, carry_out, after_prepare, prepare, execute_retry,
}
use zenithpay_retry.Retry.Execute.Payments.{IsAnswered, simulate_total}
use zenithpay_retry.Retry.Execute.Reads.{
  IsAimed, Read, absent, ineligible, used_up, ready, prepare-Read,
}

abbrev pub marked : Time → Transaction → Transaction
marked t tx = record tx { status = failed_final; next_retry_at = none; updated_at = t }

module _ {F : Type 0} ⦃f : Float64 F⦄ (strategies : Dict (RetryStrategy F)) where
  -- The payment is the one that the simulator answers for the transaction and the attempt; the
  -- clock is read after it, for the update and for the event, in this order.
  pub record IsPerformed (tx u : Transaction) (a : RetryAttempt) (t : Time) (w w' : World F)
      : Type 0 where
    pub paid_in : World F
    pub answered : IsAnswered strategies tx.decline_code w paid_in a
    pub updated : u.updated_at ≡ now paid_in
    pub sent : t ≡ now (tick paid_in)
    pub same_draws : w'.draws ≡ paid_in.draws
    pub two_readings : w'.ticks ≡ suc (suc paid_in.ticks)

  -- What a call did to the world `w` and what it returned.
  pub data Executed (id : String) (w w' : World F) (r : Outcome EngineError (Unit {0}))
      : Type 0 where
    not_there :
        lookup id w.store.transactions ≡ none → w' ≡ w → r ≡ err unknown_id → Executed id w w' r
    not_now :
        (tx : Transaction)
        → lookup id w.store.transactions ≡ some tx
        → is_eligible tx.status ≡ false
        → w' ≡ w
        → r ≡ err not_retryable
        → Executed id w w' r
    none_left :
        (tx u : Transaction) (p : RetryPlan) (t t' : Time)
        → lookup id w.store.transactions ≡ some tx
        → is_eligible tx.status ≡ true
        → IsWaiting p tx
        → length tx.retry_attempts ≡ p.max_attempts
        → u ≡ marked t tx
        → w'.store ≡ put id u w.store
        → w'.notifier ≡ send tx retry_exhausted (length tx.retry_attempts) t' w.notifier
        → r ≡ err attempts_exhausted
        → (t ≡ now w) × (t' ≡ now (tick w))
        → Executed id w w' r
    tried :
        (tx u : Transaction) (p : RetryPlan) (a : RetryAttempt) (st : TransactionStatus) (t : Time)
        → lookup id w.store.transactions ≡ some tx
        → is_eligible tx.status ≡ true
        → IsWaiting p tx
        → Fits p (length tx.retry_attempts) a
        → IsRecorded p tx a u st
        → w'.store ≡ put id u w.store
        → w'.notifier ≡ send tx (event_for st) a.attempt_number t w.notifier
        → r ≡ ok tt
        → IsPerformed tx u a t w w'
        → Executed id w w' r

  give_up-Executed :
      (id : String) (w : World F) (tx : Transaction) (p : RetryPlan)
      → lookup id w.store.transactions ≡ some tx
      → is_eligible tx.status ≡ true
      → IsWaiting p tx
      → length tx.retry_attempts ≡ p.max_attempts
      → let (w', r) = give_up id tx (length tx.retry_attempts + 1) w in Executed id w w' r
  unfolding give_up notify mark_exhausted
  give_up-Executed id w tx p e may h full =
      let back : length tx.retry_attempts + 1 - 1 ≡ length tx.retry_attempts = omega arith in
      let saved =
        update_func-eq_put id (mark_exhausted (now w)) w.store tx (marked (now w) tx) tt e refl in
      none_left tx (marked (now w) tx) p (now w) (now (tick w)) e may h full refl
        (ap (λ x. x.0) saved)
        (ap (λ (k : ℕ). send tx retry_exhausted k (now (tick w)) w.notifier) back) refl (refl, refl)

  commit-Executed :
      (id : String) (w w₁ : World F) (tx : Transaction) (p : RetryPlan) (i : Intent)
      (a : RetryAttempt)
      → lookup id w.store.transactions ≡ some tx
      → is_eligible tx.status ≡ true
      → IsWaiting p tx
      → i.tx ≡ tx
      → i.attempt_num ≡ a.attempt_number
      → Fits p (length tx.retry_attempts) a
      → w₁.store ≡ w.store
      → w₁.notifier ≡ w.notifier
      → IsAnswered strategies tx.decline_code w w₁ a
      → let (w', r) = commit id i a w₁ in Executed id w w' r
  unfolding commit report notify
  commit-Executed id w w₁ tx p i a e may h it num fits same_store same_events answer =
      let (u, st, rec, timed, done_well) = record_attempt-IsRecorded p tx a (now w₁) may h fits in
      let saved =
        update_func-eq_put id (record_attempt a (now w₁)) w₁.store tx u st
          (ap (λ s. lookup id s.transactions) same_store ∙ e) rec in
      rw (saved, commit)
        (tried tx u p a st (now (tick w₁)) e may h fits done_well (ap (put id u) same_store) (cc)
          refl
          (record {
            paid_in = w₁;
            answered = answer;
            updated = timed;
            sent = refl;
            same_draws = refl;
            two_readings = refl;
          }))

  carry_out_from :
      (id : String) (i : Intent) (w w₁ : World F) (a : RetryAttempt)
      → simulate strategies i w ≡ (w₁, done a)
      → carry_out strategies id i w ≡ commit id i a w₁
  unfolding carry_out
  carry_out_from id i w w₁ a e = ground arith

  carry_out-Executed :
      (id : String) (w : World F) (tx : Transaction) (p : RetryPlan) (i : Intent)
      → AllComplete strategies
      → lookup id w.store.transactions ≡ some tx
      → is_eligible tx.status ≡ true
      → IsWaiting p tx
      → IsAimed p tx i
      → let (w', r) = carry_out strategies id i w in Executed id w w' r
  carry_out-Executed id w tx p i all e may h aim =
      let (w₁, a, sim, same_store, same_events, num, pr, at, answer) =
        simulate_total strategies i w all (omega (arith, aim.number)) in
      subst (λ x. Executed id w x.0 x.1) (sym (carry_out_from id i w w₁ a sim))
        (commit-Executed id w w₁ tx p i a e may h aim.of_tx (sym num)
          (record {
            numbered = num ∙ aim.number;
            routed = aim.routed ∙ ap some (sym pr);
            timed = aim.timed ∙ ap some (sym at);
          })
          same_store same_events
          (subst (λ v. IsAnswered strategies v.decline_code w w₁ a) aim.of_tx answer))

  after-Executed :
      (id : String) (w : World F) (q : Prepared)
      → AllComplete strategies
      → Read id w.store q
      → let (w', r) = after_prepare strategies id q w in Executed id w w' r
  unfolding after_prepare
  after-Executed id w q all (absent e) = not_there e refl refl
  after-Executed id w q all (ineligible tx e no_more) = not_now tx e no_more refl refl
  after-Executed id w q all (used_up tx p e may h full) = give_up-Executed id w tx p e may h full
  after-Executed id w q all (ready tx p i e may h aim) =
      carry_out-Executed id w tx p i all e may h aim

  -- With complete strategies and live transactions, ExecuteRetry ends in one of four ways: the id
  -- is unknown, the transaction is not eligible, no attempt is left, or the next attempt of the
  -- plan is recorded; each with its store, event and result. The recorded attempt says what the
  -- simulator answers for the transaction's decline code, the processor and the attempt number, and
  -- when; nothing else of the transaction changes than its status, attempts, next retry and time of
  -- update, and all times are those that the clock shows in the order of the calls.
  pub execute_retry-Executed :
      (id : String) (w : World F)
      → AllComplete strategies
      → AllLive w.store
      → let (w', r) = execute_retry strategies id w in Executed id w w' r
  unfolding execute_retry
  execute_retry-Executed id w all live =
      after-Executed id w (prepare id w.store) all (prepare-Read id w.store live)
