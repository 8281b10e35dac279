-- ===== src/Handler/Retries.antt =====
-- POST /api/transactions/{id}/retry.
use mathlib.Core.Path.{subst}
use zenithpay_retry.Base.{
  ◌≡◌, ◌≢◌, refl, sym, inl, inr, String, true, false, none, some, Dict, lookup, length, Outcome,
  str_eq, eq_iff, Bool-cases, arith,
}
use zenithpay_retry.Float.{Float64}
use zenithpay_retry.Domain.Models.{Transaction, RetryPlan, RetryAttempt}
use zenithpay_retry.Domain.Decline.{RetryStrategy}
use zenithpay_retry.Domain.Decline.Plan.{AllComplete}
use zenithpay_retry.Store.{put, get}
use zenithpay_retry.Store.Index.{lookup-put}
use zenithpay_retry.Lifecycle.Advance.{IsRecorded}
use zenithpay_retry.Retry.World.{World, EngineError, not_retryable, attempts_exhausted}
use zenithpay_retry.Retry.Execute.{is_eligible, execute_retry}
use zenithpay_retry.Retry.Execute.Behaviour.{
  Executed, not_there, not_now, none_left, tried, execute_retry-Executed,
}
use zenithpay_retry.Retry.Execute.Effects.{IsSafe}
use zenithpay_retry.Handler.{
  error_text, engine_failure, transaction, Reply, reply, retry_reply, handle_retry,
}

-- How the endpoint answers and what it does to the world.
pub data Retried {F : Type 0} (id : String) (w w' : World F) (r : Reply F) : Type 0 where
  unnamed :
      id ≡ "" → w' ≡ w → r ≡ reply 400 (error_text "transaction id is required") → Retried id w w' r
  unknown :
      id ≢ ""
      → lookup id w.store.transactions ≡ none
      → w' ≡ w
      → r ≡ reply 404 (error_text "transaction not found")
      → Retried id w w' r
  settled :
      (tx : Transaction)
      → lookup id w.store.transactions ≡ some tx
      → is_eligible tx.status ≡ false
      → w' ≡ w
      → r ≡ reply 422 (engine_failure not_retryable)
      → Retried id w w' r
  spent :
      (tx : Transaction) (p : RetryPlan)
      → lookup id w.store.transactions ≡ some tx
      → is_eligible tx.status ≡ true
      → tx.retry_plan ≡ some p
      → length tx.retry_attempts ≡ p.max_attempts
      → r ≡ reply 409 (engine_failure attempts_exhausted)
      → Retried id w w' r
  attempted :
      (tx u : Transaction) (p : RetryPlan) (a : RetryAttempt)
      → lookup id w.store.transactions ≡ some tx
      → is_eligible tx.status ≡ true
      → IsRecorded p tx a u u.status
      → w'.store ≡ put id u w.store
      → r ≡ reply 200 (transaction u)
      → Retried id w w' r

module _ {F : Type 0} ⦃f : Float64 F⦄ (strategies : Dict (RetryStrategy F)) where
  answered :
      (id : String) (w w' : World F) (r : Outcome EngineError (Unit {0}))
      → id ≢ ""
      → Executed strategies id w w' r
      → let (v, a) = retry_reply id (w', r) in Retried id w v a
  unfolding retry_reply
  answered id w w' r named (not_there e same c) = rw (c, retry_reply) (unknown named e same refl)
  answered id w w' r named (not_now tx e settled_now same c) =
      rw (c, retry_reply) (settled tx e settled_now same refl)
  answered id w w' r named (none_left tx u p t t' e may wait full m s n c times) =
      rw (c, retry_reply) (spent tx p e may wait.on_plan.planned full refl)
  answered id w w' r named (tried tx u p a st t e may wait fits rec s n c performed) =
      let found : get id w'.store ≡ some u =
        unfold get in ground (arith, lookup-put id id u w.store, eq_iff id id, s) in
      rw (c, retry_reply, found)
        (attempted tx u p a e may (subst (λ q. IsRecorded p tx a u q) (sym rec.status_set) rec) s
          refl)

  -- POST /api/transactions/{id}/retry answers 400 without an id, 404 for an unknown one, 422 for a
  -- transaction that is settled, all without a change, 409 when its attempts are used up, and
  -- otherwise records one attempt and answers 200 with the updated transaction; from a safe state
  -- and with complete strategies.
  pub handle_retry-Retried :
      (id : String) (w : World F)
      → AllComplete strategies
      → IsSafe w
      → let (w', r) = handle_retry strategies id w in Retried id w w' r
  unfolding handle_retry
  handle_retry-Retried id w all h = elim (Bool-cases (str_eq id "")) [
    | inl e ↦ rw (e, handle_retry) (unnamed (ground (arith, eq_iff id "")) refl refl)
    | inr e ↦
        let (w', r) = execute_retry strategies id w in
        let x = execute_retry-Executed strategies id w all h.live in
        rw (e, handle_retry) (answered id w w' r (λ q. ground (arith, eq_iff id "")) x)
  ]
