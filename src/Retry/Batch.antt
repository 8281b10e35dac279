-- ===== src/Retry/Batch.antt =====
-- internal/retry/engine.go, ProcessAllPending, and internal/retry/scheduler.go, one tick of the
-- loop. The endless inner `for` of ProcessAllPending runs on fuel, and says when the fuel ran out.
pub mod Drain
pub mod Total
pub mod Keeps
pub mod Tick
pub mod Due
use zenithpay_retry.Base.{
  ℕ, zero, suc, ◌+◌, String, Bool, true, false, Option, none, some, List, [], ◌∷◌, Dict, Outcome,
  ok, err, panicked,
}
use zenithpay_retry.Float.{Float64}
use zenithpay_retry.Domain.Models.{
  Transaction, TransactionStatus, scheduled, retrying, recovered, failed_final, rejected,
}
use zenithpay_retry.Domain.Decline.{RetryStrategy}
use zenithpay_retry.Store.{get, get_pending_retries, get_due_retries}
use zenithpay_retry.Retry.World.{World, now, tick, EngineError}
use zenithpay_retry.Retry.Execute.{execute_retry}

pub record Tally : Type 0 where
  pub processed : ℕ
  pub recoveries : ℕ

pub data Progress : Type 0 where
  finished : Tally → Progress
  crashed : Progress
  out_of_fuel : Progress

-- What the inner loop does after a successful call.
pub data Next : Type 0 where
  stop_recovered stop go_on : Next

unfoldable pub next_for : TransactionStatus → Next
next_for recovered = stop_recovered
next_for failed_final = stop
next_for _ = go_on

-- `refreshed, err := e.store.Get(tx.ID)` and the tests of its status.
unfoldable pub next_of : Option Transaction → Next
unfolding next_for
next_of none = stop
next_of (some tx) = next_for tx.status

module _ {F : Type 0} ⦃f : Float64 F⦄ (strategies : Dict (RetryStrategy F)) where
  -- The inner loop, for one transaction.
  unfoldable pub drain : ℕ → String → Tally → World F → World F × Progress
  drain zero id t w = (w, out_of_fuel)
  drain (suc fuel) id t w =
      let (w', result) = execute_retry strategies id w in
      elim result [
        | err e ↦ (w', finished t)
        | panicked ↦ (w', crashed)
        | ok _ ↦ elim (next_of (get id w'.store)) [
          | stop_recovered ↦
              (w', finished (record { processed = suc t.processed; recoveries = suc t.recoveries }))
          | stop ↦ (w', finished (record t { processed = suc t.processed }))
          | go_on ↦ drain fuel id (record t { processed = suc t.processed }) w'
        ]
      ]

  -- The outer loop. A panic ends it.
  unfoldable pub drain_all : ℕ → List Transaction → Tally → World F → World F × Progress
  drain_all fuel [] t w = (w, finished t)
  drain_all fuel (tx ∷ txs) t w =
      let (w', progress) = drain fuel tx.id t w in
      elim progress [
        | finished t' ↦ drain_all fuel txs t' w'
        | crashed ↦ (w', crashed)
        | out_of_fuel ↦ (w', out_of_fuel)
      ]

  -- ProcessAllPending, visiting the pending index in the given order.
  unfoldable pub process_all_pending : ℕ → List String → World F → World F × Progress
  process_all_pending fuel order w =
      drain_all fuel (get_pending_retries order w.store) (record { processed = 0; recoveries = 0 })
        w

  -- The loop of processDueRetries: errors are logged, and a panic ends the process. The second
  -- result is false after a panic.
  unfoldable pub execute_all : List Transaction → World F → World F × Bool
  execute_all [] w = (w, true)
  execute_all (tx ∷ txs) w =
      let (w', result) = execute_retry strategies tx.id w in
      elim result [
        | panicked ↦ (w', false)
        | ok _ ↦ execute_all txs w'
        | err _ ↦ execute_all txs w'
      ]

  unfoldable pub process_due_retries : List String → World F → World F × Bool
  process_due_retries order w = execute_all (get_due_retries (now w) order w.store) (tick w)
