-- ===== src/Retry/Batch/Keeps.antt =====
-- What every call of ExecuteRetry keeps, ProcessAllPending and the scheduler keep.
use zenithpay_retry.Base.{
  ℕ, Bool, false, zero, suc, ◌≡◌, String, some, List, [], ◌∷◌, Dict, lookup, Outcome, ok, err,
  panicked,
}
use zenithpay_retry.Float.{Float64}
use zenithpay_retry.Domain.Models.{Transaction}
use zenithpay_retry.Domain.Decline.{RetryStrategy}
use zenithpay_retry.Domain.Decline.Plan.{AllComplete}
use zenithpay_retry.Store.{get, get_pending_retries, get_due_retries}
use zenithpay_retry.Retry.World.{World, EngineError, now, tick}
use zenithpay_retry.Retry.Execute.{execute_retry}
use zenithpay_retry.Retry.Execute.Effects.{IsSafe, execute_retry-IsSafe}
use zenithpay_retry.Retry.Execute.Moves.{execute_retry-Moved}
use zenithpay_retry.Retry.Batch.{
  Tally, Progress, finished, crashed, out_of_fuel, Next, stop_recovered, stop, go_on, next_of,
  drain, drain_all, process_all_pending, execute_all, process_due_retries,
}

module _ {F : Type 0} ⦃f : Float64 F⦄ (strategies : Dict (RetryStrategy F)) (P : World F → Type 0)
    (kept : (id : String) (w : World F) → P w → P (execute_retry strategies id w).0) where
  after_call :
      (t t' : Tally) (w : World F) (n : Next) (rest : World F × Progress)
      → P w
      → P rest.0
      → P
          (elim n as (λ _. World F × Progress) [
            | stop_recovered ↦ (w, finished t)
            | stop ↦ (w, finished t')
            | go_on ↦ rest
          ]).0
  after_call t t' w stop_recovered rest h k = h
  after_call t t' w stop rest h k = h
  after_call t t' w go_on rest h k = k

  drain_keeps :
      (fuel : ℕ) (id : String) (t : Tally) (w : World F) → P w → P (drain strategies fuel id t w).0
  unfolding drain
  drain_keeps zero id t w h = h
  drain_keeps (suc fuel) id t w h =
      let (w', r) = execute_retry strategies id w in
      let k = kept id w h in
      let next = record t { processed = suc t.processed } in
      by_result w' r k (drain_keeps fuel id next w' k)
    where
      by_result :
          (w' : World F) (r : Outcome EngineError (Unit {0}))
          → P w'
          → P (drain strategies fuel id (record t { processed = suc t.processed }) w').0
          → P
              (elim r as (λ _. World F × Progress) [
                | err e ↦ (w', finished t)
                | panicked ↦ (w', crashed)
                | ok _ ↦ elim (next_of (get id w'.store)) [
                  | stop_recovered ↦ (
                    w',
                    finished
                        (record { processed = suc t.processed; recoveries = suc t.recoveries }),
                  )
                  | stop ↦ (w', finished (record t { processed = suc t.processed }))
                  | go_on ↦ drain strategies fuel id (record t { processed = suc t.processed }) w'
                ]
              ]).0
      by_result w' (ok _) k d = after_call _ _ w' (next_of (get id w'.store)) _ k d
      by_result w' (err e) k d = k
      by_result w' panicked k d = k

  drain_all_keeps :
      (fuel : ℕ) (txs : List Transaction) (t : Tally) (w : World F)
      → P w
      → P (drain_all strategies fuel txs t w).0
  unfolding drain_all
  drain_all_keeps fuel [] t w h = h
  drain_all_keeps fuel (tx ∷ txs) t w h =
      let (w', p) = drain strategies fuel tx.id t w in
      let k = drain_keeps fuel tx.id t w h in
      by_progress w' p k (λ t'. drain_all_keeps fuel txs t' w' k)
    where
      by_progress :
          (w' : World F) (p : Progress)
          → P w'
          → ((t' : Tally) → P (drain_all strategies fuel txs t' w').0)
          → P
              (elim p as (λ _. World F × Progress) [
                | finished t' ↦ drain_all strategies fuel txs t' w'
                | crashed ↦ (w', crashed)
                | out_of_fuel ↦ (w', out_of_fuel)
              ]).0
      by_progress w' (finished t') k d = d t'
      by_progress w' crashed k d = k
      by_progress w' out_of_fuel k d = k

  pub process_all_pending_keeps :
      (fuel : ℕ) (order : List String) (w : World F)
      → P w
      → P (process_all_pending strategies fuel order w).0
  unfolding process_all_pending
  process_all_pending_keeps fuel order w h =
      drain_all_keeps fuel (get_pending_retries order w.store)
        (record { processed = 0; recoveries = 0 }) w h

  after_due_call :
      (txs : List Transaction) (w' : World F) (r : Outcome EngineError (Unit {0}))
      → P w'
      → P (execute_all strategies txs w').0
      → P
          (elim r as (λ _. World F × Bool) [
            | panicked ↦ (w', false)
            | ok _ ↦ execute_all strategies txs w'
            | err _ ↦ execute_all strategies txs w'
          ]).0
  after_due_call txs w' (ok x) h k = k
  after_due_call txs w' (err e) h k = k
  after_due_call txs w' panicked h k = h

  execute_all_keeps :
      (txs : List Transaction) (w : World F) → P w → P (execute_all strategies txs w).0
  unfolding execute_all
  execute_all_keeps [] w h = h
  execute_all_keeps (tx ∷ txs) w h =
      let (w', r) = execute_retry strategies tx.id w in
      let k = kept tx.id w h in after_due_call txs w' r k (execute_all_keeps txs w' k)

  pub process_due_retries_keeps :
      (order : List String) (w : World F)
      → P (tick w)
      → P (process_due_retries strategies order w).0
  unfolding process_due_retries
  process_due_retries_keeps order w h =
      execute_all_keeps (get_due_retries (now w) order w.store) (tick w) h

abbrev pub IsStored : {F : Type 0} → String → World F → Type 0
IsStored j w = (tx : Transaction) × (lookup j w.store.transactions ≡ some tx)

module _ {F : Type 0} ⦃f : Float64 F⦄ (strategies : Dict (RetryStrategy F))
    (all : AllComplete strategies) (j : String) where
  -- A safe world in which the transaction is still stored.
  abbrev Kept : World F → Type 0
  Kept w = IsSafe w × IsStored j w

  execute_retry-Kept : (id : String) (w : World F) → Kept w → Kept (execute_retry strategies id w).0
  execute_retry-Kept id w (h, (tx, e)) =
      let (u, found, _) = execute_retry-Moved strategies id j w tx all h e in
      ((execute_retry-IsSafe strategies id w all h).0, (u, found))

  -- A stored transaction is still stored after ProcessAllPending.
  pub process_all_pending-IsStored :
      (fuel : ℕ) (order : List String) (w : World F)
      → IsSafe w
      → IsStored j w
      → IsStored j (process_all_pending strategies fuel order w).0
  process_all_pending-IsStored fuel order w h stored =
      (process_all_pending_keeps strategies Kept execute_retry-Kept fuel order w (h, stored)).1
