-- ===== src/Retry/Batch/Tick.antt =====
-- internal/retry/scheduler.go, processDueRetries: one tick of the scheduler.
use zenithpay_retry.Base.{
  ◌≡◌, ◌≢◌, refl, String, Bool, true, false, List, [], ◌∷◌, Dict, Outcome, ok, err, panicked,
}
use zenithpay_retry.Float.{Float64}
use zenithpay_retry.Domain.Models.{Transaction}
use zenithpay_retry.Domain.Decline.{RetryStrategy}
use zenithpay_retry.Domain.Decline.Plan.{AllComplete}
use zenithpay_retry.Store.{get_due_retries}
use zenithpay_retry.Retry.World.{World, EngineError, now, tick}
use zenithpay_retry.Retry.Execute.{execute_retry}
use zenithpay_retry.Retry.Execute.Effects.{IsSafe, execute_retry-IsSafe}
use zenithpay_retry.Retry.Batch.{execute_all, process_due_retries}

module _ {F : Type 0} ⦃f : Float64 F⦄ (strategies : Dict (RetryStrategy F))
    (all : AllComplete strategies) where
  abbrev Goes : World F × Bool → Type 0
  Goes x = IsSafe x.0 × (x.1 ≡ true)

  after_call :
      (txs : List Transaction) (w' : World F) (r : Outcome EngineError (Unit {0}))
      → Goes (execute_all strategies txs w')
      → r ≢ panicked
      → Goes (elim r as (λ _. World F × Bool) [
        | panicked ↦ (w', false)
        | ok _ ↦ execute_all strategies txs w'
        | err _ ↦ execute_all strategies txs w'
      ])
  after_call txs w' (ok x) h no_panic = h
  after_call txs w' (err e) h no_panic = h
  after_call txs w' panicked h no_panic = absurd (no_panic refl)

  execute_all-IsSafe :
      (txs : List Transaction) (w : World F) → IsSafe w → Goes (execute_all strategies txs w)
  unfolding execute_all
  execute_all-IsSafe [] w h = (h, refl)
  execute_all-IsSafe (tx ∷ txs) w h =
      let (w', r) = execute_retry strategies tx.id w in
      let (safe, no_panic) = execute_retry-IsSafe strategies tx.id w all h in
      after_call txs w' r (execute_all-IsSafe txs w' safe) no_panic

  -- One tick of the scheduler, in whatever order it visits the pending index, carries every due
  -- call through without a panic, and keeps every stored transaction at a point of its life and the
  -- index exact; from a safe state and with complete strategies.
  pub process_due_retries-IsSafe :
      (order : List String) (w : World F)
      → IsSafe w
      → let (w', through) = process_due_retries strategies order w in IsSafe w' × (through ≡ true)
  unfolding process_due_retries
  process_due_retries-IsSafe order w h =
      execute_all-IsSafe (get_due_retries (now w) order w.store) (tick w)
        (record { live = h.live; indexed = h.indexed })
