-- ===== src/Retry/Scheduler.antt =====
-- internal/retry/scheduler.go, NewScheduler and Start. The engine and the store that the scheduler
-- holds are the world; the logger is left out. The loop's `select` takes one signal after the other:
-- a tick, with the order in which the range over the pending index goes, or the cancelled context.
-- When both are ready Go takes either, so any list of signals is possible.
pub mod Clock
pub mod Watch
pub mod Settles
use zenithpay_retry.Base.{String, Bool, true, false, List, [], ◌∷◌, pos, ltb_ℤ, Dict, if◌then◌else◌}
use zenithpay_retry.Float.{Float64}
use zenithpay_retry.Time.{Duration}
use zenithpay_retry.Domain.Decline.{RetryStrategy}
use zenithpay_retry.Retry.World.{World}
use zenithpay_retry.Retry.Batch.{process_due_retries}

pub record Scheduler : Type 0 where
  pub interval : Duration

-- NewScheduler
unfoldable pub new_scheduler : Duration → Scheduler
new_scheduler interval = record { interval = interval }

pub data Signal : Type 0 where
  ticked : (Dict (Unit {0}) → List String) → Signal
  cancelled : Signal

-- Where the loop is after the signals.
pub data LoopState : Type 0 where
  running stopped broken : LoopState

module _ {F : Type 0} ⦃f : Float64 F⦄ (strategies : Dict (RetryStrategy F)) where
  -- The endless `for`.
  unfoldable pub loop : List Signal → World F → World F × LoopState
  loop [] w = (w, running)
  loop (cancelled ∷ signals) w = (w, stopped)
  loop (ticked order ∷ signals) w =
      let (w', through) = process_due_retries strategies (order w.store.pending_ids) w in
      elim through [ true ↦ loop signals w' | false ↦ (w', broken) ]

  -- Start. time.NewTicker panics for an interval that is not positive.
  unfoldable pub start : Scheduler → List Signal → World F → World F × LoopState
  unfolding loop
  start s signals w = if ltb_ℤ (pos 0) s.interval then loop signals w else (w, broken)
