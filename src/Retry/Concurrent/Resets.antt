-- ===== src/Retry/Concurrent/Resets.antt =====
-- The steps of calls under way together with a reset: cmd/server/main.go clears the store, and then
-- the log, while calls of ExecuteRetry that have read a transaction are still under way. Their
-- updates may then meet another transaction that was submitted under the same id since.
pub mod Steady
pub mod Numbers
pub mod Updates
pub mod Safe
use zenithpay_retry.Base.{String, Option, List, [], Dict}
use zenithpay_retry.Float.{Float64}
use zenithpay_retry.Time.{Time}
use zenithpay_retry.Domain.Decline.{RetryStrategy}
use zenithpay_retry.Store.{clear}
use zenithpay_retry.Webhook.{clear_events}
use zenithpay_retry.Retry.World.{World}
use zenithpay_retry.Retry.Concurrent.{Call, Step}

module _ {F : Type 0} ⦃f : Float64 F⦄ (strategies : Dict (RetryStrategy F))
    (parse_rfc3339 : String → Option Time) where
  -- A step of a call, txStore.Clear() or notifier.Clear().
  pub data Change (w : World F) (cs : List Call) : World F → List Call → Type 0 where
    steps :
        (w' : World F) (cs' : List Call)
        → Step strategies parse_rfc3339 w cs w' cs'
        → Change w cs w' cs'
    clears_store : Change w cs (record w { store = clear w.store }) cs
    clears_log : Change w cs (record w { notifier = clear_events w.notifier }) cs

  -- What any number of changes can reach from a world in which no call is under way.
  pub data Overlaps (start : World F) : World F → List Call → Type 0 where
    quiet : Overlaps start start []
    change :
        {w w' : World F} {cs cs' : List Call}
        → Overlaps start w cs
        → Change w cs w' cs'
        → Overlaps start w' cs'
