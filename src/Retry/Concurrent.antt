-- ===== src/Retry/Concurrent.antt =====
-- internal/retry/engine.go: calls of ExecuteRetry and Submit that run at the same time. The store's
-- methods hold its lock, so a call of ExecuteRetry is three steps between which other calls may do
-- anything: its read of the store, the payment, and the update with its event. Sending the event only
-- appends to the log, which no step reads. Submit decides and writes in one SaveIfNotExists.
pub mod Commit
pub mod Backing
pub mod Steps
pub mod Safe
pub mod Resets
use zenithpay_retry.Base.{ℕ, ◌≡◌, String, Option, List, [], ◌∷◌, ◌++◌, Dict, done}
use zenithpay_retry.Float.{Float64}
use zenithpay_retry.Time.{Time}
use zenithpay_retry.Domain.Models.{Transaction, RetryAttempt, SubmitRequest}
use zenithpay_retry.Domain.Decline.{RetryStrategy}
use zenithpay_retry.Retry.World.{World}
use zenithpay_retry.Retry.Submit.{submit}
use zenithpay_retry.Retry.Execute.{Intent, attempt, exhaust, prepare, simulate, commit, give_up}

-- A call of ExecuteRetry that is under way: before its payment, before its update, or before it marks
-- its transaction as exhausted.
pub data Call : Type 0 where
  paying : String → Intent → Call
  recording : String → Intent → RetryAttempt → Call
  giving_up : String → Transaction → ℕ → Call

module _ {F : Type 0} ⦃f : Float64 F⦄ (strategies : Dict (RetryStrategy F))
    (parse_rfc3339 : String → Option Time) where
  -- One step of one call. A read that ends its call changes nothing and is left out.
  pub data Step (w : World F) : List Call → World F → List Call → Type 0 where
    begins :
        (id : String) (i : Intent) (cs : List Call)
        → prepare id w.store ≡ attempt i
        → Step w cs w (paying id i ∷ cs)
    finds_none_left :
        (id : String) (tx : Transaction) (n : ℕ) (cs : List Call)
        → prepare id w.store ≡ exhaust tx n
        → Step w cs w (giving_up id tx n ∷ cs)
    pays :
        (bs : List Call) (id : String) (i : Intent) (cs : List Call) (w' : World F)
        (a : RetryAttempt)
        → simulate strategies i w ≡ (w', done a)
        → Step w (bs ++ paying id i ∷ cs) w' (bs ++ recording id i a ∷ cs)
    records :
        (bs : List Call) (id : String) (i : Intent) (a : RetryAttempt) (cs : List Call)
        → Step w (bs ++ recording id i a ∷ cs) (commit id i a w).0 (bs ++ cs)
    gives_up :
        (bs : List Call) (id : String) (tx : Transaction) (n : ℕ) (cs : List Call)
        → Step w (bs ++ giving_up id tx n ∷ cs) (give_up id tx n w).0 (bs ++ cs)
    submits :
        (req : SubmitRequest) (cs : List Call)
        → Step w cs (submit strategies parse_rfc3339 req w).0 cs

  -- What any number of steps can reach from a world in which no call is under way.
  pub data Reach (start : World F) : World F → List Call → Type 0 where
    idle : Reach start start []
    next :
        {w w' : World F} {cs cs' : List Call}
        → Reach start w cs
        → Step w cs w' cs'
        → Reach start w' cs'
