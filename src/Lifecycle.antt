-- ===== src/Lifecycle.antt =====
-- The life of a transaction (the state machine of README.md): what holds of a stored transaction,
-- by its status, between any two operations.
pub mod Attempts
pub mod Advance
use zenithpay_retry.Base.{
  ℕ, zero, suc, ◌+◌, ◌≤◌, ◌<◌, ◌≡◌, refl, ◌⊎◌, inl, inr, String, Bool, true, false, Option, none,
  some, List, [], ◌∷◌, ◌++◌, Dict, lookup, length, get_elem?, All,
}
use zenithpay_retry.Domain.Models.{
  Transaction, TransactionStatus, scheduled, retrying, recovered, failed_final, rejected,
  DeclineCategory, hard_decline, soft_decline, RetryPlan, RetryAttempt,
}
use zenithpay_retry.Store.{Store}

-- The attempts from index k on have the numbers k + 1, k + 2, ..., and went to the processors and
-- at the times of the plan.
abbrev pub Follows : RetryPlan → ℕ → List RetryAttempt → Type 0
Follows p k [] = Unit
Follows p k (a ∷ rest) =
    (a.attempt_number ≡ suc k)
    × (get_elem? p.processors k ≡ some a.processor)
    × (get_elem? p.scheduled_times k ≡ some a.scheduled_at)
    × Follows p (suc k) rest

abbrev pub AllFailed : List RetryAttempt → Type 0
AllFailed [] = Unit
AllFailed (a ∷ rest) = (a.success ≡ false) × AllFailed rest

-- All attempts but the last failed, and the last succeeded.
abbrev pub EndsInSuccess : List RetryAttempt → Type 0
EndsInSuccess [] = ⊥
EndsInSuccess (a ∷ []) = a.success ≡ true
EndsInSuccess (a ∷ b ∷ rest) = (a.success ≡ false) × EndsInSuccess (b ∷ rest)

-- A soft decline with its plan.
pub record IsPlanned (p : RetryPlan) (tx : Transaction) : Type 0 where
  pub planned : tx.retry_plan ≡ some p
  pub soft : tx.decline_category ≡ soft_decline
  pub times : length p.scheduled_times ≡ p.max_attempts
  pub routes : length p.processors ≡ p.max_attempts
  pub follows : Follows p 0 tx.retry_attempts

-- A hard decline is rejected: no plan, no attempt, no next retry.
pub record IsRejected (tx : Transaction) : Type 0 where
  pub hard : tx.decline_category ≡ hard_decline
  pub unplanned : tx.retry_plan ≡ none
  pub untried : tx.retry_attempts ≡ []
  pub unscheduled : tx.next_retry_at ≡ none

abbrev pub Life : TransactionStatus → Transaction → Type 0
Life rejected tx = IsRejected tx
Life scheduled tx =
    (p : RetryPlan) × IsPlanned p tx
    × (tx.retry_attempts ≡ [])
    × (tx.next_retry_at ≡ get_elem? p.scheduled_times 0)
Life retrying tx =
    (p : RetryPlan) × IsPlanned p tx
    × AllFailed tx.retry_attempts
    × (0 < length tx.retry_attempts)
    × (length tx.retry_attempts < p.max_attempts)
    × (tx.next_retry_at ≡ get_elem? p.scheduled_times (length tx.retry_attempts))
Life recovered tx =
    (p : RetryPlan) × IsPlanned p tx
    × EndsInSuccess tx.retry_attempts
    × (length tx.retry_attempts ≤ p.max_attempts)
    × (tx.next_retry_at ≡ none)
Life failed_final tx =
    (p : RetryPlan) × IsPlanned p tx
    × AllFailed tx.retry_attempts
    × (length tx.retry_attempts ≡ p.max_attempts)
    × (tx.next_retry_at ≡ none)

abbrev pub IsLive : Transaction → Type 0
IsLive tx = Life tx.status tx

-- Every stored transaction is at some point of its life.
abbrev pub AllLive : Store → Type 0
AllLive s = (id : String) (tx : Transaction) → lookup id s.transactions ≡ some tx → IsLive tx
