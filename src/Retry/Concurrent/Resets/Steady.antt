-- ===== src/Retry/Concurrent/Resets/Steady.antt =====
-- What holds of a stored transaction by its status, even if attempts that belong to an earlier
-- transaction of the same id have been recorded on it.
use zenithpay_retry.Base.{
  ℕ, suc, ◌+◌, ◌≤◌, ◌<◌, ◌≡◌, ◌⊎◌, inl, String, none, some, List, [], ◌∷◌, ◌++◌, length, get_elem?,
  lookup, arith,
}
use zenithpay_retry.Domain.Models.{
  Transaction, TransactionStatus, scheduled, retrying, recovered, failed_final, rejected, RetryPlan,
  RetryAttempt, soft_decline,
}
use zenithpay_retry.Store.{Store}
use zenithpay_retry.Lifecycle.{Follows, AllFailed, EndsInSuccess, IsPlanned, IsRejected, Life}

-- The attempts from index k on have the numbers k + 1, k + 2, ...
abbrev pub Numbered : ℕ → List RetryAttempt → Type 0
Numbered k [] = Unit
Numbered k (a ∷ rest) = (a.attempt_number ≡ suc k) × Numbered (suc k) rest

-- A soft decline with a plan for all its attempts.
pub record HasPlan (p : RetryPlan) (tx : Transaction) : Type 0 where
  pub planned : tx.retry_plan ≡ some p
  pub soft : tx.decline_category ≡ soft_decline
  pub times : length p.scheduled_times ≡ p.max_attempts
  pub routes : length p.processors ≡ p.max_attempts

-- As in the life of a transaction, but the attempts need not follow the plan, and a transaction that
-- has failed for good need not have made all its attempts. A plan without attempts allows one that
-- succeeds.
abbrev pub Steady : TransactionStatus → Transaction → Type 0
Steady rejected tx = IsRejected tx
Steady scheduled tx =
    (p : RetryPlan) × HasPlan p tx
    × (tx.retry_attempts ≡ [])
    × (tx.next_retry_at ≡ get_elem? p.scheduled_times 0)
Steady retrying tx =
    (p : RetryPlan) × HasPlan p tx
    × Numbered 0 tx.retry_attempts
    × AllFailed tx.retry_attempts
    × (0 < length tx.retry_attempts)
    × (length tx.retry_attempts < p.max_attempts)
    × (tx.next_retry_at ≡ get_elem? p.scheduled_times (length tx.retry_attempts))
Steady recovered tx =
    (p : RetryPlan) × HasPlan p tx
    × Numbered 0 tx.retry_attempts
    × EndsInSuccess tx.retry_attempts
    × ((length tx.retry_attempts ≤ p.max_attempts) ⊎ (length tx.retry_attempts ≡ 1))
    × (tx.next_retry_at ≡ none)
Steady failed_final tx = Numbered 0 tx.retry_attempts × (tx.next_retry_at ≡ none)

abbrev pub IsSteady : Transaction → Type 0
IsSteady tx = Steady tx.status tx

abbrev pub AllSteady : Store → Type 0
AllSteady s = (id : String) (tx : Transaction) → lookup id s.transactions ≡ some tx → IsSteady tx

Follows-Numbered : (p : RetryPlan) (k : ℕ) (xs : List RetryAttempt) → Follows p k xs → Numbered k xs
Follows-Numbered p k [] h = tt
Follows-Numbered p k (x ∷ xs) h = (h.0, Follows-Numbered p (suc k) xs h.3)

IsPlanned-HasPlan : (p : RetryPlan) (tx : Transaction) → IsPlanned p tx → HasPlan p tx
IsPlanned-HasPlan p tx h = record {
  planned = h.planned;
  soft = h.soft;
  times = h.times;
  routes = h.routes;
}

pub Life-Steady :
    (status : TransactionStatus) (tx : Transaction) → Life status tx → Steady status tx
Life-Steady rejected tx h = h
Life-Steady scheduled tx (p, h, none_yet, next) = (p, IsPlanned-HasPlan p tx h, none_yet, next)
Life-Steady retrying tx (p, h, failed, some_done, left, next) = (
  p,
  IsPlanned-HasPlan p tx h,
  Follows-Numbered p 0 tx.retry_attempts h.follows,
  failed,
  some_done,
  left,
  next,
)
Life-Steady recovered tx (p, h, won, most, next) = (
  p,
  IsPlanned-HasPlan p tx h,
  Follows-Numbered p 0 tx.retry_attempts h.follows,
  won,
  inl most,
  next,
)
Life-Steady failed_final tx (p, h, failed, full, next) =
    (Follows-Numbered p 0 tx.retry_attempts h.follows, next)

Numbered-none : (xs : List RetryAttempt) → xs ≡ [] → Numbered 0 xs
Numbered-none [] e = tt
Numbered-none (x ∷ xs) e = absurd (cc)

pub Steady-Numbered :
    (status : TransactionStatus) (tx : Transaction)
    → Steady status tx
    → Numbered 0 tx.retry_attempts
Steady-Numbered rejected tx h = Numbered-none tx.retry_attempts h.untried
Steady-Numbered scheduled tx (p, h, none_yet, next) = Numbered-none tx.retry_attempts none_yet
Steady-Numbered retrying tx (p, h, numbered, failed, some_done, left, next) = numbered
Steady-Numbered recovered tx (p, h, numbered, won, most, next) = numbered
Steady-Numbered failed_final tx (numbered, next) = numbered

pub Numbered-append :
    (k : ℕ) (xs : List RetryAttempt) (a : RetryAttempt)
    → Numbered k xs
    → a.attempt_number ≡ suc (k + length xs)
    → Numbered k (xs ++ a ∷ [])
Numbered-append k [] a h e = (omega (arith, e), tt)
Numbered-append k (x ∷ xs) a h e = (h.0, Numbered-append (suc k) xs a h.1 (omega (arith, e)))

-- A transaction that an attempt may be recorded on.
pub record IsOpen (p : RetryPlan) (tx : Transaction) : Type 0 where
  pub has_plan : HasPlan p tx
  pub numbered : Numbered 0 tx.retry_attempts
  pub failed : AllFailed tx.retry_attempts
  pub room : (length tx.retry_attempts < p.max_attempts) ⊎ (length tx.retry_attempts ≡ 0)
