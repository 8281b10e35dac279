-- ===== src/Retry/Execute/Diagram.antt =====
-- The steps of a transaction's status in internal/retry/engine.go, beside the state machine of
-- README.md.
use zenithpay_retry.Base.{
  ◌≤◌, ◌<◌, suc, ◌≡◌, refl, ap, ◌∙◌, ◌⊎◌, inl, inr, true, [], ◌∷◌, length, length-append, arith,
  Bool-cases,
}
use zenithpay_retry.Domain.Models.{
  Transaction, TransactionStatus, scheduled, retrying, recovered, failed_final, rejected, RetryPlan,
  RetryAttempt,
}
use zenithpay_retry.Lifecycle.{Life, IsLive}
use zenithpay_retry.Lifecycle.Advance.{IsRecorded}
use zenithpay_retry.Retry.Execute.{is_eligible}

-- The arrows of the state machine that README.md draws for a soft decline.
infix 40 ◌⟶◌
pub data ◌⟶◌ : TransactionStatus → TransactionStatus → Type 0 where
  first_succeeds : scheduled ⟶ recovered
  first_fails : scheduled ⟶ retrying
  later_succeeds : retrying ⟶ recovered
  exhausts : retrying ⟶ failed_final

-- A step of a transaction with the plan p: an arrow of the drawing, or one of two that it lacks. A
-- failure that is not the last leaves a retrying transaction retrying, and a plan of at most one
-- attempt ends a scheduled one at once.
pub data Step (p : RetryPlan) (tx u : Transaction) : Type 0 where
  along : (s t : TransactionStatus) → tx.status ≡ s → u.status ≡ t → s ⟶ t → Step p tx u
  again :
      tx.status ≡ retrying
      → u.status ≡ retrying
      → length u.retry_attempts < p.max_attempts
      → Step p tx u
  at_once : tx.status ≡ scheduled → u.status ≡ failed_final → p.max_attempts ≤ 1 → Step p tx u

-- How an eligible transaction may end up.
abbrev pub Ends : RetryPlan → Transaction → Transaction → TransactionStatus → Type 0
Ends p tx u t =
    ((t ≡ recovered) ⊎ ((t ≡ retrying) × (length u.retry_attempts < p.max_attempts)))
    ⊎ ((t ≡ failed_final) × (p.max_attempts ≤ suc (length tx.retry_attempts)))

pub eligible-Step :
    (p : RetryPlan) (tx u : Transaction) (s t : TransactionStatus)
    → tx.status ≡ s
    → u.status ≡ t
    → is_eligible s ≡ true
    → Life s tx
    → Ends p tx u t
    → Step p tx u
unfolding is_eligible
eligible-Step p tx u scheduled recovered a b e l h = along scheduled recovered a b first_succeeds
eligible-Step p tx u scheduled retrying a b e l h = along scheduled retrying a b first_fails
eligible-Step p tx u scheduled failed_final a b e (q, planned, none_yet, next) h =
    at_once a b (ground (arith, h, ap length none_yet))
eligible-Step p tx u retrying recovered a b e l h = along retrying recovered a b later_succeeds
eligible-Step p tx u retrying retrying a b e l h = again a b (ground arith)
eligible-Step p tx u retrying failed_final a b e l h = along retrying failed_final a b exhausts
eligible-Step p tx u recovered t a b e l h = absurd (cc)
eligible-Step p tx u failed_final t a b e l h = absurd (cc)
eligible-Step p tx u rejected t a b e l h = absurd (cc)
eligible-Step p tx u scheduled scheduled a b e l h = absurd (ground arith)
eligible-Step p tx u scheduled rejected a b e l h = absurd (ground arith)
eligible-Step p tx u retrying scheduled a b e l h = absurd (ground arith)
eligible-Step p tx u retrying rejected a b e l h = absurd (ground arith)

pub recorded-Step :
    (p : RetryPlan) (tx : Transaction) (a : RetryAttempt) (u : Transaction) (st : TransactionStatus)
    → is_eligible tx.status ≡ true
    → IsLive tx
    → IsRecorded p tx a u st
    → Step p tx u
recorded-Step p tx a u st may live rec =
    eligible-Step p tx u tx.status u.status refl refl may live outcome
  where
    outcome : Ends p tx u u.status
    outcome = elim (Bool-cases a.success) [
      | inl e ↦ inl (inl (rec.status_set ∙ rec.won e))
      | inr e ↦ elim (rec.lost e) [
        | inl (full, q) ↦ inr (
          rec.status_set ∙ q,
          omega (arith, full, ap length rec.appended, length-append tx.retry_attempts (a ∷ [])),
        )
        | inr (room, q) ↦ inl (inr (rec.status_set ∙ q, room))
      ]
    ]
