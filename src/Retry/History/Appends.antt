-- ===== src/Retry/History/Appends.antt =====
-- The history of a transaction with one attempt more.
use mathlib.Core.Path.{subst}
use zenithpay_retry.Base.{
  ◌≡◌, refl, ap, sym, ◌∙◌, inl, inr, true, some, List, [], ◌∷◌, ◌++◌, Bool-cases, arith, length,
  ◌<◌,
}
use zenithpay_retry.Domain.Models.{
  Transaction, TransactionStatus, scheduled, retrying, recovered, failed_final, rejected, RetryPlan,
  RetryAttempt, retry_failed, retry_exhausted, retry_scheduled,
}
use zenithpay_retry.Lifecycle.{Life}
use zenithpay_retry.Lifecycle.Advance.{IsRecorded}
use zenithpay_retry.Retry.Execute.{is_eligible, event_for}
use zenithpay_retry.Retry.History.{verdict, attempts_told, history}

-- The statuses that an attempt can end in.
pub data Ends : TransactionStatus → Type 0 where
  wins : Ends recovered
  goes_on : Ends retrying
  loses : Ends failed_final

pub verdict-event_for : (st : TransactionStatus) → event_for st ≡ verdict st
unfolding event_for
verdict-event_for scheduled = refl
verdict-event_for retrying = refl
verdict-event_for recovered = refl
verdict-event_for failed_final = refl
verdict-event_for rejected = refl

-- One attempt more after some.
attempts_told-append :
    (st before : TransactionStatus) (x : RetryAttempt) (xs : List RetryAttempt) (a : RetryAttempt)
    → attempts_told st before ((x ∷ xs) ++ a ∷ [])
      ≡ attempts_told retrying before (x ∷ xs) ++ (verdict st, a.attempt_number, retrying) ∷ []
attempts_told-append st before x [] a = refl
attempts_told-append st before x (y ∷ xs) a =
    ap (λ rest. (retry_failed, x.attempt_number, before) ∷ rest)
      (attempts_told-append st retrying y xs a)

history-told :
    (st : TransactionStatus) (attempts : List RetryAttempt)
    → Ends st
    → history st attempts ≡ (retry_scheduled, 0, scheduled) ∷ attempts_told st scheduled attempts
history-told recovered attempts e = refl
history-told retrying attempts e = refl
history-told failed_final attempts e = refl
history-told scheduled attempts e = elim e [ ]
history-told rejected attempts e = elim e [ ]

history-first :
    (st : TransactionStatus) (xs : List RetryAttempt) (a : RetryAttempt)
    → Ends st
    → xs ≡ []
    → history st (xs ++ a ∷ [])
      ≡ history scheduled xs ++ (verdict st, a.attempt_number, scheduled) ∷ []
history-first st xs a e none_yet =
    subst
      (λ xs.
        history st (xs ++ a ∷ [])
        ≡ history scheduled xs ++ (verdict st, a.attempt_number, scheduled) ∷ [])
      (sym none_yet) (history-told st (a ∷ []) e)

history-later :
    (st : TransactionStatus) (xs : List RetryAttempt) (a : RetryAttempt)
    → Ends st
    → 0 < length xs
    → history st (xs ++ a ∷ [])
      ≡ history retrying xs ++ (verdict st, a.attempt_number, retrying) ∷ []
history-later st [] a e some_done = absurd (omega (arith, some_done))
history-later st (x ∷ xs) a e some_done =
    history-told st ((x ∷ xs) ++ a ∷ []) e
    ∙ ap (λ rest. (retry_scheduled, 0, scheduled) ∷ rest) (attempts_told-append st scheduled x xs a)

-- The attempt that a call records adds what is said of it.
pub history-append :
    (st now : TransactionStatus) (tx : Transaction) (a : RetryAttempt)
    → Ends st
    → is_eligible now ≡ true
    → Life now tx
    → history st (tx.retry_attempts ++ a ∷ [])
      ≡ history now tx.retry_attempts ++ (verdict st, a.attempt_number, now) ∷ []
unfolding is_eligible
history-append st scheduled tx a e may (p, h, none_yet, next) =
    history-first st tx.retry_attempts a e none_yet
history-append st retrying tx a e may (p, h, failed, some_done, left, next) =
    history-later st tx.retry_attempts a e some_done
history-append st recovered tx a e may h = absurd (cc)
history-append st failed_final tx a e may h = absurd (cc)
history-append st rejected tx a e may h = absurd (cc)

-- A transaction that waits with no attempt left has none in its plan.
pub history-exhausted :
    (now : TransactionStatus) (tx : Transaction) (p : RetryPlan)
    → is_eligible now ≡ true
    → Life now tx
    → tx.retry_plan ≡ some p
    → length tx.retry_attempts ≡ p.max_attempts
    → history failed_final tx.retry_attempts
      ≡ history now tx.retry_attempts ++ (retry_exhausted, length tx.retry_attempts, now) ∷ []
unfolding is_eligible
history-exhausted scheduled tx p may (q, h, none_yet, next) planned full =
    subst
      (λ xs.
        history failed_final xs
        ≡ history scheduled xs ++ (retry_exhausted, length xs, scheduled) ∷ [])
      (sym none_yet) refl
history-exhausted retrying tx p may (q, h, failed, some_done, left, next) planned full =
    absurd (ground (arith, h.planned))
history-exhausted recovered tx p may h planned full = absurd (cc)
history-exhausted failed_final tx p may h planned full = absurd (cc)
history-exhausted rejected tx p may h planned full = absurd (cc)

pub IsRecorded-Ends :
    {p : RetryPlan} {tx u : Transaction} {a : RetryAttempt} {st : TransactionStatus}
    → IsRecorded p tx a u st
    → Ends st
IsRecorded-Ends {a} rec = elim (Bool-cases a.success) [
  | inl e ↦ subst Ends (sym (rec.won e)) wins
  | inr e ↦ elim (rec.lost e) [
    | inl (full, q) ↦ subst Ends (sym q) loses
    | inr (room, q) ↦ subst Ends (sym q) goes_on
  ]
]
