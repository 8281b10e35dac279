-- ===== src/Lifecycle/Attempts.antt =====
-- Appending an attempt to the history of a transaction.
use mathlib.Core.Path.{subst}
use zenithpay_retry.Base.{
  ℕ, suc, ◌+◌, ◌≡◌, true, false, some, List, [], ◌∷◌, ◌++◌, length, get_elem?, arith,
}
use zenithpay_retry.Domain.Models.{RetryPlan, RetryAttempt}
use zenithpay_retry.Lifecycle.{Follows, AllFailed, EndsInSuccess}

-- `a` is attempt k + 1 of the plan.
pub record Fits (p : RetryPlan) (k : ℕ) (a : RetryAttempt) : Type 0 where
  pub numbered : a.attempt_number ≡ suc k
  pub routed : get_elem? p.processors k ≡ some a.processor
  pub timed : get_elem? p.scheduled_times k ≡ some a.scheduled_at

pub Follows-append :
    (p : RetryPlan) (k : ℕ) (xs : List RetryAttempt) (a : RetryAttempt)
    → Follows p k xs
    → Fits p (k + length xs) a
    → Follows p k (xs ++ a ∷ [])
Follows-append p k [] a h c =
    let same : k + 0 ≡ k = omega arith in
    let d : Fits p k a = subst (λ n. Fits p n a) same c in (d.numbered, d.routed, d.timed, tt)
Follows-append p k (x ∷ xs) a h c =
    let same : k + suc (length xs) ≡ suc k + length xs = omega arith in
    (h.0, h.1, h.2, Follows-append p (suc k) xs a h.3 (subst (λ n. Fits p n a) same c))

pub AllFailed-append :
    (xs : List RetryAttempt) (a : RetryAttempt)
    → AllFailed xs
    → a.success ≡ false
    → AllFailed (xs ++ a ∷ [])
AllFailed-append [] a h e = (e, tt)
AllFailed-append (x ∷ xs) a h e = (h.0, AllFailed-append xs a h.1 e)

pub EndsInSuccess-append :
    (xs : List RetryAttempt) (a : RetryAttempt)
    → AllFailed xs
    → a.success ≡ true
    → EndsInSuccess (xs ++ a ∷ [])
EndsInSuccess-append [] a h e = e
EndsInSuccess-append (x ∷ []) a h e = (h.0, e)
EndsInSuccess-append (x ∷ y ∷ xs) a h e = (h.0, EndsInSuccess-append (y ∷ xs) a h.1 e)
