-- ===== src/Retry/Execute/Reads.antt =====
-- What the first read of ExecuteRetry finds in a store of live transactions.
use native.Mathlib.Decide.{dec_lt}
use zenithpay_retry.Base.{
  suc, ◌+◌, ◌-◌, ◌<◌, ◌≡◌, refl, ap, String, true, false, none, some, length, get_elem?,
  get_elem?-of_lt, lookup, Bool-cases, Option-cases, inl, inr, arith,
}
use zenithpay_retry.Domain.Models.{Transaction, RetryPlan}
use zenithpay_retry.Store.{Store, get}
use zenithpay_retry.Lifecycle.{AllLive}
use zenithpay_retry.Lifecycle.Advance.{IsWaiting, eligible-IsWaiting}
use zenithpay_retry.Retry.World.{unknown_id, not_retryable}
use zenithpay_retry.Retry.Execute.{
  Intent, Prepared, refuse, exhaust, attempt, is_eligible, prepare_tx, prepare,
}

-- The plan's entries for the next attempt of `tx` are those of the intent.
pub record IsAimed (p : RetryPlan) (tx : Transaction) (i : Intent) : Type 0 where
  pub of_tx : i.tx ≡ tx
  pub number : i.attempt_num ≡ suc (length tx.retry_attempts)
  pub routed : get_elem? p.processors (length tx.retry_attempts) ≡ some i.processor
  pub timed : get_elem? p.scheduled_times (length tx.retry_attempts) ≡ some i.scheduled_at

pub data Read (id : String) (s : Store) : Prepared → Type 0 where
  absent : lookup id s.transactions ≡ none → Read id s (refuse unknown_id)
  ineligible :
      (tx : Transaction)
      → lookup id s.transactions ≡ some tx
      → is_eligible tx.status ≡ false
      → Read id s (refuse not_retryable)
  used_up :
      (tx : Transaction) (p : RetryPlan)
      → lookup id s.transactions ≡ some tx
      → is_eligible tx.status ≡ true
      → IsWaiting p tx
      → length tx.retry_attempts ≡ p.max_attempts
      → Read id s (exhaust tx (length tx.retry_attempts + 1))
  ready :
      (tx : Transaction) (p : RetryPlan) (i : Intent)
      → lookup id s.transactions ≡ some tx
      → is_eligible tx.status ≡ true
      → IsWaiting p tx
      → IsAimed p tx i
      → Read id s (attempt i)

ready_lem :
    (tx : Transaction) (p : RetryPlan)
    → is_eligible tx.status ≡ true
    → IsWaiting p tx
    → length tx.retry_attempts < p.max_attempts
    → (i : Intent) × (prepare_tx tx ≡ attempt i) × IsAimed p tx i
unfolding prepare_tx
ready_lem tx p e w left =
    let n = length tx.retry_attempts in
    let (processor, ep) = get_elem?-of_lt p.processors n (omega (arith, w.on_plan.routes)) in
    let (at, et) = get_elem?-of_lt p.scheduled_times n (omega (arith, w.on_plan.times)) in
    let back : n + 1 - 1 ≡ n = omega arith in
    (
      record { tx = tx; attempt_num = n + 1; processor = processor; scheduled_at = at },
      ground (
        arith,
        w.on_plan.planned,
        ap (get_elem? p.processors) back,
        ap (get_elem? p.scheduled_times) back,
      ),
      record { of_tx = refl; number = omega arith; routed = ep; timed = et },
    )

used_up_lem :
    (tx : Transaction) (p : RetryPlan)
    → is_eligible tx.status ≡ true
    → IsWaiting p tx
    → length tx.retry_attempts ≡ p.max_attempts
    → prepare_tx tx ≡ exhaust tx (length tx.retry_attempts + 1)
unfolding prepare_tx
used_up_lem tx p e w full = ground (arith, w.on_plan.planned)

ineligible_lem :
    (tx : Transaction) → is_eligible tx.status ≡ false → prepare_tx tx ≡ refuse not_retryable
unfolding prepare_tx
ineligible_lem tx e = rw e

-- The read finds one of these four, and never an index out of range.
pub prepare-Read : (id : String) (s : Store) → AllLive s → Read id s (prepare id s)
unfolding prepare get
prepare-Read id s live = elim (Option-cases (lookup id s.transactions)) [
  | inl e ↦ rw (e, prepare, get) (absent e)
  | inr (tx, e) ↦ elim (Bool-cases (is_eligible tx.status)) [
    | inr no_more ↦ rw (e, prepare, get, ineligible_lem tx no_more) (ineligible tx e no_more)
    | inl may ↦
        let (p, w) = eligible-IsWaiting tx may (live id tx e) in
        elim (dec_lt (length tx.retry_attempts) p.max_attempts) [
          | yes left ↦
              let (i, q, aimed) = ready_lem tx p may w left in
              rw (e, prepare, get, q) (ready tx p i e may w aimed)
          | no full ↦
              let all : length tx.retry_attempts ≡ p.max_attempts = omega (arith, w.within) in
              rw (e, prepare, get, used_up_lem tx p may w all) (used_up tx p e may w all)
        ]
  ]
]
