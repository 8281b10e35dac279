-- ===== src/Retry/Concurrent/Resets/Numbers.antt =====
-- The attempt numbers of the calls of internal/retry/engine.go that are about to pay.
use mathlib.Core.Path.{subst}
use zenithpay_retry.Base.{
  ℕ, ◌+◌, ◌<◌, ◌≡◌, String, Option, none, some, length, ltb, get_elem?, inl, inr, Bool-cases,
  Option-cases, lookup, arith, ◌-◌,
}
use zenithpay_retry.Time.{Time}
use zenithpay_retry.Domain.Models.{Transaction, RetryPlan}
use zenithpay_retry.Store.{Store, get}
use zenithpay_retry.Retry.Execute.{
  Intent, Prepared, refuse, exhaust, attempt, crash, is_eligible, aim, prepare_planned, prepare_tx,
  prepare,
}
use zenithpay_retry.Retry.Concurrent.{Call, paying, recording, giving_up}

-- A payment is made for an attempt numbered from 1 on.
abbrev pub IsNumbered : Call → Type 0
IsNumbered (paying id i) = 0 < i.attempt_num
IsNumbered (recording id i a) = Unit
IsNumbered (giving_up id tx n) = Unit

abbrev Numbers : Prepared → Type 0
Numbers (attempt i) = 0 < i.attempt_num
Numbers (refuse e) = Unit
Numbers (exhaust tx n) = Unit
Numbers crash = Unit

aim-Numbers :
    (tx : Transaction) (n : ℕ) (processor : Option String) (at : Option Time)
    → 0 < n
    → Numbers (aim tx n processor at)
unfolding aim
aim-Numbers tx n (some processor) (some at) h = h
aim-Numbers tx n (some processor) none h = tt
aim-Numbers tx n none at h = tt

prepare_planned-Numbers : (tx : Transaction) (plan : RetryPlan) → Numbers (prepare_planned tx plan)
unfolding prepare_planned
prepare_planned-Numbers tx plan =
    let n = length tx.retry_attempts + 1 in
    elim (Bool-cases (ltb plan.max_attempts n)) [
      | inl over ↦ rw (over, prepare_planned) tt
      | inr room ↦
          rw (room, prepare_planned)
            (aim-Numbers tx n (get_elem? plan.processors (n - 1))
              (get_elem? plan.scheduled_times (n - 1)) (omega arith))
    ]

prepare_tx-Numbers : (tx : Transaction) → Numbers (prepare_tx tx)
unfolding prepare_tx
prepare_tx-Numbers tx = elim (Bool-cases (is_eligible tx.status)) [
  | inr no_more ↦ rw (no_more, prepare_tx) tt
  | inl may ↦ elim (Option-cases tx.retry_plan) [
    | inl e ↦ rw (may, prepare_tx, e) tt
    | inr (plan, e) ↦ rw (may, prepare_tx, e) (prepare_planned-Numbers tx plan)
  ]
]

prepare-Numbers : (id : String) (s : Store) → Numbers (prepare id s)
unfolding prepare get
prepare-Numbers id s = elim (Option-cases (lookup id s.transactions)) [
  | inl e ↦ rw (e, prepare, get) tt
  | inr (tx, e) ↦ rw (e, prepare, get) (prepare_tx-Numbers tx)
]

-- The first read of a call numbers its attempt from 1 on.
pub prepare-IsNumbered :
    (id : String) (i : Intent) (s : Store) → prepare id s ≡ attempt i → 0 < i.attempt_num
prepare-IsNumbered id i s e = subst Numbers e (prepare-Numbers id s)
