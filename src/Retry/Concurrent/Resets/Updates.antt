-- ===== src/Retry/Concurrent/Resets/Updates.antt =====
-- The updates of ExecuteRetry on any steady transaction, with any attempt.
use native.Mathlib.Decide.{dec_lt}
use zenithpay_retry.Base.{
  suc, ◌+◌, ◌-◌, ◌≤◌, ◌<◌, ◌≡◌, ◌≢◌, refl, ap, sym, ◌∙◌, ◌⊎◌, inl, inr, String, true, false, none,
  some, [], ◌∷◌, ◌++◌, length, length-append, get_elem?, get_elem?-of_lt, lookup, Outcome, ok, err,
  Bool-cases, Option-cases, ◌==◌, arith,
}
use zenithpay_retry.Time.{Time}
use zenithpay_retry.Domain.Models.{
  Transaction, TransactionStatus, scheduled, retrying, recovered, failed_final, rejected, RetryPlan,
  RetryAttempt,
}
use zenithpay_retry.Store.{Store, get}
use zenithpay_retry.Lifecycle.Attempts.{AllFailed-append, EndsInSuccess-append}
use zenithpay_retry.Retry.World.{EngineError, not_retryable}
use zenithpay_retry.Retry.Execute.{
  crash, is_eligible, prepare_tx, prepare, prepare_planned, aim, settle, record_attempt,
}
use zenithpay_retry.Retry.Execute.Behaviour.{marked}
use zenithpay_retry.Retry.Concurrent.Resets.Steady.{
  Numbered, HasPlan, Steady, IsSteady, AllSteady, Steady-Numbered, Numbered-append, IsOpen,
}

opened :
    (status : TransactionStatus) (tx : Transaction)
    → is_eligible status ≡ true
    → Steady status tx
    → (p : RetryPlan) × IsOpen p tx
unfolding is_eligible
opened scheduled tx e (p, h, none_yet, next) = (
  p,
  record {
    has_plan = h;
    numbered = Steady-Numbered scheduled tx (p, h, none_yet, next);
    failed = rw none_yet tt;
    room = inr (ap length none_yet);
  },
)
opened retrying tx e (p, h, numbered, failed, some_done, left, next) =
    (p, record { has_plan = h; numbered = numbered; failed = failed; room = inl left })
opened recovered tx e h = absurd (cc)
opened failed_final tx e h = absurd (cc)
opened rejected tx e h = absurd (cc)

-- An update that went well: the transaction is steady again, under its own id.
abbrev pub Succeeds : Transaction → Outcome EngineError (Transaction × TransactionStatus) → Type 0
Succeeds tx r =
    (u : Transaction) × (st : TransactionStatus) × (r ≡ ok (u, st)) × IsSteady u × (u.id ≡ tx.id)

module _ (p : RetryPlan) (tx : Transaction) (a : RetryAttempt) (t : Time) (h : IsOpen p tx)
    (turn : a.attempt_number ≡ suc (length tx.retry_attempts)) where
  abbrev appended_tx : Transaction
  appended_tx = record tx { retry_attempts = tx.retry_attempts ++ a ∷ []; updated_at = t }

  replan :
      (u : Transaction)
      → u.retry_plan ≡ tx.retry_plan
      → u.decline_category ≡ tx.decline_category
      → HasPlan p u
  replan u e d = record {
    planned = e ∙ h.has_plan.planned;
    soft = d ∙ h.has_plan.soft;
    times = h.has_plan.times;
    routes = h.has_plan.routes;
  }

  one_more : length appended_tx.retry_attempts ≡ suc (length tx.retry_attempts)
  one_more = omega (arith, length-append tx.retry_attempts (a ∷ []))

  numbered_on : Numbered 0 appended_tx.retry_attempts
  numbered_on = Numbered-append 0 tx.retry_attempts a h.numbered (omega (arith, turn))

  within :
      (length appended_tx.retry_attempts ≤ p.max_attempts) ⊎ (length appended_tx.retry_attempts ≡ 1)
  within = elim h.room [
    | inl left ↦ inl (omega (arith, left, one_more))
    | inr first ↦ inr (omega (arith, first, one_more))
  ]

  settle_won : a.success ≡ true → Succeeds tx (settle p a appended_tx)
  unfolding settle
  settle_won e = (
    record appended_tx { status = recovered; next_retry_at = none },
    recovered,
    rw e,
    (
      p,
      replan _ refl refl,
      numbered_on,
      EndsInSuccess-append tx.retry_attempts a h.failed e,
      within,
      refl,
    ),
    refl,
  )

  settle_last :
      a.success ≡ false → p.max_attempts ≤ a.attempt_number → Succeeds tx (settle p a appended_tx)
  unfolding settle
  settle_last e last = (
    record appended_tx { status = failed_final; next_retry_at = none },
    failed_final,
    ground arith,
    (numbered_on, refl),
    refl,
  )

  settle_again :
      a.success ≡ false → a.attempt_number < p.max_attempts → Succeeds tx (settle p a appended_tx)
  unfolding settle
  settle_again e left =
      let (next, at) =
        get_elem?-of_lt p.scheduled_times a.attempt_number
          (omega (arith, h.has_plan.times, left)) in
      let here : length appended_tx.retry_attempts ≡ a.attempt_number =
        omega (arith, one_more, turn) in
      (
        record appended_tx { status = retrying; next_retry_at = some next },
        retrying,
        ground arith,
        (
          p,
          replan _ refl refl,
          numbered_on,
          AllFailed-append tx.retry_attempts a h.failed e,
          omega (arith, one_more),
          omega (arith, here, left),
          rw here (sym at),
        ),
        refl,
      )

  settle-Succeeds : Succeeds tx (settle p a appended_tx)
  settle-Succeeds = elim (Bool-cases a.success) [
    | inl e ↦ settle_won e
    | inr e ↦ elim (dec_lt a.attempt_number p.max_attempts) [
      | yes left ↦ settle_again e left
      | no full ↦ settle_last e (omega arith)
    ]
  ]

-- Any attempt on a steady transaction is refused, or recorded.
pub record_attempt-steady :
    (a : RetryAttempt) (t : Time) (tx : Transaction)
    → IsSteady tx
    → (record_attempt a t tx ≡ err not_retryable) ⊎ Succeeds tx (record_attempt a t tx)
unfolding record_attempt
record_attempt-steady a t tx h = elim (Bool-cases (is_eligible tx.status)) [
  | inr e ↦ inl (rw (e, record_attempt) refl)
  | inl e ↦ elim (Bool-cases (length tx.retry_attempts + 1 == a.attempt_number)) [
    | inr q ↦ inl (rw (e, record_attempt, q) refl)
    | inl q ↦
        let (p, opening) = opened tx.status tx e h in
        let turn : a.attempt_number ≡ suc (length tx.retry_attempts) = ground (arith, q) in
        let (u, st, r, steady, same) = settle-Succeeds p tx a t opening turn in
        inr (u, st, ground (arith, e, q, r, opening.has_plan.planned), steady, same)
  ]
]

pub marked-IsSteady : (t : Time) (tx : Transaction) → IsSteady tx → IsSteady (marked t tx)
marked-IsSteady t tx h = (Steady-Numbered tx.status tx h, refl)

prepare_planned-no_crash :
    (tx : Transaction) (p : RetryPlan) → HasPlan p tx → prepare_planned tx p ≢ crash
unfolding prepare_planned aim
prepare_planned-no_crash tx p h q =
    let n = length tx.retry_attempts in
    let back : n + 1 - 1 ≡ n = omega arith in
    elim (dec_lt n p.max_attempts) [
      | yes left ↦
          let (processor, ep) = get_elem?-of_lt p.processors n (omega (arith, h.routes)) in
          let (at, et) = get_elem?-of_lt p.scheduled_times n (omega (arith, h.times)) in
          absurd (
            ground (
              arith,
              q,
              ap (get_elem? p.processors) back,
              ap (get_elem? p.scheduled_times) back,
              ep,
              et,
            ))
      | no full ↦ absurd (ground (arith, q))
    ]

prepare_tx-no_crash : (tx : Transaction) → IsSteady tx → prepare_tx tx ≢ crash
unfolding prepare_tx
prepare_tx-no_crash tx h = elim (Bool-cases (is_eligible tx.status)) [
  | inr no_more ↦ λ q. ground (arith, q, no_more)
  | inl may ↦ λ q.
      let (p, opening) = opened tx.status tx may h in
      let planned : prepare_tx tx ≡ prepare_planned tx p =
        ground (arith, may, opening.has_plan.planned) in
      prepare_planned-no_crash tx p opening.has_plan (sym planned ∙ q)
]

-- The first read of a call finds every index in range.
pub prepare-no_crash : (id : String) (s : Store) → AllSteady s → prepare id s ≢ crash
unfolding prepare get
prepare-no_crash id s h = elim (Option-cases (lookup id s.transactions)) [
  | inl e ↦ rw (e, prepare, get) (λ q. cc)
  | inr (tx, e) ↦ rw (e, prepare, get) (prepare_tx-no_crash tx (h id tx e))
]
