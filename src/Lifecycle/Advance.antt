-- ===== src/Lifecycle/Advance.antt =====
-- The callbacks of ExecuteRetry along the life of a transaction.
use mathlib.Core.Path.{subst, sym, ◌∙◌}
use native.Mathlib.Nat.{zero-add}
use native.Mathlib.Decide.{dec_lt}
use zenithpay_retry.Base.{
  suc, ◌≤◌, ◌<◌, ◌≡◌, refl, ◌⊎◌, inl, inr, true, false, none, some, [], ◌∷◌, ◌++◌, length,
  length-append, get_elem?, get_elem?-of_lt, lt_of_get_elem?, ok, Bool-cases, arith,
}
use zenithpay_retry.Time.{Time}
use zenithpay_retry.Domain.Models.{
  Transaction, TransactionStatus, scheduled, retrying, recovered, failed_final, rejected, RetryPlan,
  RetryAttempt,
}
use zenithpay_retry.Lifecycle.{Follows, AllFailed, IsPlanned, Life, IsLive}
use zenithpay_retry.Lifecycle.Attempts.{
  Fits, Follows-append, AllFailed-append, EndsInSuccess-append,
}
use zenithpay_retry.Retry.Execute.{is_eligible, settle, record_attempt}

-- A transaction that waits for a retry: every attempt so far failed.
pub record IsWaiting (p : RetryPlan) (tx : Transaction) : Type 0 where
  pub on_plan : IsPlanned p tx
  pub failed : AllFailed tx.retry_attempts
  pub within : length tx.retry_attempts ≤ p.max_attempts
  pub next : tx.next_retry_at ≡ get_elem? p.scheduled_times (length tx.retry_attempts)

waiting :
    (status : TransactionStatus) (tx : Transaction)
    → is_eligible status ≡ true
    → Life status tx
    → (p : RetryPlan) × IsWaiting p tx
unfolding is_eligible
waiting scheduled tx e (p, h, none_yet, next) = (
  p,
  record { on_plan = h; failed = rw none_yet tt; within = ground arith; next = rw none_yet next },
)
waiting retrying tx e (p, h, failed, some_done, left, next) =
    (p, record { on_plan = h; failed = failed; within = omega arith; next = next })
waiting recovered tx e h = cc
waiting failed_final tx e h = cc
waiting rejected tx e h = cc

-- An eligible transaction of the store waits for a retry.
pub eligible-IsWaiting :
    (tx : Transaction) → is_eligible tx.status ≡ true → IsLive tx → (p : RetryPlan) × IsWaiting p tx
eligible-IsWaiting tx e h = waiting tx.status tx e h

-- What recording attempt `a` makes of `tx`.
pub record IsRecorded (p : RetryPlan) (tx : Transaction) (a : RetryAttempt) (u : Transaction)
    (st : TransactionStatus) : Type 0 where
  pub status_set : u.status ≡ st
  pub live : Life st u
  pub same_id : u.id ≡ tx.id
  pub same_plan : u.retry_plan ≡ some p
  pub appended : u.retry_attempts ≡ tx.retry_attempts ++ a ∷ []
  -- Nothing but the status, the attempts, the next retry and the time of the update changes.
  pub kept : u ≡ record tx {
    status = u.status;
    retry_attempts = u.retry_attempts;
    next_retry_at = u.next_retry_at;
    updated_at = u.updated_at;
  }
  pub won : a.success ≡ true → st ≡ recovered
  pub lost :
      a.success ≡ false
      → ((length u.retry_attempts ≡ p.max_attempts) × (st ≡ failed_final))
        ⊎ ((length u.retry_attempts < p.max_attempts) × (st ≡ retrying))

module _ (p : RetryPlan) (tx : Transaction) (w : IsWaiting p tx) (a : RetryAttempt) (t : Time)
    (c : Fits p (length tx.retry_attempts) a) where
  abbrev appended_tx : Transaction
  appended_tx = record tx { retry_attempts = tx.retry_attempts ++ a ∷ []; updated_at = t }

  still-IsPlanned : IsPlanned p appended_tx
  still-IsPlanned = record {
    planned = w.on_plan.planned;
    soft = w.on_plan.soft;
    times = w.on_plan.times;
    routes = w.on_plan.routes;
    follows =
        Follows-append p 0 tx.retry_attempts a w.on_plan.follows
          (subst (λ n. Fits p n a) (sym (zero-add (length tx.retry_attempts))) c);
  }

  replan :
      (u : Transaction)
      → u.retry_plan ≡ tx.retry_plan
      → u.decline_category ≡ tx.decline_category
      → u.retry_attempts ≡ appended_tx.retry_attempts
      → IsPlanned p u
  replan u e d l = record {
    planned = e ∙ still-IsPlanned.planned;
    soft = d ∙ still-IsPlanned.soft;
    times = still-IsPlanned.times;
    routes = still-IsPlanned.routes;
    follows = subst (Follows p 0) (sym l) still-IsPlanned.follows;
  }

  one_more : length appended_tx.retry_attempts ≡ suc (length tx.retry_attempts)
  one_more = omega (arith, length-append tx.retry_attempts (a ∷ []))

  room : length tx.retry_attempts < p.max_attempts
  room =
      omega
        (arith, w.on_plan.routes, lt_of_get_elem? p.processors (length tx.retry_attempts) c.routed)

  abbrev Settles : Type 0
  Settles =
      (u : Transaction) × (st : TransactionStatus) × (settle p a appended_tx ≡ ok (u, st))
      × (u.updated_at ≡ t)
      × IsRecorded p tx a u st

  settle_won : a.success ≡ true → Settles
  unfolding settle
  settle_won e = (
    record appended_tx { status = recovered; next_retry_at = none },
    recovered,
    rw e,
    refl,
    record {
      status_set = refl;
      live = (
        p,
        replan _ refl refl refl,
        EndsInSuccess-append tx.retry_attempts a w.failed e,
        omega (arith, one_more, room),
        refl,
      );
      same_id = refl;
      same_plan = w.on_plan.planned;
      appended = refl;
      kept = refl;
      won = λ _. refl;
      lost = λ n. cc;
    },
  )

  settle_last : a.success ≡ false → suc (length tx.retry_attempts) ≡ p.max_attempts → Settles
  unfolding settle
  settle_last e last = (
    record appended_tx { status = failed_final; next_retry_at = none },
    failed_final,
    ground (arith, c.numbered),
    refl,
    record {
      status_set = refl;
      live = (
        p,
        replan _ refl refl refl,
        AllFailed-append tx.retry_attempts a w.failed e,
        omega (arith, one_more),
        refl,
      );
      same_id = refl;
      same_plan = w.on_plan.planned;
      appended = refl;
      kept = refl;
      won = λ n. cc;
      lost = λ n. inl (omega (arith, one_more), refl);
    },
  )

  settle_again : a.success ≡ false → suc (length tx.retry_attempts) < p.max_attempts → Settles
  unfolding settle
  settle_again e left =
      let (next, at) =
        get_elem?-of_lt p.scheduled_times (suc (length tx.retry_attempts))
          (omega (arith, w.on_plan.times)) in
      (
        record appended_tx { status = retrying; next_retry_at = some next },
        retrying,
        ground (arith, c.numbered),
        refl,
        record {
          status_set = refl;
          live = (
            p,
            replan _ refl refl refl,
            AllFailed-append tx.retry_attempts a w.failed e,
            omega (arith, one_more),
            omega (arith, one_more),
            rw one_more (sym at),
          );
          same_id = refl;
          same_plan = w.on_plan.planned;
          appended = refl;
          kept = refl;
          won = λ n. cc;
          lost = λ n. inr (omega (arith, one_more), refl);
        },
      )

  settle_lem : Settles
  settle_lem = elim (Bool-cases a.success) [
    | inl e ↦ settle_won e
    | inr e ↦ elim (dec_lt (suc (length tx.retry_attempts)) p.max_attempts) [
      | yes left ↦ settle_again e left
      | no full ↦ settle_last e (omega (arith, room))
    ]
  ]

-- For a waiting, eligible transaction and an attempt that fits its plan, the update of ExecuteRetry
-- succeeds, appends the attempt and notes the time; a success recovers the transaction, a failure
-- ends it if it was the last attempt of the plan and schedules the next one otherwise; nothing else
-- of the transaction changes.
pub record_attempt-IsRecorded :
    (p : RetryPlan) (tx : Transaction) (a : RetryAttempt) (t : Time)
    → is_eligible tx.status ≡ true
    → IsWaiting p tx
    → Fits p (length tx.retry_attempts) a
    → (u : Transaction) × (st : TransactionStatus) × (record_attempt a t tx ≡ ok (u, st))
      × (u.updated_at ≡ t)
      × IsRecorded p tx a u st
unfolding record_attempt
record_attempt-IsRecorded p tx a t e w c =
    let (u, st, r, timed, h) = settle_lem p tx w a t c in
    (u, st, ground (arith, c.numbered, w.on_plan.planned), timed, h)
