-- ===== src/Retry/Concurrent/Commit.antt =====
-- The update at the end of a call of ExecuteRetry, when other calls may have run since its read.
use mathlib.Core.Path.{subst}
use zenithpay_retry.Base.{
  ℕ, suc, ◌+◌, ◌<◌, ◌≡◌, refl, sym, ap, ◌∙◌, inl, inr, String, true, false, some, [], ◌∷◌, ◌++◌,
  length, length-append, lt_of_get_elem?, lookup, Outcome, ok, err, arith, Bool-cases, ◌==◌, eq_iff,
}
use zenithpay_retry.Domain.Models.{Transaction, TransactionStatus, RetryPlan, RetryAttempt}
use zenithpay_retry.Store.{Store, put, update_func, refused}
use zenithpay_retry.Store.Updates.{update_func-eq_put}
use zenithpay_retry.Store.Index.{lookup-put}
use zenithpay_retry.Lifecycle.{IsLive, Life}
use zenithpay_retry.Lifecycle.Attempts.{Fits}
use zenithpay_retry.Lifecycle.Advance.{IsWaiting, eligible-IsWaiting, record_attempt-IsRecorded}
use zenithpay_retry.Retry.World.{World, now, notify, EngineError, not_retryable}
use zenithpay_retry.Retry.Execute.{
  Intent, is_eligible, record_attempt, update_error, report, commit,
}

update_func-refused :
    {E R : Type 0} (id : String) (fn : Transaction → Outcome E (Transaction × R)) (s : Store)
    (v : Transaction) (e : E)
    → lookup id s.transactions ≡ some v
    → fn v ≡ err e
    → update_func id fn s ≡ (s, err (refused e))
unfolding update_func
update_func-refused id fn s v e found c = rw (found, update_func, c)

module _ {F : Type 0} (id : String) (i : Intent) (a : RetryAttempt) (w : World F) (v : Transaction)
    (found : lookup id w.store.transactions ≡ some v) where
  -- The callback's refusal leaves the store and the log as they were.
  commit_refused :
      record_attempt a (now w) v ≡ err not_retryable
      → ((commit id i a w).0.store ≡ w.store)
        × ((commit id i a w).0.notifier ≡ w.notifier)
        × ((commit id i a w).1 ≡ err not_retryable)
  unfolding commit report update_error
  commit_refused e =
      ground
        (arith, update_func-refused id (record_attempt a (now w)) w.store v not_retryable found e)

  commit_taken :
      (u : Transaction) (st : TransactionStatus)
      → record_attempt a (now w) v ≡ ok (u, st)
      → ((commit id i a w).0.store ≡ put id u w.store) × ((commit id i a w).1 ≡ ok tt)
  unfolding commit report notify
  commit_taken u st e =
      rw (update_func-eq_put id (record_attempt a (now w)) w.store v u st found e, commit)
        (refl, refl)

  -- How the update ends, for an attempt of the transaction's plan.
  pub data Committed (p : RetryPlan) : World F × Outcome EngineError (Unit {0}) → Type 0 where
    too_late :
        (w' : World F)
        → w'.store ≡ w.store
        → w'.notifier ≡ w.notifier
        → Committed p (w', err not_retryable)
    in_time :
        (w' : World F) (u : Transaction)
        → w'.store ≡ put id u w.store
        → IsLive u
        → u.id ≡ v.id
        → u.retry_plan ≡ v.retry_plan
        → u.retry_attempts ≡ v.retry_attempts ++ a ∷ []
        → suc (length v.retry_attempts) ≡ a.attempt_number
        → length v.retry_attempts < p.max_attempts
        → Committed p (w', ok tt)

  ineligible_refused : is_eligible v.status ≡ false → record_attempt a (now w) v ≡ err not_retryable
  unfolding record_attempt
  ineligible_refused e = ground arith

  outnumbered_refused :
      (length v.retry_attempts + 1 == a.attempt_number) ≡ false
      → record_attempt a (now w) v ≡ err not_retryable
  unfolding record_attempt
  outnumbered_refused e = ground arith

  refused_late :
      (p : RetryPlan)
      → record_attempt a (now w) v ≡ err not_retryable
      → Committed p (commit id i a w)
  refused_late p e =
      let (s, n, r) = commit_refused e in
      subst (λ x. Committed p ((commit id i a w).0, x)) (sym r) (too_late (commit id i a w).0 s n)

  recorded :
      (p : RetryPlan) (k : ℕ)
      → is_eligible v.status ≡ true
      → IsWaiting p v
      → Fits p k a
      → (length v.retry_attempts + 1 == a.attempt_number) ≡ true
      → Committed p (commit id i a w)
  recorded p k may h fits e =
      let here : k ≡ length v.retry_attempts = ground (arith, fits.numbered) in
      let c = subst (λ n. Fits p n a) here fits in
      let (u, st, q, timed, rec) = record_attempt-IsRecorded p v a (now w) may h c in
      let (s, r) = commit_taken u st q in
      subst (λ x. Committed p ((commit id i a w).0, x)) (sym r)
        (in_time (commit id i a w).0 u s (subst (λ x. Life x u) (sym rec.status_set) rec.live)
          rec.same_id (rec.same_plan ∙ sym h.on_plan.planned) rec.appended (sym c.numbered)
          (omega (
            arith,
            h.on_plan.routes,
            lt_of_get_elem? p.processors (length v.retry_attempts) c.routed,
          )))

  -- In a store of live transactions, an attempt that fits the transaction's plan is either recorded
  -- next in order or refused without a trace.
  pub commit-Committed :
      (p : RetryPlan) (k : ℕ)
      → IsLive v
      → v.retry_plan ≡ some p
      → Fits p k a
      → Committed p (commit id i a w)
  commit-Committed p k live planned fits = elim (Bool-cases (is_eligible v.status)) [
    | inr no_more ↦ refused_late p (ineligible_refused no_more)
    | inl may ↦ elim (Bool-cases (length v.retry_attempts + 1 == a.attempt_number)) [
      | inr other ↦ refused_late p (outnumbered_refused other)
      | inl turn ↦
          let (q, h) = eligible-IsWaiting v may live in
          let same : q ≡ p = ground (arith, h.on_plan.planned, planned) in
          recorded p k may (subst (λ x. IsWaiting x v) same h) fits turn
    ]
  ]

-- What a second update for the same attempt number finds.
second_refused :
    {F : Type 0} (id : String) (i j : Intent) (a b : RetryAttempt) (w : World F) (v : Transaction)
    (found : lookup id w.store.transactions ≡ some v) (p : RetryPlan)
    (x : World F × Outcome EngineError (Unit {0}))
    → a.attempt_number ≡ b.attempt_number
    → x.1 ≡ ok tt
    → Committed id i a w v found p x
    → let (w', r) = commit id j b x.0 in
      (w'.store ≡ x.0.store) × (w'.notifier ≡ x.0.notifier) × (r ≡ err not_retryable)
second_refused id i j a b w v found p x same success (too_late w' s n) = absurd (cc)
second_refused id i j a b w v found p x same success
      (in_time w' u s live same_id plan more turn left) =
    let here : lookup id w'.store.transactions ≡ some u =
      ap (λ z. lookup id z.transactions) s
      ∙ ground (arith, lookup-put id id u w.store, eq_iff id id) in
    let longer : length u.retry_attempts ≡ suc (length v.retry_attempts) =
      ap length more ∙ omega (arith, length-append v.retry_attempts (a ∷ [])) in
    let late : (length u.retry_attempts + 1 == b.attempt_number) ≡ false = ground arith in
    commit_refused id j b w' u here (outnumbered_refused id j b w' u here late)

-- Of two calls of ExecuteRetry that carry out the same attempt of a live transaction, as its plan
-- says, when the update of one has succeeded, that of the other is refused and leaves the store and
-- the log as they are.
pub commit_once :
    {F : Type 0} (id : String) (i j : Intent) (a b : RetryAttempt) (w : World F) (v : Transaction)
    (p : RetryPlan) (k : ℕ)
    → lookup id w.store.transactions ≡ some v
    → IsLive v
    → v.retry_plan ≡ some p
    → Fits p k a
    → a.attempt_number ≡ b.attempt_number
    → (commit id i a w).1 ≡ ok tt
    → let (w', _) = commit id i a w in
      let (w'', r) = commit id j b w' in
      (w''.store ≡ w'.store) × (w''.notifier ≡ w'.notifier) × (r ≡ err not_retryable)
commit_once id i j a b w v p k found live planned fits same success =
    second_refused id i j a b w v found p (commit id i a w) same success
      (commit-Committed id i a w v found p k live planned fits)
