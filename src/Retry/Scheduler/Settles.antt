-- ===== src/Retry/Scheduler/Settles.antt =====
-- The scheduler's loop, once the times of a plan are past.
use mathlib.Core.Path.{subst}
use zenithpay_retry.Base.{
  ℕ, suc, ◌+◌, ◌≤◌, ◌<◌, ◌≡◌, refl, ap, sym, ◌∙◌, ◌⊎◌, inl, inr, String, Bool, true, false, ◌&&◌,
  some, List, [], ◌∷◌, ◌++◌, map, Dict, lookup, length, All, Enumerates, get_elem?, get_elem?-of_lt,
  Bool-cases, arith, if◌then◌else◌, pos, ltb_ℤ, ◌<ℤ◌,
}
use zenithpay_retry.Float.{Float64}
use zenithpay_retry.Domain.Models.{
  Transaction, TransactionStatus, scheduled, retrying, recovered, failed_final, rejected, RetryPlan,
}
use zenithpay_retry.Domain.Decline.{RetryStrategy}
use zenithpay_retry.Domain.Decline.Plan.{AllComplete}
use zenithpay_retry.Lifecycle.{Life}
use zenithpay_retry.Store.{is_pending_status, is_due}
use zenithpay_retry.Retry.World.{World, now}
use zenithpay_retry.Retry.Execute.Effects.{IsSafe}
use zenithpay_retry.Retry.Batch.{process_due_retries}
use zenithpay_retry.Retry.Batch.Due.{OneMore, process_due_retries-attempts}
use zenithpay_retry.Retry.Scheduler.{
  Scheduler, Signal, ticked, cancelled, LoopState, stopped, loop, start,
}
use zenithpay_retry.Retry.Scheduler.Watch.{AllPast, Watched, process_due_retries-Watched}

-- The transaction under the id j is settled, or has had k attempts.
abbrev Reached : {F : Type 0} → ℕ → String → World F → Type 0
Reached k j w =
    (u : Transaction) × (lookup j w.store.transactions ≡ some u)
    × ((is_pending_status u.status ≡ false) ⊎ (k ≤ length u.retry_attempts))

module _ {F : Type 0} (p : RetryPlan) (w : World F) (past : AllPast p w) where
  due_at :
      (u : Transaction) (k : ℕ)
      → u.next_retry_at ≡ get_elem? p.scheduled_times k
      → k < length p.scheduled_times
      → is_due (now w) u ≡ true
  unfolding is_due
  due_at u k next left =
      let (at, e) = get_elem?-of_lt p.scheduled_times k left in
      let over = past w.ticks k at (omega arith) e in rw (next ∙ e, over) refl

  -- A pending transaction with attempts in its plan is due.
  pending-is_due :
      (status : TransactionStatus) (u : Transaction)
      → is_pending_status status ≡ true
      → Life status u
      → u.retry_plan ≡ some p
      → 0 < p.max_attempts
      → is_due (now w) u ≡ true
  unfolding is_pending_status
  pending-is_due scheduled u e (q, h, none_yet, next) planned some_left =
      let same : q ≡ p = ground (arith, h.planned) in
      due_at u 0 (next ∙ ap (λ (x : RetryPlan). get_elem? x.scheduled_times 0) same) (
        omega (
          arith,
          h.times,
          ap (λ (x : RetryPlan). length x.scheduled_times) same,
          ap (λ (x : RetryPlan). x.max_attempts) same,
        ))
  pending-is_due retrying u e (q, h, failed, some_done, left, next) planned some_left =
      let same : q ≡ p = ground (arith, h.planned) in
      due_at u (length u.retry_attempts)
        (next ∙ ap (λ (x : RetryPlan). get_elem? x.scheduled_times (length u.retry_attempts)) same)
        (omega (
          arith,
          h.times,
          left,
          ap (λ (x : RetryPlan). length x.scheduled_times) same,
          ap (λ (x : RetryPlan). x.max_attempts) same,
        ))
  pending-is_due recovered u e h planned some_left = absurd (cc)
  pending-is_due failed_final u e h planned some_left = absurd (cc)
  pending-is_due rejected u e h planned some_left = absurd (cc)

-- A pending transaction has attempts left, if its plan has any.
pending-has_left :
    (status : TransactionStatus) (u : Transaction) (p : RetryPlan)
    → is_pending_status status ≡ true
    → Life status u
    → u.retry_plan ≡ some p
    → 0 < p.max_attempts
    → length u.retry_attempts < p.max_attempts
unfolding is_pending_status
pending-has_left scheduled u p e (q, h, none_yet, next) planned some_left =
    omega (arith, ap length none_yet)
pending-has_left retrying u p e (q, h, failed, some_done, left, next) planned some_left =
    let same : q ≡ p = ground (arith, h.planned) in
    omega (arith, left, ap (λ (x : RetryPlan). x.max_attempts) same)
pending-has_left recovered u p e h planned some_left = absurd (cc)
pending-has_left failed_final u p e h planned some_left = absurd (cc)
pending-has_left rejected u p e h planned some_left = absurd (cc)

settled_status :
    (status : TransactionStatus) (u : Transaction) (p : RetryPlan)
    → is_pending_status status ≡ false
    → Life status u
    → u.retry_plan ≡ some p
    → (status ≡ recovered) ⊎ (status ≡ failed_final)
unfolding is_pending_status
settled_status scheduled u p e h planned = absurd (cc)
settled_status retrying u p e h planned = absurd (cc)
settled_status recovered u p e h planned = inl refl
settled_status failed_final u p e h planned = inr refl
settled_status rejected u p e h planned = absurd (ground (arith, h.unplanned))

-- The orders of ranges over the pending index visit every key once.
abbrev pub AreOrders : List (Dict (Unit {0}) → List String) → Type 0
AreOrders orders = All (λ order. (m : Dict (Unit {0})) → Enumerates (order m) m) orders

module _ {F : Type 0} ⦃f : Float64 F⦄ (strategies : Dict (RetryStrategy F))
    (all : AllComplete strategies) (j : String) (p : RetryPlan)
    (some_left : 0 < p.max_attempts) where
  tick-Reached :
      (order : List String) (k : ℕ) (w : World F)
      → Watched j p w
      → Enumerates order w.store.pending_ids
      → Reached k j w
      → let (w', through) = process_due_retries strategies order w in
        (through ≡ true) × Reached (suc k) j w'
  tick-Reached order k w h en (u, found, progress) =
      let keyed : u.id ≡ j = h.safe.indexed.keyed j u found in
      let here : lookup u.id w.store.transactions ≡ some u =
        ap (λ i. lookup i w.store.transactions) keyed ∙ found in
      let (v, found', planned) = h.on_plan in
      let on : u.retry_plan ≡ some p = ground (arith, found, found', planned) in
      let (through, did) = process_due_retries-attempts strategies order w u all h.safe en here in
      let w' = (process_due_retries strategies order w).0 in
      let due = is_pending_status u.status && is_due (now w) u in
      let outcome = λ (b : Bool).
        if b
        then OneMore u (lookup u.id w'.store.transactions)
        else lookup u.id w'.store.transactions ≡ some u in
      let there : lookup j w'.store.transactions ≡ lookup u.id w'.store.transactions =
        ap (λ i. lookup i w'.store.transactions) (sym keyed) in
      (
        through,
        elim (Bool-cases (is_pending_status u.status)) [
          | inl pending ↦
              let now_due =
                pending-is_due p w h.past u.status u pending (h.safe.live j u found) on some_left in
              let yes_due : due ≡ true = ground (arith, pending, now_due) in
              let (u', found'', longer) = subst outcome yes_due did in
              let enough : suc k ≤ length u'.retry_attempts =
                ground (arith, pending, longer, progress) in
              (u', there ∙ found'', inr enough)
          | inr settled ↦
              let not_due : due ≡ false = ground (arith, settled) in
              (u, there ∙ subst outcome not_due did, inl settled)
        ],
      )

  loop_next :
      (order : Dict (Unit {0}) → List String) (signals : List Signal) (w w' : World F)
      → process_due_retries strategies (order w.store.pending_ids) w ≡ (w', true)
      → loop strategies (ticked order ∷ signals) w ≡ loop strategies signals w'
  unfolding loop
  loop_next order signals w w' e = ground arith

  -- What the loop leads to: it has stopped, the state is safe, and the transaction is settled.
  abbrev Ends : World F × LoopState → Type 0
  Ends (w', state) =
      (state ≡ stopped)
      × IsSafe w'
      × ((u : Transaction) × (lookup j w'.store.transactions ≡ some u)
          × ((u.status ≡ recovered) ⊎ (u.status ≡ failed_final)))

  stop-Ends :
      (k : ℕ) (rest : List Signal) (w : World F)
      → p.max_attempts ≤ k
      → Watched j p w
      → Reached k j w
      → Ends (loop strategies (cancelled ∷ rest) w)
  unfolding loop
  stop-Ends k rest w most h (u, found, progress) =
      let (v, found', planned) = h.on_plan in
      let on : u.retry_plan ≡ some p = ground (arith, found, found', planned) in
      let live = h.safe.live j u found in
      (
        refl,
        h.safe,
        (
          u,
          found,
          elim (Bool-cases (is_pending_status u.status)) [
            | inl pending ↦
                let left = pending-has_left u.status u p pending live on some_left in
                absurd (ground (arith, pending, left, most, progress))
            | inr settled ↦ settled_status u.status u p settled live on
          ],
        ),
      )

  loop-Ends :
      (orders : List (Dict (Unit {0}) → List String)) (k : ℕ) (rest : List Signal) (w : World F)
      → AreOrders orders
      → p.max_attempts ≤ k + length orders
      → Watched j p w
      → Reached k j w
      → Ends (loop strategies (map ticked orders ++ cancelled ∷ rest) w)
  loop-Ends [] k rest w en most h reached = stop-Ends k rest w (omega (arith, most)) h reached
  loop-Ends (order ∷ orders) k rest w en most h reached =
      let here = order w.store.pending_ids in
      let (through, more) = tick-Reached here k w h (en.0 w.store.pending_ids) reached in
      let w' = (process_due_retries strategies here w).0 in
      subst Ends
        (sym (
          loop_next order (map ticked orders ++ cancelled ∷ rest) w w' (ap (λ b. (w', b)) through)))
        (loop-Ends orders (suc k) rest w' en.1 (omega (arith, most))
          (process_due_retries-Watched strategies all j p here w h) more)

-- When all times of the plan of a stored transaction are past, as the clock reads from now on, and
-- the scheduler, started with a positive interval, gets as many ticks as the plan has attempts
-- before its context is cancelled: it stops then, whatever signals follow, the state is safe, and
-- the transaction is recovered or failed for good. For a plan with at least one attempt, in
-- whatever order the ticks visit the pending index; from a safe state and with complete strategies.
pub start-Settles :
    {F : Type 0} ⦃f : Float64 F⦄ (strategies : Dict (RetryStrategy F)) (s : Scheduler)
    (orders : List (Dict (Unit {0}) → List String)) (rest : List Signal) (w : World F) (j : String)
    (tx : Transaction) (p : RetryPlan)
    → AllComplete strategies
    → IsSafe w
    → pos 0 <ℤ s.interval
    → AreOrders orders
    → lookup j w.store.transactions ≡ some tx
    → tx.retry_plan ≡ some p
    → 0 < p.max_attempts
    → p.max_attempts ≤ length orders
    → AllPast p w
    → let (w', state) = start strategies s (map ticked orders ++ cancelled ∷ rest) w in
      (state ≡ stopped)
      × IsSafe w'
      × ((u : Transaction) × (lookup j w'.store.transactions ≡ some u)
          × ((u.status ≡ recovered) ⊎ (u.status ≡ failed_final)))
unfolding start
start-Settles strategies s orders rest w j tx p all safe positive en found planned some_left most
      past =
    let on : ltb_ℤ (pos 0) s.interval ≡ true = ground (arith, positive) in
    rw on (
      loop-Ends strategies all j p some_left orders 0 rest w en (omega (arith, most))
        (record { safe = safe; on_plan = (tx, found, planned); past = past })
        (tx, found, inr (omega arith)))
