-- ===== src/Retry/Scheduler/Watch.antt =====
-- What the scheduler's calls keep of a transaction's plan and of the clock.
use mathlib.Core.Path.{subst}
use zenithpay_retry.Base.{
  ℕ, ◌≤◌, ◌≡◌, refl, ap, sym, ◌∙◌, inl, inr, String, false, some, List, Dict, lookup, str_eq,
  eq_iff, get_elem?, Outcome, Bool-cases, arith,
}
use zenithpay_retry.Float.{Float64}
use zenithpay_retry.Time.{Time, before}
use zenithpay_retry.Domain.Models.{Transaction, RetryPlan}
use zenithpay_retry.Domain.Decline.{RetryStrategy}
use zenithpay_retry.Domain.Decline.Plan.{AllComplete}
use zenithpay_retry.Store.{put}
use zenithpay_retry.Store.Index.{lookup-put}
use zenithpay_retry.Retry.World.{World, EngineError, tick}
use zenithpay_retry.Retry.Execute.{execute_retry}
use zenithpay_retry.Retry.Execute.Behaviour.{
  Executed, not_there, not_now, none_left, tried, execute_retry-Executed,
}
use zenithpay_retry.Retry.Execute.Effects.{IsSafe, execute_retry-IsSafe}
use zenithpay_retry.Retry.Batch.{process_due_retries}
use zenithpay_retry.Retry.Batch.Keeps.{process_due_retries_keeps}
use zenithpay_retry.Retry.Scheduler.Clock.{GoesOn, execute_retry-GoesOn}

-- No time of the plan comes after a reading of the clock, from the next one on.
abbrev pub AllPast : {F : Type 0} → RetryPlan → World F → Type 0
AllPast p w =
    (n k : ℕ) (at : Time)
    → w.ticks ≤ n
    → get_elem? p.scheduled_times k ≡ some at
    → before (w.clock n) at ≡ false

-- The transaction under the id j has the plan p.
abbrev pub OnPlan : {F : Type 0} → String → RetryPlan → World F → Type 0
OnPlan j p w =
    (u : Transaction) × (lookup j w.store.transactions ≡ some u) × (u.retry_plan ≡ some p)

AllPast-GoesOn :
    {F : Type 0} (p : RetryPlan) (w w' : World F) → GoesOn w w' → AllPast p w → AllPast p w'
AllPast-GoesOn p w w' (same, later) h n k at le e =
    subst (λ c. before (c n) at ≡ false) (sym same) (h n k at (omega (arith, later, le)) e)

module _ {F : Type 0} (j : String) (p : RetryPlan) where
  put-OnPlan :
      (id : String) (w w' : World F) (tx u : Transaction)
      → lookup id w.store.transactions ≡ some tx
      → w'.store ≡ put id u w.store
      → u.retry_plan ≡ tx.retry_plan
      → OnPlan j p w
      → OnPlan j p w'
  put-OnPlan id w w' tx u e s same (v, found, planned) = elim (Bool-cases (str_eq id j)) [
    | inl here ↦
        let one : v ≡ tx = ground (arith, eq_iff id j) in
        (
          u,
          ap (λ x. lookup j x.transactions) s ∙ ground (arith, lookup-put id j u w.store),
          same ∙ ap (λ (x : Transaction). x.retry_plan) (sym one) ∙ planned,
        )
    | inr other ↦ (
      v,
      ap (λ x. lookup j x.transactions) s ∙ ground (arith, lookup-put id j u w.store),
      planned,
    )
  ]

  Executed-OnPlan :
      ⦃f : Float64 F⦄ {strategies : Dict (RetryStrategy F)} (id : String) (w w' : World F)
      (r : Outcome EngineError (Unit {0}))
      → Executed strategies id w w' r
      → OnPlan j p w
      → OnPlan j p w'
  Executed-OnPlan id w w' r (not_there e same q) h = subst (OnPlan j p) (sym same) h
  Executed-OnPlan id w w' r (not_now tx e no_more same q) h = subst (OnPlan j p) (sym same) h
  Executed-OnPlan id w w' r (none_left tx u p' t t' e may wait full m s n q times) h =
      put-OnPlan id w w' tx u e s (ap (λ x. x.retry_plan) m) h
  Executed-OnPlan id w w' r (tried tx u p' a st t e may wait fits rec s n q performed) h =
      put-OnPlan id w w' tx u e s (rec.same_plan ∙ sym wait.on_plan.planned) h

-- A safe state in which the transaction has its plan, whose times are past.
pub record Watched {F : Type 0} (j : String) (p : RetryPlan) (w : World F) : Type 0 where
  pub safe : IsSafe w
  pub on_plan : OnPlan j p w
  pub past : AllPast p w

module _ {F : Type 0} ⦃f : Float64 F⦄ (strategies : Dict (RetryStrategy F))
    (all : AllComplete strategies) (j : String) (p : RetryPlan) where
  execute_retry-Watched :
      (id : String) (w : World F) → Watched j p w → Watched j p (execute_retry strategies id w).0
  execute_retry-Watched id w h =
      let (w', r) = execute_retry strategies id w in
      record {
        safe = (execute_retry-IsSafe strategies id w all h.safe).0;
        on_plan =
            Executed-OnPlan j p id w w' r (execute_retry-Executed strategies id w all h.safe.live)
              h.on_plan;
        past = AllPast-GoesOn p w w' (execute_retry-GoesOn strategies id w all) h.past;
      }

  pub process_due_retries-Watched :
      (order : List String) (w : World F)
      → Watched j p w
      → Watched j p (process_due_retries strategies order w).0
  process_due_retries-Watched order w h =
      process_due_retries_keeps strategies (Watched j p) execute_retry-Watched order w (record {
        safe = record { live = h.safe.live; indexed = h.safe.indexed };
        on_plan = h.on_plan;
        past = AllPast-GoesOn p w (tick w) (refl, omega arith) h.past;
      })
