-- ===== src/Retry/Execute/Effects.antt =====
-- What follows from the four ways in which ExecuteRetry ends.
use mathlib.Core.Path.{subst}
use zenithpay_retry.Base.{◌≡◌, ◌≢◌, refl, ap, sym, ◌∙◌, String, Dict, length, Outcome, panicked}
use zenithpay_retry.Float.{Float64}
use zenithpay_retry.Time.{Time}
use zenithpay_retry.Domain.Models.{Transaction, RetryPlan}
use zenithpay_retry.Domain.Decline.{RetryStrategy}
use zenithpay_retry.Domain.Decline.Plan.{AllComplete}
use zenithpay_retry.Store.{Store, put}
use zenithpay_retry.Store.Index.{IsIndexed, put-IsIndexed, put_all}
use zenithpay_retry.Lifecycle.{IsLive, AllLive, Life}
use zenithpay_retry.Lifecycle.Advance.{IsWaiting}
use zenithpay_retry.Retry.World.{World, EngineError}
use zenithpay_retry.Retry.Execute.{execute_retry}
use zenithpay_retry.Retry.Execute.Behaviour.{
  Executed, not_there, not_now, none_left, tried, marked, execute_retry-Executed,
}

-- The invariant of the engine's state.
pub record IsSafe {F : Type 0} (w : World F) : Type 0 where
  pub live : AllLive w.store
  pub indexed : IsIndexed w.store

pub put-AllLive :
    (id : String) (u : Transaction) (s : Store) → IsLive u → AllLive s → AllLive (put id u s)
put-AllLive id u s new old = put_all IsLive id u s new old

marked-IsLive :
    (p : RetryPlan) (tx : Transaction) (t : Time)
    → IsWaiting p tx
    → length tx.retry_attempts ≡ p.max_attempts
    → IsLive (marked t tx)
marked-IsLive p tx t h full = (
  p,
  record {
    planned = h.on_plan.planned;
    soft = h.on_plan.soft;
    times = h.on_plan.times;
    routes = h.on_plan.routes;
    follows = h.on_plan.follows;
  },
  h.failed,
  full,
  refl,
)

module _ {F : Type 0} where
  pub moved-IsSafe :
      (id : String) (w w' : World F) (u : Transaction)
      → IsSafe w
      → u.id ≡ id
      → IsLive u
      → w'.store ≡ put id u w.store
      → IsSafe w'
  moved-IsSafe id w w' u h same new e = record {
    live = subst AllLive (sym e) (put-AllLive id u w.store new h.live);
    indexed = subst IsIndexed (sym e) (put-IsIndexed id u w.store same h.indexed);
  }

  Executed-IsSafe :
      ⦃f : Float64 F⦄ {strategies : Dict (RetryStrategy F)} (id : String) (w w' : World F)
      (r : Outcome EngineError (Unit {0}))
      → IsSafe w
      → Executed strategies id w w' r
      → IsSafe w'
  Executed-IsSafe id w w' r h (not_there e same _) = subst IsSafe (sym same) h
  Executed-IsSafe id w w' r h (not_now tx e no_more same _) = subst IsSafe (sym same) h
  Executed-IsSafe id w w' r h (none_left tx u p t t' e may wait full m s n _ times) =
      moved-IsSafe id w w' u h (ap (λ x. x.id) m ∙ h.indexed.keyed id tx e)
        (subst IsLive (sym m) (marked-IsLive p tx t wait full)) s
  Executed-IsSafe id w w' r h (tried tx u p a st t e may wait fits rec s n _ performed) =
      moved-IsSafe id w w' u h (rec.same_id ∙ h.indexed.keyed id tx e)
        (subst (λ x. Life x u) (sym rec.status_set) rec.live) s

  Executed-no_panic :
      ⦃f : Float64 F⦄ {strategies : Dict (RetryStrategy F)} (id : String) (w w' : World F)
      (r : Outcome EngineError (Unit {0}))
      → Executed strategies id w w' r
      → r ≢ panicked
  Executed-no_panic id w w' r (not_there e same q) p = cc
  Executed-no_panic id w w' r (not_now tx e no_more same q) p = cc
  Executed-no_panic id w w' r (none_left tx u p t t' e may wait full m s n q times) c = cc
  Executed-no_panic id w w' r (tried tx u p a st t e may wait fits rec s n q performed) c = cc

-- Whatever the id, ExecuteRetry keeps every stored transaction at a point of its life and the
-- pending index exact, and does not panic; from a safe state and with complete strategies.
pub execute_retry-IsSafe :
    {F : Type 0} ⦃f : Float64 F⦄ (strategies : Dict (RetryStrategy F)) (id : String) (w : World F)
    → AllComplete strategies
    → IsSafe w
    → let (w', r) = execute_retry strategies id w in IsSafe w' × (r ≢ panicked)
execute_retry-IsSafe strategies id w all h =
    let (w', r) = execute_retry strategies id w in
    let x = execute_retry-Executed strategies id w all h.live in
    (Executed-IsSafe id w w' r h x, Executed-no_panic id w w' r x)
