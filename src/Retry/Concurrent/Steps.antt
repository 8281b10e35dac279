-- ===== src/Retry/Concurrent/Steps.antt =====
-- What each step of a call does to the store.
use mathlib.Core.Path.{subst}
use zenithpay_retry.Base.{
  ℕ, ◌≡◌, ◌≢◌, refl, sym, ap, ◌∙◌, String, some, length, lookup, Outcome, panicked, arith,
}
use zenithpay_retry.Time.{Time}
use zenithpay_retry.Domain.Models.{Transaction, RetryPlan, RetryAttempt}
use zenithpay_retry.Store.{Store, put}
use zenithpay_retry.Store.Index.{IsIndexed}
use zenithpay_retry.Store.Updates.{update_func-eq_put}
use zenithpay_retry.Lifecycle.{IsLive, AllLive}
use zenithpay_retry.Retry.World.{World, EngineError, now, notify}
use zenithpay_retry.Retry.Execute.{Intent, attempt, exhaust, give_up, mark_exhausted}
use zenithpay_retry.Retry.Execute.Reads.{Read, ready, used_up}
use zenithpay_retry.Retry.Execute.Behaviour.{marked}
use zenithpay_retry.Retry.Execute.Effects.{IsSafe, moved-IsSafe}
use zenithpay_retry.Retry.Concurrent.{paying, giving_up}
use zenithpay_retry.Retry.Concurrent.Commit.{Committed, too_late, in_time}
use zenithpay_retry.Retry.Concurrent.Backing.{IsFull, Backed, Evolves, unchanged, put-Evolves}

pub aimed : (id : String) (s : Store) (i : Intent) → Read id s (attempt i) → Backed s (paying id i)
aimed id s i (ready tx p i' e may w aim) = (
  p,
  tx,
  record { found = e; planned = w.on_plan.planned },
  length tx.retry_attempts,
  record { numbered = aim.number; routed = aim.routed; timed = aim.timed },
)

pub none_to_make :
    (id : String) (s : Store) (tx : Transaction) (n : ℕ)
    → Read id s (exhaust tx n)
    → Backed s (giving_up id tx n)
none_to_make id s tx n (used_up v p e may w full) =
    (p, v, e, record { on_plan = w.on_plan; failed = w.failed; full = full })

marked-IsFull : (t : Time) (v : Transaction) (p : RetryPlan) → IsFull v p → IsFull (marked t v) p
marked-IsFull t v p h = record {
  on_plan = record {
    planned = h.on_plan.planned;
    soft = h.on_plan.soft;
    times = h.on_plan.times;
    routes = h.on_plan.routes;
    follows = h.on_plan.follows;
  };
  failed = h.failed;
  full = h.full;
}

full_marked-IsLive : (t : Time) (v : Transaction) (p : RetryPlan) → IsFull v p → IsLive (marked t v)
full_marked-IsLive t v p h = let m = marked-IsFull t v p h in (p, m.on_plan, m.failed, m.full, refl)

module _ {F : Type 0} where
  -- What a step does to the store, and how its call ends.
  pub record Kept (w w' : World F) : Type 0 where
    pub safe : IsSafe w'
    pub evolves : Evolves w.store w'.store

  pub same_store : (w w' : World F) → IsSafe w → w'.store ≡ w.store → Kept w w'
  same_store w w' h e = record {
    safe = record {
      live = subst AllLive (sym e) h.live;
      indexed = subst IsIndexed (sym e) h.indexed;
    };
    evolves = unchanged w.store w'.store e;
  }

  pub Committed-Kept :
      (id : String) (i : Intent) (a : RetryAttempt) (w : World F) (v : Transaction)
      (found : lookup id w.store.transactions ≡ some v) (p : RetryPlan)
      (x : World F × Outcome EngineError (Unit {0}))
      → IsSafe w
      → v.retry_plan ≡ some p
      → Committed id i a w v found p x
      → Kept w x.0 × (x.1 ≢ panicked)
  Committed-Kept id i a w v found p x h planned (too_late w' s n) = (same_store w w' h s, λ e. cc)
  Committed-Kept id i a w v found p x h planned (in_time w' u s live same_id plan more turn left) =
      (
        record {
          safe = moved-IsSafe id w w' u h (same_id ∙ h.indexed.keyed id v found) live s;
          evolves = put-Evolves id v u w.store w'.store found s (record {
            plan_kept = plan;
            full_kept = λ q full.
                let same : q ≡ p = ground (arith, full.on_plan.planned, planned) in
                absurd (omega (arith, full.full, left, ap (λ z. z.max_attempts) same));
          });
        },
        λ e. cc,
      )

  pub give_up-Kept :
      (id : String) (tx : Transaction) (n : ℕ) (w : World F) (v : Transaction) (p : RetryPlan)
      → IsSafe w
      → lookup id w.store.transactions ≡ some v
      → IsFull v p
      → Kept w (give_up id tx n w).0
  unfolding give_up notify mark_exhausted
  give_up-Kept id tx n w v p h found full =
      let stored : (give_up id tx n w).0.store ≡ put id (marked (now w) v) w.store =
        ap (λ x. x.0)
          (update_func-eq_put id (mark_exhausted (now w)) w.store v (marked (now w) v) tt found
            refl) in
      record {
        safe =
            moved-IsSafe id w (give_up id tx n w).0 (marked (now w) v) h
              (h.indexed.keyed id v found) (full_marked-IsLive (now w) v p full) stored;
        evolves =
            put-Evolves id v (marked (now w) v) w.store (give_up id tx n w).0.store found stored
              (record { plan_kept = refl; full_kept = λ q f. marked-IsFull (now w) v q f });
      }
