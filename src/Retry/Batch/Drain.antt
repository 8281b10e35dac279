-- ===== src/Retry/Batch/Drain.antt =====
-- The inner loop of ProcessAllPending, round by round.
use mathlib.Core.Path.{subst}
use zenithpay_retry.Base.{
  ℕ, zero, suc, ◌+◌, ◌≤◌, ◌<◌, ◌≡◌, ◌≢◌, refl, ap, sym, ◌∙◌, ◌⊎◌, inl, inr, String, false, some, [],
  ◌∷◌, Dict, length, length-append, lookup, Outcome, ok, err, eq_iff, Bool-cases, arith,
}
use zenithpay_retry.Float.{Float64}
use zenithpay_retry.Domain.Models.{
  Transaction, TransactionStatus, scheduled, retrying, recovered, failed_final, rejected, RetryPlan,
  RetryAttempt,
}
use zenithpay_retry.Domain.Decline.{RetryStrategy}
use zenithpay_retry.Domain.Decline.Plan.{AllComplete}
use zenithpay_retry.Store.{put, get, is_pending_status}
use zenithpay_retry.Store.Index.{pending_tx, lookup-put}
use zenithpay_retry.Lifecycle.Advance.{IsWaiting, IsRecorded}
use zenithpay_retry.Retry.World.{World, EngineError}
use zenithpay_retry.Retry.Execute.{is_eligible, execute_retry}
use zenithpay_retry.Retry.Execute.Behaviour.{
  Executed, not_there, not_now, none_left, tried, execute_retry-Executed,
}
use zenithpay_retry.Retry.Execute.Effects.{IsSafe, execute_retry-IsSafe}
use zenithpay_retry.Retry.Batch.{
  Tally, Progress, finished, Next, stop_recovered, go_on, next_of, drain,
}

pub eligible-pending : (s : TransactionStatus) → is_eligible s ≡ is_pending_status s
unfolding is_eligible is_pending_status
eligible-pending scheduled = refl
eligible-pending retrying = refl
eligible-pending recovered = refl
eligible-pending failed_final = refl
eligible-pending rejected = refl

-- The rounds suffice for the attempts that the transaction has left.
abbrev pub Enough : {F : Type 0} → ℕ → String → World F → Type 0
Enough rounds id w =
    (tx : Transaction) (p : RetryPlan)
    → lookup id w.store.transactions ≡ some tx
    → tx.retry_plan ≡ some p
    → p.max_attempts ≤ rounds + length tx.retry_attempts

-- The loop ended without a panic; its transaction is not pending, and no other one was touched.
pub record IsDrained {F : Type 0} (id : String) (w w' : World F) (pr : Progress) : Type 0 where
  pub ended : (t : Tally) × (pr ≡ finished t)
  pub safe : IsSafe w'
  pub settled : pending_tx (lookup id w'.store.transactions) ≡ false
  pub others :
      (j : String) → j ≢ id → lookup j w'.store.transactions ≡ lookup j w.store.transactions

module _ {F : Type 0} ⦃f : Float64 F⦄ (strategies : Dict (RetryStrategy F)) where
  drain_err :
      (fuel : ℕ) (id : String) (t : Tally) (w w' : World F) (e : EngineError)
      → execute_retry strategies id w ≡ (w', err e)
      → drain strategies (suc fuel) id t w ≡ (w', finished t)
  unfolding drain
  drain_err fuel id t w w' e q = ground arith

  abbrev counted : Tally → Next → Tally
  counted t stop_recovered = record { processed = suc t.processed; recoveries = suc t.recoveries }
  counted t _ = record t { processed = suc t.processed }

  drain_stop :
      (fuel : ℕ) (id : String) (t : Tally) (w w' : World F)
      → execute_retry strategies id w ≡ (w', ok tt)
      → next_of (get id w'.store) ≢ go_on
      → drain strategies (suc fuel) id t w ≡ (w', finished (counted t (next_of (get id w'.store))))
  unfolding drain
  drain_stop fuel id t w w' q n = ground arith

  drain_go_on :
      (fuel : ℕ) (id : String) (t : Tally) (w w' : World F)
      → execute_retry strategies id w ≡ (w', ok tt)
      → next_of (get id w'.store) ≡ go_on
      → drain strategies (suc fuel) id t w ≡ drain strategies fuel id (counted t go_on) w'
  unfolding drain
  drain_go_on fuel id t w w' q n = ground arith

  by_result :
      (fuel : ℕ) (id : String) (t : Tally) (w : World F) (x : World F × Progress)
      → drain strategies fuel id t w ≡ x
      → IsDrained id w x.0 x.1
      → IsDrained id w (drain strategies fuel id t w).0 (drain strategies fuel id t w).1
  by_result fuel id t w x e h = subst (λ y. IsDrained id w y.0 y.1) (sym e) h

  untouched :
      (id : String) (w w' : World F) (t : Tally)
      → IsSafe w
      → w' ≡ w
      → pending_tx (lookup id w.store.transactions) ≡ false
      → IsDrained id w w' (finished t)
  untouched id w w' t h e n =
      subst (λ v. IsDrained id w v (finished t)) (sym e)
        (record { ended = (t, refl); safe = h; settled = n; others = λ j ne. refl })

  replaced :
      (id : String) (w w' : World F) (u : Transaction) (t : Tally)
      → IsSafe w'
      → w'.store ≡ put id u w.store
      → is_pending_status u.status ≡ false
      → IsDrained id w w' (finished t)
  replaced id w w' u t h s n = record {
    ended = (t, refl);
    safe = h;
    settled = ground (arith, lookup-put id id u w.store, eq_iff id id);
    others = λ j ne. ground (arith, lookup-put id j u w.store, eq_iff id j);
  }

  -- The recursive call of the loop, as the induction hands it over.
  abbrev Again : ℕ → String → Type 0
  Again fuel id =
      (t : Tally) (w : World F)
      → IsSafe w
      → ((rounds : ℕ) × (fuel ≡ suc rounds) × Enough rounds id w)
      → let (w', pr) = drain strategies fuel id t w in IsDrained id w w' pr

  chained :
      (id : String) (w w₁ w' : World F) (u : Transaction) (pr : Progress)
      → w₁.store ≡ put id u w.store
      → IsDrained id w₁ w' pr
      → IsDrained id w w' pr
  chained id w w₁ w' u pr s d = record {
    ended = d.ended;
    safe = d.safe;
    settled = d.settled;
    others = λ j ne. d.others j ne ∙ ground (arith, lookup-put id j u w.store, eq_iff id j);
  }

  found :
      (id : String) (w w' : World F) (u : Transaction)
      → w'.store ≡ put id u w.store
      → get id w'.store ≡ some u
  unfolding get
  found id w w' u s = ground (arith, lookup-put id id u w.store, eq_iff id id)

  won_or_lost :
      (p : RetryPlan) (tx : Transaction) (a : RetryAttempt) (u : Transaction)
      (st : TransactionStatus)
      → IsRecorded p tx a u st
      → ((u.status ≡ recovered) ⊎ (u.status ≡ failed_final))
        ⊎ ((u.status ≡ retrying) × (length u.retry_attempts < p.max_attempts))
  won_or_lost p tx a u st rec = elim (Bool-cases a.success) [
    | inl e ↦ inl (inl (rec.status_set ∙ rec.won e))
    | inr e ↦ elim (rec.lost e) [
      | inl (_, x) ↦ inl (inr (rec.status_set ∙ x))
      | inr (l, x) ↦ inr (rec.status_set ∙ x, l)
    ]
  ]

  stop_call :
      (rounds : ℕ) (id : String) (t : Tally) (w w' : World F) (u : Transaction)
      → IsSafe w'
      → execute_retry strategies id w ≡ (w', ok tt)
      → w'.store ≡ put id u w.store
      → (u.status ≡ recovered) ⊎ (u.status ≡ failed_final)
      → let (v, pr) = drain strategies (suc rounds) id t w in IsDrained id w v pr
  unfolding next_of is_pending_status
  stop_call rounds id t w w' u h' q s over =
      by_result (suc rounds) id t w _
        (drain_stop rounds id t w w' q (ground (arith, found id w w' u s)))
        (replaced id w w' u _ h' s (ground arith))

  go_on_call :
      (rounds : ℕ) (id : String) (t : Tally) (w w' : World F) (u : Transaction) (p : RetryPlan)
      → Again rounds id
      → IsSafe w'
      → execute_retry strategies id w ≡ (w', ok tt)
      → w'.store ≡ put id u w.store
      → u.retry_plan ≡ some p
      → u.status ≡ retrying
      → length u.retry_attempts < p.max_attempts
      → p.max_attempts < rounds + length u.retry_attempts
      → let (v, pr) = drain strategies (suc rounds) id t w in IsDrained id w v pr
  go_on_call zero id t w w' u p again h' q s planned status left room = absurd (omega arith)
  go_on_call (suc rounds) id t w w' u p again h' q s planned status left room =
      by_result (suc (suc rounds)) id t w (drain strategies (suc rounds) id (counted t go_on) w')
        (drain_go_on (suc rounds) id t w w' q (unfold next_of in ground (arith, found id w w' u s)))
        (chained id w w' _ u _ s (
          again (counted t go_on) w' h' (
            rounds,
            refl,
            λ v p' e planned'.
                let same : v ≡ u = ground (arith, lookup-put id id u w.store, eq_iff id id) in
                let one : p' ≡ p = ground arith in ground arith,
          )))

  tried_call :
      (rounds : ℕ) (id : String) (t : Tally) (w w' : World F) (tx u : Transaction) (p : RetryPlan)
      (a : RetryAttempt) (st : TransactionStatus)
      → Again rounds id
      → IsSafe w'
      → Enough rounds id w
      → execute_retry strategies id w ≡ (w', ok tt)
      → lookup id w.store.transactions ≡ some tx
      → IsWaiting p tx
      → IsRecorded p tx a u st
      → w'.store ≡ put id u w.store
      → let (v, pr) = drain strategies (suc rounds) id t w in IsDrained id w v pr
  tried_call rounds id t w w' tx u p a st again h' enough q e wait rec s =
      elim (won_or_lost p tx a u st rec) [
        | inl over ↦ stop_call rounds id t w w' u h' q s over
        | inr (status, left) ↦
            go_on_call rounds id t w w' u p again h' q s rec.same_plan status left (
              omega (
                arith,
                enough tx p e wait.on_plan.planned,
                ap length rec.appended,
                length-append tx.retry_attempts (a ∷ []),
              ))
      ]

  one_call :
      (rounds : ℕ) (id : String) (t : Tally) (w w' : World F) (r : Outcome EngineError (Unit {0}))
      → Again rounds id
      → IsSafe w
      → IsSafe w'
      → Enough rounds id w
      → execute_retry strategies id w ≡ (w', r)
      → Executed strategies id w w' r
      → let (v, pr) = drain strategies (suc rounds) id t w in IsDrained id w v pr
  one_call rounds id t w w' r again h h' enough q (not_there e same c) =
      by_result (suc rounds) id t w (w', finished t)
        (drain_err rounds id t w w' _ (q ∙ ap (λ x. (w', x)) c))
        (untouched id w w' t h same (ground arith))
  one_call rounds id t w w' r again h h' enough q (not_now tx e no_more same c) =
      by_result (suc rounds) id t w (w', finished t)
        (drain_err rounds id t w w' _ (q ∙ ap (λ x. (w', x)) c))
        (untouched id w w' t h same (ground (arith, eligible-pending tx.status)))
  one_call rounds id t w w' r again h h' enough q
        (none_left tx u p at at' e may wait full m s n c times) =
      by_result (suc rounds) id t w (w', finished t)
        (drain_err rounds id t w w' _ (q ∙ ap (λ x. (w', x)) c))
        (replaced id w w' u t h' s
          (unfold is_pending_status in ap (λ x. is_pending_status x.status) m))
  one_call rounds id t w w' r again h h' enough q
        (tried tx u p a st at e may wait fits rec s n c performed) =
      tried_call rounds id t w w' tx u p a st again h' enough (q ∙ ap (λ x. (w', x)) c) e wait rec s

  -- With one round for each attempt left and one more, the inner loop of ProcessAllPending ends
  -- without a panic, its transaction is no longer pending, and no other one is touched; from a safe
  -- state and with complete strategies.
  pub drain-IsDrained :
      (rounds : ℕ) (id : String) (t : Tally) (w : World F)
      → AllComplete strategies
      → IsSafe w
      → Enough rounds id w
      → let (w', pr) = drain strategies (suc rounds) id t w in IsDrained id w w' pr
  drain-IsDrained zero id t w all h enough =
      one_call zero id t w _ _ (λ t' w' h' (r, e, _). absurd (omega arith)) h
        (execute_retry-IsSafe strategies id w all h).0 enough refl
        (execute_retry-Executed strategies id w all h.live)
  drain-IsDrained (suc rounds) id t w all h enough =
      one_call (suc rounds) id t w _ _
        (λ t' w' h' (r, e, room).
          drain-IsDrained rounds id t' w' all h'
            (λ v p at planned. ground (arith, room v p at planned)))
        h (execute_retry-IsSafe strategies id w all h).0 enough refl
        (execute_retry-Executed strategies id w all h.live)
