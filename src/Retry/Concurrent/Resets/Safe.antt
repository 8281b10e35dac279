-- ===== src/Retry/Concurrent/Resets/Safe.antt =====
-- The engine's weaker invariant under interleaved calls and resets.
use mathlib.Core.Path.{subst}
use zenithpay_retry.Base.{
  ℕ, suc, ◌<◌, ◌≡◌, ◌≢◌, refl, sym, ap, ◌∙◌, String, Option, List, [], ◌∷◌, Dict, All, lookup,
  Outcome, ok, err, panicked, Run, done, panic, inl, inr, arith,
}
use zenithpay_retry.Float.{Float64}
use zenithpay_retry.Time.{Time}
use zenithpay_retry.Domain.Models.{
  Transaction, TransactionStatus, scheduled, RetryAttempt, SubmitRequest, SubmitResponse,
}
use zenithpay_retry.Domain.Decline.{RetryStrategy}
use zenithpay_retry.Domain.Decline.Plan.{AllComplete}
use zenithpay_retry.Store.{Store, put, clear, new_store, UpdateError, update_func}
use zenithpay_retry.Store.Index.{IsIndexed, put-IsIndexed, put_all, clear-IsIndexed}
use zenithpay_retry.Store.Updates.{
  Updated, no_transaction, refused_by, panicked_on, replaced, update_func-Updated,
}
use zenithpay_retry.Retry.World.{World, EngineError, now, notify}
use zenithpay_retry.Retry.Submit.{submit}
use zenithpay_retry.Retry.Submit.Behaviour.{
  Submitted, duplicate, rejects, schedules, submit-Submitted,
}
use zenithpay_retry.Retry.Execute.{
  Intent, crash, prepare, simulate, record_attempt, mark_exhausted, report, commit, give_up,
}
use zenithpay_retry.Retry.Execute.Behaviour.{marked}
use zenithpay_retry.Retry.Execute.Payments.{simulate_total}
use zenithpay_retry.Retry.Execute.Effects.{IsSafe}
use zenithpay_retry.Retry.Concurrent.{
  Call, paying, recording, giving_up, Step, begins, finds_none_left, pays, records, gives_up,
  submits,
}
use zenithpay_retry.Retry.Concurrent.Safe.{CannotPanic, All-split, All-join}
use zenithpay_retry.Retry.Concurrent.Resets.{
  Change, steps, clears_store, clears_log, Overlaps, quiet, change,
}
use zenithpay_retry.Retry.Concurrent.Resets.Steady.{IsSteady, Steady, AllSteady, Life-Steady}
use zenithpay_retry.Retry.Concurrent.Resets.Numbers.{IsNumbered, prepare-IsNumbered}
use zenithpay_retry.Retry.Concurrent.Resets.Updates.{
  record_attempt-steady, marked-IsSteady, prepare-no_crash,
}

-- What stays true of the store when calls overlap with resets.
pub record IsCalm (s : Store) : Type 0 where
  pub steady : AllSteady s
  pub indexed : IsIndexed s

put-IsCalm :
    (id : String) (u : Transaction) (s : Store)
    → IsCalm s
    → IsSteady u
    → u.id ≡ id
    → IsCalm (put id u s)
put-IsCalm id u s h new same = record {
  steady = put_all IsSteady id u s new h.steady;
  indexed = put-IsIndexed id u s same h.indexed;
}

clear-IsCalm : (s : Store) → IsCalm (clear s)
unfolding clear new_store lookup
clear-IsCalm s = record { steady = λ id tx e. absurd (cc); indexed = clear-IsIndexed s }

record_update-IsCalm :
    (id : String) (a : RetryAttempt) (t : Time) (s : Store)
    (x : Store × Outcome (UpdateError EngineError) TransactionStatus)
    → Updated id (record_attempt a t) s x
    → IsCalm s
    → IsCalm x.0 × (x.1 ≢ panicked)
record_update-IsCalm id a t s x (no_transaction e) h = (h, λ q. cc)
record_update-IsCalm id a t s x (refused_by tx e found r) h = (h, λ q. cc)
record_update-IsCalm id a t s x (panicked_on tx found r) h =
    elim (record_attempt-steady a t tx (h.steady id tx found)) [
      | inl q ↦ absurd (cc)
      | inr (v, st, q, steady, same) ↦ absurd (cc)
    ]
record_update-IsCalm id a t s x (replaced tx u r found e) h =
    elim (record_attempt-steady a t tx (h.steady id tx found)) [
      | inl q ↦ absurd (cc)
      | inr (v, st, q, steady, same) ↦
          let one : v ≡ u = ground (arith, e, q) in
          (
            put-IsCalm id u s h (subst IsSteady one steady)
                (ap (λ (z : Transaction). z.id) (sym one) ∙ same ∙ h.indexed.keyed id tx found),
            λ q. cc,
          )
    ]

mark_update-IsCalm :
    (id : String) (t : Time) (s : Store) (x : Store × Outcome (UpdateError EngineError) (Unit {0}))
    → Updated id (mark_exhausted t) s x
    → IsCalm s
    → IsCalm x.0
unfolding mark_exhausted
mark_update-IsCalm id t s x (no_transaction e) h = h
mark_update-IsCalm id t s x (refused_by tx e found r) h = h
mark_update-IsCalm id t s x (panicked_on tx found r) h = h
mark_update-IsCalm id t s x (replaced tx u r found e) h =
    let one : marked t tx ≡ u = ground (arith, e) in
    put-IsCalm id u s h (subst IsSteady one (marked-IsSteady t tx (h.steady id tx found)))
      (ap (λ (z : Transaction). z.id) (sym one) ∙ h.indexed.keyed id tx found)

module _ {F : Type 0} where
  report-IsCalm :
      (i : Intent) (w : World F) (r : Outcome (UpdateError EngineError) TransactionStatus)
      → IsCalm w.store × (r ≢ panicked)
      → let (w', r') = report i w r in IsCalm w'.store × (r' ≢ panicked)
  unfolding report notify
  report-IsCalm i w (ok st) (h, ne) = (h, λ q. cc)
  report-IsCalm i w (err e) (h, ne) = (h, λ q. cc)
  report-IsCalm i w panicked (h, ne) = absurd (ne refl)

  commit-IsCalm :
      (id : String) (i : Intent) (a : RetryAttempt) (w : World F)
      → IsCalm w.store
      → let (w', r) = commit id i a w in IsCalm w'.store × (r ≢ panicked)
  unfolding commit
  commit-IsCalm id i a w h =
      let x = update_func id (record_attempt a (now w)) w.store in
      report-IsCalm i (record w { store = x.0; ticks = suc w.ticks }) x.1
        (record_update-IsCalm id a (now w) w.store x
          (update_func-Updated id (record_attempt a (now w)) w.store) h)

  give_up-IsCalm :
      (id : String) (tx : Transaction) (n : ℕ) (w : World F)
      → IsCalm w.store
      → let (w', r) = give_up id tx n w in IsCalm w'.store × (r ≢ panicked)
  unfolding give_up notify
  give_up-IsCalm id tx n w h =
      let x = update_func id (mark_exhausted (now w)) w.store in
      (
        mark_update-IsCalm id (now w) w.store x
            (update_func-Updated id (mark_exhausted (now w)) w.store) h,
        λ q. cc,
      )

module _ {F : Type 0} ⦃f : Float64 F⦄ (strategies : Dict (RetryStrategy F))
    (all : AllComplete strategies) where
  Submitted-IsCalm :
      {parse : String → Option Time} (req : SubmitRequest) (w w' : World F)
      (r : Outcome EngineError SubmitResponse)
      → Submitted strategies parse req w w' r
      → IsCalm w.store
      → IsCalm w'.store
  Submitted-IsCalm req w w' r (duplicate u e s n q) h = subst IsCalm (sym s) h
  Submitted-IsCalm req w w' r (rejects tx resp free hard asked st x s n q el pl) h =
      subst IsCalm (sym s) (
        put-IsCalm req.transaction_id tx w.store h (subst (λ z. Steady z tx) (sym st) x)
          asked.same_id)
  Submitted-IsCalm req w w' r
        (schedules tx resp str p t free soft found plan asked st q life s n re el pl) h =
      subst IsCalm (sym s) (
        put-IsCalm req.transaction_id tx w.store h
          (subst (λ z. Steady z tx) (sym st) (Life-Steady scheduled tx life)) asked.same_id)

  simulate_store :
      (i : Intent) (w w' : World F) (r : Run RetryAttempt)
      → 0 < i.attempt_num
      → simulate strategies i w ≡ (w', r)
      → (w'.store ≡ w.store) × (r ≢ panic)
  simulate_store i w w' r some_number e =
      let (w₁, a, e', s, n, num, pr, at, answer) = simulate_total strategies i w all some_number in
      subst (λ x. (x.0.store ≡ w.store) × (x.1 ≢ panic)) (sym e' ∙ e) (s, λ q. cc)

  module _ (parse_rfc3339 : String → Option Time) where
    Step-IsCalm :
        (w w' : World F) (cs cs' : List Call)
        → Step strategies parse_rfc3339 w cs w' cs'
        → IsCalm w.store
        → All IsNumbered cs
        → IsCalm w'.store × All IsNumbered cs'
    Step-IsCalm w _ _ _ (begins id i cs e) h ns = (h, (prepare-IsNumbered id i w.store e, ns))
    Step-IsCalm w _ _ _ (finds_none_left id tx n cs e) h ns = (h, (tt, ns))
    Step-IsCalm w _ _ _ (pays bs id i cs w' a e) h ns =
        let (n, others) = All-split IsNumbered bs (paying id i) cs ns in
        (
          subst IsCalm (sym (simulate_store i w w' (done a) n e).0) h,
          All-join IsNumbered bs (recording id i a) cs tt others,
        )
    Step-IsCalm w _ _ _ (records bs id i a cs) h ns =
        ((commit-IsCalm id i a w h).0, (All-split IsNumbered bs (recording id i a) cs ns).1)
    Step-IsCalm w _ _ _ (gives_up bs id tx n cs) h ns =
        ((give_up-IsCalm id tx n w h).0, (All-split IsNumbered bs (giving_up id tx n) cs ns).1)
    Step-IsCalm w _ _ _ (submits req cs) h ns =
        let (w₁, r) = submit strategies parse_rfc3339 req w in
        (Submitted-IsCalm req w w₁ r (submit-Submitted strategies parse_rfc3339 req w all) h, ns)

    Change-IsCalm :
        (w w' : World F) (cs cs' : List Call)
        → Change strategies parse_rfc3339 w cs w' cs'
        → IsCalm w.store
        → All IsNumbered cs
        → IsCalm w'.store × All IsNumbered cs'
    Change-IsCalm w _ cs _ (steps w' cs' step) h ns = Step-IsCalm w w' cs cs' step h ns
    Change-IsCalm w _ cs _ clears_store h ns = (clear-IsCalm w.store, ns)
    Change-IsCalm w _ cs _ clears_log h ns = (h, ns)

    Overlaps-IsCalm :
        (start w : World F) (cs : List Call)
        → IsCalm start.store
        → Overlaps strategies parse_rfc3339 start w cs
        → IsCalm w.store × All IsNumbered cs
    Overlaps-IsCalm start w cs h quiet = (h, tt)
    Overlaps-IsCalm start w cs h (change {w = v} {cs = ds} r c) =
        let (calm, ns) = Overlaps-IsCalm start v ds h r in Change-IsCalm v w ds cs c calm ns

  CannotPanic-IsCalm :
      (w : World F) (c : Call) → IsCalm w.store → IsNumbered c → CannotPanic strategies w c
  CannotPanic-IsCalm w (paying id i) h n =
      let (w', r) = simulate strategies i w in (simulate_store i w w' r n refl).1
  CannotPanic-IsCalm w (recording id i a) h n = (commit-IsCalm id i a w h).1
  CannotPanic-IsCalm w (giving_up id tx n) h k = (give_up-IsCalm id tx n w h).1

  every_call :
      (w : World F) (cs : List Call)
      → IsCalm w.store
      → All IsNumbered cs
      → All (CannotPanic strategies w) cs
  every_call w [] h ns = tt
  every_call w (c ∷ cs) h ns = (CannotPanic-IsCalm w c h ns.0, every_call w cs h ns.1)

  -- However the steps of any number of calls of ExecuteRetry and Submit interleave with each other
  -- and with the clearing of the store and of the log: every stored transaction is steady, with
  -- attempts that are numbered from 1 on and with the plan, the attempts and the next retry that
  -- its status asks for; the pending index is exact; the next step of no call under way panics, and
  -- neither does the first read of any other call; from a safe world and with complete strategies.
  pub Overlaps-IsSafe :
      (parse_rfc3339 : String → Option Time) (start w : World F) (cs : List Call)
      → IsSafe start
      → Overlaps strategies parse_rfc3339 start w cs
      → IsCalm w.store
        × All (CannotPanic strategies w) cs
        × ((id : String) → prepare id w.store ≢ crash)
  Overlaps-IsSafe parse_rfc3339 start w cs h r =
      let (calm, ns) =
        Overlaps-IsCalm parse_rfc3339 start w cs
          (record {
            steady = λ id tx e. Life-Steady tx.status tx (h.live id tx e);
            indexed = h.indexed;
          })
          r in
      (calm, every_call w cs calm ns, λ id. prepare-no_crash id w.store calm.steady)
