-- ===== src/Retry/Execute/Moves.antt =====
-- What ExecuteRetry does to each transaction's status, and the event that it sends.
use mathlib.Core.Path.{subst}
use zenithpay_retry.Base.{
  ◌≡◌, if◌then◌else◌, refl, ap, sym, ◌∙◌, ◌⊎◌, inl, inr, String, true, some, [], ◌∷◌, ◌++◌, Dict,
  length, length-append, lookup, Outcome, ok, str_eq, eq_iff, arith, Bool-cases,
}
use zenithpay_retry.Float.{Float64}
use zenithpay_retry.Domain.Models.{
  EventType, retry_succeeded, retry_failed, retry_exhausted, Transaction, TransactionStatus,
  retrying, recovered, failed_final, RetryPlan, RetryAttempt, WebhookEvent,
}
use zenithpay_retry.Domain.Decline.{RetryStrategy}
use zenithpay_retry.Domain.Decline.Plan.{AllComplete}
use zenithpay_retry.Store.{Store, put}
use zenithpay_retry.Store.Index.{lookup-put}
use zenithpay_retry.Webhook.{event_of}
use zenithpay_retry.Webhook.Log.{events-send, deliveries-send}
use zenithpay_retry.Lifecycle.{AllLive}
use zenithpay_retry.Lifecycle.Advance.{IsRecorded}
use zenithpay_retry.Retry.World.{World, EngineError}
use zenithpay_retry.Retry.Execute.{is_eligible, execute_retry, event_for}
use zenithpay_retry.Retry.Execute.Effects.{IsSafe}
use zenithpay_retry.Retry.Execute.Diagram.{Step, eligible-Step, recorded-Step}
use zenithpay_retry.Retry.Execute.Behaviour.{
  Executed, not_there, not_now, none_left, tried, execute_retry-Executed,
}

-- What became of the transaction under the id j: nothing, or one step under its plan for the
-- transaction that the call is about.
abbrev pub Moved : String → Store → String → Transaction → Type 0
Moved id s' j tx =
    (u : Transaction) × (lookup j s'.transactions ≡ some u)
    × ((u ≡ tx)
        ⊎ ((j ≡ id)
            × ((p : RetryPlan) × (tx.retry_plan ≡ some p) × (u.retry_plan ≡ some p) × Step p tx u)))

module _ {F : Type 0} where
  put-Moved :
      (id j : String) (w w' : World F) (tx u v : Transaction) (p : RetryPlan)
      → lookup id w.store.transactions ≡ some tx
      → w'.store ≡ put id u w.store
      → tx.retry_plan ≡ some p
      → u.retry_plan ≡ some p
      → Step p tx u
      → lookup j w.store.transactions ≡ some v
      → Moved id w'.store j v
  put-Moved id j w w' tx u v p e s planned same_plan step k = elim (Bool-cases (str_eq id j)) [
    | inl same ↦
        let here : j ≡ id = sym ((eq_iff id j).0 same) in
        let tx_is_v : tx ≡ v = ground arith in
        (
          u,
          ground (arith, lookup-put id j u w.store),
          inr (
            here,
            (
              p,
              ap (λ (x : Transaction). x.retry_plan) (sym tx_is_v) ∙ planned,
              same_plan,
              subst (λ x. Step p x u) tx_is_v step,
            ),
          ),
        )
    | inr other ↦ (v, ground (arith, lookup-put id j u w.store), inl refl)
  ]

  Executed-Moved :
      ⦃f : Float64 F⦄ {strategies : Dict (RetryStrategy F)} (id j : String) (w w' : World F)
      (r : Outcome EngineError (Unit {0})) (v : Transaction)
      → AllLive w.store
      → Executed strategies id w w' r
      → lookup j w.store.transactions ≡ some v
      → Moved id w'.store j v
  Executed-Moved id j w w' r v live (not_there e same q) k = (v, ground arith, inl refl)
  Executed-Moved id j w w' r v live (not_now tx e no_more same q) k = (v, ground arith, inl refl)
  Executed-Moved id j w w' r v live (none_left tx u p t t' e may wait full m s n q times) k =
      put-Moved id j w w' tx u v p e s wait.on_plan.planned
        (ap (λ x. x.retry_plan) m ∙ wait.on_plan.planned)
        (eligible-Step p tx u tx.status u.status refl refl may (live id tx e)
          (inr (ap (λ x. x.status) m, omega (arith, full))))
        k
  Executed-Moved id j w w' r v live (tried tx u p a st t e may wait fits rec s n q performed) k =
      put-Moved id j w w' tx u v p e s wait.on_plan.planned rec.same_plan
        (recorded-Step p tx a u st may (live id tx e) rec) k

-- ExecuteRetry removes no transaction and touches none but its own, which stays as it is or keeps
-- its plan and takes one step: along an arrow of the state machine in README.md, from retrying to
-- retrying while attempts are left, or from scheduled to failed_final under a plan of at most one
-- attempt; from a safe state and with complete strategies.
pub execute_retry-Moved :
    {F : Type 0} ⦃f : Float64 F⦄ (strategies : Dict (RetryStrategy F)) (id j : String) (w : World F)
    (v : Transaction)
    → AllComplete strategies
    → IsSafe w
    → lookup j w.store.transactions ≡ some v
    → Moved id (execute_retry strategies id w).0.store j v
execute_retry-Moved strategies id j w v all h k =
    let (w', r) = execute_retry strategies id w in
    Executed-Moved id j w w' r v h.live (execute_retry-Executed strategies id w all h.live) k

-- The event that belongs to each status that an attempt can end in.
pub data Announces : EventType → TransactionStatus → Type 0 where
  success_sent : Announces retry_succeeded recovered
  exhaustion_sent : Announces retry_exhausted failed_final
  failure_sent : Announces retry_failed retrying

settled :
    {st s : TransactionStatus} {k : EventType}
    → st ≡ s
    → k ≡ event_for s
    → Announces k s
    → Announces (event_for st) st
settled {s} q same x =
    subst (λ s. Announces (event_for s) s) (sym q) (subst (λ k. Announces k s) same x)

Announces-event_for :
    {p : RetryPlan} {tx u : Transaction} {a : RetryAttempt} {st : TransactionStatus}
    → IsRecorded p tx a u st
    → Announces (event_for st) st
unfolding event_for
Announces-event_for {a} rec = elim (Bool-cases a.success) [
  | inl e ↦ settled (rec.won e) refl success_sent
  | inr e ↦ elim (rec.lost e) [
    | inl (full, q) ↦ settled q refl exhaustion_sent
    | inr (room, q) ↦ settled q refl failure_sent
  ]
]

-- What a successful call logs about `tx` when it has made it `u`.
pub record IsLogged (tx u : Transaction) (e : WebhookEvent) : Type 0 where
  pub about : e.transaction_id ≡ tx.id
  pub kind : Announces e.event_type u.status
  pub attempt : e.attempt_number ≡ length u.retry_attempts
  pub stale : e.status ≡ tx.status

Executed-logs :
    {F : Type 0} ⦃f : Float64 F⦄ {strategies : Dict (RetryStrategy F)} (id : String)
    (w w' : World F)
    → Executed strategies id w w' (ok tt)
    → (tx u : Transaction) × (e : WebhookEvent) × (lookup id w.store.transactions ≡ some tx)
      × (lookup id w'.store.transactions ≡ some u)
      × (is_eligible tx.status ≡ true)
      × (w'.notifier.events ≡ w.notifier.events ++ e ∷ [])
      × (w'.notifier.deliveries ≡ (
          if str_eq tx.webhook_url ""
          then w.notifier.deliveries
          else w.notifier.deliveries ++ (tx.webhook_url, e) ∷ []))
      × IsLogged tx u e
Executed-logs id w w' (not_there e same q) = absurd (cc)
Executed-logs id w w' (not_now tx e no_more same q) = absurd (cc)
Executed-logs id w w' (none_left tx u p t t' e may wait full m s n q times) = absurd (cc)
Executed-logs id w w' (tried tx u p a st t e may wait fits rec s n q performed) = (
  tx,
  u,
  event_of tx (event_for st) a.attempt_number t,
  e,
  ground (arith, lookup-put id id u w.store, eq_iff id id),
  may,
  ap (λ x. x.events) n ∙ events-send tx (event_for st) a.attempt_number t w.notifier,
  ap (λ x. x.deliveries) n ∙ deliveries-send tx (event_for st) a.attempt_number t w.notifier,
  unfold event_of in
      record {
        about = refl;
        kind = subst (Announces (event_for st)) (sym rec.status_set) (Announces-event_for rec);
        attempt = omega (
          arith,
          fits.numbered,
          ap length rec.appended,
          length-append tx.retry_attempts (a ∷ []),
        );
        stale = refl;
      },
)

-- A successful ExecuteRetry logs exactly one event, whose type and attempt number tell the
-- transaction's new state and whose status is the one before the call, and starts one delivery of
-- it to the transaction's webhook URL, if it has one; from a safe state and with complete
-- strategies.
pub execute_retry-logs :
    {F : Type 0} ⦃f : Float64 F⦄ (strategies : Dict (RetryStrategy F)) (id : String) (w : World F)
    → AllComplete strategies
    → IsSafe w
    → (execute_retry strategies id w).1 ≡ ok tt
    → let w' = (execute_retry strategies id w).0 in
      (tx u : Transaction) × (e : WebhookEvent) × (lookup id w.store.transactions ≡ some tx)
      × (lookup id w'.store.transactions ≡ some u)
      × (is_eligible tx.status ≡ true)
      × (w'.notifier.events ≡ w.notifier.events ++ e ∷ [])
      × (w'.notifier.deliveries ≡ (
          if str_eq tx.webhook_url ""
          then w.notifier.deliveries
          else w.notifier.deliveries ++ (tx.webhook_url, e) ∷ []))
      × IsLogged tx u e
execute_retry-logs strategies id w all h success =
    let (w', r) = execute_retry strategies id w in
    Executed-logs id w w' (
      subst (Executed strategies id w w') success
        (execute_retry-Executed strategies id w all h.live))
