-- ===== src/Retry/Batch/Due.antt =====
-- internal/retry/scheduler.go, processDueRetries: what a tick does to each transaction.
use mathlib.Core.Path.{subst}
use mathlib.Core.Option.{some-injective}
use zenithpay_retry.Base.{
  suc, ◌≡◌, ◌≢◌, refl, sym, ap, ◌∙◌, String, Bool, true, false, ◌&&◌, Option, none, some, List, [],
  ◌∷◌, Dict, lookup, elem, Distinct, Enumerates, length, length-append, get_elem?-of_ge, Outcome,
  ok, err, panicked, All, All-map, str_eq, if◌then◌else◌, eq_iff, Bool-cases, inl, inr, arith,
}
use zenithpay_retry.Float.{Float64}
use zenithpay_retry.Time.{Time}
use zenithpay_retry.Domain.Models.{Transaction}
use zenithpay_retry.Domain.Decline.{RetryStrategy}
use zenithpay_retry.Domain.Decline.Plan.{AllComplete}
use zenithpay_retry.Store.{is_pending_status, is_due, get_due_retries}
use zenithpay_retry.Store.Index.{lookup-put}
use zenithpay_retry.Store.Pending.{ids_of, get_due_retries-IsSelection}
use zenithpay_retry.Retry.World.{World, EngineError, now, tick}
use zenithpay_retry.Retry.Execute.{execute_retry}
use zenithpay_retry.Retry.Execute.Behaviour.{
  Executed, not_there, not_now, none_left, tried, execute_retry-Executed,
}
use zenithpay_retry.Retry.Execute.Effects.{IsSafe, execute_retry-IsSafe}
use zenithpay_retry.Retry.Batch.{execute_all, process_due_retries}
use zenithpay_retry.Retry.Batch.Drain.{eligible-pending}

-- A pending transaction that has a next retry.
abbrev pub IsAwaited : Transaction → Type 0
IsAwaited tx = (is_pending_status tx.status ≡ true) × (tx.next_retry_at ≢ none)

-- What was stored has one attempt more.
abbrev pub OneMore : Transaction → Option Transaction → Type 0
OneMore tx found =
    (u : Transaction) × (found ≡ some u)
    × (length u.retry_attempts ≡ suc (length tx.retry_attempts))

module _ {F : Type 0} where
  -- The call for a transaction that is awaited makes an attempt, and touches no other transaction.
  record Attempts (id : String) (tx : Transaction) (w w' : World F)
      (r : Outcome EngineError (Unit {0})) : Type 0 where
    one_more : OneMore tx (lookup id w'.store.transactions)
    others : (j : String) → j ≢ id → lookup j w'.store.transactions ≡ lookup j w.store.transactions
    through : r ≢ panicked

  Executed-Attempts :
      ⦃f : Float64 F⦄ {strategies : Dict (RetryStrategy F)} (id : String) (tx : Transaction)
      (w w' : World F) (r : Outcome EngineError (Unit {0}))
      → lookup id w.store.transactions ≡ some tx
      → IsAwaited tx
      → Executed strategies id w w' r
      → Attempts id tx w w' r
  Executed-Attempts id tx w w' r e (pending, next) (not_there gone same c) = absurd (cc)
  Executed-Attempts id tx w w' r e (pending, next) (not_now v e' settled same c) =
      let one : v ≡ tx = cc in
      absurd (
        ground (
          arith,
          eligible-pending v.status,
          ap (λ (x : Transaction). is_pending_status x.status) one,
        ))
  Executed-Attempts id tx w w' r e (pending, next)
        (none_left v u p at at' e' may wait full m s n c times) =
      let one : v ≡ tx = cc in
      let past =
        get_elem?-of_ge p.scheduled_times (length v.retry_attempts)
          (omega (arith, wait.on_plan.times, full)) in
      absurd (next (ap (λ (x : Transaction). x.next_retry_at) (sym one) ∙ wait.next ∙ past))
  Executed-Attempts id tx w w' r e (pending, next)
        (tried v u p a st at e' may wait fits rec s n c performed) =
      let one : v ≡ tx = cc in
      record {
        one_more = (
          u,
          ap (λ x. lookup id x.transactions) s
              ∙ ground (arith, lookup-put id id u w.store, eq_iff id id),
          omega (
            arith,
            ap length rec.appended,
            length-append v.retry_attempts (a ∷ []),
            ap (λ (x : Transaction). length x.retry_attempts) one,
          ),
        );
        others = λ j ne.
            ap (λ x. lookup j x.transactions) s
            ∙ ground (arith, lookup-put id j u w.store, eq_iff id j, λ (q : id ≡ j). ne (sym q));
        through = λ q. cc;
      }

  -- Transactions that are stored as they are, and awaited.
  abbrev AllAwaited : World F → List Transaction → Type 0
  AllAwaited w = All (λ tx. (lookup tx.id w.store.transactions ≡ some tx) × IsAwaited tx)

  AllAwaited-others :
      (w w' : World F) (txs : List Transaction)
      → ((j : String)
          → elem j (ids_of txs) ≡ true
          → lookup j w'.store.transactions ≡ lookup j w.store.transactions)
      → AllAwaited w txs
      → AllAwaited w' txs
  unfolding elem
  AllAwaited-others w w' [] same h = tt
  AllAwaited-others w w' (tx ∷ txs) same ((e, awaited), h) = (
    (same tx.id (ground (arith, eq_iff tx.id tx.id)) ∙ e, awaited),
    AllAwaited-others w w' txs (λ j m. same j (ground (arith, m))) h,
  )

  -- The loop over `txs` got through, made an attempt for each, and touched no other transaction.
  record IsSwept (txs : List Transaction) (w w' : World F) (through : Bool) : Type 0 where
    visited : All (λ tx. OneMore tx (lookup tx.id w'.store.transactions)) txs
    others :
        (j : String)
        → elem j (ids_of txs) ≡ false
        → lookup j w'.store.transactions ≡ lookup j w.store.transactions
    through_all : through ≡ true

  -- What holds of all of some stored transactions holds of one that is found among them.
  among :
      (P : Transaction → Type 0) (w : World F) (txs : List Transaction) (tx : Transaction)
      → All (λ u. lookup u.id w.store.transactions ≡ some u) txs
      → lookup tx.id w.store.transactions ≡ some tx
      → elem tx.id (ids_of txs) ≡ true
      → All P txs
      → P tx
  unfolding elem
  among P w [] tx h e m v = absurd (ground arith)
  among P w (u ∷ txs) tx (eu, h) e m (v, vs) = elim (Bool-cases (str_eq u.id tx.id)) [
    | inl same ↦
        let ids : u.id ≡ tx.id = ground (arith, eq_iff u.id tx.id) in
        subst P (some-injective _ _ (sym eu ∙ ap (λ i. lookup i w.store.transactions) ids ∙ e)) v
    | inr other ↦ among P w txs tx h e (ground (arith, m, other)) vs
  ]

module _ {F : Type 0} ⦃f : Float64 F⦄ (strategies : Dict (RetryStrategy F))
    (all : AllComplete strategies) where
  execute_all_next :
      (tx : Transaction) (txs : List Transaction) (w w' : World F)
      (r : Outcome EngineError (Unit {0}))
      → execute_retry strategies tx.id w ≡ (w', r)
      → r ≢ panicked
      → execute_all strategies (tx ∷ txs) w ≡ execute_all strategies txs w'
  unfolding execute_all
  execute_all_next tx txs w w' (ok _) e ne = ground (arith, e)
  execute_all_next tx txs w w' (err _) e ne = ground (arith, e)
  execute_all_next tx txs w w' panicked e ne = absurd (ne refl)

  execute_all-IsSwept :
      (txs : List Transaction) (w : World F)
      → IsSafe w
      → Distinct (ids_of txs)
      → AllAwaited w txs
      → let (w', through) = execute_all strategies txs w in IsSwept txs w w' through
  unfolding execute_all elem
  execute_all-IsSwept [] w h d awaited = record {
    visited = tt;
    others = λ j m. refl;
    through_all = refl;
  }
  execute_all-IsSwept (tx ∷ txs) w h d ((e, next), awaited) =
      let (w₁, r) = execute_retry strategies tx.id w in
      let one =
        Executed-Attempts tx.id tx w w₁ r e next
          (execute_retry-Executed strategies tx.id w all h.live) in
      let safe = (execute_retry-IsSafe strategies tx.id w all h).0 in
      let rest = execute_all-IsSwept txs w₁ safe d.1 (
        AllAwaited-others w w₁ txs
          (λ j m.
            one.others j
              (λ q. let here = ap (λ k. elem k (ids_of txs)) q in ground (arith, d.0, m, here)))
          awaited) in
      let (u, found, longer) = one.one_more in
      subst (λ x. IsSwept (tx ∷ txs) w x.0 x.1)
        (sym (execute_all_next tx txs w w₁ r refl one.through))
        (record {
          visited = ((u, rest.others tx.id d.0 ∙ found, longer), rest.visited);
          others = λ j m.
              rest.others j (ground (arith, m))
              ∙ one.others j (λ q. ground (arith, m, eq_iff tx.id j, sym q));
          through_all = rest.through_all;
        })

awaited :
    (now : Time) (tx : Transaction)
    → (is_pending_status tx.status && is_due now tx) ≡ true
    → IsAwaited tx
unfolding is_due
awaited now tx k = (ground (arith, k), λ n. ground (arith, k, n))

-- A tick of the scheduler gets through, and makes exactly one attempt for each transaction that is
-- scheduled or retrying and whose next retry is at or before the time of the tick, in whatever
-- order it visits the pending index; every other transaction it leaves as it is; from a safe state
-- and with complete strategies.
pub process_due_retries-attempts :
    {F : Type 0} ⦃f : Float64 F⦄ (strategies : Dict (RetryStrategy F)) (order : List String)
    (w : World F) (tx : Transaction)
    → AllComplete strategies
    → IsSafe w
    → Enumerates order w.store.pending_ids
    → lookup tx.id w.store.transactions ≡ some tx
    → let (w', through) = process_due_retries strategies order w in
      (through ≡ true)
      × (if is_pending_status tx.status && is_due (now w) tx
          then OneMore tx (lookup tx.id w'.store.transactions)
          else lookup tx.id w'.store.transactions ≡ some tx)
unfolding process_due_retries
process_due_retries-attempts {F = F} strategies order w tx all h en e =
    let sel = get_due_retries-IsSelection w.store (now w) order h.indexed en in
    let txs = get_due_retries (now w) order w.store in
    let stored = All-map (λ u h. h.0) txs sel.sound in
    let due = λ (u : Transaction). is_pending_status u.status && is_due (now w) u in
    let swept =
      execute_all-IsSwept strategies all txs (tick w)
        (record { live = h.live; indexed = h.indexed }) sel.distinct
        (All-map (λ u (q, k). (q, awaited (now w) u k)) txs sel.sound) in
    (
      swept.through_all,
      elim (Bool-cases (due tx)) [
        | inl yes_due ↦ rw yes_due (
            among
              (λ u.
                OneMore u (lookup u.id (execute_all strategies txs (tick w)).0.store.transactions))
              w txs tx stored e (sel.complete tx.id tx e yes_due) swept.visited)
        | inr not_due ↦ rw not_due (elim (Bool-cases (elem tx.id (ids_of txs))) [
          | inr out ↦ swept.others tx.id out ∙ e
          | inl within ↦
              let k =
                among (λ u. due u ≡ true) w txs tx stored e within
                  (All-map (λ u h. h.1) txs sel.sound) in
              absurd (cc)
        ])
      ],
    )
