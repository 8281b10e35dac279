-- ===== src/Retry/History.antt =====
-- The history that a stored transaction tells: the events that internal/retry/engine.go has sent
-- about it, in their order.
mod Appends
pub mod Calls
use mathlib.Core.Path.{subst}
use zenithpay_retry.Base.{
  ℕ, true, false, suc, ◌≡◌, refl, ap, sym, ◌∙◌, String, Option, none, some, List, [], ◌∷◌, ◌++◌,
  map, lookup, str_eq, eq_iff, arith, if◌then◌else◌, Bool-cases, inl, inr,
}
use zenithpay_retry.Time.{Time}
use zenithpay_retry.Domain.Models.{
  Transaction, TransactionStatus, scheduled, retrying, recovered, failed_final, rejected, EventType,
  retry_scheduled, retry_succeeded, retry_failed, retry_exhausted, RetryAttempt, WebhookEvent,
}
use zenithpay_retry.Store.{put}
use zenithpay_retry.Store.Index.{lookup-put}
use zenithpay_retry.Webhook.{event_of, send, get_events_by_transaction}
use zenithpay_retry.Webhook.Log.{get_events_by_transaction-send}
use zenithpay_retry.Retry.World.{World}

-- What an event says: its type, the number of the attempt, and the status that it shows.
abbrev pub Saying : Type 0
Saying = EventType × ℕ × TransactionStatus

abbrev pub saying : WebhookEvent → Saying
saying e = (e.event_type, e.attempt_number, e.status)

-- What is said of the last attempt of a transaction that now has the given status.
abbrev pub verdict : TransactionStatus → EventType
verdict recovered = retry_succeeded
verdict failed_final = retry_exhausted
verdict _ = retry_failed

-- A transaction that ended without an attempt was exhausted at once.
abbrev pub untried : TransactionStatus → List Saying
untried failed_final = (retry_exhausted, 0, scheduled) ∷ []
untried _ = []

-- One event for each attempt, by the status of today and the one before the first of the attempts.
abbrev pub attempts_told : TransactionStatus → TransactionStatus → List RetryAttempt → List Saying
attempts_told today before [] = untried today
attempts_told today before (a ∷ []) = (verdict today, a.attempt_number, before) ∷ []
attempts_told today before (a ∷ b ∷ rest) =
    (retry_failed, a.attempt_number, before) ∷ attempts_told today retrying (b ∷ rest)

-- The events about a transaction with that status and these attempts.
abbrev pub history : TransactionStatus → List RetryAttempt → List Saying
history rejected attempts = []
history today attempts = (retry_scheduled, 0, scheduled) ∷ attempts_told today scheduled attempts

-- The events under an id, by what is stored there.
abbrev pub expected : Option Transaction → List Saying
expected none = []
expected (some tx) = history tx.status tx.retry_attempts

module _ {F : Type 0} where
  -- What the log says under an id.
  abbrev pub told : String → World F → List Saying
  told id w = map saying (get_events_by_transaction id w.notifier)

  -- The log says under each id what the transaction that is stored there tells, and nothing under
  -- any other id.
  abbrev pub IsTold : World F → Type 0
  IsTold w = (id : String) → told id w ≡ expected (lookup id w.store.transactions)

map-append_one :
    (es : List WebhookEvent) (e : WebhookEvent)
    → map saying (es ++ e ∷ []) ≡ map saying es ++ saying e ∷ []
map-append_one [] e = refl
map-append_one (x ∷ es) e = ap (λ rest. saying x ∷ rest) (map-append_one es e)

module _ {F : Type 0} where
  told-send :
      (j : String) (w w' : World F) (tx : Transaction) (k : EventType) (n : ℕ) (t : Time)
      → w'.notifier ≡ send tx k n t w.notifier
      → told j w' ≡ (if str_eq tx.id j then told j w ++ (k, n, tx.status) ∷ [] else told j w)
  unfolding event_of
  told-send j w w' tx k n t e = elim (Bool-cases (str_eq tx.id j)) [
    | inl same ↦
        ap (λ s. map saying (get_events_by_transaction j s)) e
        ∙ ap (map saying) (get_events_by_transaction-send tx k n t w.notifier j)
        ∙ rw same (map-append_one (get_events_by_transaction j w.notifier) (event_of tx k n t))
    | inr other ↦
        ap (λ s. map saying (get_events_by_transaction j s)) e
        ∙ ap (map saying) (get_events_by_transaction-send tx k n t w.notifier j)
        ∙ rw other refl
  ]

  -- A call that stores `u` and sends an event keeps log and store together, if the event is what `u`
  -- tells in addition.
  pub sent-IsTold :
      (id : String) (w w' : World F) (tx u : Transaction) (k : EventType) (n : ℕ) (t : Time)
      → tx.id ≡ id
      → w'.store ≡ put id u w.store
      → w'.notifier ≡ send tx k n t w.notifier
      → expected (some u) ≡ expected (lookup id w.store.transactions) ++ (k, n, tx.status) ∷ []
      → IsTold w
      → IsTold w'
  sent-IsTold id w w' tx u k n t keyed s e more h j = elim (Bool-cases (str_eq id j)) [
    | inl same ↦
        subst (λ j. told j w' ≡ expected (lookup j w'.store.transactions)) ((eq_iff id j).0 same)
          (spoken id ((eq_iff tx.id id).1 keyed)
            ∙ ap (λ x. x ++ (k, n, tx.status) ∷ []) (h id)
            ∙ sym more
            ∙ sym (stored id (ground (arith, eq_iff id id))))
    | inr other ↦ unspoken (ground (arith, keyed)) ∙ h j ∙ sym (unstored other)
  ]
    where
      spoken : (j : String) → str_eq tx.id j ≡ true → told j w' ≡ told j w ++ (k, n, tx.status) ∷ []
      spoken j same = told-send j w w' tx k n t e ∙ rw same refl

      unspoken : str_eq tx.id j ≡ false → told j w' ≡ told j w
      unspoken other = told-send j w w' tx k n t e ∙ rw other refl

      stored :
          (j : String)
          → str_eq id j ≡ true
          → expected (lookup j w'.store.transactions) ≡ expected (some u)
      stored j same =
          let found : lookup j (put id u w.store).transactions ≡ some u =
            ground (arith, lookup-put id j u w.store) in
          ap (λ x. expected (lookup j x.transactions)) s ∙ ap expected found

      unstored :
          str_eq id j ≡ false
          → expected (lookup j w'.store.transactions) ≡ expected (lookup j w.store.transactions)
      unstored other =
          let found : lookup j (put id u w.store).transactions ≡ lookup j w.store.transactions =
            ground (arith, lookup-put id j u w.store) in
          ap (λ x. expected (lookup j x.transactions)) s ∙ ap expected found

  -- So does a call that sends nothing, if `u` tells nothing more.
  pub quiet-IsTold :
      (id : String) (w w' : World F) (u : Transaction)
      → w'.store ≡ put id u w.store
      → w'.notifier ≡ w.notifier
      → expected (some u) ≡ expected (lookup id w.store.transactions)
      → IsTold w
      → IsTold w'
  quiet-IsTold id w w' u s e more h j =
      ap (λ x. map saying (get_events_by_transaction j x)) e
      ∙ h j
      ∙ elim (Bool-cases (str_eq id j)) [
        | inl same ↦
            let here : lookup id w.store.transactions ≡ lookup j w.store.transactions =
              ap (λ k. lookup k w.store.transactions) ((eq_iff id j).0 same) in
            let found : lookup j (put id u w.store).transactions ≡ some u =
              ground (arith, lookup-put id j u w.store) in
            ap expected (sym here) ∙ sym more ∙ sym (ap expected found)
        | inr other ↦
            let found : lookup j (put id u w.store).transactions ≡ lookup j w.store.transactions =
              ground (arith, lookup-put id j u w.store) in
            ap expected (sym found)
      ]
      ∙ ap (λ x. expected (lookup j x.transactions)) (sym s)
