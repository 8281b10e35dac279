-- ===== src/Webhook/Log.antt =====
-- The event log: what Send adds, and what a query by transaction finds.
use mathlib.Core.List.{append-nil}
use zenithpay_retry.Base.{ℕ, String, ◌≡◌, refl, List, [], ◌∷◌, ◌++◌, str_eq, arith, if◌then◌else◌}
use zenithpay_retry.Time.{Time}
use zenithpay_retry.Domain.Models.{Transaction, EventType, WebhookEvent}
use zenithpay_retry.Webhook.{Notifier, event_of, send, events_with_id, get_events_by_transaction}

-- Send appends one event to the log, with or without a webhook URL.
pub events-send :
    (tx : Transaction) (k : EventType) (n : ℕ) (t : Time) (s : Notifier)
    → (send tx k n t s).events ≡ s.events ++ event_of tx k n t ∷ []
unfolding send
events-send tx k n t s = ground arith

-- It starts a delivery of the event to the transaction's URL, if there is one.
pub deliveries-send :
    (tx : Transaction) (k : EventType) (n : ℕ) (t : Time) (s : Notifier)
    → (send tx k n t s).deliveries ≡ (
        if str_eq tx.webhook_url ""
        then s.deliveries
        else s.deliveries ++ (tx.webhook_url, event_of tx k n t) ∷ [])
unfolding send
deliveries-send tx k n t s = ground arith

events_with_id-append :
    (id : String) (xs ys : List WebhookEvent)
    → events_with_id id (xs ++ ys) ≡ events_with_id id xs ++ events_with_id id ys
unfolding events_with_id
events_with_id-append id [] ys = refl
events_with_id-append id (x ∷ xs) ys = ground (arith, events_with_id-append id xs ys)

-- After a Send, the query for the transaction's id finds the new event last, and the query for any
-- other id finds what it found before.
pub get_events_by_transaction-send :
    (tx : Transaction) (k : EventType) (n : ℕ) (t : Time) (s : Notifier) (id : String)
    → get_events_by_transaction id (send tx k n t s) ≡ (
        if str_eq tx.id id
        then get_events_by_transaction id s ++ event_of tx k n t ∷ []
        else get_events_by_transaction id s)
unfolding get_events_by_transaction events_with_id event_of
get_events_by_transaction-send tx k n t s id = ground (
  arith,
  events-send tx k n t s,
  events_with_id-append id s.events (event_of tx k n t ∷ []),
  append-nil (events_with_id id s.events),
)
