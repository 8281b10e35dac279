-- ===== src/Webhook.antt =====
-- internal/webhook/notifier.go. The log of events is a list, oldest first. `deliver` runs in a
-- goroutine and reaches nothing of the program's state: the deliveries that Send starts are kept
-- in the order of the calls, and whether they arrive is not modelled.
pub mod Log
use zenithpay_retry.Base.{ℕ, String, Bool, List, [], ◌∷◌, ◌++◌, str_eq, if◌then◌else◌}
use zenithpay_retry.Time.{Time}
use zenithpay_retry.Domain.Models.{Transaction, EventType, WebhookEvent}

pub record Notifier : Type 0 where
  pub events : List WebhookEvent
  pub deliveries : List (String × WebhookEvent)

-- NewNotifier
unfoldable pub new_notifier : Notifier
new_notifier = record { events = []; deliveries = [] }

unfoldable pub event_of : Transaction → EventType → ℕ → Time → WebhookEvent
event_of tx event_type attempt_number now = record {
  event_type = event_type;
  transaction_id = tx.id;
  status = tx.status;
  attempt_number = attempt_number;
  timestamp = now;
}

-- Send, at the time `now`.
unfoldable pub send : Transaction → EventType → ℕ → Time → Notifier → Notifier
unfolding event_of
send tx event_type attempt_number now n =
    let event = event_of tx event_type attempt_number now in
    let logged = record n { events = n.events ++ event ∷ [] } in
    if str_eq tx.webhook_url ""
    then logged
    else record logged { deliveries = logged.deliveries ++ (tx.webhook_url, event) ∷ [] }

-- GetEvents copies the log.
unfoldable pub get_events : Notifier → List WebhookEvent
get_events n = n.events

-- The loop of GetEventsByTransaction.
unfoldable pub events_with_id : String → List WebhookEvent → List WebhookEvent
events_with_id tx_id [] = []
events_with_id tx_id (e ∷ es) =
    let rest = events_with_id tx_id es in if str_eq e.transaction_id tx_id then e ∷ rest else rest

unfoldable pub get_events_by_transaction : String → Notifier → List WebhookEvent
get_events_by_transaction tx_id n = events_with_id tx_id n.events

-- Clear
unfoldable pub clear_events : Notifier → Notifier
clear_events n = record n { events = [] }
