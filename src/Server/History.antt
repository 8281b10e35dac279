-- ===== src/Server/History.antt =====
-- GET /api/transactions/{id} after a run of the process: the transaction beside its events.
use zenithpay_retry.Base.{
  ◌≡◌, refl, ap, sym, ◌∙◌, String, false, some, List, [], map, Dict, lookup, str_eq, Option-cases,
  inl, inr,
}
use zenithpay_retry.Float.{Float64}
use zenithpay_retry.Domain.Models.{Transaction, WebhookEvent}
use zenithpay_retry.Domain.Decline.{RetryStrategy}
use zenithpay_retry.Domain.Decline.Plan.{AllComplete}
use zenithpay_retry.Store.{get, clear, new_store}
use zenithpay_retry.Webhook.{get_events_by_transaction, events_with_id, clear_events}
use zenithpay_retry.Retry.World.{World}
use zenithpay_retry.Retry.Execute.Effects.{IsSafe, execute_retry-IsSafe}
use zenithpay_retry.Retry.Submit.Behaviour.{submit-IsSafe}
use zenithpay_retry.Retry.History.{saying, history, expected, told, IsTold}
use zenithpay_retry.Retry.History.Calls.{submit-IsTold, execute_retry-IsTold}
use zenithpay_retry.Handler.{Reply, reply, details, error_text, handle_get}
use zenithpay_retry.Server.{Library, Ranges, Event, clear_all, run}
use zenithpay_retry.Server.Seeding.{clear_all-IsSafe}
use zenithpay_retry.Server.Keeps.{IsInvariant, run_keeps}

clear_all-IsTold : {F : Type 0} (w : World F) → IsTold (clear_all w)
unfolding clear_all clear new_store clear_events get_events_by_transaction events_with_id lookup
clear_all-IsTold w id = refl

-- A safe state whose log tells of what is stored.
abbrev IsCoherent : {F : Type 0} → World F → Type 0
IsCoherent w = IsSafe w × IsTold w

module _ {G F : Type 0} ⦃f : Float64 F⦄ (strategies : Dict (RetryStrategy F)) (lib : Library G F)
    (all : AllComplete strategies) where
  IsCoherent-IsInvariant : IsInvariant strategies lib IsCoherent
  IsCoherent-IsInvariant = record {
    under_submit = λ req w h. (
      (submit-IsSafe strategies lib.parse_rfc3339 req w all h.0).0,
      submit-IsTold strategies lib.parse_rfc3339 req w all h.1,
    );
    under_retry = λ id w h. (
      (execute_retry-IsSafe strategies id w all h.0).0,
      execute_retry-IsTold strategies id w all h.0 h.1,
    );
    under_clear = λ w h. (clear_all-IsSafe w, clear_all-IsTold w);
    under_tick = λ w h. (record { live = h.0.live; indexed = h.0.indexed }, h.1);
  }

-- The answer to GET /api/transactions/{id}.
pub data Shown {F : Type 0} (id : String) (w : World F) (r : Reply F) : Type 0 where
  -- There is no such transaction, and the log holds nothing under its id.
  no_transaction :
      r ≡ reply 404 (error_text "transaction not found") → told id w ≡ [] → Shown id w r
  -- The transaction, with events that are its history.
  with_history :
      (tx : Transaction) (events : List WebhookEvent)
      → r ≡ reply 200 (details tx events)
      → tx.id ≡ id
      → map saying events ≡ history tx.status tx.retry_attempts
      → Shown id w r

get-lookup :
    {F : Type 0} (id : String) (w : World F) → get id w.store ≡ lookup id w.store.transactions
unfolding get
get-lookup id w = refl

handle_get-Shown :
    {F : Type 0} (id : String) (w : World F)
    → str_eq id "" ≡ false
    → IsCoherent w
    → Shown id w (handle_get id w)
unfolding handle_get
handle_get-Shown id w e (safe, h) = elim (Option-cases (get id w.store)) [
  | inl g ↦
      no_transaction (rw (e, handle_get, g) refl) (h id ∙ ap expected (sym (get-lookup id w) ∙ g))
  | inr (tx, g) ↦
      let stored : lookup id w.store.transactions ≡ some tx = sym (get-lookup id w) ∙ g in
      let keyed : tx.id ≡ id = safe.indexed.keyed id tx stored in
      with_history tx (get_events_by_transaction tx.id w.notifier) (rw (e, handle_get, g) refl)
        keyed (ap (λ j. told j w) keyed ∙ h id ∙ ap expected stored)
]

-- After any run of requests and ticks of the scheduler, GET /api/transactions/{id} with an id that
-- is not empty answers 404, and then no event is logged under the id; or it answers 200 with a
-- transaction of that id and with events whose types, attempt numbers and statuses are its history:
-- none for a rejected one, otherwise the schedule and then one event for each attempt, which says
-- by its type whether it failed, succeeded or was the last; with complete strategies and from a
-- safe state whose log tells of what is stored.
pub run-Shown :
    {G F : Type 0} ⦃f : Float64 F⦄ (strategies : Dict (RetryStrategy F)) (lib : Library G F)
    (events : List (Ranges F × Event)) (w : World F) (id : String)
    → AllComplete strategies
    → IsSafe w
    → IsTold w
    → str_eq id "" ≡ false
    → let (w', results) = run strategies lib events w in Shown id w' (handle_get id w')
run-Shown strategies lib events w id all safe h e =
    handle_get-Shown id (run strategies lib events w).0 e (
      run_keeps strategies lib IsCoherent (IsCoherent-IsInvariant strategies lib all) events w
        (safe, h))
