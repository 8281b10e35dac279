-- ===== src/Examples/Scenario.antt =====
-- A small world: the built-in strategies over whole millionths, and one soft decline submitted.
use mathlib.Core.Path.{subst}
use zenithpay_retry.Base.{
  ◌≡◌, refl, ap, sym, ◌∙◌, String, Option, none, some, [], ◌∷◌, pos, Dict, lookup, elem, Enumerates,
  eq_iff, arith,
}
use zenithpay_retry.Float.{Micros, micros_float}
use zenithpay_retry.Time.{Time, hours}
use zenithpay_retry.Domain.Models.{SubmitRequest, Transaction, RetryPlan, soft_decline, scheduled}
use zenithpay_retry.Lifecycle.{IsLive}
use zenithpay_retry.Domain.Decline.{RetryStrategy, default_strategies}
use zenithpay_retry.Domain.Decline.Plan.{AllComplete, default_strategies-AllComplete}
use zenithpay_retry.Store.{Store, new_store, is_pending_status}
use zenithpay_retry.Store.Index.{IsIndexed, new_store-IsIndexed}
use zenithpay_retry.Webhook.{new_notifier}
use zenithpay_retry.Retry.World.{World}
use zenithpay_retry.Retry.Execute.Effects.{IsSafe}
use zenithpay_retry.Retry.Submit.{submit}
use zenithpay_retry.Retry.Submit.Behaviour.{submit-IsSafe}

abbrev pub table : Dict (RetryStrategy Micros)
table = default_strategies

pub table-AllComplete : AllComplete table
table-AllComplete = default_strategies-AllComplete

abbrev pub no_time : String → Option Time
no_time s = none

abbrev pub start : World Micros
start = record {
  store = new_store;
  notifier = new_notifier;
  clock = λ n. pos n;
  ticks = 0;
  rolls = λ n. 500_000;
  draws = 0;
}

pub start-IsSafe : IsSafe start
unfolding new_store lookup
start-IsSafe = record { live = λ id tx e. absurd (cc); indexed = new_store-IsIndexed }

abbrev pub request : SubmitRequest
request = record {
  transaction_id = "txn_1";
  amount_cents = pos 29_999;
  currency = "USD";
  customer_id = "cust_1";
  merchant_id = "voltcommerce";
  original_processor = "stripe_latam";
  decline_code = "issuer_timeout";
  timestamp = "";
  webhook_url = "";
}

abbrev pub submitted : World Micros
submitted = (submit table no_time request start).0

pub submitted-IsSafe : IsSafe submitted
submitted-IsSafe = (submit-IsSafe table no_time request start table-AllComplete start-IsSafe).0

-- A transaction with two attempts to go, and a world that holds it.
abbrev pub plan : RetryPlan
plan = record {
  max_attempts = 2;
  strategy = "3DS verification incomplete; retry with fresh auth window";
  plan_code = "authentication_failed";
  scheduled_times = hours 1 ∷ hours 6 ∷ [];
  processors = "dlocal_br" ∷ "dlocal_br" ∷ [];
}

abbrev pub waiting_tx : Transaction
waiting_tx = record {
  id = "txn_2";
  amount_cents = pos 500;
  currency = "BRL";
  customer_id = "cust_2";
  merchant_id = "voltcommerce";
  original_processor = "dlocal_br";
  decline_code = "authentication_failed";
  decline_category = soft_decline;
  status = scheduled;
  retry_plan = some plan;
  retry_attempts = [];
  next_retry_at = some (hours 1);
  created_at = pos 0;
  updated_at = pos 0;
  webhook_url = "https://voltcommerce.com/webhooks";
}

abbrev pub waiting_store : Store
waiting_store = record {
  transactions = ("txn_2", waiting_tx) ∷ [];
  pending_ids = ("txn_2", tt) ∷ [];
}

abbrev pub waiting : World Micros
waiting = record start { store = waiting_store }

waiting_tx-IsLive : IsLive waiting_tx
waiting_tx-IsLive = (
  plan,
  record { planned = refl; soft = refl; times = refl; routes = refl; follows = tt },
  refl,
  refl,
)

pub only_waiting :
    (id : String) (tx : Transaction)
    → lookup id waiting_store.transactions ≡ some tx
    → (id ≡ "txn_2") × (tx ≡ waiting_tx)
unfolding lookup
only_waiting id tx e = (ground (arith, eq_iff "txn_2" id), ground arith)

pub waiting_store-IsIndexed : IsIndexed waiting_store
unfolding lookup is_pending_status
waiting_store-IsIndexed = record {
  indexed = λ id. ground arith;
  keyed = λ id tx e. let (here, same) = only_waiting id tx e in ap (λ x. x.id) same ∙ sym here;
}

pub waiting-IsSafe : IsSafe waiting
waiting-IsSafe = record {
  live = λ id tx e. subst IsLive (sym (only_waiting id tx e).1) waiting_tx-IsLive;
  indexed = waiting_store-IsIndexed;
}

pub waiting_order : Enumerates ("txn_2" ∷ []) waiting_store.pending_ids
unfolding elem lookup
waiting_order = record { visits = λ k. ground arith; distinct = (refl, tt) }
