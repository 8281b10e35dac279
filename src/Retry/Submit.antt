-- ===== src/Retry/Submit.antt =====
-- internal/retry/engine.go, Submit. The log output is left out.
pub mod Requests
pub mod Behaviour
use Prim.Native.String.{◌++◌}
use zenithpay_retry.Base.{
  ℕ, zero, suc, ◌+◌, ◌-◌, String, Bool, true, false, ◌&&◌, ◌||◌, Option, none, some, List, [], ◌∷◌,
  Dict, Run, done, panic, index, get_elem?, length, ltb, leb, ◌==◌, Outcome, ok, err, panicked,
  str_eq, itoa, if◌then◌else◌,
}
use mathlib.Core.List
use zenithpay_retry.Float.{Float64}
use zenithpay_retry.Time.{Time}
use zenithpay_retry.Domain.Models.{
  Transaction, TransactionStatus, scheduled, retrying, recovered, failed_final, rejected, EventType,
  retry_scheduled, retry_succeeded, retry_failed, retry_exhausted, RetryPlan, RetryAttempt,
  SubmitRequest, SubmitResponse, DeclineCategory, hard_decline, soft_decline,
}
use zenithpay_retry.Domain.Decline.{RetryStrategy, classify_decline, build_retry_plan}
use zenithpay_retry.Store.{
  Store, StoreError, not_found, already_exists, save_if_not_exists, UpdateError, missing, refused,
  update_func, get,
}
use zenithpay_retry.Retry.World.{
  World, now, tick, notify, EngineError, already_submitted, saving_failed,
}
use zenithpay_retry.Retry.Simulator.{SimResult, process_payment}

-- The timestamp of a request, or the time of submission if there is none or it does not parse.
unfoldable pub request_time : (String → Option Time) → Time → String → Time
request_time parse_rfc3339 now timestamp =
    if str_eq timestamp "" then now else elim (parse_rfc3339 timestamp) [ none ↦ now | some t ↦ t ]

-- The transaction that Submit builds from a request, before its status and plan are set.
unfoldable pub transaction_of :
    SubmitRequest → DeclineCategory → Time → Time → TransactionStatus → Transaction
transaction_of req category created updated status = record {
  id = req.transaction_id;
  amount_cents = req.amount_cents;
  currency = req.currency;
  customer_id = req.customer_id;
  merchant_id = req.merchant_id;
  original_processor = req.original_processor;
  decline_code = req.decline_code;
  decline_category = category;
  status = status;
  retry_plan = none;
  retry_attempts = [];
  next_retry_at = none;
  created_at = created;
  updated_at = updated;
  webhook_url = req.webhook_url;
}

-- How Submit reports the error of SaveIfNotExists.
unfoldable pub save_error : StoreError → EngineError
save_error already_exists = already_submitted
save_error not_found = saving_failed

unfoldable pub hard_response : Transaction → String → SubmitResponse
hard_response tx reason = record {
  transaction_id = tx.id;
  decline_category = tx.decline_category;
  status = tx.status;
  retry_eligible = false;
  retry_plan = none;
  message = "Hard decline: " ++ (reason ++ ". Transaction will not be retried.");
}

unfoldable pub soft_response : Transaction → RetryPlan → String → SubmitResponse
soft_response tx plan reason = record {
  transaction_id = tx.id;
  decline_category = tx.decline_category;
  status = tx.status;
  retry_eligible = true;
  retry_plan = some plan;
  message =
      "Soft decline: "
      ++ (reason ++ (". Scheduled " ++ (itoa plan.max_attempts ++ " retry attempts.")));
}

-- The transaction with its plan; the first time of the plan, if it has one, is the next retry.
unfoldable pub schedule_first : Transaction → RetryPlan → Transaction
schedule_first tx plan = record tx {
  retry_plan = some plan;
  status = scheduled;
  next_retry_at = get_elem? plan.scheduled_times 0;
}

module _ {F : Type 0} where
  -- SaveIfNotExists, and the error or what follows.
  unfoldable pub save_new :
      Transaction
      → (World F → World F × Outcome EngineError SubmitResponse)
      → World F
      → World F × Outcome EngineError SubmitResponse
  save_new tx next w =
      let (s, failure) = save_if_not_exists tx w.store in
      elim failure [ some e ↦ (w, err (save_error e)) | none ↦ next (record w { store = s }) ]

module _ {F : Type 0} ⦃f : Float64 F⦄ (strategies : Dict (RetryStrategy F))
    (parse_rfc3339 : String → Option Time) where
  submit_hard : Transaction → String → World F → World F × Outcome EngineError SubmitResponse
  submit_hard tx reason = save_new tx λ w. (w, ok (hard_response tx reason))

  -- The plan's field ScheduledTimes is read at once, so that a nil plan panics.
  submit_soft :
      Transaction
      → String
      → Run (Option RetryPlan)
      → World F
      → World F × Outcome EngineError SubmitResponse
  submit_soft tx reason panic w = (w, panicked)
  submit_soft tx reason (done none) w = (w, panicked)
  submit_soft tx reason (done (some plan)) w =
      let tx' = schedule_first tx plan in
      save_new tx' (λ w'. (notify tx' retry_scheduled 0 w', ok (soft_response tx' plan reason))) w

  unfoldable pub submit : SubmitRequest → World F → World F × Outcome EngineError SubmitResponse
  unfolding submit_hard submit_soft
  submit req w =
      let (category, reason) = classify_decline strategies req.decline_code in
      let time = now w in
      let created = request_time parse_rfc3339 time req.timestamp in
      elim category [
        | hard_decline ↦
            submit_hard (transaction_of req hard_decline created time rejected) reason (tick w)
        | soft_decline ↦
            submit_soft (transaction_of req soft_decline created time scheduled) reason
              (build_retry_plan strategies req.decline_code req.original_processor time) (tick w)
      ]
