-- ===== src/Handler.antt =====
-- internal/handler/transaction.go: the handlers of the transaction endpoints, over the engine's
-- world. A reply is the status and the value that is written as JSON; the writing itself is in
-- Server/Wire, and the log output is left out. A handler that panics gives no reply.
-- The decoding of a request's body is encoding/json's: it is an argument, which is told the limit
-- of http.MaxBytesReader, and answers with the request or with the text of an error. Path and query
-- values are arguments as well. A `range` over a map takes its order as an argument.
pub mod Submits
pub mod Retries
pub mod Lists
pub mod Codes
use Prim.Native.String.{◌++◌}
use zenithpay_retry.Base.{
  ℕ, zero, suc, String, Bool, true, false, Option, none, some, List, [], ◌∷◌, ℤ, pos, leb_ℤ, Dict,
  insert, length, map, str_eq, ◌⊎◌, inl, inr, Outcome, ok, err, panicked, if◌then◌else◌,
}
use zenithpay_retry.Float.{Float64}
use zenithpay_retry.Time.{Time, Duration}
use zenithpay_retry.Domain.Models.{Transaction, SubmitRequest, SubmitResponse, WebhookEvent}
use zenithpay_retry.Domain.Decline.{RetryStrategy, get_retry_strategy}
use zenithpay_retry.Domain.Decline.Codes.{DeclineCodes, get_all_decline_codes}
use zenithpay_retry.Store.{Store, get, list}
use zenithpay_retry.Webhook.{Notifier, get_events, get_events_by_transaction}
use zenithpay_retry.Retry.World.{
  World, EngineError, already_submitted, saving_failed, unknown_id, not_retryable,
  attempts_exhausted,
}
use zenithpay_retry.Retry.Submit.{submit}
use zenithpay_retry.Retry.Execute.{execute_retry}
use zenithpay_retry.Retry.Batch.{
  Tally, Progress, finished, crashed, out_of_fuel, process_all_pending,
}
use zenithpay_retry.Analytics.{AnalyticsOverview}
use zenithpay_retry.Analytics.Reasons.{DeclineReasonStats}
use zenithpay_retry.Analytics.Attempts.{AttemptStats}

abbrev pub max_request_body : ℕ
max_request_body = 1_048_576

-- What is told of a strategy in the reference data.
pub record StrategyInfo : Type 0 where
  pub max_attempts : ℕ
  pub delays : List String
  pub use_alt_processor : Bool
  pub description : String

-- The values that the handlers write.
pub data Body (F : Type 0) : Type 0 where
  -- {"error": message}, and the same with the text of an error of the engine.
  error_text : String → Body F
  engine_failure : EngineError → Body F
  submit_response : SubmitResponse → Body F
  details : Transaction → List WebhookEvent → Body F
  listing : ℕ → List Transaction → Body F
  transaction : Transaction → Body F
  batch : Tally → Body F
  event_log : ℕ → List WebhookEvent → Body F
  decline_codes : DeclineCodes → Dict StrategyInfo → Body F
  overview_stats : AnalyticsOverview F → Body F
  reason_stats : List (DeclineReasonStats F) → List (DeclineReasonStats F) → Body F
  attempt_stats : List (AttemptStats F) → Body F
  seeded : ℕ → Tally → Body F
  cleared : Body F
  healthy : Body F
  empty : Body F

pub data Reply (F : Type 0) : Type 0 where
  reply : ℕ → Body F → Reply F
  no_reply : Reply F
  unfinished : Reply F

-- The checks of Submit on the decoded request, in their order: what is missing.
unfoldable pub missing_field : SubmitRequest → Option String
missing_field req =
    if str_eq req.transaction_id ""
    then some "transaction_id is required"
    else if str_eq req.decline_code ""
    then some "decline_code is required"
    else if leb_ℤ req.amount_cents (pos 0)
    then some "amount_cents must be positive"
    else if str_eq req.currency ""
    then some "currency is required"
    else none

module _ {F : Type 0} where
  -- writeJSON
  abbrev pub write_json : ℕ → Body F → Reply F
  write_json status body = reply status body

  -- writeError
  abbrev pub write_error : ℕ → String → Reply F
  write_error status message = write_json status (error_text message)

  -- What Submit writes after the engine's call.
  unfoldable pub submit_reply : World F × Outcome EngineError SubmitResponse → World F × Reply F
  submit_reply (w, ok response) = (w, write_json 201 (submit_response response))
  submit_reply (w, err e) = (w, write_json 409 (engine_failure e))
  submit_reply (w, panicked) = (w, no_reply)

  -- Get; the store's only error is ErrNotFound.
  unfoldable pub handle_get : String → World F → Reply F
  handle_get id w =
      if str_eq id "" then write_error 400 "transaction id is required" else elim (get id w.store) [
        | none ↦ write_error 404 "transaction not found"
        | some tx ↦ write_json 200 (details tx (get_events_by_transaction tx.id w.notifier))
      ]

  -- List
  unfoldable pub handle_list : String → List String → World F → Reply F
  handle_list status order w =
      let transactions = list status order w.store in
      write_json 200 (listing (length transactions) transactions)

  -- The switch of Retry on the engine's error.
  unfoldable pub retry_error : EngineError → Reply F
  retry_error unknown_id = write_error 404 "transaction not found"
  retry_error not_retryable = write_json 422 (engine_failure not_retryable)
  retry_error attempts_exhausted = write_json 409 (engine_failure attempts_exhausted)
  retry_error e = write_json 400 (engine_failure e)

  unfoldable pub retry_reply : String → World F × Outcome EngineError (Unit {0}) → World F × Reply F
  unfolding retry_error
  retry_reply id (w, panicked) = (w, no_reply)
  retry_reply id (w, err e) = (w, retry_error e)
  retry_reply id (w, ok _) = (
    w,
    elim (get id w.store) [
      | none ↦ write_error 500 "failed to retrieve transaction after retry"
      | some tx ↦ write_json 200 (transaction tx)
    ],
  )

  unfoldable pub process_reply : World F × Progress → World F × Reply F
  process_reply (w, finished t) = (w, write_json 200 (batch t))
  process_reply (w, crashed) = (w, no_reply)
  process_reply (w, out_of_fuel) = (w, unfinished)

  -- GetWebhookEvents
  unfoldable pub handle_get_webhook_events : World F → Reply F
  handle_get_webhook_events w =
      let events = get_events w.notifier in write_json 200 (event_log (length events) events)

  -- The entry of a strategy: the delays are printed by time.Duration's String.
  unfoldable pub strategy_info : (Duration → String) → RetryStrategy F → StrategyInfo
  strategy_info duration_string s = record {
    max_attempts = s.max_attempts;
    delays = map duration_string s.delays;
    use_alt_processor = s.use_alt_processor;
    description = s.description;
  }

  -- The loop of GetDeclineCodes over the soft codes.
  unfoldable pub add_strategies :
      (Duration → String)
      → Dict (RetryStrategy F)
      → List String
      → Dict StrategyInfo
      → Dict StrategyInfo
  unfolding strategy_info
  add_strategies duration_string table [] infos = infos
  add_strategies duration_string table (code ∷ codes) infos =
      add_strategies duration_string table codes (elim (get_retry_strategy table code) [
        | none ↦ infos
        | some s ↦ insert code (strategy_info duration_string s) infos
      ])

  unfoldable pub handle_get_decline_codes :
      (Duration → String) → Dict (RetryStrategy F) → List String → List String → Reply F
  unfolding add_strategies
  handle_get_decline_codes duration_string table hard_order soft_order =
      let codes = get_all_decline_codes hard_order soft_order in
      write_json 200
        (decline_codes codes (add_strategies duration_string table codes.soft_declines []))

module _ {F : Type 0} ⦃f : Float64 F⦄ (strategies : Dict (RetryStrategy F)) where
  -- Submit
  unfoldable pub handle_submit :
      (decode : ℕ → String → String ⊎ SubmitRequest)
      → (parse_rfc3339 : String → Option Time) → String
      → World F
      → World F × Reply F
  unfolding missing_field submit_reply
  handle_submit decode parse_rfc3339 body w = elim (decode max_request_body body) [
    | inl message ↦ (w, write_error 400 ("invalid request body: " ++ message))
    | inr req ↦ elim (missing_field req) [
      | some message ↦ (w, write_error 400 message)
      | none ↦ submit_reply (submit strategies parse_rfc3339 req w)
    ]
  ]

  -- Retry
  unfoldable pub handle_retry : String → World F → World F × Reply F
  unfolding retry_reply
  handle_retry id w =
      if str_eq id ""
      then (w, write_error 400 "transaction id is required")
      else retry_reply id (execute_retry strategies id w)

  -- ProcessAll, with the fuel of the engine's loop.
  unfoldable pub handle_process_all : ℕ → List String → World F → World F × Reply F
  unfolding process_reply
  handle_process_all fuel order w = process_reply (process_all_pending strategies fuel order w)
