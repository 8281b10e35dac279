-- ===== src/Server.antt =====
-- cmd/server/main.go: the routes, the endpoints that it defines itself, the CORS middleware, and the
-- scheduler's loop of internal/retry/scheduler.go beside it. Requests and ticks come in any order,
-- one after the other; calls that overlap are in Retry/Concurrent.
-- What belongs to the libraries is an argument: decoding, parsing and printing of times, random
-- numbers, and the orders in which `range` visits maps, which differ from event to event.
-- The routing table of net/http is the data type of the routes. An answer is a status and a value
-- here; how it is written, and the logging middleware, are in Wire, and main is in Startup.
pub mod Rounds
pub mod Submissions
pub mod Seeding
pub mod Safe
pub mod Keeps
pub mod History
pub mod Startup
pub mod Wire
use zenithpay_retry.Base.{
  ℕ, zero, suc, ◌+◌, String, Bool, true, false, Option, none, some, List, [], ◌∷◌, ℤ, Dict, IntDict,
  Run, done, panic, ◌⊎◌, Outcome, ok, err, panicked, str_eq, if◌then◌else◌,
}
use zenithpay_retry.Float.{Float64}
use zenithpay_retry.Time.{Time, Duration}
use zenithpay_retry.Domain.Models.{Transaction, RetryPlan, SubmitRequest}
use zenithpay_retry.Domain.Decline.{RetryStrategy, hard_decline_codes}
use zenithpay_retry.Store.{Store, clear, get_all}
use zenithpay_retry.Webhook.{clear_events}
use zenithpay_retry.Retry.World.{World, now, tick}
use zenithpay_retry.Retry.Submit.{submit}
use zenithpay_retry.Retry.Batch.{
  Progress, finished, crashed, out_of_fuel, process_all_pending, process_due_retries,
}
use zenithpay_retry.Analytics.{overview}
use zenithpay_retry.Analytics.Reasons.{DeclineReasonStats, count_reasons, by_decline_reason}
use zenithpay_retry.Analytics.Attempts.{AttemptStats, count_all_numbers, by_attempt_number}
use zenithpay_retry.Seed.{Rand, generate_transactions}
use zenithpay_retry.Handler.{
  Body, overview_stats, reason_stats, attempt_stats, seeded, cleared, healthy, empty, Reply, reply,
  no_reply, unfinished, write_json, handle_submit, handle_get, handle_list, handle_retry,
  handle_process_all, handle_get_webhook_events, handle_get_decline_codes,
}

-- What the program calls of the libraries.
pub record Library (G F : Type 0) : Type 0 where
  pub decode : ℕ → String → String ⊎ SubmitRequest
  pub parse_rfc3339 : String → Option Time
  pub format_rfc3339 : Time → String
  pub unix_nano : Time → ℤ
  pub duration_string : Duration → String
  pub rand : Rand G F

-- The orders in which the ranges over maps go while one event is handled.
pub record Ranges (F : Type 0) : Type 0 where
  pub transactions : Dict Transaction → List String
  pub pending : Dict (Unit {0}) → List String
  pub hard_codes : Dict String → List String
  pub strategy_codes : Dict (RetryStrategy F) → List String
  pub reasons : Dict (DeclineReasonStats F) → List String
  pub numbers : IntDict (AttemptStats F) → List ℕ

-- mux.HandleFunc, with what the handlers read of a request.
pub data Route : Type 0 where
  get_health : Route
  post_transaction : String → Route
  get_transaction : String → Route
  get_transactions : String → Route
  post_retry : String → Route
  post_process_all : Route
  get_overview : Route
  get_by_decline : Route
  get_by_attempt : Route
  get_decline_codes : Route
  get_events : Route
  post_seed : Route
  post_reset : Route

-- The fuel for ProcessAllPending: one round for each attempt of each plan.
unfoldable pub planned_rounds : Option RetryPlan → ℕ
planned_rounds none = 0
planned_rounds (some p) = p.max_attempts

unfoldable pub rounds_needed : Dict Transaction → ℕ
unfolding planned_rounds
rounds_needed [] = 0
rounds_needed ((_, tx) ∷ rest) = planned_rounds tx.retry_plan + rounds_needed rest

abbrev pub enough_fuel : {F : Type 0} → World F → ℕ
enough_fuel w = suc (rounds_needed w.store.transactions)

abbrev pub seed_count : ℕ
seed_count = 200

module _ {F : Type 0} where
  -- txStore.Clear() and notifier.Clear()
  unfoldable pub clear_all : World F → World F
  clear_all w = record w { store = clear w.store; notifier = clear_events w.notifier }

  unfoldable pub handle_reset : World F → World F × Reply F
  unfolding clear_all
  handle_reset w = (clear_all w, write_json 200 cleared)

  -- What the seed endpoint writes at its end.
  unfoldable pub seed_reply : ℕ → World F × Progress → World F × Reply F
  seed_reply submitted (w, finished t) = (w, write_json 200 (seeded submitted t))
  seed_reply submitted (w, crashed) = (w, no_reply)
  seed_reply submitted (w, out_of_fuel) = (w, unfinished)

  -- corsMiddleware
  unfoldable pub cors :
      (Route → World F → World F × Reply F) → String → Route → World F → World F × Reply F
  cors next method route w = if str_eq method "OPTIONS" then (w, reply 204 empty) else next route w

module _ {G F : Type 0} ⦃f : Float64 F⦄ (strategies : Dict (RetryStrategy F)) (lib : Library G F)
    (ranges : Ranges F) where
  -- The loop of the seed endpoint: errors are logged and not counted.
  unfoldable pub seed_submit : List SubmitRequest → ℕ → World F → World F × Run ℕ
  seed_submit [] submitted w = (w, done submitted)
  seed_submit (req ∷ reqs) submitted w =
      let (w', result) = submit strategies lib.parse_rfc3339 req w in
      elim result [
        | ok _ ↦ seed_submit reqs (suc submitted) w'
        | err _ ↦ seed_submit reqs submitted w'
        | panicked ↦ (w', panic)
      ]

  -- ProcessAllPending after the loop.
  unfoldable pub seed_process : World F × Run ℕ → World F × Reply F
  unfolding seed_reply
  seed_process (w, panic) = (w, no_reply)
  seed_process (w, done submitted) =
      seed_reply submitted
        (process_all_pending strategies (enough_fuel w) (ranges.pending w.store.pending_ids) w)

  unfoldable pub seed_generated : Run (List SubmitRequest) → World F → World F × Reply F
  unfolding seed_submit seed_process
  seed_generated panic w = (w, no_reply)
  seed_generated (done reqs) w = seed_process (seed_submit reqs 0 w)

  -- The seed endpoint. The seed is one reading of the clock, the time of generation the next.
  unfoldable pub handle_seed : World F → World F × Reply F
  unfolding clear_all seed_generated
  handle_seed w =
      let w₁ = clear_all w in
      let w₂ = tick w₁ in
      seed_generated
        (generate_transactions lib.rand lib.format_rfc3339 (now w₂) seed_count
          (lib.unix_nano (now w₁)))
        (tick w₂)

  -- The handler of each route.
  unfoldable pub serve : Route → World F → World F × Reply F
  unfolding handle_reset handle_seed
  serve get_health w = (w, write_json 200 healthy)
  serve (post_transaction body) w = handle_submit strategies lib.decode lib.parse_rfc3339 body w
  serve (get_transaction id) w = (w, handle_get id w)
  serve (get_transactions status) w =
      (w, handle_list status (ranges.transactions w.store.transactions) w)
  serve (post_retry id) w = handle_retry strategies id w
  serve post_process_all w =
      handle_process_all strategies (enough_fuel w) (ranges.pending w.store.pending_ids) w
  serve get_overview w = (
    w,
    write_json 200 (overview_stats (overview (ranges.transactions w.store.transactions) w.store)),
  )
  serve get_by_decline w =
      let order = ranges.transactions w.store.transactions in
      let codes = ranges.reasons (count_reasons (get_all order w.store) []) in
      let (soft, hard) = by_decline_reason order codes w.store in
      (w, write_json 200 (reason_stats soft hard))
  serve get_by_attempt w =
      let order = ranges.transactions w.store.transactions in
      let numbers = ranges.numbers (count_all_numbers (get_all order w.store) []) in
      (w, write_json 200 (attempt_stats (by_attempt_number order numbers w.store)))
  serve get_decline_codes w = (
    w,
    handle_get_decline_codes lib.duration_string strategies (ranges.hard_codes hard_decline_codes)
        (ranges.strategy_codes strategies),
  )
  serve get_events w = (w, handle_get_webhook_events w)
  serve post_seed w = handle_seed w
  serve post_reset w = handle_reset w

-- What reaches the process: a request, with its method, or a tick of the scheduler.
pub data Event : Type 0 where
  request : String → Route → Event
  sweep : Event

-- What comes of it: a reply, or a tick that got through its calls or ended in a panic.
pub data Result (F : Type 0) : Type 0 where
  replied : Reply F → Result F
  swept : Bool → Result F

module _ {G F : Type 0} ⦃f : Float64 F⦄ (strategies : Dict (RetryStrategy F))
    (lib : Library G F) where
  unfoldable pub step : Ranges F → Event → World F → World F × Result F
  unfolding cors
  step ranges (request method route) w =
      let (w', r) = cors (serve strategies lib ranges) method route w in (w', replied r)
  step ranges sweep w =
      let (w', through) = process_due_retries strategies (ranges.pending w.store.pending_ids) w in
      (w', swept through)

  -- A run of the process.
  unfoldable pub run : List (Ranges F × Event) → World F → World F × List (Result F)
  unfolding step
  run [] w = (w, [])
  run ((ranges, event) ∷ events) w =
      let (w', result) = step ranges event w in
      let (w'', results) = run events w' in (w'', result ∷ results)
