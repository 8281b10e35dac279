-- ===== src/Examples/Service.antt =====
-- The endpoints and the server at the scenario.
use zenithpay_retry.Base.{
  ◌≡◌, refl, String, inr, List, [], ◌∷◌, length, pos, lookup, false, All, done, collect, arith,
}
use zenithpay_retry.Float.{Micros, micros_float}
use zenithpay_retry.Domain.Models.{Transaction, SubmitRequest, SubmitResponse}
use zenithpay_retry.Domain.Decline.{
  classify_decline, build_retry_plan, hard_decline_codes, default_strategies, get_retry_strategy,
  build_scheduled_times, build_fixed_times, delay_at, processor_at, get_available_processors,
  other_processors, available_processors,
}
use zenithpay_retry.Store.{new_store, save_if_not_exists}
use zenithpay_retry.Retry.Submit.{submit, save_new}
use zenithpay_retry.Store.Index.{pending_tx}
use zenithpay_retry.Retry.Batch.{Tally}
use zenithpay_retry.Retry.Execute.Effects.{IsSafe}
use zenithpay_retry.Retry.Submit.Requests.{IsRequested}
use zenithpay_retry.Webhook.{get_events_by_transaction}
use zenithpay_retry.Seed.{generate_transactions, soft_count}
use zenithpay_retry.Seed.Generated.{IsDataset, generate_transactions-IsDataset}
use zenithpay_retry.Handler.{
  listing, handle_list, reply, submit_response, details, seeded, max_request_body, missing_field,
  submit_reply, handle_submit, handle_get, handle_retry,
}
use zenithpay_retry.Store.Pending.{IsSelection}
use zenithpay_retry.Store.Listing.{has_status, NewestFirst}
use zenithpay_retry.Handler.Lists.{handle_list-IsSelection}
use zenithpay_retry.Handler.Submits.{Answered, handle_submit-Answered, handle_get-handle_submit}
use zenithpay_retry.Handler.Retries.{Retried, handle_retry-Retried}
use zenithpay_retry.Server.{
  Ranges, seed_count, Event, request, sweep, post_transaction, get_transaction, post_seed,
  handle_seed, run,
}
use zenithpay_retry.Server.Submissions.{AreStored}
use zenithpay_retry.Server.Seeding.{handle_seed-Seeds}
use zenithpay_retry.Server.Safe.{IsFine, run-IsSafe}
use zenithpay_retry.Retry.World.{now}
use zenithpay_retry.Examples.Scenario.{
  table, table-AllComplete, no_time, start, start-IsSafe, waiting, waiting-IsSafe, waiting_store,
  waiting_store-IsIndexed,
}
use zenithpay_retry.Examples.Scenario.{request as sent}
use zenithpay_retry.Examples.Ranges.{
  keys, keys-Enumerates, ranges, ranges-AreRanges, counter, counter-IsRandom, library,
  library-IsSound,
}

handle_submit-Answered_example :
    let (w', r) = handle_submit table library.decode no_time "{}" start in
    Answered no_time (inr sent) start w' r
handle_submit-Answered_example =
    handle_submit-Answered table library.decode no_time "{}" start table-AllComplete

stored :
    (resp : SubmitResponse) × ((handle_submit table library.decode no_time "{}" start).1
      ≡ reply 201 (submit_response resp))
unfolding handle_submit missing_field submit_reply submit classify_decline lookup build_retry_plan
    save_new new_store hard_decline_codes default_strategies get_retry_strategy
    build_scheduled_times build_fixed_times collect delay_at processor_at get_available_processors
    other_processors available_processors save_if_not_exists
stored = (_, refl)

handle_get-handle_submit_example :
    let w' = (handle_submit table library.decode no_time "{}" start).0 in
    (req : SubmitRequest) × (tx : Transaction) × (library.decode max_request_body "{}" ≡ inr req)
    × IsRequested no_time (now start) req tx
    × (stored.0.retry_plan ≡ tx.retry_plan)
    × (handle_get req.transaction_id w'
        ≡ reply 200 (details tx (get_events_by_transaction req.transaction_id w'.notifier)))
handle_get-handle_submit_example =
    handle_get-handle_submit table library.decode no_time "{}" start stored.0 table-AllComplete
      stored.1

handle_retry-Retried_example :
    let (w', r) = handle_retry table "txn_2" waiting in Retried "txn_2" waiting w' r
handle_retry-Retried_example =
    handle_retry-Retried table "txn_2" waiting table-AllComplete waiting-IsSafe

seventy_percent : soft_count counter 200 ≡ 140
unfolding soft_count
seventy_percent = refl

generate_transactions-IsDataset_example :
    (txs : List SubmitRequest) × (generate_transactions counter (λ t. "") (pos 5) 200 (pos 1)
      ≡ done txs)
    × IsDataset (λ t. "") (pos 5) 200 (soft_count counter 200) txs
generate_transactions-IsDataset_example =
    generate_transactions-IsDataset counter counter-IsRandom (λ t. "") (pos 5) 200 (pos 1)
      (omega arith) library-IsSound.part

handle_seed-Seeds_example :
    let (w', r) = handle_seed table library ranges waiting in
    ((t : Tally) × (r ≡ reply 200 (seeded seed_count t)))
    × IsSafe w'
    × ((id : String) → pending_tx (lookup id w'.store.transactions) ≡ false)
    × AreStored seed_count w'
handle_seed-Seeds_example =
    handle_seed-Seeds table library table-AllComplete ranges waiting library-IsSound.random
      library-IsSound.part ranges-AreRanges

abbrev events : List (Ranges Micros × Event)
events =
    (ranges, request "POST" (post_transaction "{}"))
    ∷ (ranges, sweep)
    ∷ (ranges, request "GET" (get_transaction "txn_1"))
    ∷ (ranges, request "POST" post_seed)
    ∷ []

run-IsSafe_example :
    let (w', results) = run table library events start in IsSafe w' × All IsFine results
run-IsSafe_example =
    run-IsSafe table library table-AllComplete library-IsSound events start
      (ranges-AreRanges, (ranges-AreRanges, (ranges-AreRanges, (ranges-AreRanges, tt))))
      start-IsSafe

handle_list-IsSelection_example :
    (txs : List Transaction) × (handle_list "scheduled" (keys waiting_store.transactions) waiting
      ≡ reply 200 (listing (length txs) txs))
    × IsSelection (has_status "scheduled") waiting_store txs
    × NewestFirst txs
handle_list-IsSelection_example =
    handle_list-IsSelection "scheduled" (keys waiting_store.transactions) waiting
      waiting_store-IsIndexed (keys-Enumerates waiting_store.transactions)
