-- ===== src/Server/Keeps.antt =====
-- What Submit, ExecuteRetry, the clearing of the data and the clock keep, every run of the process
-- keeps.
use zenithpay_retry.Base.{
  ℕ, suc, String, List, [], ◌∷◌, Dict, Run, done, panic, inl, inr, Outcome, ok, err, panicked,
  str_eq, Bool-cases, Option-cases, Sum-cases,
}
use zenithpay_retry.Float.{Float64}
use zenithpay_retry.Domain.Models.{SubmitRequest, SubmitResponse}
use zenithpay_retry.Domain.Decline.{RetryStrategy}
use zenithpay_retry.Retry.World.{World, now, tick, EngineError}
use zenithpay_retry.Retry.Execute.{execute_retry}
use zenithpay_retry.Retry.Submit.{submit}
use zenithpay_retry.Retry.Batch.{Progress, finished, crashed, out_of_fuel, process_all_pending}
use zenithpay_retry.Retry.Batch.Keeps.{process_all_pending_keeps, process_due_retries_keeps}
use zenithpay_retry.Handler.{
  max_request_body, missing_field, submit_reply, retry_reply, process_reply, handle_submit,
  handle_retry, handle_process_all,
}
use zenithpay_retry.Seed.{generate_transactions}
use zenithpay_retry.Server.{
  Library, Ranges, Route, get_health, post_transaction, get_transaction, get_transactions,
  post_retry, post_process_all, get_overview, get_by_decline, get_by_attempt, get_decline_codes,
  get_events, post_seed, post_reset, enough_fuel, seed_count, clear_all, handle_reset, seed_reply,
  seed_submit, seed_process, seed_generated, handle_seed, serve, cors, Event, request, sweep, step,
  run,
}

-- A property of the state that the operations on it keep.
pub record IsInvariant {G F : Type 0} ⦃f : Float64 F⦄ (strategies : Dict (RetryStrategy F))
    (lib : Library G F) (P : World F → Type 0) : Type 0 where
  pub under_submit :
      (req : SubmitRequest) (w : World F) → P w → P (submit strategies lib.parse_rfc3339 req w).0
  pub under_retry : (id : String) (w : World F) → P w → P (execute_retry strategies id w).0
  pub under_clear : (w : World F) → P w → P (clear_all w)
  pub under_tick : (w : World F) → P w → P (tick w)

module _ {F : Type 0} (P : World F → Type 0) where
  submit_reply_keeps :
      (w : World F) (r : Outcome EngineError SubmitResponse) → P w → P (submit_reply (w, r)).0
  unfolding submit_reply
  submit_reply_keeps w (ok x) h = h
  submit_reply_keeps w (err e) h = h
  submit_reply_keeps w panicked h = h

  retry_reply_keeps :
      (id : String) (w : World F) (r : Outcome EngineError (Unit {0}))
      → P w
      → P (retry_reply id (w, r)).0
  unfolding retry_reply
  retry_reply_keeps id w (ok x) h = h
  retry_reply_keeps id w (err e) h = h
  retry_reply_keeps id w panicked h = h

  process_reply_keeps : (w : World F) (r : Progress) → P w → P (process_reply (w, r)).0
  unfolding process_reply
  process_reply_keeps w (finished t) h = h
  process_reply_keeps w crashed h = h
  process_reply_keeps w out_of_fuel h = h

  seed_reply_keeps : (n : ℕ) (w : World F) (r : Progress) → P w → P (seed_reply n (w, r)).0
  unfolding seed_reply
  seed_reply_keeps n w (finished t) h = h
  seed_reply_keeps n w crashed h = h
  seed_reply_keeps n w out_of_fuel h = h

module _ {G F : Type 0} ⦃f : Float64 F⦄ (strategies : Dict (RetryStrategy F)) (lib : Library G F)
    (P : World F → Type 0) (inv : IsInvariant strategies lib P) where
  handle_submit_keeps :
      (body : String) (w : World F)
      → P w
      → P (handle_submit strategies lib.decode lib.parse_rfc3339 body w).0
  unfolding handle_submit
  handle_submit_keeps body w h = elim (Sum-cases (lib.decode max_request_body body)) [
    | inl (message, e) ↦ rw (e, handle_submit) h
    | inr (req, e) ↦ elim (Option-cases (missing_field req)) [
      | inr (message, m) ↦ rw (e, handle_submit, m) h
      | inl m ↦
          let (w', r) = submit strategies lib.parse_rfc3339 req w in
          rw (e, handle_submit, m) (submit_reply_keeps P w' r (inv.under_submit req w h))
    ]
  ]

  handle_retry_keeps : (id : String) (w : World F) → P w → P (handle_retry strategies id w).0
  unfolding handle_retry
  handle_retry_keeps id w h = elim (Bool-cases (str_eq id "")) [
    | inl e ↦ rw (e, handle_retry) h
    | inr e ↦
        let (w', r) = execute_retry strategies id w in
        rw (e, handle_retry) (retry_reply_keeps P id w' r (inv.under_retry id w h))
  ]

  handle_process_all_keeps :
      (fuel : ℕ) (order : List String) (w : World F)
      → P w
      → P (handle_process_all strategies fuel order w).0
  unfolding handle_process_all
  handle_process_all_keeps fuel order w h =
      let (w', r) = process_all_pending strategies fuel order w in
      process_reply_keeps P w' r
        (process_all_pending_keeps strategies P inv.under_retry fuel order w h)

  module _ (ranges : Ranges F) where
    seed_submit_keeps :
        (reqs : List SubmitRequest) (n : ℕ) (w : World F)
        → P w
        → P (seed_submit strategies lib ranges reqs n w).0
    unfolding seed_submit
    seed_submit_keeps [] n w h = h
    seed_submit_keeps (req ∷ reqs) n w h =
        let (w', r) = submit strategies lib.parse_rfc3339 req w in
        let k = inv.under_submit req w h in
        by_result w' r k (seed_submit_keeps reqs (suc n) w' k) (seed_submit_keeps reqs n w' k)
      where
        by_result :
            (w' : World F) (r : Outcome EngineError SubmitResponse)
            → P w'
            → P (seed_submit strategies lib ranges reqs (suc n) w').0
            → P (seed_submit strategies lib ranges reqs n w').0
            → P
                (elim r as (λ _. World F × Run ℕ) [
                  | ok _ ↦ seed_submit strategies lib ranges reqs (suc n) w'
                  | err _ ↦ seed_submit strategies lib ranges reqs n w'
                  | panicked ↦ (w', panic)
                ]).0
        by_result w' (ok x) k more same = more
        by_result w' (err e) k more same = same
        by_result w' panicked k more same = k

    seed_process_keeps :
        (w : World F) (r : Run ℕ) → P w → P (seed_process strategies lib ranges (w, r)).0
    unfolding seed_process
    seed_process_keeps w panic h = h
    seed_process_keeps w (done n) h =
        let order = ranges.pending w.store.pending_ids in
        let (w', r) = process_all_pending strategies (enough_fuel w) order w in
        seed_reply_keeps P n w' r
          (process_all_pending_keeps strategies P inv.under_retry (enough_fuel w) order w h)

    seed_generated_keeps :
        (r : Run (List SubmitRequest)) (w : World F)
        → P w
        → P (seed_generated strategies lib ranges r w).0
    unfolding seed_generated
    seed_generated_keeps panic w h = h
    seed_generated_keeps (done reqs) w h =
        let (w', r) = seed_submit strategies lib ranges reqs 0 w in
        seed_process_keeps w' r (seed_submit_keeps reqs 0 w h)

    handle_seed_keeps : (w : World F) → P w → P (handle_seed strategies lib ranges w).0
    unfolding handle_seed
    handle_seed_keeps w h =
        let w₁ = clear_all w in
        let w₂ = tick w₁ in
        seed_generated_keeps
          (generate_transactions lib.rand lib.format_rfc3339 (now w₂) seed_count
            (lib.unix_nano (now w₁)))
          (tick w₂) (inv.under_tick w₂ (inv.under_tick w₁ (inv.under_clear w h)))

    serve_keeps : (route : Route) (w : World F) → P w → P (serve strategies lib ranges route w).0
    unfolding serve handle_reset
    serve_keeps get_health w h = h
    serve_keeps (post_transaction body) w h = handle_submit_keeps body w h
    serve_keeps (get_transaction id) w h = h
    serve_keeps (get_transactions status) w h = h
    serve_keeps (post_retry id) w h = handle_retry_keeps id w h
    serve_keeps post_process_all w h =
        handle_process_all_keeps (enough_fuel w) (ranges.pending w.store.pending_ids) w h
    serve_keeps get_overview w h = h
    serve_keeps get_by_decline w h = h
    serve_keeps get_by_attempt w h = h
    serve_keeps get_decline_codes w h = h
    serve_keeps get_events w h = h
    serve_keeps post_seed w h = handle_seed_keeps w h
    serve_keeps post_reset w h = inv.under_clear w h

    step_keeps : (event : Event) (w : World F) → P w → P (step strategies lib ranges event w).0
    unfolding step cors
    step_keeps (request method route) w h = elim (Bool-cases (str_eq method "OPTIONS")) [
      | inl e ↦ rw (e, step, cors) h
      | inr e ↦ rw (e, step, cors) (serve_keeps route w h)
    ]
    step_keeps sweep w h =
        process_due_retries_keeps strategies P inv.under_retry (ranges.pending w.store.pending_ids)
          w (inv.under_tick w h)

  pub run_keeps :
      (events : List (Ranges F × Event)) (w : World F) → P w → P (run strategies lib events w).0
  unfolding run
  run_keeps [] w h = h
  run_keeps ((ranges, event) ∷ events) w h =
      run_keeps events (step strategies lib ranges event w).0 (step_keeps ranges event w h)
