-- ===== src/Server/Wire/Statuses.antt =====
-- The status codes of the handlers' answers.
use mathlib.Core.Path.{subst}
use zenithpay_retry.Base.{
  ℕ, ◌≡◌, refl, String, List, Dict, Run, done, panic, inl, inr, Outcome, ok, err, panicked, str_eq,
  arith, Bool-cases, Option-cases, Sum-cases,
}
use zenithpay_retry.Float.{Float64}
use zenithpay_retry.Domain.Models.{SubmitRequest, SubmitResponse}
use zenithpay_retry.Domain.Decline.{RetryStrategy}
use zenithpay_retry.Store.{get}
use zenithpay_retry.Retry.World.{
  World, now, tick, EngineError, unknown_id, not_retryable, attempts_exhausted, already_submitted,
  saving_failed,
}
use zenithpay_retry.Retry.Submit.{submit}
use zenithpay_retry.Retry.Execute.{execute_retry}
use zenithpay_retry.Retry.Batch.{Progress, finished, crashed, out_of_fuel, process_all_pending}
use zenithpay_retry.Seed.{generate_transactions}
use zenithpay_retry.Handler.{
  Body, Reply, reply, no_reply, unfinished, max_request_body, missing_field, submit_reply,
  retry_error, retry_reply, process_reply, handle_submit, handle_get, handle_list, handle_retry,
  handle_process_all, handle_get_webhook_events, handle_get_decline_codes,
}
use zenithpay_retry.Server.Wire.Http.{HasBody}
use zenithpay_retry.Server.{
  Library, Ranges, Route, get_health, post_transaction, get_transaction, get_transactions,
  post_retry, post_process_all, get_overview, get_by_decline, get_by_attempt, get_decline_codes,
  get_events, post_seed, post_reset, enough_fuel, seed_count, clear_all, handle_reset, seed_reply,
  seed_submit, seed_process, seed_generated, handle_seed, serve,
}

-- An answer that is written has a final code that allows a body.
abbrev IsSendable : {F : Type 0} → Reply F → Type 0
IsSendable (reply status body) = HasBody status
IsSendable no_reply = Unit
IsSendable unfinished = Unit

-- An answer that is written says OK.
abbrev IsOk : {F : Type 0} → Reply F → Type 0
IsOk (reply status body) = status ≡ 200
IsOk no_reply = Unit
IsOk unfinished = Unit

-- The code that the handler of a route gives: 200 where it writes no status itself.
abbrev pub Fits : Route → ℕ → Type 0
Fits get_health status = status ≡ 200
Fits post_seed status = status ≡ 200
Fits post_reset status = status ≡ 200
Fits route status = HasBody status

retry_error-IsSendable : (F : Type 0) (e : EngineError) → IsSendable {F = F} (retry_error e)
unfolding retry_error
retry_error-IsSendable F unknown_id = omega arith
retry_error-IsSendable F not_retryable = omega arith
retry_error-IsSendable F attempts_exhausted = omega arith
retry_error-IsSendable F already_submitted = omega arith
retry_error-IsSendable F saving_failed = omega arith

module _ {F : Type 0} where
  submit_reply-IsSendable :
      (w : World F) (r : Outcome EngineError SubmitResponse) → IsSendable (submit_reply (w, r)).1
  unfolding submit_reply
  submit_reply-IsSendable w (ok x) = omega arith
  submit_reply-IsSendable w (err e) = omega arith
  submit_reply-IsSendable w panicked = tt

  retry_reply-IsSendable :
      (id : String) (w : World F) (r : Outcome EngineError (Unit {0}))
      → IsSendable (retry_reply id (w, r)).1
  unfolding retry_reply
  retry_reply-IsSendable id w (ok x) = elim (Option-cases (get id w.store)) [
    | inl g ↦ rw (retry_reply, g) (omega arith)
    | inr (tx, g) ↦ rw (retry_reply, g) (omega arith)
  ]
  retry_reply-IsSendable id w (err e) = retry_error-IsSendable F e
  retry_reply-IsSendable id w panicked = tt

  process_reply-IsSendable : (w : World F) (r : Progress) → IsSendable (process_reply (w, r)).1
  unfolding process_reply
  process_reply-IsSendable w (finished t) = omega arith
  process_reply-IsSendable w crashed = tt
  process_reply-IsSendable w out_of_fuel = tt

  handle_get-IsSendable : (id : String) (w : World F) → IsSendable (handle_get id w)
  unfolding handle_get
  handle_get-IsSendable id w = elim (Bool-cases (str_eq id "")) [
    | inl e ↦ rw (e, handle_get) (omega arith)
    | inr e ↦ elim (Option-cases (get id w.store)) [
      | inl g ↦ rw (e, handle_get, g) (omega arith)
      | inr (tx, g) ↦ rw (e, handle_get, g) (omega arith)
    ]
  ]

  seed_reply-IsOk : (n : ℕ) (w : World F) (r : Progress) → IsOk (seed_reply n (w, r)).1
  unfolding seed_reply
  seed_reply-IsOk n w (finished t) = refl
  seed_reply-IsOk n w crashed = tt
  seed_reply-IsOk n w out_of_fuel = tt

-- What the handler of each route gives.
abbrev FitsReply : {F : Type 0} → Route → Reply F → Type 0
FitsReply get_health r = IsOk r
FitsReply post_seed r = IsOk r
FitsReply post_reset r = IsOk r
FitsReply route r = IsSendable r

FitsReply-Fits :
    {F : Type 0} (route : Route) (status : ℕ) (body : Body F)
    → FitsReply route (reply status body)
    → Fits route status
FitsReply-Fits get_health status body h = h
FitsReply-Fits (post_transaction x) status body h = h
FitsReply-Fits (get_transaction id) status body h = h
FitsReply-Fits (get_transactions x) status body h = h
FitsReply-Fits (post_retry id) status body h = h
FitsReply-Fits post_process_all status body h = h
FitsReply-Fits get_overview status body h = h
FitsReply-Fits get_by_decline status body h = h
FitsReply-Fits get_by_attempt status body h = h
FitsReply-Fits get_decline_codes status body h = h
FitsReply-Fits get_events status body h = h
FitsReply-Fits post_seed status body h = h
FitsReply-Fits post_reset status body h = h

module _ {G F : Type 0} ⦃f : Float64 F⦄ (strategies : Dict (RetryStrategy F)) (lib : Library G F)
    (ranges : Ranges F) where
  handle_submit-IsSendable :
      (body : String) (w : World F)
      → IsSendable (handle_submit strategies lib.decode lib.parse_rfc3339 body w).1
  unfolding handle_submit
  handle_submit-IsSendable body w = elim (Sum-cases (lib.decode max_request_body body)) [
    | inl (message, e) ↦ rw (e, handle_submit) (omega arith)
    | inr (req, e) ↦ elim (Option-cases (missing_field req)) [
      | inr (message, m) ↦ rw (e, handle_submit, m) (omega arith)
      | inl m ↦
          let (w', r) = submit strategies lib.parse_rfc3339 req w in
          rw (e, handle_submit, m) (submit_reply-IsSendable w' r)
    ]
  ]

  handle_retry-IsSendable :
      (id : String) (w : World F) → IsSendable (handle_retry strategies id w).1
  unfolding handle_retry
  handle_retry-IsSendable id w = elim (Bool-cases (str_eq id "")) [
    | inl e ↦ rw (e, handle_retry) (omega arith)
    | inr e ↦
        let (w', r) = execute_retry strategies id w in
        rw (e, handle_retry) (retry_reply-IsSendable id w' r)
  ]

  seed_process-IsOk : (w : World F) (r : Run ℕ) → IsOk (seed_process strategies lib ranges (w, r)).1
  unfolding seed_process
  seed_process-IsOk w panic = tt
  seed_process-IsOk w (done n) =
      let order = ranges.pending w.store.pending_ids in
      let (w', r) = process_all_pending strategies (enough_fuel w) order w in seed_reply-IsOk n w' r

  seed_generated-IsOk :
      (r : Run (List SubmitRequest)) (w : World F)
      → IsOk (seed_generated strategies lib ranges r w).1
  unfolding seed_generated
  seed_generated-IsOk panic w = tt
  seed_generated-IsOk (done reqs) w =
      let (w', r) = seed_submit strategies lib ranges reqs 0 w in seed_process-IsOk w' r

  handle_seed-IsOk : (w : World F) → IsOk (handle_seed strategies lib ranges w).1
  unfolding handle_seed
  handle_seed-IsOk w =
      let w₁ = clear_all w in
      let w₂ = tick w₁ in
      seed_generated-IsOk
        (generate_transactions lib.rand lib.format_rfc3339 (now w₂) seed_count
          (lib.unix_nano (now w₁)))
        (tick w₂)

  serve-FitsReply :
      (route : Route) (w : World F) → FitsReply route (serve strategies lib ranges route w).1
  unfolding serve handle_list handle_get_webhook_events handle_get_decline_codes handle_reset
      handle_process_all
  serve-FitsReply get_health w = refl
  serve-FitsReply (post_transaction body) w = handle_submit-IsSendable body w
  serve-FitsReply (get_transaction id) w = handle_get-IsSendable id w
  serve-FitsReply (get_transactions status) w = omega arith
  serve-FitsReply (post_retry id) w = handle_retry-IsSendable id w
  serve-FitsReply post_process_all w =
      let order = ranges.pending w.store.pending_ids in
      let (w', r) = process_all_pending strategies (enough_fuel w) order w in
      process_reply-IsSendable w' r
  serve-FitsReply get_overview w = omega arith
  serve-FitsReply get_by_decline w = omega arith
  serve-FitsReply get_by_attempt w = omega arith
  serve-FitsReply get_decline_codes w = omega arith
  serve-FitsReply get_events w = omega arith
  serve-FitsReply post_seed w = handle_seed-IsOk w
  serve-FitsReply post_reset w = refl

  pub serve-Fits :
      (route : Route) (w : World F) (status : ℕ) (body : Body F)
      → (serve strategies lib ranges route w).1 ≡ reply status body
      → Fits route status
  serve-Fits route w status body e =
      FitsReply-Fits route status body (subst (FitsReply route) e (serve-FitsReply route w))
