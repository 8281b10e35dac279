-- ===== src/Server/Safe.antt =====
-- Runs of the process: whatever comes in, every request is answered and the state stays safe.
use mathlib.Core.Path.{subst}
use zenithpay_retry.Base.{
  ℕ, ◌≤◌, ◌≡◌, ◌≢◌, ◌⊎◌, refl, sym, String, true, Option, List, [], ◌∷◌, Dict, Enumerates, Outcome,
  ok, err, panicked, str_eq, All, Bool-cases, Option-cases, Sum-cases, inl, inr,
}
use zenithpay_retry.Float.{Float64}
use zenithpay_retry.Time.{Time}
use zenithpay_retry.Domain.Models.{SubmitRequest, SubmitResponse}
use zenithpay_retry.Domain.Decline.{RetryStrategy}
use zenithpay_retry.Domain.Decline.Plan.{AllComplete}
use zenithpay_retry.Store.{get}
use zenithpay_retry.Retry.World.{
  World, EngineError, unknown_id, not_retryable, attempts_exhausted, already_submitted,
  saving_failed,
}
use zenithpay_retry.Retry.Execute.{execute_retry}
use zenithpay_retry.Retry.Execute.Effects.{IsSafe, execute_retry-IsSafe}
use zenithpay_retry.Retry.Submit.{submit}
use zenithpay_retry.Retry.Submit.Behaviour.{submit-IsSafe}
use zenithpay_retry.Retry.Batch.{process_all_pending}
use zenithpay_retry.Retry.Batch.Total.{process_all_pending-total}
use zenithpay_retry.Retry.Batch.Tick.{process_due_retries-IsSafe}
use zenithpay_retry.Handler.{
  Body, Reply, reply, max_request_body, missing_field, submit_reply, retry_error, retry_reply,
  process_reply, handle_submit, handle_get, handle_list, handle_retry, handle_process_all,
  handle_get_webhook_events, handle_get_decline_codes,
}
use zenithpay_retry.Seed.{soft_count}
use zenithpay_retry.Seed.Requests.{IsRandom}
use zenithpay_retry.Server.{
  Library, Ranges, Route, get_health, post_transaction, get_transaction, get_transactions,
  post_retry, post_process_all, get_overview, get_by_decline, get_by_attempt, get_decline_codes,
  get_events, post_seed, post_reset, rounds_needed, enough_fuel, seed_count, handle_reset, serve,
  cors, Event, request, sweep, Result, replied, swept, step, run,
}
use zenithpay_retry.Server.Seeding.{clear_all-IsSafe, handle_seed-Seeds}
use zenithpay_retry.Server.Rounds.{rounds_needed-Enough}

-- A handler that has answered.
abbrev pub IsReply : {F : Type 0} → Reply F → Type 0
IsReply {F = F} r = (status : ℕ) × (body : Body F) × (r ≡ reply status body)

-- A safe world and an answer.
abbrev pub IsServed : {F : Type 0} → World F × Reply F → Type 0
IsServed (w, r) = IsSafe w × IsReply r

module _ {F : Type 0} where
  handle_get-IsReply : (id : String) (w : World F) → IsReply (handle_get id w)
  unfolding handle_get
  handle_get-IsReply id w = elim (Bool-cases (str_eq id "")) [
    | inl e ↦ rw (e, handle_get) (_, _, refl)
    | inr e ↦ elim (Option-cases (get id w.store)) [
      | inl g ↦ rw (e, handle_get, g) (_, _, refl)
      | inr (tx, g) ↦ rw (e, handle_get, g) (_, _, refl)
    ]
  ]

  submit_reply-IsServed :
      (w : World F) (r : Outcome EngineError SubmitResponse)
      → IsSafe w
      → r ≢ panicked
      → IsServed (submit_reply (w, r))
  unfolding submit_reply
  submit_reply-IsServed w (ok x) h ne = (h, (_, _, refl))
  submit_reply-IsServed w (err e) h ne = (h, (_, _, refl))
  submit_reply-IsServed w panicked h ne = absurd (ne refl)

  retry_error-IsReply : (e : EngineError) → IsReply {F = F} (retry_error e)
  unfolding retry_error
  retry_error-IsReply unknown_id = (_, _, refl)
  retry_error-IsReply not_retryable = (_, _, refl)
  retry_error-IsReply attempts_exhausted = (_, _, refl)
  retry_error-IsReply already_submitted = (_, _, refl)
  retry_error-IsReply saving_failed = (_, _, refl)

  retry_reply-IsServed :
      (id : String) (w : World F) (r : Outcome EngineError (Unit {0}))
      → IsSafe w
      → r ≢ panicked
      → IsServed (retry_reply id (w, r))
  unfolding retry_reply
  retry_reply-IsServed id w (ok x) h ne = elim (Option-cases (get id w.store)) [
    | inl g ↦ rw (retry_reply, g) (h, (_, _, refl))
    | inr (tx, g) ↦ rw (retry_reply, g) (h, (_, _, refl))
  ]
  retry_reply-IsServed id w (err e) h ne = (h, retry_error-IsReply e)
  retry_reply-IsServed id w panicked h ne = absurd (ne refl)

module _ {F : Type 0} ⦃f : Float64 F⦄ (strategies : Dict (RetryStrategy F))
    (all : AllComplete strategies) where
  handle_submit-IsServed :
      (decode : ℕ → String → String ⊎ SubmitRequest) (parse_rfc3339 : String → Option Time)
      (body : String) (w : World F)
      → IsSafe w
      → IsServed (handle_submit strategies decode parse_rfc3339 body w)
  unfolding handle_submit
  handle_submit-IsServed decode parse_rfc3339 body w h =
      elim (Sum-cases (decode max_request_body body)) [
        | inl (message, e) ↦ rw (e, handle_submit) (h, (_, _, refl))
        | inr (req, e) ↦ elim (Option-cases (missing_field req)) [
          | inr (message, m) ↦ rw (e, handle_submit, m) (h, (_, _, refl))
          | inl m ↦
              let (safe, no_panic) = submit-IsSafe strategies parse_rfc3339 req w all h in
              let (w', r) = submit strategies parse_rfc3339 req w in
              rw (e, handle_submit, m) (submit_reply-IsServed w' r safe no_panic)
        ]
      ]

  handle_retry-IsServed :
      (id : String) (w : World F) → IsSafe w → IsServed (handle_retry strategies id w)
  unfolding handle_retry
  handle_retry-IsServed id w h = elim (Bool-cases (str_eq id "")) [
    | inl e ↦ rw (e, handle_retry) (h, (_, _, refl))
    | inr e ↦
        let (safe, no_panic) = execute_retry-IsSafe strategies id w all h in
        let (w', r) = execute_retry strategies id w in
        rw (e, handle_retry) (retry_reply-IsServed id w' r safe no_panic)
  ]

  handle_process_all-IsServed :
      (order : List String) (w : World F)
      → IsSafe w
      → Enumerates order w.store.pending_ids
      → IsServed (handle_process_all strategies (enough_fuel w) order w)
  unfolding handle_process_all process_reply
  handle_process_all-IsServed order w h en =
      let ((t, e), safe, settled) =
        process_all_pending-total strategies (rounds_needed w.store.transactions) order w all h en
          (rounds_needed-Enough w) in
      let (w', pr) = process_all_pending strategies (enough_fuel w) order w in
      subst (λ pr. IsServed (process_reply (w', pr))) (sym e) (safe, (_, _, refl))

-- What the code relies on of the libraries.
pub record IsSound {G F : Type 0} ⦃f : Float64 F⦄ (lib : Library G F) : Type 0 where
  pub random : IsRandom lib.rand
  pub part : soft_count lib.rand seed_count ≤ seed_count

-- The range over the pending index visits each of its keys once.
abbrev pub AreRanges : {F : Type 0} → Ranges F → Type 0
AreRanges ranges = (m : Dict (Unit {0})) → Enumerates (ranges.pending m) m

-- A tick that got through, or a request that was answered.
abbrev pub IsFine : {F : Type 0} → Result F → Type 0
IsFine (replied r) = IsReply r
IsFine (swept through) = through ≡ true

module _ {G F : Type 0} ⦃f : Float64 F⦄ (strategies : Dict (RetryStrategy F)) (lib : Library G F)
    (all : AllComplete strategies) (sound : IsSound lib) where
  serve-IsServed :
      (ranges : Ranges F) (route : Route) (w : World F)
      → AreRanges ranges
      → IsSafe w
      → IsServed (serve strategies lib ranges route w)
  unfolding serve handle_list handle_get_webhook_events handle_get_decline_codes handle_reset
  serve-IsServed ranges get_health w en h = (h, (_, _, refl))
  serve-IsServed ranges (post_transaction body) w en h =
      handle_submit-IsServed strategies all lib.decode lib.parse_rfc3339 body w h
  serve-IsServed ranges (get_transaction id) w en h = (h, handle_get-IsReply id w)
  serve-IsServed ranges (get_transactions status) w en h = (h, (_, _, refl))
  serve-IsServed ranges (post_retry id) w en h = handle_retry-IsServed strategies all id w h
  serve-IsServed ranges post_process_all w en h =
      handle_process_all-IsServed strategies all (ranges.pending w.store.pending_ids) w h
        (en w.store.pending_ids)
  serve-IsServed ranges get_overview w en h = (h, (_, _, refl))
  serve-IsServed ranges get_by_decline w en h = (h, (_, _, refl))
  serve-IsServed ranges get_by_attempt w en h = (h, (_, _, refl))
  serve-IsServed ranges get_decline_codes w en h = (h, (_, _, refl))
  serve-IsServed ranges get_events w en h = (h, (_, _, refl))
  serve-IsServed ranges post_seed w en h =
      let ((t, e), safe, _, _) =
        handle_seed-Seeds strategies lib all ranges w sound.random sound.part en in
      (safe, (_, _, e))
  serve-IsServed ranges post_reset w en h = (clear_all-IsSafe w, (_, _, refl))

  step-IsFine :
      (ranges : Ranges F) (event : Event) (w : World F)
      → AreRanges ranges
      → IsSafe w
      → let (w', result) = step strategies lib ranges event w in IsSafe w' × IsFine result
  unfolding step cors
  step-IsFine ranges (request method route) w en h = elim (Bool-cases (str_eq method "OPTIONS")) [
    | inl e ↦ rw (e, step, cors) (h, (_, _, refl))
    | inr e ↦ rw (e, step, cors) (serve-IsServed ranges route w en h)
  ]
  step-IsFine ranges sweep w en h =
      process_due_retries-IsSafe strategies all (ranges.pending w.store.pending_ids) w h

  -- Whatever requests and ticks of the scheduler come in, in whatever order: every request gets an
  -- answer, every tick gets through, and afterwards every stored transaction is at a point of its
  -- life and the pending index is exact; from a safe state, with complete strategies, if random
  -- draws and swaps are in range, 70 percent of 200, as computed, are at most 200, and each range
  -- over the pending index visits every key once.
  pub run-IsSafe :
      (events : List (Ranges F × Event)) (w : World F)
      → All (λ e. AreRanges e.0) events
      → IsSafe w
      → let (w', results) = run strategies lib events w in IsSafe w' × All IsFine results
  unfolding run
  run-IsSafe [] w en h = (h, tt)
  run-IsSafe ((ranges, event) ∷ events) w en h =
      let (safe, fine) = step-IsFine ranges event w en.0 h in
      let (w', result) = step strategies lib ranges event w in
      let (safe', fine') = run-IsSafe events w' en.1 safe in (safe', (fine, fine'))
