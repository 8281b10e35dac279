-- ===== src/Retry/History/Calls.antt =====
-- Submit and ExecuteRetry keep the log and the store together.
use mathlib.Core.Path.{subst}
use zenithpay_retry.Base.{
  ◌≡◌, ap, sym, ◌∙◌, String, Option, some, [], ◌∷◌, ◌++◌, map, Dict, lookup, Outcome, length,
}
use zenithpay_retry.Float.{Float64}
use zenithpay_retry.Time.{Time}
use zenithpay_retry.Domain.Models.{
  Transaction, scheduled, rejected, SubmitRequest, SubmitResponse, retry_exhausted, retry_scheduled,
}
use zenithpay_retry.Domain.Decline.{RetryStrategy}
use zenithpay_retry.Domain.Decline.Plan.{AllComplete}
use zenithpay_retry.Webhook.{get_events_by_transaction}
use zenithpay_retry.Lifecycle.{Life}
use zenithpay_retry.Retry.World.{World, EngineError}
use zenithpay_retry.Retry.Execute.{event_for, execute_retry}
use zenithpay_retry.Retry.Execute.Effects.{IsSafe}
use zenithpay_retry.Retry.Execute.Behaviour.{
  Executed, not_there, not_now, none_left, tried, execute_retry-Executed,
}
use zenithpay_retry.Retry.Submit.{submit}
use zenithpay_retry.Retry.Submit.Behaviour.{
  Submitted, duplicate, rejects, schedules, submit-Submitted,
}
use zenithpay_retry.Retry.History.{saying, history, expected, IsTold, sent-IsTold, quiet-IsTold}
use zenithpay_retry.Retry.History.Appends.{
  verdict-event_for, history-append, history-exhausted, IsRecorded-Ends,
}

module _ {F : Type 0} where
  same-IsTold :
      (w w' : World F) → w'.store ≡ w.store → w'.notifier ≡ w.notifier → IsTold w → IsTold w'
  same-IsTold w w' s n h j =
      ap (λ x. map saying (get_events_by_transaction j x)) n
      ∙ h j
      ∙ ap (λ x. expected (lookup j x.transactions)) (sym s)

  Executed-IsTold :
      ⦃f : Float64 F⦄ {strategies : Dict (RetryStrategy F)} (id : String) (w w' : World F)
      (r : Outcome EngineError (Unit {0}))
      → IsSafe w
      → Executed strategies id w w' r
      → IsTold w
      → IsTold w'
  Executed-IsTold id w w' r safe (not_there e same q) h = subst IsTold (sym same) h
  Executed-IsTold id w w' r safe (not_now tx e no_more same q) h = subst IsTold (sym same) h
  Executed-IsTold id w w' r safe (none_left tx u p t t' e may wait full m s n q times) h =
      sent-IsTold id w w' tx u retry_exhausted (length tx.retry_attempts) t'
        (safe.indexed.keyed id tx e) s n
        (ap (λ x. expected (some x)) m
          ∙ history-exhausted tx.status tx p may (safe.live id tx e) wait.on_plan.planned full
          ∙ ap (λ x. expected x ++ (retry_exhausted, length tx.retry_attempts, tx.status) ∷ [])
              (sym e))
        h
  Executed-IsTold id w w' r safe (tried tx u p a st t e may wait fits rec s n q performed) h =
      sent-IsTold id w w' tx u (event_for st) a.attempt_number t (safe.indexed.keyed id tx e) s n
        (ap (λ xs. history u.status xs) rec.appended
          ∙ ap (λ x. history x (tx.retry_attempts ++ a ∷ [])) rec.status_set
          ∙ history-append st tx.status tx a (IsRecorded-Ends rec) may (safe.live id tx e)
          ∙ ap (λ k. history tx.status tx.retry_attempts ++ (k, a.attempt_number, tx.status) ∷ [])
              (sym (verdict-event_for st))
          ∙ ap (λ x. expected x ++ (event_for st, a.attempt_number, tx.status) ∷ []) (sym e))
        h

module _ {F : Type 0} ⦃f : Float64 F⦄ (strategies : Dict (RetryStrategy F)) where
  rejected-expected : (tx : Transaction) → tx.status ≡ rejected → expected (some tx) ≡ []
  rejected-expected tx st = ap (λ x. history x tx.retry_attempts) st

  scheduled-expected :
      (tx : Transaction)
      → tx.status ≡ scheduled
      → Life scheduled tx
      → expected (some tx) ≡ (retry_scheduled, 0, tx.status) ∷ []
  scheduled-expected tx st (p, h, none_yet, next) =
      ap (λ x. history x tx.retry_attempts) st
      ∙ ap (λ xs. history scheduled xs) none_yet
      ∙ ap (λ x. (retry_scheduled, 0, x) ∷ []) (sym st)

  Submitted-IsTold :
      {parse : String → Option Time} (req : SubmitRequest) (w w' : World F)
      (r : Outcome EngineError SubmitResponse)
      → Submitted strategies parse req w w' r
      → IsTold w
      → IsTold w'
  Submitted-IsTold req w w' r (duplicate u e s n q) h = same-IsTold w w' s n h
  Submitted-IsTold req w w' r (rejects tx resp free hard asked st x s n q el pl) h =
      quiet-IsTold req.transaction_id w w' tx s n (rejected-expected tx st ∙ ap expected (sym free))
        h
  Submitted-IsTold req w w' r
        (schedules tx resp str p t free soft found plan asked st q life s n re el pl) h =
      sent-IsTold req.transaction_id w w' tx tx retry_scheduled 0 t asked.same_id s n
        (scheduled-expected tx st life
          ∙ ap (λ x. expected x ++ (retry_scheduled, 0, tx.status) ∷ []) (sym free))
        h

  -- After Submit, whatever the request, the log still says under each id what the transaction stored
  -- there tells.
  pub submit-IsTold :
      (parse_rfc3339 : String → Option Time) (req : SubmitRequest) (w : World F)
      → AllComplete strategies
      → IsTold w
      → IsTold (submit strategies parse_rfc3339 req w).0
  submit-IsTold parse_rfc3339 req w all h =
      let (w', r) = submit strategies parse_rfc3339 req w in
      Submitted-IsTold req w w' r (submit-Submitted strategies parse_rfc3339 req w all) h

  -- So does ExecuteRetry, from a safe state.
  pub execute_retry-IsTold :
      (id : String) (w : World F)
      → AllComplete strategies
      → IsSafe w
      → IsTold w
      → IsTold (execute_retry strategies id w).0
  execute_retry-IsTold id w all safe h =
      let (w', r) = execute_retry strategies id w in
      Executed-IsTold id w w' r safe (execute_retry-Executed strategies id w all safe.live) h
