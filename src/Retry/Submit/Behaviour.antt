-- ===== src/Retry/Submit/Behaviour.antt =====
-- Submit on a store of live transactions: the three ways in which a call ends.
use mathlib.Core.Path.{subst}
use zenithpay_retry.Base.{
  ◌≡◌, ◌≢◌, refl, sym, ◌∙◌, String, true, false, Option, none, some, Dict, contains, lookup, done,
  Outcome, ok, err, panicked, Option-cases, Bool-cases, inl, inr, arith,
}
use zenithpay_retry.Float.{Float64}
use zenithpay_retry.Time.{Time}
use zenithpay_retry.Domain.Models.{
  Transaction, scheduled, rejected, RetryPlan, SubmitRequest, SubmitResponse, retry_scheduled,
  DeclineCategory, hard_decline, soft_decline,
}
use zenithpay_retry.Domain.Decline.{
  RetryStrategy, classify_decline, is_hard_decline, build_retry_plan,
}
use zenithpay_retry.Domain.Decline.Plan.{
  AllComplete, IsPlanFor, build_retry_plan_lem, classify_decline_lem,
}
use zenithpay_retry.Store.{put}
use zenithpay_retry.Store.Updates.{save_taken, save_free}
use zenithpay_retry.Webhook.{send}
use zenithpay_retry.Store.Index.{IsIndexed}
use zenithpay_retry.Lifecycle.{AllLive, IsRejected, Life}
use zenithpay_retry.Retry.Execute.Effects.{IsSafe, moved-IsSafe}
use zenithpay_retry.Retry.World.{World, now, tick, notify, EngineError, already_submitted}
use zenithpay_retry.Retry.Submit.Requests.{
  IsRequested, transaction_of-IsRequested, schedule_first-IsRequested,
}
use zenithpay_retry.Retry.Submit.{
  request_time, transaction_of, save_error, hard_response, soft_response, save_new, schedule_first,
  submit_hard, submit_soft, submit,
}

module _ {F : Type 0} where
  save_new_taken :
      (tx u : Transaction) (next : World F → World F × Outcome EngineError SubmitResponse)
      (w : World F)
      → lookup tx.id w.store.transactions ≡ some u
      → save_new tx next w ≡ (w, err already_submitted)
  unfolding save_new save_error
  save_new_taken tx u next w e = ground (arith, save_taken tx u w.store e)

  save_new_free :
      (tx : Transaction) (next : World F → World F × Outcome EngineError SubmitResponse)
      (w : World F)
      → lookup tx.id w.store.transactions ≡ none
      → save_new tx next w ≡ next (record w { store = put tx.id tx w.store })
  unfolding save_new
  save_new_free tx next w e = ground (arith, save_free tx w.store e)

module _ {F : Type 0} ⦃f : Float64 F⦄ (strategies : Dict (RetryStrategy F)) where
  -- What a call did to the world `w` and what it returned.
  pub data Submitted (parse_rfc3339 : String → Option Time) (req : SubmitRequest) (w w' : World F)
      (r : Outcome EngineError SubmitResponse) : Type 0 where
    -- The id is taken: nothing is stored or sent.
    duplicate :
        (u : Transaction)
        → lookup req.transaction_id w.store.transactions ≡ some u
        → w'.store ≡ w.store
        → w'.notifier ≡ w.notifier
        → r ≡ err already_submitted
        → Submitted parse_rfc3339 req w w' r
    -- A hard decline is stored as rejected; nothing is sent.
    rejects :
        (tx : Transaction) (resp : SubmitResponse)
        → lookup req.transaction_id w.store.transactions ≡ none
        → (classify_decline strategies req.decline_code).0 ≡ hard_decline
        → IsRequested parse_rfc3339 (now w) req tx
        → tx.status ≡ rejected
        → IsRejected tx
        → w'.store ≡ put req.transaction_id tx w.store
        → w'.notifier ≡ w.notifier
        → r ≡ ok resp
        → resp.retry_eligible ≡ false
        → resp.retry_plan ≡ none
        → Submitted parse_rfc3339 req w w' r
    -- A soft decline is stored with its strategy's plan, and the schedule is announced.
    schedules :
        (tx : Transaction) (resp : SubmitResponse) (s : RetryStrategy F) (p : RetryPlan) (t : Time)
        → lookup req.transaction_id w.store.transactions ≡ none
        → is_hard_decline req.decline_code ≡ false
        → lookup req.decline_code strategies ≡ some s
        → IsPlanFor s req.decline_code req.original_processor (now w) p
        → IsRequested parse_rfc3339 (now w) req tx
        → tx.status ≡ scheduled
        → tx.retry_plan ≡ some p
        → Life scheduled tx
        → w'.store ≡ put req.transaction_id tx w.store
        → w'.notifier ≡ send tx retry_scheduled 0 t w.notifier
        → r ≡ ok resp
        → resp.retry_eligible ≡ true
        → resp.retry_plan ≡ some p
        → Submitted parse_rfc3339 req w w' r

  module _ (parse_rfc3339 : String → Option Time) (req : SubmitRequest) (w : World F) where
    abbrev created : Time
    created = request_time parse_rfc3339 (now w) req.timestamp

    abbrev hard_tx : Transaction
    hard_tx = transaction_of req hard_decline created (now w) rejected

    abbrev soft_tx : Transaction
    soft_tx = transaction_of req soft_decline created (now w) scheduled

    submit_of_hard :
        (classify_decline strategies req.decline_code).0 ≡ hard_decline
        → submit strategies parse_rfc3339 req w
          ≡ submit_hard strategies parse_rfc3339 hard_tx
              (classify_decline strategies req.decline_code).1
              (tick w)
    unfolding submit
    submit_of_hard e = rw (e, submit)

    submit_of_soft :
        (p : RetryPlan)
        → (classify_decline strategies req.decline_code).0 ≡ soft_decline
        → build_retry_plan strategies req.decline_code req.original_processor (now w)
          ≡ done (some p)
        → submit strategies parse_rfc3339 req w
          ≡ submit_soft strategies parse_rfc3339 soft_tx
              (classify_decline strategies req.decline_code).1
              (done (some p))
              (tick w)
    unfolding submit
    submit_of_soft p e b = rw (e, submit, b)

    abbrev Result : Type 0
    Result =
        Submitted parse_rfc3339 req w (submit strategies parse_rfc3339 req w).0
          (submit strategies parse_rfc3339 req w).1

    by_result :
        (x : World F × Outcome EngineError SubmitResponse)
        → submit strategies parse_rfc3339 req w ≡ x
        → Submitted parse_rfc3339 req w x.0 x.1
        → Result
    by_result x e h = subst (λ y. Submitted parse_rfc3339 req w y.0 y.1) (sym e) h

    hard-Submitted : (classify_decline strategies req.decline_code).0 ≡ hard_decline → Result
    unfolding submit_hard transaction_of hard_response
    hard-Submitted e = elim (Option-cases (lookup req.transaction_id w.store.transactions)) [
      | inr (u, taken) ↦
          by_result (tick w, err already_submitted)
            (submit_of_hard e ∙ save_new_taken hard_tx u _ (tick w) taken)
            (duplicate u taken refl refl refl)
      | inl free ↦ by_result _ (submit_of_hard e ∙ save_new_free hard_tx _ (tick w) free) (
          rejects hard_tx _ free e
            (transaction_of-IsRequested parse_rfc3339 req hard_decline (now w) rejected) refl
            (record { hard = refl; unplanned = refl; untried = refl; unscheduled = refl }) refl refl
            refl refl refl)
    ]

    scheduled-Life :
        (s : RetryStrategy F) (p : RetryPlan)
        → IsPlanFor s req.decline_code req.original_processor (now w) p
        → Life scheduled (schedule_first soft_tx p)
    unfolding transaction_of schedule_first
    scheduled-Life s p h = (
      p,
      record { planned = refl; soft = refl; times = h.times; routes = h.routes; follows = tt },
      refl,
      refl,
    )

    soft-Submitted :
        (s : RetryStrategy F) (p : RetryPlan)
        → lookup req.decline_code strategies ≡ some s
        → (classify_decline strategies req.decline_code).0 ≡ soft_decline
        → build_retry_plan strategies req.decline_code req.original_processor (now w)
          ≡ done (some p)
        → IsPlanFor s req.decline_code req.original_processor (now w) p
        → Result
    unfolding submit_soft transaction_of schedule_first soft_response notify
    soft-Submitted s p found e b h =
        elim (Option-cases (lookup req.transaction_id w.store.transactions)) [
          | inr (u, taken) ↦
              by_result (tick w, err already_submitted)
                (submit_of_soft p e b
                  ∙ save_new_taken (schedule_first soft_tx p) u _ (tick w) taken)
                (duplicate u taken refl refl refl)
          | inl free ↦
              by_result _
                (submit_of_soft p e b ∙ save_new_free (schedule_first soft_tx p) _ (tick w) free)
                (schedules (schedule_first soft_tx p) _ s p (now (tick w)) free
                  ((classify_decline_lem strategies req.decline_code).0 e).0 found h
                  (schedule_first-IsRequested parse_rfc3339 req (now w) p) refl refl
                  (scheduled-Life s p h) refl refl refl refl refl)
        ]

  -- With complete strategies, Submit ends in one of three ways, whatever the request: a taken id
  -- changes nothing and is refused; a hard decline is stored as rejected; a soft decline is stored
  -- as scheduled with its strategy's plan, and the schedule is announced.
  pub submit-Submitted :
      (parse_rfc3339 : String → Option Time) (req : SubmitRequest) (w : World F)
      → AllComplete strategies
      → let (w', r) = submit strategies parse_rfc3339 req w in Submitted parse_rfc3339 req w w' r
  submit-Submitted parse req w all = elim (Option-cases (lookup req.decline_code strategies)) [
    | inl e ↦
        hard-Submitted parse req w
          (not_soft λ q. ground (arith, (classify_decline_lem strategies req.decline_code).0 q))
    | inr (s, e) ↦ elim (Bool-cases (is_hard_decline req.decline_code)) [
      | inl hard ↦
          hard-Submitted parse req w
            (not_soft λ q. ground (arith, (classify_decline_lem strategies req.decline_code).0 q))
      | inr soft ↦
          let (p, b, h) =
            build_retry_plan_lem strategies req.decline_code req.original_processor (now w) s e
              (all req.decline_code s e) in
          soft-Submitted parse req w s p e
            ((classify_decline_lem strategies req.decline_code).1 (soft, rw (contains, e))) b h
    ]
  ]
    where
      not_soft : {c : DeclineCategory} → (c ≡ soft_decline → ⊥) → c ≡ hard_decline
      not_soft {c = hard_decline} h = refl
      not_soft {c = soft_decline} h = absurd (h refl)

-- Submit keeps every stored transaction at a point of its life and the pending index exact, and
-- does not panic; from a safe state and with complete strategies.
pub submit-IsSafe :
    {F : Type 0} ⦃f : Float64 F⦄ (strategies : Dict (RetryStrategy F))
    (parse_rfc3339 : String → Option Time) (req : SubmitRequest) (w : World F)
    → AllComplete strategies
    → IsSafe w
    → let (w', r) = submit strategies parse_rfc3339 req w in IsSafe w' × (r ≢ panicked)
submit-IsSafe strategies parse req w all h =
    let (w', r) = submit strategies parse req w in
    safe w' r (submit-Submitted strategies parse req w all)
  where
    safe :
        (w' : World _) (r : Outcome EngineError SubmitResponse)
        → Submitted strategies parse req w w' r
        → IsSafe w' × (r ≢ panicked)
    safe w' r (duplicate u taken s n e) = (
      record { live = subst AllLive (sym s) h.live; indexed = subst IsIndexed (sym s) h.indexed },
      λ p. cc,
    )
    safe w' r (rejects tx resp free c i st x s n e g b) = (
      moved-IsSafe req.transaction_id w w' tx h i.same_id (subst (λ q. Life q tx) (sym st) x) s,
      λ p. cc,
    )
    safe w' r (schedules tx resp str p t free soft found plan i st q x s n e g b) = (
      moved-IsSafe req.transaction_id w w' tx h i.same_id (subst (λ q. Life q tx) (sym st) x) s,
      λ p. cc,
    )
