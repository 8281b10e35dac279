-- ===== src/Handler/Submits.antt =====
-- POST /api/transactions, and the read of what it stored.
use Prim.Native.String.{◌++◌}
use zenithpay_retry.Base.{
  ◌≡◌, ◌≢◌, ◌↔◌, refl, sym, ap, ◌∙◌, ◌⊎◌, inl, inr, ℕ, String, Option, none, some, pos, ◌<ℤ◌, Dict,
  lookup, Outcome, eq_iff, Option-cases, Sum-cases, arith,
}
use zenithpay_retry.Float.{Float64}
use zenithpay_retry.Time.{Time}
use zenithpay_retry.Domain.Models.{Transaction, SubmitRequest, SubmitResponse, scheduled, rejected}
use zenithpay_retry.Domain.Decline.{RetryStrategy}
use zenithpay_retry.Domain.Decline.Plan.{AllComplete}
use zenithpay_retry.Store.{Store, put, get, is_pending_status}
use zenithpay_retry.Store.Index.{lookup-put}
use zenithpay_retry.Webhook.{get_events_by_transaction}
use zenithpay_retry.Retry.World.{World, now, EngineError, already_submitted}
use zenithpay_retry.Retry.Submit.{submit}
use zenithpay_retry.Retry.Submit.Requests.{IsRequested}
use zenithpay_retry.Retry.Submit.Behaviour.{
  Submitted, duplicate, rejects, schedules, submit-Submitted,
}
use zenithpay_retry.Handler.{
  error_text, engine_failure, submit_response, Reply, reply, max_request_body, missing_field,
  submit_reply, handle_submit, handle_get, details,
}

-- What a request must carry.
pub record IsComplete (req : SubmitRequest) : Type 0 where
  pub has_id : req.transaction_id ≢ ""
  pub has_code : req.decline_code ≢ ""
  pub has_amount : pos 0 <ℤ req.amount_cents
  pub has_currency : req.currency ≢ ""

pub missing_field-IsComplete : (req : SubmitRequest) → (missing_field req ≡ none) ↔ IsComplete req
unfolding missing_field
missing_field-IsComplete req = (
  λ e. record {
    has_id = λ q. ground (arith, eq_iff req.transaction_id "");
    has_code = λ q. ground (arith, eq_iff req.decline_code "");
    has_amount = ground arith;
    has_currency = λ q. ground (arith, eq_iff req.currency "");
  },
  λ h. ground (
    arith,
    eq_iff req.transaction_id "",
    eq_iff req.decline_code "",
    eq_iff req.currency "",
    h.has_id,
    h.has_code,
    h.has_amount,
    h.has_currency,
  ),
)

found_by_get :
    {F : Type 0} (id : String) (tx : Transaction) (w : World F)
    → id ≢ ""
    → tx.id ≡ id
    → lookup id w.store.transactions ≡ some tx
    → handle_get id w ≡ reply 200 (details tx (get_events_by_transaction id w.notifier))
unfolding handle_get get
found_by_get id tx w full same e = ground (arith, eq_iff id "")

lookup-put-same :
    (id : String) (tx : Transaction) (s : Store) → lookup id (put id tx s).transactions ≡ some tx
lookup-put-same id tx s = ground (arith, lookup-put id id tx s, eq_iff id id)

module _ {F : Type 0} (parse_rfc3339 : String → Option Time) (decoded : String ⊎ SubmitRequest)
    (w w' : World F) where
  -- How the endpoint answers, by what the body decodes to, and what it does to the world.
  pub data Answered (r : Reply F) : Type 0 where
    unreadable :
        (message : String)
        → decoded ≡ inl message
        → w' ≡ w
        → r ≡ reply 400 (error_text ("invalid request body: " ++ message))
        → Answered r
    incomplete :
        (req : SubmitRequest) (message : String)
        → decoded ≡ inr req
        → ¬ IsComplete req
        → w' ≡ w
        → r ≡ reply 400 (error_text message)
        → Answered r
    taken :
        (req : SubmitRequest) (u : Transaction)
        → decoded ≡ inr req
        → IsComplete req
        → lookup req.transaction_id w.store.transactions ≡ some u
        → w'.store ≡ w.store
        → w'.notifier ≡ w.notifier
        → r ≡ reply 409 (engine_failure already_submitted)
        → Answered r
    created :
        (req : SubmitRequest) (tx : Transaction) (resp : SubmitResponse)
        → decoded ≡ inr req
        → IsComplete req
        → lookup req.transaction_id w.store.transactions ≡ none
        → IsRequested parse_rfc3339 (now w) req tx
        → (tx.status ≡ scheduled) ⊎ (tx.status ≡ rejected)
        → w'.store ≡ put req.transaction_id tx w.store
        → r ≡ reply 201 (submit_response resp)
        → resp.retry_eligible ≡ is_pending_status tx.status
        → resp.retry_plan ≡ tx.retry_plan
        → Answered r

module _ {F : Type 0} ⦃f : Float64 F⦄ (strategies : Dict (RetryStrategy F))
    (decode : ℕ → String → String ⊎ SubmitRequest) (parse_rfc3339 : String → Option Time)
    (body : String) (w : World F) where
  answered :
      (req : SubmitRequest) (w' : World F) (r : Outcome EngineError SubmitResponse)
      → IsComplete req
      → Submitted strategies parse_rfc3339 req w w' r
      → let (v, a) = submit_reply (w', r) in Answered parse_rfc3339 (inr req) w v a
  unfolding submit_reply is_pending_status
  answered req w' r c (duplicate u found s n e) =
      rw (e, submit_reply) (taken req u refl c found s n refl)
  answered req w' r c (rejects tx resp free hard asked st x s n e g b) =
      rw (e, submit_reply)
        (created req tx resp refl c free asked (inr st) s refl (g ∙ sym (ap is_pending_status st))
          (b ∙ sym x.unplanned))
  answered req w' r c (schedules tx resp str p t free soft found plan asked st q x s n e g b) =
      rw (e, submit_reply)
        (created req tx resp refl c free asked (inl st) s refl (g ∙ sym (ap is_pending_status st))
          (b ∙ sym q))

  -- POST /api/transactions answers 400 to a body that does not decode or lacks an id, a decline
  -- code, a positive amount or a currency, and 409 to a taken id, each without a change; any other
  -- request is stored as it was sent, dated by its timestamp if that parses and by the time of the
  -- call otherwise, scheduled or rejected, and answered 201; with complete strategies.
  pub handle_submit-Answered :
      AllComplete strategies
      → let (w', r) = handle_submit strategies decode parse_rfc3339 body w in
        Answered parse_rfc3339 (decode max_request_body body) w w' r
  unfolding handle_submit
  handle_submit-Answered all = elim (Sum-cases (decode max_request_body body)) [
    | inl (message, e) ↦ rw (e, handle_submit) (unreadable message refl refl refl)
    | inr (req, e) ↦ elim (Option-cases (missing_field req)) [
      | inr (message, m) ↦
          rw (e, handle_submit, m)
            (incomplete req message refl (λ c. ground (arith, (missing_field-IsComplete req).1 c))
              refl refl)
      | inl m ↦
          let c = (missing_field-IsComplete req).0 m in
          let (w', r) = submit strategies parse_rfc3339 req w in
          let x = answered req w' r c (submit-Submitted strategies parse_rfc3339 req w all) in
          rw (e, handle_submit, m) x
    ]
  ]

  -- A request that the endpoint answers with 201 is then found under its id by GET
  -- /api/transactions/{id}, which answers 200 with a transaction that carries what the request
  -- says, dated by its timestamp if that parses and by the time of the submission otherwise, and
  -- with the events logged for that id; with complete strategies.
  pub handle_get-handle_submit :
      (resp : SubmitResponse)
      → AllComplete strategies
      → let (w', r) = handle_submit strategies decode parse_rfc3339 body w in
        r ≡ reply 201 (submit_response resp)
        → (req : SubmitRequest) × (tx : Transaction) × (decode max_request_body body ≡ inr req)
          × IsRequested parse_rfc3339 (now w) req tx
          × (resp.retry_plan ≡ tx.retry_plan)
          × (handle_get req.transaction_id w'
              ≡ reply 200 (details tx (get_events_by_transaction req.transaction_id w'.notifier)))
  handle_get-handle_submit resp all e = found (handle_submit-Answered all)
    where
      found :
          Answered parse_rfc3339
            (decode max_request_body body)
            w
            (handle_submit strategies decode parse_rfc3339 body w).0
            (handle_submit strategies decode parse_rfc3339 body w).1
          → (req : SubmitRequest) × (tx : Transaction) × (decode max_request_body body ≡ inr req)
            × IsRequested parse_rfc3339 (now w) req tx
            × (resp.retry_plan ≡ tx.retry_plan)
            × (let w' = (handle_submit strategies decode parse_rfc3339 body w).0 in
                handle_get req.transaction_id w'
                ≡ reply 200 (details tx (get_events_by_transaction req.transaction_id w'.notifier)))
      found (unreadable m d s r) = absurd (cc)
      found (incomplete req m d c s r) = absurd (cc)
      found (taken req u d c t s n r) = absurd (cc)
      found (created req tx resp' d c t asked st s r g b) =
          let same : resp' ≡ resp = cc in
          (
            req,
            tx,
            d,
            asked,
            ap (λ x. x.retry_plan) (sym same) ∙ b,
            found_by_get req.transaction_id tx _ c.has_id asked.same_id (
                ap (λ x. lookup req.transaction_id x.transactions) s
                ∙ lookup-put-same req.transaction_id tx w.store),
          )
