-- ===== src/Retry/Submit/Requests.antt =====
-- The transaction that Submit builds, field by field.
use zenithpay_retry.Base.{◌≡◌, ◌≢◌, refl, String, Option, none, some, ◌⊎◌, inl, inr, eq_iff, arith}
use zenithpay_retry.Time.{Time}
use zenithpay_retry.Domain.Models.{
  Transaction, TransactionStatus, scheduled, RetryPlan, SubmitRequest, DeclineCategory,
  soft_decline,
}
use zenithpay_retry.Retry.Submit.{request_time, transaction_of, schedule_first}

-- The transaction carries what the request says. It is dated by the request's timestamp, and by the
-- time of the submission if there is none or it does not parse.
pub record IsRequested (parse_rfc3339 : String → Option Time) (submitted : Time)
    (req : SubmitRequest) (tx : Transaction) : Type 0 where
  pub same_id : tx.id ≡ req.transaction_id
  pub same_amount : tx.amount_cents ≡ req.amount_cents
  pub same_currency : tx.currency ≡ req.currency
  pub same_customer : tx.customer_id ≡ req.customer_id
  pub same_merchant : tx.merchant_id ≡ req.merchant_id
  pub same_processor : tx.original_processor ≡ req.original_processor
  pub same_code : tx.decline_code ≡ req.decline_code
  pub same_url : tx.webhook_url ≡ req.webhook_url
  pub dated :
      (t : Time) → req.timestamp ≢ "" → parse_rfc3339 req.timestamp ≡ some t → tx.created_at ≡ t
  pub undated :
      (req.timestamp ≡ "") ⊎ (parse_rfc3339 req.timestamp ≡ none) → tx.created_at ≡ submitted
  pub updated : tx.updated_at ≡ submitted

module _ (parse_rfc3339 : String → Option Time) (submitted : Time) (timestamp : String) where
  request_time-parsed :
      (t : Time)
      → timestamp ≢ ""
      → parse_rfc3339 timestamp ≡ some t
      → request_time parse_rfc3339 submitted timestamp ≡ t
  unfolding request_time
  request_time-parsed t full e = ground (arith, eq_iff timestamp "", full, e)

  request_time-submitted :
      (timestamp ≡ "") ⊎ (parse_rfc3339 timestamp ≡ none)
      → request_time parse_rfc3339 submitted timestamp ≡ submitted
  unfolding request_time
  request_time-submitted (inl e) = ground (arith, eq_iff timestamp "", e)
  request_time-submitted (inr e) = ground (arith, e)

pub transaction_of-IsRequested :
    (parse_rfc3339 : String → Option Time) (req : SubmitRequest) (category : DeclineCategory)
    (submitted : Time) (status : TransactionStatus)
    → IsRequested parse_rfc3339 submitted req (
        transaction_of req category
          (request_time parse_rfc3339 submitted req.timestamp)
          submitted
          status)
unfolding transaction_of
transaction_of-IsRequested parse_rfc3339 req category submitted status = record {
  same_id = refl;
  same_amount = refl;
  same_currency = refl;
  same_customer = refl;
  same_merchant = refl;
  same_processor = refl;
  same_code = refl;
  same_url = refl;
  dated = request_time-parsed parse_rfc3339 submitted req.timestamp;
  undated = request_time-submitted parse_rfc3339 submitted req.timestamp;
  updated = refl;
}

pub schedule_first-IsRequested :
    (parse_rfc3339 : String → Option Time) (req : SubmitRequest) (submitted : Time) (p : RetryPlan)
    → IsRequested parse_rfc3339 submitted req (
        schedule_first
          (transaction_of req soft_decline
            (request_time parse_rfc3339 submitted req.timestamp)
            submitted
            scheduled)
          p)
unfolding transaction_of schedule_first
schedule_first-IsRequested parse_rfc3339 req submitted p = record {
  same_id = refl;
  same_amount = refl;
  same_currency = refl;
  same_customer = refl;
  same_merchant = refl;
  same_processor = refl;
  same_code = refl;
  same_url = refl;
  dated = request_time-parsed parse_rfc3339 submitted req.timestamp;
  undated = request_time-submitted parse_rfc3339 submitted req.timestamp;
  updated = refl;
}
