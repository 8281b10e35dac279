-- ===== src/Domain/Models.antt =====
-- internal/domain/models.go. Enumerations that Go spells as strings are data types here, with
-- their texts; pointers are options, since every transaction outside the store is a private copy.
use zenithpay_retry.Base.{ℕ, String, Bool, Option, List, ℤ}
use zenithpay_retry.Time.{Time}

pub data DeclineCategory : Type 0 where
  hard_decline soft_decline : DeclineCategory

pub data TransactionStatus : Type 0 where
  scheduled retrying recovered failed_final rejected : TransactionStatus

pub data EventType : Type 0 where
  retry_scheduled retry_succeeded retry_failed retry_exhausted : EventType

-- string(status)
unfoldable pub status_text : TransactionStatus → String
status_text scheduled = "scheduled"
status_text retrying = "retrying"
status_text recovered = "recovered"
status_text failed_final = "failed_final"
status_text rejected = "rejected"

pub record RetryPlan : Type 0 where
  pub max_attempts : ℕ
  pub strategy : String
  pub plan_code : String  -- DeclineCode
  pub scheduled_times : List Time
  pub processors : List String

pub record RetryAttempt : Type 0 where
  pub attempt_number : ℕ
  pub processor : String
  pub scheduled_at : Time
  pub executed_at : Time
  pub success : Bool
  pub response_code : String
  pub response_msg : String

pub record Transaction : Type 0 where
  pub id : String
  pub amount_cents : ℤ
  pub currency : String
  pub customer_id : String
  pub merchant_id : String
  pub original_processor : String
  pub decline_code : String
  pub decline_category : DeclineCategory
  pub status : TransactionStatus
  pub retry_plan : Option RetryPlan
  pub retry_attempts : List RetryAttempt
  pub next_retry_at : Option Time
  pub created_at : Time
  pub updated_at : Time
  pub webhook_url : String

pub record SubmitRequest : Type 0 where
  pub transaction_id : String
  pub amount_cents : ℤ
  pub currency : String
  pub customer_id : String
  pub merchant_id : String
  pub original_processor : String
  pub decline_code : String
  pub timestamp : String
  pub webhook_url : String

pub record SubmitResponse : Type 0 where
  pub transaction_id : String
  pub decline_category : DeclineCategory
  pub status : TransactionStatus
  pub retry_eligible : Bool
  pub retry_plan : Option RetryPlan
  pub message : String

pub record WebhookEvent : Type 0 where
  pub event_type : EventType
  pub transaction_id : String
  pub status : TransactionStatus
  pub attempt_number : ℕ
  pub timestamp : Time
