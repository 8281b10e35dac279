-- ===== src/Store/Pointers.antt =====
-- internal/store/memory.go, copyTransaction, on memory with pointers: the values that the store
-- hands out and takes in are copies all the way down. An address is a number; slices and pointers
-- are addresses of cells, and a slice is the whole of its array.
pub mod Reading
pub mod Copying
pub mod Sharing
pub mod Isolated
use zenithpay_retry.Base.{ℕ, suc, String, Option, none, some, List, ℤ, Bool, ◌==◌, if◌then◌else◌}
use zenithpay_retry.Time.{Time}
use zenithpay_retry.Domain.Models.{TransactionStatus, DeclineCategory, RetryAttempt}

-- domain.RetryPlan, with its slices.
pub record PlanCell : Type 0 where
  pub max_attempts : ℕ
  pub strategy : String
  pub plan_code : String  -- DeclineCode
  pub scheduled_times : ℕ
  pub processors : ℕ

-- domain.Transaction, with its pointers and its slice.
pub record TransactionCell : Type 0 where
  pub id : String
  pub amount_cents : ℤ
  pub currency : String
  pub customer_id : String
  pub merchant_id : String
  pub original_processor : String
  pub decline_code : String
  pub decline_category : DeclineCategory
  pub status : TransactionStatus
  pub retry_plan : Option ℕ
  pub retry_attempts : ℕ
  pub next_retry_at : Option ℕ
  pub created_at : Time
  pub updated_at : Time
  pub webhook_url : String

pub data Cell : Type 0 where
  transaction_cell : TransactionCell → Cell
  plan_cell : PlanCell → Cell
  time_cell : Time → Cell
  times_cell : List Time → Cell
  texts_cell : List String → Cell
  attempts_cell : List RetryAttempt → Cell

-- The cells at and above `next` are free.
pub record Memory : Type 0 where
  pub next : ℕ
  pub cells : ℕ → Option Cell

abbrev pub store_cell : ℕ → Cell → Memory → Memory
store_cell a c m = record m { cells = λ b. if b == a then some c else m.cells b }

unfoldable pub allocate : Cell → Memory → Memory × ℕ
allocate c m =
    (record { next = suc m.next; cells = λ b. if b == m.next then some c else m.cells b }, m.next)

-- `make` and `copy` of a slice, or a new variable for what a pointer leads to.
unfoldable pub copy_cell : ℕ → Memory → Option (Memory × ℕ)
unfolding allocate
copy_cell a m = elim (m.cells a) [ none ↦ none | some c ↦ some (allocate c m) ]

unfoldable pub as_plan : Option Cell → Option PlanCell
as_plan (some (plan_cell plan)) = some plan
as_plan _ = none

unfoldable pub as_transaction : Option Cell → Option TransactionCell
as_transaction (some (transaction_cell tx)) = some tx
as_transaction _ = none

-- The two slices of the plan and the plan itself.
unfoldable pub copy_plan : ℕ → Memory → Option (Memory × ℕ)
unfolding copy_cell as_plan
copy_plan a m = elim (as_plan (m.cells a)) [
  | none ↦ none
  | some plan ↦ elim (copy_cell plan.scheduled_times m) [
    | none ↦ none
    | some (m₁, times) ↦ elim (copy_cell plan.processors m₁) [
      | none ↦ none
      | some (m₂, processors) ↦
          let copied = record plan { scheduled_times = times; processors = processors } in
          some (allocate (plan_cell copied) m₂)
    ]
  ]
]

-- `if p != nil { ... }`
unfoldable pub copy_optional :
    (ℕ → Memory → Option (Memory × ℕ)) → Option ℕ → Memory → Option (Memory × Option ℕ)
copy_optional copy none m = some (m, none)
copy_optional copy (some a) m = elim (copy a m) [ none ↦ none | some (m', b) ↦ some (m', some b) ]

-- copyTransaction; `none` is a nil dereference.
unfoldable pub copy_transaction : ℕ → Memory → Option (Memory × ℕ)
unfolding as_transaction copy_plan copy_optional
copy_transaction a m = elim (as_transaction (m.cells a)) [
  | none ↦ none
  | some tx ↦ elim (copy_optional copy_plan tx.retry_plan m) [
    | none ↦ none
    | some (m₁, plan) ↦ elim (copy_cell tx.retry_attempts m₁) [
      | none ↦ none
      | some (m₂, attempts) ↦ elim (copy_optional copy_cell tx.next_retry_at m₂) [
        | none ↦ none
        | some (m₃, next) ↦
            let copied = record tx {
              retry_plan = plan;
              retry_attempts = attempts;
              next_retry_at = next;
            } in
            some (allocate (transaction_cell copied) m₃)
      ]
    ]
  ]
]
