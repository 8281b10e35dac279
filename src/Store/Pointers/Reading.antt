-- ===== src/Store/Pointers/Reading.antt =====
-- What can be read in memory, and what stays the same when other cells are written.
use zenithpay_retry.Base.{
  ℕ, suc, ◌≤◌, ◌<◌, ◌≡◌, refl, sym, ap, ◌∙◌, true, false, Option, none, some, List, ◌==◌, arith,
  if◌then◌else◌,
}
use zenithpay_retry.Time.{Time}
use zenithpay_retry.Domain.Models.{Transaction, RetryPlan, RetryAttempt}
use zenithpay_retry.Store.Pointers.{
  PlanCell, TransactionCell, Cell, transaction_cell, plan_cell, time_cell, times_cell, texts_cell,
  attempts_cell, Memory,
}

-- The addresses that may be used.
abbrev pub Region : Type 1
Region = ℕ → Type 0

-- What a cell says with what its pointers lead to.
abbrev pub plan_value : PlanCell → List Time → List zenithpay_retry.Base.String → RetryPlan
plan_value cell times processors = record {
  max_attempts = cell.max_attempts;
  strategy = cell.strategy;
  plan_code = cell.plan_code;
  scheduled_times = times;
  processors = processors;
}

abbrev pub transaction_value :
    TransactionCell → Option RetryPlan → List RetryAttempt → Option Time → Transaction
transaction_value cell plan attempts next = record {
  id = cell.id;
  amount_cents = cell.amount_cents;
  currency = cell.currency;
  customer_id = cell.customer_id;
  merchant_id = cell.merchant_id;
  original_processor = cell.original_processor;
  decline_code = cell.decline_code;
  decline_category = cell.decline_category;
  status = cell.status;
  retry_plan = plan;
  retry_attempts = attempts;
  next_retry_at = next;
  created_at = cell.created_at;
  updated_at = cell.updated_at;
  webhook_url = cell.webhook_url;
}

abbrev pub CellAt : Region → Memory → ℕ → Cell → Type 0
CellAt R m a c = (m.cells a ≡ some c) × R a

abbrev pub TimeAt : Region → Memory → ℕ → Time → Type 0
TimeAt R m a t = CellAt R m a (time_cell t)

pub record PlanAt (R : Region) (m : Memory) (a : ℕ) (p : RetryPlan) : Type 0 where
  pub cell : PlanCell
  pub here : CellAt R m a (plan_cell cell)
  pub times : CellAt R m cell.scheduled_times (times_cell p.scheduled_times)
  pub processors : CellAt R m cell.processors (texts_cell p.processors)
  pub whole : plan_value cell p.scheduled_times p.processors ≡ p

abbrev pub OptionalAt :
    {A : Type 0}
    → (Region → Memory → ℕ → A → Type 0)
    → Region
    → Memory
    → Option ℕ
    → Option A
    → Type 0
OptionalAt At R m none none = Unit
OptionalAt At R m (some a) (some x) = At R m a x
OptionalAt At R m none (some x) = ⊥
OptionalAt At R m (some a) none = ⊥

-- The transaction can be read at the address, all of it within the region.
pub record Holds (R : Region) (m : Memory) (a : ℕ) (tx : Transaction) : Type 0 where
  pub cell : TransactionCell
  pub here : CellAt R m a (transaction_cell cell)
  pub plan : OptionalAt PlanAt R m cell.retry_plan tx.retry_plan
  pub attempts : CellAt R m cell.retry_attempts (attempts_cell tx.retry_attempts)
  pub next : OptionalAt TimeAt R m cell.next_retry_at tx.next_retry_at
  pub whole : transaction_value cell tx.retry_plan tx.retry_attempts tx.next_retry_at ≡ tx

-- One memory has in the region what another has.
abbrev pub Agrees : Region → Region → Memory → Memory → Type 0
Agrees R R' m m' = (b : ℕ) → R b → R' b × (m'.cells b ≡ m.cells b)

module _ (R R' : Region) (m m' : Memory) (same : Agrees R R' m m') where
  pub CellAt-Agrees : {a : ℕ} {c : Cell} → CellAt R m a c → CellAt R' m' a c
  CellAt-Agrees {a} (found, r) = ((same a r).1 ∙ found, (same a r).0)

  pub PlanAt-Agrees : {a : ℕ} {p : RetryPlan} → PlanAt R m a p → PlanAt R' m' a p
  PlanAt-Agrees h = record {
    cell = h.cell;
    here = CellAt-Agrees h.here;
    times = CellAt-Agrees h.times;
    processors = CellAt-Agrees h.processors;
    whole = h.whole;
  }

  pub optional_plan :
      (a : Option ℕ) (p : Option RetryPlan)
      → OptionalAt PlanAt R m a p
      → OptionalAt PlanAt R' m' a p
  optional_plan none none h = tt
  optional_plan (some a) (some p) h = PlanAt-Agrees h
  optional_plan none (some p) h = h
  optional_plan (some a) none h = h

  pub optional_time :
      (a : Option ℕ) (t : Option Time) → OptionalAt TimeAt R m a t → OptionalAt TimeAt R' m' a t
  optional_time none none h = tt
  optional_time (some a) (some t) h = CellAt-Agrees h
  optional_time none (some t) h = h
  optional_time (some a) none h = h

  -- What is not written reads as before.
  pub Holds-Agrees : {a : ℕ} {tx : Transaction} → Holds R m a tx → Holds R' m' a tx
  Holds-Agrees {tx} h = record {
    cell = h.cell;
    here = CellAt-Agrees h.here;
    plan = optional_plan h.cell.retry_plan tx.retry_plan h.plan;
    attempts = CellAt-Agrees h.attempts;
    next = optional_time h.cell.next_retry_at tx.next_retry_at h.next;
    whole = h.whole;
  }

-- The allocated cells stay as they are.
abbrev pub Extends : Memory → Memory → Type 0
Extends m m' = (m.next ≤ m'.next) × ((b : ℕ) → b < m.next → m'.cells b ≡ m.cells b)

-- The addresses from `lo` on that are allocated.
abbrev pub Fresh : ℕ → Memory → Region
Fresh lo m b = (lo ≤ b) × (b < m.next)

pub Extends-trans : {m m' m'' : Memory} → Extends m m' → Extends m' m'' → Extends m m''
Extends-trans (le, same) (le', same') =
    (omega (arith, le, le'), λ b lt. same' b (omega (arith, lt, le)) ∙ same b lt)

pub Fresh-Agrees :
    {lo lo' : ℕ} {m m' : Memory} → lo' ≤ lo → Extends m m' → Agrees (Fresh lo m) (Fresh lo' m') m m'
Fresh-Agrees le (grows, same) b (low, high) =
    ((omega (arith, le, low), omega (arith, high, grows)), same b high)
