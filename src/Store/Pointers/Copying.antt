-- ===== src/Store/Pointers/Copying.antt =====
-- copyTransaction: the copy reads as the original, and has none of its cells.
use zenithpay_retry.Base.{ℕ, ◌≤◌, ◌<◌, ◌≡◌, refl, ◌∙◌, Option, none, some, arith}
use zenithpay_retry.Time.{Time}
use zenithpay_retry.Domain.Models.{Transaction, RetryPlan}
use zenithpay_retry.Store.Pointers.{
  PlanCell, TransactionCell, Cell, transaction_cell, plan_cell, time_cell, times_cell, texts_cell,
  attempts_cell, Memory, allocate, copy_cell, as_plan, as_transaction, copy_plan, copy_optional,
  copy_transaction,
}
use zenithpay_retry.Store.Pointers.Reading.{
  Region, CellAt, TimeAt, PlanAt, OptionalAt, Holds, Agrees, CellAt-Agrees, optional_plan,
  optional_time, Extends, Fresh, Extends-trans, Fresh-Agrees,
}

-- A copy of one cell.
abbrev Copied : Cell → Memory → Memory → ℕ → Type 0
Copied c m m' b = Extends m m' × CellAt (Fresh m.next m') m' b c

pub allocate-Copied : (c : Cell) (m : Memory) → let (m', b) = allocate c m in Copied c m m' b
unfolding allocate
allocate-Copied c m =
    ((omega arith, λ b lt. ground (arith, lt)), (ground arith, (omega arith, omega arith)))

copy_cell_lem :
    (a : ℕ) (c : Cell) (m : Memory) → m.cells a ≡ some c → copy_cell a m ≡ some (allocate c m)
unfolding copy_cell
copy_cell_lem a c m e = rw (e, copy_cell) refl

copy_plan_lem :
    (a b₁ b₂ : ℕ) (cell : PlanCell) (m m₁ m₂ : Memory)
    → as_plan (m.cells a) ≡ some cell
    → copy_cell cell.scheduled_times m ≡ some (m₁, b₁)
    → copy_cell cell.processors m₁ ≡ some (m₂, b₂)
    → copy_plan a m
      ≡ some (allocate (plan_cell (record cell { scheduled_times = b₁; processors = b₂ })) m₂)
unfolding copy_plan
copy_plan_lem a b₁ b₂ cell m m₁ m₂ e e₁ e₂ = rw (e, copy_plan, e₁, e₂) refl

as_plan_lem :
    (a : ℕ) (cell : PlanCell) (m : Memory)
    → m.cells a ≡ some (plan_cell cell)
    → as_plan (m.cells a) ≡ some cell
unfolding as_plan
as_plan_lem a cell m e = rw e refl

copy_optional-some :
    (copy : ℕ → Memory → Option (Memory × ℕ)) (a b : ℕ) (m m' : Memory)
    → copy a m ≡ some (m', b)
    → copy_optional copy (some a) m ≡ some (m', some b)
unfolding copy_optional
copy_optional-some copy a b m m' e = rw (copy_optional, e) refl

copy_transaction_lem :
    (a : ℕ) (cell : TransactionCell) (m m₁ m₂ m₃ : Memory) (plan next : Option ℕ) (attempts : ℕ)
    → as_transaction (m.cells a) ≡ some cell
    → copy_optional copy_plan cell.retry_plan m ≡ some (m₁, plan)
    → copy_cell cell.retry_attempts m₁ ≡ some (m₂, attempts)
    → copy_optional copy_cell cell.next_retry_at m₂ ≡ some (m₃, next)
    → copy_transaction a m
      ≡ some (
          allocate
            (transaction_cell
              (record cell { retry_plan = plan; retry_attempts = attempts; next_retry_at = next }))
            m₃)
unfolding copy_transaction
copy_transaction_lem a cell m m₁ m₂ m₃ plan next attempts e e₁ e₂ e₃ =
    rw (e, copy_transaction, e₁, e₂, e₃) refl

as_transaction_lem :
    (a : ℕ) (cell : TransactionCell) (m : Memory)
    → m.cells a ≡ some (transaction_cell cell)
    → as_transaction (m.cells a) ≡ some cell
unfolding as_transaction
as_transaction_lem a cell m e = rw e refl

Extends-refl : (m : Memory) → Extends m m
Extends-refl m = (omega arith, λ b lt. refl)

below-Agrees :
    (R : Region) (m m' : Memory) → Extends m m' → ((b : ℕ) → R b → b < m.next) → Agrees R R m m'
below-Agrees R m m' (grows, same) below b r = (r, same b (below b r))

module _ (R : Region) (m : Memory) (below : (b : ℕ) → R b → b < m.next) where
  -- What a copy gives: an object that reads as `x`, of fresh cells alone.
  abbrev Copies :
      {A : Type 0} → (Region → Memory → ℕ → A → Type 0) → Option (Memory × ℕ) → A → Type 0
  Copies At r x =
      (m' : Memory) × (b : ℕ) × (r ≡ some (m', b)) × Extends m m' × At (Fresh m.next m') m' b x

  abbrev OptionalCopies :
      {A : Type 0}
      → (Region → Memory → ℕ → A → Type 0)
      → Option (Memory × Option ℕ)
      → Option A
      → Type 0
  OptionalCopies At r x =
      (m' : Memory) × (b : Option ℕ) × (r ≡ some (m', b))
      × Extends m m'
      × OptionalAt At (Fresh m.next m') m' b x

  copy_plan-Copies : (a : ℕ) (p : RetryPlan) → PlanAt R m a p → Copies PlanAt (copy_plan a m) p
  copy_plan-Copies a p h =
      let times = h.cell.scheduled_times in
      let processors = h.cell.processors in
      let (m₁, b₁) = allocate (times_cell p.scheduled_times) m in
      let (e₁, c₁) = allocate-Copied (times_cell p.scheduled_times) m in
      let (m₂, b₂) = allocate (texts_cell p.processors) m₁ in
      let (e₂, c₂) = allocate-Copied (texts_cell p.processors) m₁ in
      let cell = record h.cell { scheduled_times = b₁; processors = b₂ } in
      let (m₃, b₃) = allocate (plan_cell cell) m₂ in
      let (e₃, c₃) = allocate-Copied (plan_cell cell) m₂ in
      let there : m₁.cells processors ≡ some (texts_cell p.processors) =
        e₁.1 processors (below processors h.processors.1) ∙ h.processors.0 in
      let e₁₃ : Extends m₁ m₃ = Extends-trans e₂ e₃ in
      let low : m.next ≤ m₂.next = omega (arith, e₁.0, e₂.0) in
      (
        m₃,
        b₃,
        copy_plan_lem a b₁ b₂ h.cell m m₁ m₂ (as_plan_lem a h.cell m h.here.0)
            (copy_cell_lem times (times_cell p.scheduled_times) m h.times.0)
            (copy_cell_lem processors (texts_cell p.processors) m₁ there),
        Extends-trans e₁ e₁₃,
        record {
          cell = cell;
          here =
              CellAt-Agrees (Fresh m₂.next m₃) (Fresh m.next m₃) m₃ m₃
                (Fresh-Agrees low (Extends-refl m₃)) c₃;
          times =
              CellAt-Agrees (Fresh m.next m₁) (Fresh m.next m₃) m₁ m₃
                (Fresh-Agrees (omega arith) e₁₃) c₁;
          processors =
              CellAt-Agrees (Fresh m₁.next m₂) (Fresh m.next m₃) m₂ m₃ (Fresh-Agrees e₁.0 e₃) c₂;
          whole = h.whole;
        },
      )

  copy_optional_plan :
      (a : Option ℕ) (p : Option RetryPlan)
      → OptionalAt PlanAt R m a p
      → OptionalCopies PlanAt (copy_optional copy_plan a m) p
  unfolding copy_optional
  copy_optional_plan none none h = (m, none, refl, Extends-refl m, tt)
  copy_optional_plan (some a) (some p) h =
      let (m', b, e, x, at) = copy_plan-Copies a p h in
      (m', some b, copy_optional-some copy_plan a b m m' e, x, at)
  copy_optional_plan none (some p) h = absurd h
  copy_optional_plan (some a) none h = absurd h

  copy_optional_time :
      (a : Option ℕ) (t : Option Time)
      → OptionalAt TimeAt R m a t
      → OptionalCopies TimeAt (copy_optional copy_cell a m) t
  unfolding copy_optional
  copy_optional_time none none h = (m, none, refl, Extends-refl m, tt)
  copy_optional_time (some a) (some t) h =
      let (m', b) = allocate (time_cell t) m in
      let (x, at) = allocate-Copied (time_cell t) m in
      (
        m',
        some b,
        copy_optional-some copy_cell a b m m' (copy_cell_lem a (time_cell t) m h.0),
        x,
        at,
      )
  copy_optional_time none (some t) h = absurd h
  copy_optional_time (some a) none h = absurd h

-- TODO
pub copy_transaction-Copies :
    (R : Region) (m : Memory) (a : ℕ) (tx : Transaction)
    → ((b : ℕ) → R b → b < m.next)
    → Holds R m a tx
    → (m' : Memory) × (c : ℕ) × (copy_transaction a m ≡ some (m', c))
      × Extends m m'
      × Holds (Fresh m.next m') m' c tx
copy_transaction-Copies R m a tx below h =
    let (m₁, plan, q₁, e₁, p₁) =
      copy_optional_plan R m below h.cell.retry_plan tx.retry_plan h.plan in
    let same₁ = below-Agrees R m m₁ e₁ below in
    let (there, r) = CellAt-Agrees R R m m₁ same₁ h.attempts in
    let xs = attempts_cell tx.retry_attempts in
    let (m₂, attempts) = allocate xs m₁ in
    let (e₂, c₂) = allocate-Copied xs m₁ in
    let e₁₂ : Extends m m₂ = Extends-trans e₁ e₂ in
    let same₂ = below-Agrees R m m₂ e₁₂ below in
    let (m₃, next, q₃, e₃, t₃) =
      copy_optional_time R m₂ (λ b r. omega (arith, below b r, e₁₂.0)) h.cell.next_retry_at
        tx.next_retry_at
        (optional_time R R m m₂ same₂ h.cell.next_retry_at tx.next_retry_at h.next) in
    let cell = record h.cell {
      retry_plan = plan;
      retry_attempts = attempts;
      next_retry_at = next;
    } in
    let (m₄, c) = allocate (transaction_cell cell) m₃ in
    let (e₄, c₄) = allocate-Copied (transaction_cell cell) m₃ in
    let e₃₄ : Extends m₂ m₄ = Extends-trans e₃ e₄ in
    let e₂₄ : Extends m₁ m₄ = Extends-trans e₂ e₃₄ in
    (
      m₄,
      c,
      copy_transaction_lem a h.cell m m₁ m₂ m₃ plan next attempts
          (as_transaction_lem a h.cell m h.here.0) q₁
          (copy_cell_lem h.cell.retry_attempts xs m₁ there) q₃,
      Extends-trans e₁ e₂₄,
      record {
        cell = cell;
        here =
            CellAt-Agrees (Fresh m₃.next m₄) (Fresh m.next m₄) m₄ m₄
              (Fresh-Agrees (omega (arith, e₁₂.0, e₃.0)) (Extends-refl m₄)) c₄;
        plan =
            optional_plan (Fresh m.next m₁) (Fresh m.next m₄) m₁ m₄ (Fresh-Agrees (omega arith) e₂₄)
              plan tx.retry_plan p₁;
        attempts =
            CellAt-Agrees (Fresh m₁.next m₂) (Fresh m.next m₄) m₂ m₄ (Fresh-Agrees e₁.0 e₃₄) c₂;
        next =
            optional_time (Fresh m₂.next m₃) (Fresh m.next m₄) m₃ m₄ (Fresh-Agrees e₁₂.0 e₄) next
              tx.next_retry_at t₃;
        whole = h.whole;
      },
    )
