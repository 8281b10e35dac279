-- ===== src/Examples/Pointers.antt =====
-- A caller that keeps writing to a transaction that it has saved, and gets it back.
use zenithpay_retry.Base.{
  ℕ, ◌<◌, ◌≡◌, refl, String, false, none, some, List, [], ◌∷◌, ◌||◌, ◌==◌, lookup, insert, arith,
}
use zenithpay_retry.Domain.Models.{Transaction}
use zenithpay_retry.Store.Pointers.{
  TransactionCell, transaction_cell, attempts_cell, Memory, store_cell, allocate, copy_transaction,
}
use zenithpay_retry.Store.Pointers.Reading.{Holds, Fresh}
use zenithpay_retry.Store.Pointers.Copying.{copy_transaction-Copies}
use zenithpay_retry.Store.Pointers.Sharing.{
  Shared, OfCallers, Action, works, saved, act_all, allocates, writes, saves, Accesses, no_more,
  and_then, Matches,
}
use zenithpay_retry.Store.Pointers.Isolated.{Accesses-Isolated}
use zenithpay_retry.Examples.Scenario.{waiting_tx}

abbrev nothing : Shared
nothing = record {
  memory = record { next = 0; cells = λ b. none };
  stored = [];
  callers = λ b. false;
}

nothing-Matches : Matches nothing []
unfolding lookup
nothing-Matches = record { allocated = λ b e. absurd (cc); entries = λ id. tt }

-- A rejected transaction, which has no plan.
abbrev plain_tx : Transaction
plain_tx = record waiting_tx { retry_plan = none; next_retry_at = none }

abbrev plain_cell : String → TransactionCell
plain_cell currency = record {
  id = "txn_2";
  amount_cents = plain_tx.amount_cents;
  currency = currency;
  customer_id = plain_tx.customer_id;
  merchant_id = plain_tx.merchant_id;
  original_processor = plain_tx.original_processor;
  decline_code = plain_tx.decline_code;
  decline_category = plain_tx.decline_category;
  status = plain_tx.status;
  retry_plan = none;
  retry_attempts = 0;
  next_retry_at = none;
  created_at = plain_tx.created_at;
  updated_at = plain_tx.updated_at;
  webhook_url = plain_tx.webhook_url;
}

-- The caller has made a slice and a transaction.
abbrev made : Shared
made =
    let (m₁, b₁) = allocate (attempts_cell []) nothing.memory in
    let (m₂, b₂) = allocate (transaction_cell (plain_cell "BRL")) m₁ in
    record { memory = m₂; stored = []; callers = λ x. (nothing.callers x || x == b₁) || x == b₂ }

made-Holds : Holds (OfCallers made) made.memory 1 plain_tx
unfolding allocate
made-Holds = record {
  cell = plain_cell "BRL";
  here = (refl, refl);
  plan = tt;
  attempts = (refl, refl);
  next = tt;
  whole = refl;
}

copied : (m' : Memory) × (c : ℕ) × (copy_transaction 1 made.memory ≡ some (m', c))
unfolding allocate
copied =
    let (m', c, q, grows, new) =
      copy_transaction-Copies (λ b. b < 2) made.memory 1 plain_tx (λ b lt. lt)
        (record {
          cell = plain_cell "BRL";
          here = (refl, omega arith);
          plan = tt;
          attempts = (refl, omega arith);
          next = tt;
          whole = refl;
        }) in
    (m', c, q)

-- It is saved, and then the caller writes to its own.
abbrev kept : Shared
kept = record made { memory = copied.0; stored = ("txn_2", copied.1) ∷ [] }

abbrev overwritten : Shared
overwritten = record kept { memory = store_cell 1 (transaction_cell (plain_cell "XXX")) copied.0 }

abbrev story : List Action
story = works ∷ works ∷ saved plain_tx ∷ works ∷ []

told : Accesses nothing story overwritten
unfolding allocate insert
told = and_then (allocates (attempts_cell []) _ _ refl) (
    and_then (allocates (transaction_cell (plain_cell "BRL")) _ _ refl) (
      and_then (saves 1 copied.1 plain_tx copied.0 made-Holds copied.2)
        (and_then (writes 1 (transaction_cell (plain_cell "XXX")) refl) no_more)))

Accesses-Isolated_example :
    Matches overwritten (act_all story [])
    × ((id : String) (tx : Transaction)
        → lookup id (act_all story []) ≡ some tx
        → (a b : ℕ) × (m' : Memory) × (lookup id overwritten.stored ≡ some a)
          × (copy_transaction a overwritten.memory ≡ some (m', b))
          × Holds (Fresh overwritten.memory.next m') m' b tx)
Accesses-Isolated_example = Accesses-Isolated nothing overwritten [] story nothing-Matches told
