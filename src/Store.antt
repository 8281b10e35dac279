-- ===== src/Store.antt =====
-- internal/store/memory.go. Each method holds the store's lock from its first read to its last
-- write, so that it is one function here; a method that writes returns the new store. The copies
-- that methods take and give are values; copyTransaction is in Pointers.
-- A `range` over a map visits its keys in an order that the runtime chooses: such a method takes
-- the order as an argument.
pub mod Index
pub mod Pending
pub mod Updates
pub mod Listing
pub mod Registry
pub mod Pointers
use zenithpay_retry.Base.{
  ℕ, String, Bool, true, false, not, ◌&&◌, ◌||◌, Option, none, some, List, [], ◌∷◌, Dict, lookup,
  insert, erase, contains, length, sort_slice, Outcome, ok, err, panicked, str_eq, if◌then◌else◌,
}
use zenithpay_retry.Time.{Time, before}
use zenithpay_retry.Domain.Models.{
  Transaction, TransactionStatus, scheduled, retrying, recovered, failed_final, rejected,
  DeclineCategory, hard_decline, soft_decline, status_text,
}

pub record Store : Type 0 where
  pub transactions : Dict Transaction
  pub pending_ids : Dict (Unit {0})

pub data StoreError : Type 0 where
  not_found already_exists : StoreError

-- New
unfoldable pub new_store : Store
new_store = record { transactions = []; pending_ids = [] }

unfoldable pub is_pending_status : TransactionStatus → Bool
is_pending_status scheduled = true
is_pending_status retrying = true
is_pending_status recovered = false
is_pending_status failed_final = false
is_pending_status rejected = false

unfoldable pub update_pending_index : String → TransactionStatus → Store → Store
update_pending_index id status s =
    if is_pending_status status
    then record s { pending_ids = insert id tt s.pending_ids }
    else record s { pending_ids = erase id s.pending_ids }

-- `s.transactions[id] = tx; s.updatePendingIndex(id, tx.Status)`
unfoldable pub put : String → Transaction → Store → Store
unfolding update_pending_index
put id tx s =
    update_pending_index id tx.status (record s { transactions = insert id tx s.transactions })

unfoldable pub save : Transaction → Store → Store
unfolding put
save tx s = put tx.id tx s

-- The second result is the error that the method returns.
unfoldable pub save_if_not_exists : Transaction → Store → Store × Option StoreError
unfolding put
save_if_not_exists tx s = elim (lookup tx.id s.transactions) [
  | some _ ↦ (s, some already_exists)
  | none ↦ (put tx.id tx s, none)
]

-- Why UpdateFunc failed: no such transaction, or the callback's own error.
pub data UpdateError (E : Type 0) : Type 0 where
  missing : UpdateError E
  refused : E → UpdateError E

-- The callback gives the new transaction and what its closure captures, or fails. A failure leaves
-- the store as it was.
module _ {E R : Type 0} where
  unfoldable pub finish_update :
      String → Store → Outcome E (Transaction × R) → Store × Outcome (UpdateError E) R
  unfolding put
  finish_update id s (ok (tx, captured)) = (put id tx s, ok captured)
  finish_update id s (err e) = (s, err (refused e))
  finish_update id s panicked = (s, panicked)

  unfoldable pub update_func :
      String
      → (Transaction → Outcome E (Transaction × R))
      → Store
      → Store × Outcome (UpdateError E) R
  unfolding finish_update
  update_func id fn s = elim (lookup id s.transactions) [
    | none ↦ (s, err missing)
    | some tx ↦ finish_update id s (fn tx)
  ]

-- Get; `none` is ErrNotFound.
unfoldable pub get : String → Store → Option Transaction
get id s = lookup id s.transactions

unfoldable pub exists : String → Store → Bool
exists id s = contains id s.transactions

-- The loop `for id := range ...` that appends the transactions that pass a test.
unfoldable pub visit : (Transaction → Bool) → Dict Transaction → List String → List Transaction
visit keep txs [] = []
visit keep txs (id ∷ ids) =
    let rest = visit keep txs ids in
    elim (lookup id txs) [ none ↦ rest | some tx ↦ if keep tx then tx ∷ rest else rest ]

abbrev pub newer : Transaction → Transaction → Bool
newer t u = before u.created_at t.created_at

unfoldable pub list : String → List String → Store → List Transaction
list status order s =
    sort_slice newer
      (visit (λ tx. str_eq status "" || str_eq (status_text tx.status) status) s.transactions order)

unfoldable pub get_pending_retries : List String → Store → List Transaction
get_pending_retries order s = visit (λ tx. true) s.transactions order

unfoldable pub is_due : Time → Transaction → Bool
is_due now tx = elim tx.next_retry_at [ none ↦ false | some at ↦ not (before now at) ]

unfoldable pub get_due_retries : Time → List String → Store → List Transaction
get_due_retries now order s = visit (is_due now) s.transactions order

abbrev is_soft : DeclineCategory → Bool
is_soft soft_decline = true
is_soft hard_decline = false

unfoldable pub get_all_soft_declines : List String → Store → List Transaction
get_all_soft_declines order s = visit (λ tx. is_soft tx.decline_category) s.transactions order

unfoldable pub get_all : List String → Store → List Transaction
get_all order s = sort_slice newer (visit (λ tx. true) s.transactions order)

unfoldable pub count : Store → ℕ
count s = length s.transactions

unfoldable pub clear : Store → Store
clear s = record s { transactions = []; pending_ids = [] }
