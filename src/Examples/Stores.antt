-- ===== src/Examples/Stores.antt =====
-- The store and the event log.
use zenithpay_retry.Base.{◌≡◌, ◌&&◌, List, [], ◌∷◌, pos}
use zenithpay_retry.Float.{Micros, micros_float}
use zenithpay_retry.Domain.Models.{failed_final}
use zenithpay_retry.Store.{
  is_pending_status, is_due, save_if_not_exists, get_pending_retries, get_due_retries, new_store,
}
use zenithpay_retry.Store.Index.{IsIndexed, Write, saves_new, saves, writes, writes-IsIndexed}
use zenithpay_retry.Store.Registry.{
  Command, gets, updates, saves_new as enters, performed, all_specified, view, performed-refines,
}
use zenithpay_retry.Retry.World.{EngineError}
use zenithpay_retry.Store.Pending.{
  IsSelection, get_pending_retries-IsSelection, get_due_retries-IsSelection,
}
use zenithpay_retry.Store.Updates.{Saved, save_if_not_exists-Saved}
use zenithpay_retry.Retry.Execute.{mark_exhausted}
use zenithpay_retry.Analytics.{overview}
use zenithpay_retry.Analytics.Consistent.{IsConsistent, overview-IsConsistent}
use zenithpay_retry.Examples.Scenario.{
  waiting-IsSafe, waiting_tx, waiting_store, waiting_store-IsIndexed, waiting_order,
}

abbrev history : List Write
history = saves_new waiting_tx ∷ saves (record waiting_tx { status = failed_final }) ∷ []

writes-IsIndexed_example : IsIndexed (writes new_store history)
writes-IsIndexed_example = writes-IsIndexed history

get_pending_retries-IsSelection_example :
    IsSelection
      (λ tx. is_pending_status tx.status)
      waiting_store
      (get_pending_retries ("txn_2" ∷ []) waiting_store)
get_pending_retries-IsSelection_example =
    get_pending_retries-IsSelection waiting_store ("txn_2" ∷ []) waiting_store-IsIndexed
      waiting_order

get_due_retries-IsSelection_example :
    IsSelection
      (λ tx. is_pending_status tx.status && is_due (pos 7) tx)
      waiting_store
      (get_due_retries (pos 7) ("txn_2" ∷ []) waiting_store)
get_due_retries-IsSelection_example =
    get_due_retries-IsSelection waiting_store (pos 7) ("txn_2" ∷ []) waiting_store-IsIndexed
      waiting_order

save_if_not_exists-Saved_example :
    Saved waiting_tx waiting_store (save_if_not_exists waiting_tx waiting_store)
save_if_not_exists-Saved_example = save_if_not_exists-Saved waiting_tx waiting_store

overview-IsConsistent_example :
    let c = (overview {F = Micros} ("txn_2" ∷ []) waiting_store).counts in
    IsConsistent c.total_transactions c
overview-IsConsistent_example =
    overview-IsConsistent Micros waiting_store ("txn_2" ∷ []) waiting-IsSafe.live

abbrev calls : List (Command EngineError (Unit {0}))
calls =
    enters waiting_tx
    ∷ updates "txn_2" (mark_exhausted (pos 9))
    ∷ updates "txn_9" (mark_exhausted (pos 9))
    ∷ gets "txn_2"
    ∷ []

performed-refines_example :
    let (s', answers) = performed calls new_store in
    let (m, expected) = all_specified calls (view new_store) in (view s' ≡ m) × (answers ≡ expected)
performed-refines_example = performed-refines calls new_store
