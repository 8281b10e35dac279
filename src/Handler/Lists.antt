-- ===== src/Handler/Lists.antt =====
-- GET /api/transactions.
use zenithpay_retry.Base.{◌≡◌, refl, String, List, Enumerates, length}
use zenithpay_retry.Domain.Models.{Transaction}
use zenithpay_retry.Store.{list}
use zenithpay_retry.Store.Index.{IsIndexed}
use zenithpay_retry.Store.Pending.{IsSelection}
use zenithpay_retry.Store.Listing.{has_status, NewestFirst, list-IsSelection}
use zenithpay_retry.Retry.World.{World}
use zenithpay_retry.Handler.{reply, listing, handle_list}

-- In whatever order the transactions are visited, GET /api/transactions answers 200 with the stored
-- transactions whose status has the given text, or with all for an empty text: each once and as it
-- is stored, none after one that was created before it, and with their number; on a store with an
-- exact index.
pub handle_list-IsSelection :
    {F : Type 0} (status : String) (order : List String) (w : World F)
    → IsIndexed w.store
    → Enumerates order w.store.transactions
    → (txs : List Transaction) × (handle_list status order w ≡ reply 200 (listing (length txs) txs))
      × IsSelection (has_status status) w.store txs
      × NewestFirst txs
unfolding handle_list
handle_list-IsSelection status order w h en =
    let (selection, sorted) = list-IsSelection status order w.store h en in
    (list status order w.store, refl, selection, sorted)
