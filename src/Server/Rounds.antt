-- ===== src/Server/Rounds.antt =====
-- The fuel that the server's model gives to ProcessAllPending.
use zenithpay_retry.Base.{◌≤◌, ◌≡◌, String, some, [], ◌∷◌, Dict, lookup, arith}
use zenithpay_retry.Domain.Models.{Transaction}
use zenithpay_retry.Retry.World.{World}
use zenithpay_retry.Retry.Batch.Drain.{Enough}
use zenithpay_retry.Server.{planned_rounds, rounds_needed}

planned_rounds-le :
    (txs : Dict Transaction) (id : String) (tx : Transaction)
    → lookup id txs ≡ some tx
    → planned_rounds tx.retry_plan ≤ rounds_needed txs
unfolding rounds_needed lookup
planned_rounds-le [] id tx e = absurd (ground arith)
planned_rounds-le ((first, u) ∷ rest) id tx e =
    let later = planned_rounds-le rest id tx in ground (arith, later)

-- One round for each attempt of each plan is enough for every transaction.
pub rounds_needed-Enough :
    {F : Type 0} (w : World F) (id : String) → Enough (rounds_needed w.store.transactions) id w
unfolding planned_rounds
rounds_needed-Enough w id tx p e planned =
    let most = planned_rounds-le w.store.transactions id tx e in ground (arith, most, planned)
