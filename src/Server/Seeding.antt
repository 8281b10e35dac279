-- ===== src/Server/Seeding.antt =====
-- POST /api/seed.
use Prim.Native.String.{◌++◌ as join}
use mathlib.Core.Path.{subst}
use zenithpay_retry.Base.{
  ℕ, ◌≤◌, ◌≡◌, refl, sym, ap, ◌∙◌, String, false, none, Dict, lookup, Enumerates, done, zero_padded,
  arith,
}
use zenithpay_retry.Float.{Float64}
use zenithpay_retry.Domain.Decline.{RetryStrategy}
use zenithpay_retry.Domain.Decline.Plan.{AllComplete}
use zenithpay_retry.Store.{clear, new_store}
use zenithpay_retry.Store.Index.{pending_tx, new_store-IsIndexed}
use zenithpay_retry.Retry.World.{World, now, tick}
use zenithpay_retry.Retry.Execute.Effects.{IsSafe}
use zenithpay_retry.Seed.Requests.{IsRandom}
use zenithpay_retry.Seed.{soft_count}
use zenithpay_retry.Seed.Generated.{generate_transactions-IsDataset}
use zenithpay_retry.Handler.{Reply, reply, seeded}
use zenithpay_retry.Retry.Batch.{Tally, process_all_pending}
use zenithpay_retry.Retry.Batch.Keeps.{process_all_pending-IsStored}
use zenithpay_retry.Retry.Batch.Total.{process_all_pending-total}
use zenithpay_retry.Server.{
  Library, Ranges, rounds_needed, enough_fuel, seed_count, clear_all, seed_reply, seed_submit,
  seed_process, seed_generated, handle_seed,
}
use zenithpay_retry.Server.Rounds.{rounds_needed-Enough}
use zenithpay_retry.Server.Submissions.{
  AreStored, numbered-Distinct, Covers-AreStored, seed_submit_all,
}

pub clear_all-IsSafe : {F : Type 0} (w : World F) → IsSafe (clear_all w)
unfolding clear_all clear new_store lookup
clear_all-IsSafe w = record {
  live = λ id tx e. absurd (ground arith);
  indexed = new_store-IsIndexed;
}

-- The endpoint has reported n submissions, their transactions are stored, and nothing is left to
-- process.
abbrev pub IsSeeded : {F : Type 0} → ℕ → World F × Reply F → Type 0
IsSeeded n (w, r) =
    ((t : Tally) × (r ≡ reply 200 (seeded n t)))
    × IsSafe w
    × ((id : String) → pending_tx (lookup id w.store.transactions) ≡ false)
    × AreStored n w

nothing_stored :
    {F : Type 0} (w : World F) (id : String) → lookup id (clear_all w).store.transactions ≡ none
unfolding clear_all clear lookup
nothing_stored w id = refl

module _ {G F : Type 0} ⦃f : Float64 F⦄ (strategies : Dict (RetryStrategy F)) (lib : Library G F)
    (all : AllComplete strategies) where
  -- ProcessAllPending after the submissions.
  seed_process-Settles :
      (ranges : Ranges F) (n : ℕ) (w : World F)
      → ((m : Dict (Unit {0})) → Enumerates (ranges.pending m) m)
      → IsSafe w
      → AreStored n w
      → let (w', r) = seed_process strategies lib ranges (w, done n) in IsSeeded n (w', r)
  unfolding seed_process seed_reply
  seed_process-Settles ranges n w en h stored =
      let order = ranges.pending w.store.pending_ids in
      let ((t, e), safe, settled) =
        process_all_pending-total strategies (rounds_needed w.store.transactions) order w all h
          (en w.store.pending_ids) (rounds_needed-Enough w) in
      let (w', pr) = process_all_pending strategies (enough_fuel w) order w in
      subst (λ pr. IsSeeded n (seed_reply n (w', pr))) (sym e)
        (
          (t, refl),
          safe,
          settled,
          λ k lo hi.
              process_all_pending-IsStored strategies all (join "txn_" (zero_padded 6 k))
                (enough_fuel w) order w h (stored k lo hi),
        )

  -- From whatever state, whatever the random draws and swaps, in range, and in whatever order the
  -- range visits the keys of the pending index, each once, POST /api/seed answers 200 and reports
  -- 200 transactions submitted; the transactions with the numbers 1 to 200 are then stored, none is
  -- pending, and every stored one is at a point of its life; with complete strategies, and if 70
  -- percent of 200, as computed, are at most 200.
  pub handle_seed-Seeds :
      (ranges : Ranges F) (w : World F)
      → IsRandom lib.rand
      → soft_count lib.rand seed_count ≤ seed_count
      → ((m : Dict (Unit {0})) → Enumerates (ranges.pending m) m)
      → let (w', r) = handle_seed strategies lib ranges w in
        ((t : Tally) × (r ≡ reply 200 (seeded seed_count t)))
        × IsSafe w'
        × ((id : String) → pending_tx (lookup id w'.store.transactions) ≡ false)
        × AreStored seed_count w'
  unfolding handle_seed seed_generated
  handle_seed-Seeds ranges w laws part en =
      let w₁ = clear_all w in
      let w₂ = tick w₁ in
      let (txs, e, data_set) =
        generate_transactions-IsDataset lib.rand laws lib.format_rfc3339 (now w₂) seed_count
          (lib.unix_nano (now w₁)) (omega arith) part in
      let w₃ = tick w₂ in
      let cleared = clear_all-IsSafe w in
      let (safe, submitted, covers) =
        seed_submit_all strategies lib all ranges txs 0 w₃
          (record { live = cleared.live; indexed = cleared.indexed })
          (numbered-Distinct txs data_set.named
            (λ k hk. let n = data_set.numbers k hk in ground (arith, n)))
          (λ j m. nothing_stored w j) in
      let total = submitted ∙ ap done (omega (arith, data_set.size)) in
      let (w', r) = seed_submit strategies lib ranges txs 0 w₃ in
      let stored = Covers-AreStored strategies lib all txs w₃ w' data_set.numbers covers in
      rw (e, handle_seed, seed_generated)
        (subst (λ r. IsSeeded seed_count (seed_process strategies lib ranges (w', r))) (sym total)
          (seed_process-Settles ranges seed_count w' en safe stored))
