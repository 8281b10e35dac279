-- ===== src/Retry/Batch/Total.antt =====
-- ProcessAllPending as a whole.
use mathlib.Core.Path.{subst}
use zenithpay_retry.Base.{
  ℕ, suc, ◌≡◌, ◌≢◌, refl, ap, sym, ◌∙◌, inl, inr, String, true, false, List, [], ◌∷◌, Dict, lookup,
  elem, Distinct, Enumerates, eq_iff, Bool-cases, Option-cases, arith,
}
use zenithpay_retry.Float.{Float64}
use zenithpay_retry.Domain.Models.{Transaction}
use zenithpay_retry.Domain.Decline.{RetryStrategy}
use zenithpay_retry.Domain.Decline.Plan.{AllComplete}
use zenithpay_retry.Store.{get_pending_retries, is_pending_status}
use zenithpay_retry.Store.Index.{pending_tx}
use zenithpay_retry.Store.Pending.{ids_of, get_pending_retries-IsSelection}
use zenithpay_retry.Retry.World.{World}
use zenithpay_retry.Retry.Execute.Effects.{IsSafe}
use zenithpay_retry.Retry.Batch.{Tally, Progress, finished, drain, drain_all, process_all_pending}
use zenithpay_retry.Retry.Batch.Drain.{Enough, IsDrained, drain-IsDrained}

-- The loop over `ids` ended without a panic; none of them is pending, and nothing else was touched.
record AreDrained {F : Type 0} (ids : List String) (w w' : World F) (pr : Progress) : Type 0 where
  ended : (t : Tally) × (pr ≡ finished t)
  safe : IsSafe w'
  settled : (j : String) → elem j ids ≡ true → pending_tx (lookup j w'.store.transactions) ≡ false
  others :
      (j : String)
      → elem j ids ≡ false
      → lookup j w'.store.transactions ≡ lookup j w.store.transactions

module _ {F : Type 0} ⦃f : Float64 F⦄ (strategies : Dict (RetryStrategy F)) where
  drain_all_next :
      (fuel : ℕ) (tx : Transaction) (txs : List Transaction) (t t' : Tally) (w w' : World F)
      → drain strategies fuel tx.id t w ≡ (w', finished t')
      → drain_all strategies fuel (tx ∷ txs) t w ≡ drain_all strategies fuel txs t' w'
  unfolding drain_all
  drain_all_next fuel tx txs t t' w w' e = ground arith

  Enough-others :
      (rounds : ℕ) (id j : String) (w w' : World F) (pr : Progress)
      → IsDrained id w w' pr
      → j ≢ id
      → Enough rounds j w
      → Enough rounds j w'
  Enough-others rounds id j w w' pr d ne enough tx p e = enough tx p (sym (d.others j ne) ∙ e)

  drain_all-AreDrained :
      (rounds : ℕ) (txs : List Transaction) (t : Tally) (w : World F)
      → AllComplete strategies
      → IsSafe w
      → Distinct (ids_of txs)
      → ((id : String) → elem id (ids_of txs) ≡ true → Enough rounds id w)
      → let (w', pr) = drain_all strategies (suc rounds) txs t w in AreDrained (ids_of txs) w w' pr
  unfolding drain_all elem
  drain_all-AreDrained rounds [] t w all h d enough = record {
    ended = (t, refl);
    safe = h;
    settled = λ j m. cc;
    others = λ j m. refl;
  }
  drain_all-AreDrained rounds (tx ∷ txs) t w all h d enough =
      let one =
        drain-IsDrained strategies rounds tx.id t w all h
          (enough tx.id (ground (arith, eq_iff tx.id tx.id))) in
      let (t', e) = one.ended in
      let w₁ = (drain strategies (suc rounds) tx.id t w).0 in
      let rest = drain_all-AreDrained rounds txs t' w₁ all one.safe d.1 (λ j m.
        Enough-others rounds tx.id j w w₁ _ one (λ same. ground arith) (enough j (ground arith))) in
      subst (λ x. AreDrained (ids_of (tx ∷ txs)) w x.0 x.1)
        (sym (drain_all_next (suc rounds) tx txs t t' w w₁ (ap (λ x. (w₁, x)) e)))
        (record {
          ended = rest.ended;
          safe = rest.safe;
          settled = λ j m. elim (Bool-cases (elem j (ids_of txs))) [
            | inl later ↦ rest.settled j later
            | inr not_later ↦
                let here : tx.id ≡ j = ground (arith, eq_iff tx.id j) in
                ap pending_tx (rest.others j not_later)
                ∙ subst (λ k. pending_tx (lookup k w₁.store.transactions) ≡ false) here one.settled
          ];
          others = λ j m.
              rest.others j (ground arith)
              ∙ one.others j (λ same. ground (arith, eq_iff tx.id j, sym same));
        })

  -- In whatever order ProcessAllPending visits the pending index, with one round for each attempt
  -- left and one more: it ends without a panic, no transaction is then pending, and every
  -- transaction is still at a point of its life; from a safe state and with complete strategies.
  pub process_all_pending-total :
      (rounds : ℕ) (order : List String) (w : World F)
      → AllComplete strategies
      → IsSafe w
      → Enumerates order w.store.pending_ids
      → ((id : String) → Enough rounds id w)
      → let (w', pr) = process_all_pending strategies (suc rounds) order w in
        ((t : Tally) × (pr ≡ finished t))
        × IsSafe w'
        × ((id : String) → pending_tx (lookup id w'.store.transactions) ≡ false)
  unfolding process_all_pending
  process_all_pending-total rounds order w all h en enough =
      let sel = get_pending_retries-IsSelection w.store order h.indexed en in
      let txs = get_pending_retries order w.store in
      let d =
        drain_all-AreDrained rounds txs (record { processed = 0; recoveries = 0 }) w all h
          sel.distinct (λ id _. enough id) in
      (
        d.ended,
        d.safe,
        λ id. elim (Bool-cases (elem id (ids_of txs))) [
          | inl among ↦ d.settled id among
          | inr not_among ↦
              ap pending_tx (d.others id not_among)
              ∙ elim (Option-cases (lookup id w.store.transactions)) [
                | inl e ↦ ap pending_tx e
                | inr (tx, e) ↦ elim (Bool-cases (is_pending_status tx.status)) [
                  | inr settled ↦ ap pending_tx e ∙ settled
                  | inl pending ↦ absurd (ground (arith, sel.complete id tx e pending))
                ]
              ]
        ],
      )
