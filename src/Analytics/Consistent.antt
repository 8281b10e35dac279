-- ===== src/Analytics/Consistent.antt =====
-- How the counts of the overview relate, when every transaction is at a point of its life.
use mathlib.Core.Path.{subst, sym, ap, ◌∙◌}
use zenithpay_retry.Base.{
  ℕ, suc, ◌+◌, ◌≤◌, ◌<◌, ◌≡◌, refl, String, Bool, true, List, [], ◌∷◌, length, All, lookup,
  sort_slice-All, arith, Bool-cases, Option-cases, inl, inr,
}
use zenithpay_retry.Domain.Models.{
  DeclineCategory, hard_decline, soft_decline, TransactionStatus, scheduled, retrying, recovered,
  failed_final, rejected, Transaction, RetryAttempt,
}
use zenithpay_retry.Float.{Float64}
use zenithpay_retry.Store.{Store, visit, get_all}
use zenithpay_retry.Lifecycle.{AllFailed, EndsInSuccess, Life, IsLive, AllLive}
use zenithpay_retry.Analytics.{
  Counts, count_category, count_status, count_successes, count_attempts, count_transaction,
  count_all, none_counted, counts_of, overview,
}

count_no_success : (xs : List RetryAttempt) (n : ℕ) → AllFailed xs → count_successes xs n ≡ n
unfolding count_successes
count_no_success [] n h = refl
count_no_success (a ∷ xs) n h = let rest = count_no_success xs n h.1 in rw h.0 rest

count_one_success :
    (xs : List RetryAttempt) (n : ℕ) → EndsInSuccess xs → count_successes xs n ≡ suc n
unfolding count_successes
count_one_success [] n h = absurd h
count_one_success (a ∷ []) n h = rw h refl
count_one_success (a ∷ b ∷ xs) n h = let rest = count_one_success (b ∷ xs) n h.1 in rw h.0 rest

some_attempt : (xs : List RetryAttempt) → EndsInSuccess xs → 0 < length xs
some_attempt [] h = absurd h
some_attempt (a ∷ xs) h = omega arith

-- The counts after `n` transactions.
pub record IsConsistent (n : ℕ) (c : Counts) : Type 0 where
  pub by_category : c.hard_declines + c.soft_declines ≡ n
  pub by_status : c.recovered_count + c.failed_final_count + c.pending_retry ≡ c.soft_declines
  pub by_success : c.successful_attempts ≡ c.recovered_count
  pub by_attempt : c.successful_attempts ≤ c.total_retry_attempts

-- A transaction counts under its category.
counted_as :
    (d : DeclineCategory) (st : TransactionStatus) (tx : Transaction) (n : ℕ) (c : Counts)
    → tx.decline_category ≡ d
    → IsConsistent n (count_attempts tx.retry_attempts (count_status st (count_category d c)))
    → IsConsistent n
        (count_attempts tx.retry_attempts (count_status st (count_category tx.decline_category c)))
counted_as d st tx n c e =
    subst
      (λ d.
        IsConsistent n (count_attempts tx.retry_attempts (count_status st (count_category d c))))
      (sym e)

counted :
    (st : TransactionStatus) (tx : Transaction) (n : ℕ) (c : Counts)
    → Life st tx
    → IsConsistent n c
    → IsConsistent
        (suc n)
        (count_attempts tx.retry_attempts (count_status st (count_category tx.decline_category c)))
unfolding count_category count_status count_attempts count_successes
counted rejected tx n c h k = counted_as hard_decline rejected tx (suc n) c h.hard (
    let none_made = ap length h.untried in
    let no_success = ap (λ xs. count_successes xs c.successful_attempts) h.untried in
    record {
      by_category = omega (arith, k.by_category);
      by_status = k.by_status;
      by_success = no_success ∙ k.by_success;
      by_attempt = omega (arith, none_made, no_success, k.by_attempt);
    })
counted scheduled tx n c (p, h, new, _) k = counted_as soft_decline scheduled tx (suc n) c h.soft (
    let none_made = ap length new in
    let no_success = ap (λ xs. count_successes xs c.successful_attempts) new in
    record {
      by_category = omega (arith, k.by_category);
      by_status = omega (arith, k.by_status);
      by_success = no_success ∙ k.by_success;
      by_attempt = omega (arith, none_made, no_success, k.by_attempt);
    })
counted retrying tx n c (p, h, failed, _, _, _) k =
    counted_as soft_decline retrying tx (suc n) c h.soft (
      let no_success = count_no_success tx.retry_attempts c.successful_attempts failed in
      record {
        by_category = omega (arith, k.by_category);
        by_status = omega (arith, k.by_status);
        by_success = no_success ∙ k.by_success;
        by_attempt = omega (arith, no_success, k.by_attempt);
      })
counted recovered tx n c (p, h, ends, _, _) k =
    counted_as soft_decline recovered tx (suc n) c h.soft (
      let one = count_one_success tx.retry_attempts c.successful_attempts ends in
      let some_made = some_attempt tx.retry_attempts ends in
      record {
        by_category = omega (arith, k.by_category);
        by_status = omega (arith, k.by_status);
        by_success = omega (arith, one, k.by_success);
        by_attempt = omega (arith, one, some_made, k.by_attempt);
      })
counted failed_final tx n c (p, h, failed, _, _) k =
    counted_as soft_decline failed_final tx (suc n) c h.soft (
      let no_success = count_no_success tx.retry_attempts c.successful_attempts failed in
      record {
        by_category = omega (arith, k.by_category);
        by_status = omega (arith, k.by_status);
        by_success = no_success ∙ k.by_success;
        by_attempt = omega (arith, no_success, k.by_attempt);
      })

count_all-IsConsistent :
    (all : List Transaction) (n : ℕ) (c : Counts)
    → All IsLive all
    → IsConsistent n c
    → IsConsistent (n + length all) (count_all all c)
unfolding count_all count_transaction
count_all-IsConsistent [] n c h k =
    let same : n ≡ n + 0 = omega arith in subst (λ m. IsConsistent m c) same k
count_all-IsConsistent (tx ∷ rest) n c h k =
    let same : suc n + length rest ≡ n + suc (length rest) = omega arith in
    subst (λ m. IsConsistent m (count_all rest (count_transaction tx c))) same
      (count_all-IsConsistent rest (suc n) (count_transaction tx c) h.1
        (counted tx.status tx n c h.0 k))

count_all-total :
    (all : List Transaction) (c : Counts)
    → (count_all all c).total_transactions ≡ c.total_transactions
unfolding count_all count_transaction
count_all-total [] c = refl
count_all-total (tx ∷ rest) c =
    count_all-total rest (count_transaction tx c) ∙ kept tx.decline_category tx.status
  where
    kept :
        (d : DeclineCategory) (st : TransactionStatus)
        → (count_attempts tx.retry_attempts
            (count_status st (count_category d c))).total_transactions
          ≡ c.total_transactions
    kept d st = ground arith

visit-AllLive :
    (keep : Transaction → Bool) (s : Store) (order : List String)
    → AllLive s
    → All IsLive (visit keep s.transactions order)
unfolding visit
visit-AllLive keep s [] h = tt
visit-AllLive keep s (id ∷ ids) h =
    let rest = visit-AllLive keep s ids h in
    elim (Option-cases (lookup id s.transactions)) [
      | inl e ↦ rw (e, visit) rest
      | inr (tx, e) ↦ elim (Bool-cases (keep tx)) [
        | inl k ↦ rw (e, visit, k) (h id tx e, rest)
        | inr k ↦ rw (e, visit, k) rest
      ]
    ]

-- In a store of live transactions, the hard and the soft declines of the overview add up to its
-- total, the recovered, failed and pending ones are the soft declines, and there are as many
-- successful attempts as recovered transactions, and no more than attempts.
pub overview-IsConsistent :
    (F : Type 0) ⦃f : Float64 F⦄ (s : Store) (order : List String)
    → AllLive s
    → let c = (overview {F = F} order s).counts in IsConsistent c.total_transactions c
unfolding overview counts_of get_all
overview-IsConsistent F s order h =
    let all = get_all order s in
    let live : All IsLive all =
      sort_slice-All _ IsLive (visit (λ tx. true) s.transactions order)
        (visit-AllLive (λ tx. true) s order h) in
    let total : (counts_of all).total_transactions ≡ 0 + length all =
      count_all-total all (none_counted (length all)) ∙ omega arith in
    subst (λ m. IsConsistent m (counts_of all)) (sym total)
      (count_all-IsConsistent all 0 (none_counted (length all)) live (record {
        by_category = refl;
        by_status = refl;
        by_success = refl;
        by_attempt = omega arith;
      }))
