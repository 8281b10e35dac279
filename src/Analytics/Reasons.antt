-- ===== src/Analytics/Reasons.antt =====
-- internal/handler/analytics.go, ByDeclineReason: the statistics of each decline code. The pointers of
-- `statsMap` are written through at once, so that the map holds the statistics themselves.
pub mod Counting
pub mod Tallies
use zenithpay_retry.Base.{
  ℕ, zero, suc, ◌+◌, String, Bool, true, false, Option, none, some, List, [], ◌∷◌, pos, Dict,
  lookup, insert, ltb, sort_slice, if◌then◌else◌,
}
use zenithpay_retry.Float.{Float64}
use zenithpay_retry.Domain.Models.{
  DeclineCategory, hard_decline, soft_decline, TransactionStatus, scheduled, retrying, recovered,
  failed_final, rejected, Transaction, RetryAttempt,
}
use zenithpay_retry.Store.{Store, get_all}

pub record DeclineReasonStats (F : Type 0) : Type 0 where
  pub decline_code : String
  pub category : DeclineCategory
  pub total : ℕ
  pub recovered_count : ℕ
  pub failed_count : ℕ
  pub pending_count : ℕ
  pub recovery_rate : F
  pub avg_attempts : F

-- The loop that stops at the first success; its attempt number.
unfoldable pub first_success : List RetryAttempt → Option ℕ
first_success [] = none
first_success (a ∷ rest) =
    let later = first_success rest in if a.success then some a.attempt_number else later

module _ {F : Type 0} ⦃f : Float64 F⦄ where
  unfoldable pub new_stats : Transaction → DeclineReasonStats F
  new_stats tx = record {
    decline_code = tx.decline_code;
    category = tx.decline_category;
    total = 0;
    recovered_count = 0;
    failed_count = 0;
    pending_count = 0;
    recovery_rate = f.decimal 0 0;
    avg_attempts = f.decimal 0 0;
  }

  unfoldable pub add_attempts : List RetryAttempt → DeclineReasonStats F → DeclineReasonStats F
  add_attempts attempts s = elim (first_success attempts) [
    | none ↦ s
    | some n ↦ record s { avg_attempts = f.add s.avg_attempts (f.of_int (pos n)) }
  ]

  unfoldable pub count_by_status :
      TransactionStatus → List RetryAttempt → DeclineReasonStats F → DeclineReasonStats F
  unfolding add_attempts
  count_by_status recovered attempts s =
      add_attempts attempts (record s { recovered_count = suc s.recovered_count })
  count_by_status failed_final attempts s = record s { failed_count = suc s.failed_count }
  count_by_status scheduled attempts s = record s { pending_count = suc s.pending_count }
  count_by_status retrying attempts s = record s { pending_count = suc s.pending_count }
  count_by_status rejected attempts s = record s { failed_count = suc s.failed_count }

  unfoldable pub count_reason : Transaction → DeclineReasonStats F → DeclineReasonStats F
  unfolding count_by_status
  count_reason tx s = count_by_status tx.status tx.retry_attempts (record s { total = suc s.total })

  -- The statistics under the transaction's code, or new ones.
  unfoldable pub stats_for : Transaction → Dict (DeclineReasonStats F) → DeclineReasonStats F
  unfolding new_stats
  stats_for tx m = elim (lookup tx.decline_code m) [ none ↦ new_stats tx | some s ↦ s ]

  -- The first loop.
  unfoldable pub count_reasons :
      List Transaction → Dict (DeclineReasonStats F) → Dict (DeclineReasonStats F)
  unfolding count_reason stats_for
  count_reasons [] m = m
  count_reasons (tx ∷ rest) m =
      count_reasons rest (insert tx.decline_code (count_reason tx (stats_for tx m)) m)

  abbrev pub is_soft_reason : DeclineReasonStats F → Bool
  is_soft_reason s = elim s.category [ soft_decline ↦ true | hard_decline ↦ false ]

  abbrev pub is_hard_reason : DeclineReasonStats F → Bool
  is_hard_reason s = elim s.category [ soft_decline ↦ false | hard_decline ↦ true ]

  unfoldable pub with_average : DeclineReasonStats F → DeclineReasonStats F
  with_average s =
      if ltb 0 s.recovered_count
      then record s { avg_attempts = f.div s.avg_attempts (f.of_int (pos s.recovered_count)) }
      else s

  unfoldable pub with_rate : DeclineReasonStats F → DeclineReasonStats F
  with_rate s =
      let completed = s.recovered_count + s.failed_count in
      if is_soft_reason s
      then if ltb 0 completed
        then record s {
          recovery_rate =
              f.mul (f.div (f.of_int (pos s.recovered_count)) (f.of_int (pos completed)))
                (f.decimal 100 0);
        }
        else s
      else s

  -- The second loop, for the results that pass a test.
  unfoldable pub collect_reasons :
      (DeclineReasonStats F → Bool)
      → Dict (DeclineReasonStats F)
      → List String
      → List (DeclineReasonStats F)
  unfolding with_average with_rate
  collect_reasons keep m [] = []
  collect_reasons keep m (code ∷ codes) =
      let rest = collect_reasons keep m codes in
      elim (lookup code m) [
        | none ↦ rest
        | some s ↦ if keep s then with_rate (with_average s) ∷ rest else rest
      ]

  -- The soft and the hard results. The first range visits the store's transactions, the second the
  -- statistics.
  unfoldable pub by_decline_reason :
      List String → List String → Store → List (DeclineReasonStats F) × List (DeclineReasonStats F)
  unfolding count_reasons collect_reasons
  by_decline_reason order codes s =
      let m = count_reasons (get_all order s) [] in
      (
        sort_slice (λ a b. f.lt b.recovery_rate a.recovery_rate)
            (collect_reasons is_soft_reason m codes),
        sort_slice (λ a b. ltb b.total a.total) (collect_reasons is_hard_reason m codes),
      )
