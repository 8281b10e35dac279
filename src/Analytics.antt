-- ===== src/Analytics.antt =====
-- internal/handler/analytics.go, Overview: the counts over all transactions. The children
-- have the other reports. Writing the result as JSON is left out.
pub mod Consistent
pub mod Reasons
pub mod Attempts
use zenithpay_retry.Base.{
  ℕ, suc, ◌+◌, String, Bool, true, false, List, [], ◌∷◌, ℤ, pos, length, ltb, if◌then◌else◌,
}
use zenithpay_retry.Float.{Float64}
use zenithpay_retry.Domain.Models.{
  DeclineCategory, hard_decline, soft_decline, TransactionStatus, scheduled, retrying, recovered,
  failed_final, rejected, Transaction, RetryAttempt,
}
use zenithpay_retry.Store.{Store, get_all}

-- The integer fields of AnalyticsOverview.
pub record Counts : Type 0 where
  pub total_transactions : ℕ
  pub hard_declines : ℕ
  pub soft_declines : ℕ
  pub recovered_count : ℕ
  pub failed_final_count : ℕ
  pub pending_retry : ℕ
  pub total_retry_attempts : ℕ
  pub successful_attempts : ℕ

pub record AnalyticsOverview (F : Type 0) : Type 0 where
  pub counts : Counts
  pub recovery_rate : F
  pub efficiency_rate : F

unfoldable pub count_category : DeclineCategory → Counts → Counts
count_category hard_decline c = record c { hard_declines = suc c.hard_declines }
count_category soft_decline c = record c { soft_declines = suc c.soft_declines }

unfoldable pub count_status : TransactionStatus → Counts → Counts
count_status recovered c = record c { recovered_count = suc c.recovered_count }
count_status failed_final c = record c { failed_final_count = suc c.failed_final_count }
count_status scheduled c = record c { pending_retry = suc c.pending_retry }
count_status retrying c = record c { pending_retry = suc c.pending_retry }
count_status rejected c = c

-- The inner loop, on the count of successes alone.
unfoldable pub count_successes : List RetryAttempt → ℕ → ℕ
count_successes [] n = n
count_successes (a ∷ rest) n = count_successes rest (if a.success then suc n else n)

unfoldable pub count_attempts : List RetryAttempt → Counts → Counts
unfolding count_successes
count_attempts attempts c = record c {
  total_retry_attempts = c.total_retry_attempts + length attempts;
  successful_attempts = count_successes attempts c.successful_attempts;
}

unfoldable pub count_transaction : Transaction → Counts → Counts
unfolding count_category count_status count_attempts
count_transaction tx c =
    count_attempts tx.retry_attempts (count_status tx.status (count_category tx.decline_category c))

unfoldable pub count_all : List Transaction → Counts → Counts
unfolding count_transaction
count_all [] c = c
count_all (tx ∷ rest) c = count_all rest (count_transaction tx c)

abbrev pub none_counted : ℕ → Counts
none_counted n = record {
  total_transactions = n;
  hard_declines = 0;
  soft_declines = 0;
  recovered_count = 0;
  failed_final_count = 0;
  pending_retry = 0;
  total_retry_attempts = 0;
  successful_attempts = 0;
}

unfoldable pub counts_of : List Transaction → Counts
unfolding count_all
counts_of all = count_all all (none_counted (length all))

module _ {F : Type 0} ⦃f : Float64 F⦄ where
  -- `if whole > 0 { rate = float64(part) / float64(whole) * 100 }`
  unfoldable pub percentage : ℕ → ℕ → F
  percentage part whole =
      if ltb 0 whole
      then f.mul (f.div (f.of_int (pos part)) (f.of_int (pos whole))) (f.decimal 100 0)
      else f.decimal 0 0

  unfoldable pub overview : List String → Store → AnalyticsOverview F
  unfolding counts_of percentage
  overview order s =
      let c = counts_of (get_all order s) in
      record {
        counts = c;
        recovery_rate = percentage c.recovered_count c.soft_declines;
        efficiency_rate = percentage c.successful_attempts c.total_retry_attempts;
      }
