-- ===== src/Analytics/Attempts.antt =====
-- internal/handler/analytics.go, ByAttemptNumber: the statistics of each attempt number.
pub mod Counting
pub mod Tallies
use zenithpay_retry.Base.{
  ℕ, suc, Bool, List, [], ◌∷◌, Option, none, some, pos, IntDict, lookup_int, insert_int, ltb,
  sort_slice, String, if◌then◌else◌,
}
use zenithpay_retry.Float.{Float64}
use zenithpay_retry.Domain.Models.{Transaction, RetryAttempt}
use zenithpay_retry.Store.{Store, get_all}

pub record AttemptStats (F : Type 0) : Type 0 where
  pub attempt_number : ℕ
  pub total_attempts : ℕ
  pub successes : ℕ
  pub attempt_rate : F

module _ {F : Type 0} ⦃f : Float64 F⦄ where
  unfoldable pub new_attempt_stats : ℕ → AttemptStats F
  new_attempt_stats n = record {
    attempt_number = n;
    total_attempts = 0;
    successes = 0;
    attempt_rate = f.decimal 0 0;
  }

  unfoldable pub attempt_stats_for : ℕ → IntDict (AttemptStats F) → AttemptStats F
  unfolding new_attempt_stats
  attempt_stats_for n m = elim (lookup_int n m) [ none ↦ new_attempt_stats n | some s ↦ s ]

  unfoldable pub count_attempt : RetryAttempt → AttemptStats F → AttemptStats F
  count_attempt a s = record s {
    total_attempts = suc s.total_attempts;
    successes = if a.success then suc s.successes else s.successes;
  }

  -- The loop over the attempts of one transaction.
  unfoldable pub count_numbers :
      List RetryAttempt → IntDict (AttemptStats F) → IntDict (AttemptStats F)
  unfolding count_attempt attempt_stats_for
  count_numbers [] m = m
  count_numbers (a ∷ rest) m =
      count_numbers rest
        (insert_int a.attempt_number (count_attempt a (attempt_stats_for a.attempt_number m)) m)

  unfoldable pub count_all_numbers :
      List Transaction → IntDict (AttemptStats F) → IntDict (AttemptStats F)
  unfolding count_numbers
  count_all_numbers [] m = m
  count_all_numbers (tx ∷ rest) m = count_all_numbers rest (count_numbers tx.retry_attempts m)

  unfoldable pub with_attempt_rate : AttemptStats F → AttemptStats F
  with_attempt_rate s =
      if ltb 0 s.total_attempts
      then record s {
        attempt_rate =
            f.mul (f.div (f.of_int (pos s.successes)) (f.of_int (pos s.total_attempts)))
              (f.decimal 100 0);
      }
      else s

  -- The second loop, over the numbers in the order of its range.
  unfoldable pub collect_numbers : IntDict (AttemptStats F) → List ℕ → List (AttemptStats F)
  unfolding with_attempt_rate
  collect_numbers m [] = []
  collect_numbers m (n ∷ ns) =
      let rest = collect_numbers m ns in
      elim (lookup_int n m) [ none ↦ rest | some s ↦ with_attempt_rate s ∷ rest ]

  unfoldable pub by_attempt_number : List String → List ℕ → Store → List (AttemptStats F)
  unfolding count_all_numbers collect_numbers
  by_attempt_number order numbers s =
      sort_slice (λ a b. ltb a.attempt_number b.attempt_number)
        (collect_numbers (count_all_numbers (get_all order s) []) numbers)
