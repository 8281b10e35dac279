-- ===== src/Analytics/Attempts/Tallies.antt =====
-- The statistics of an attempt number against a count over all attempts with that number.
use mathlib.Core.Path.{subst}
use zenithpay_retry.Base.{
  ℕ, ltb, ◌≡◌, refl, ◌∙◌, String, true, List, [], ◌∷◌, lookup_int, contains_int, Enumerates, sym,
  sort_slice-count_where, count_where, All, sort_slice-All, ◌==◌, arith, Option-cases, inl, inr,
  if◌then◌else◌,
}
use zenithpay_retry.Float.{Float64}
use zenithpay_retry.Domain.Models.{Transaction, RetryAttempt}
use zenithpay_retry.Store.{Store, get_all}
use zenithpay_retry.Store.Index.{IsIndexed}
use zenithpay_retry.Store.Pending.{IsSelection}
use zenithpay_retry.Store.Listing.{get_all-IsSelection}
use zenithpay_retry.Analytics.Attempts.{
  AttemptStats, count_all_numbers, with_attempt_rate, collect_numbers, by_attempt_number,
}
use zenithpay_retry.Analytics.Attempts.Counting.{
  attempts_of, numbered, at, IsAttemptTally, own_entries, total_at,
  count_all_numbers-IsAttemptTally,
}

module _ {F : Type 0} ⦃f : Float64 F⦄ where
  with_attempt_rate-IsAttemptTally :
      (attempts : List RetryAttempt) (s : AttemptStats F)
      → IsAttemptTally attempts s
      → IsAttemptTally attempts (with_attempt_rate s)
  unfolding with_attempt_rate
  with_attempt_rate-IsAttemptTally attempts s h = record {
    totalled = ground (arith, h.totalled);
    succeeded = ground (arith, h.succeeded);
  }

  with_attempt_rate_number :
      (s : AttemptStats F) → (with_attempt_rate s).attempt_number ≡ s.attempt_number
  unfolding with_attempt_rate
  with_attempt_rate_number s = ground arith

-- How many results have that number.
abbrev pub results_with : {F : Type 0} → ℕ → List (AttemptStats F) → ℕ
results_with n = count_where (λ r. r.attempt_number == n)

module _ (F : Type 0) ⦃f : Float64 F⦄ where
  collect_numbers-All :
      (txs : List Transaction) (numbers : List ℕ)
      → All
          (IsAttemptTally (attempts_of txs))
          (collect_numbers (count_all_numbers {F = F} txs []) numbers)
  unfolding collect_numbers
  collect_numbers-All txs [] = tt
  collect_numbers-All txs (n ∷ ns) =
      let rest = collect_numbers-All txs ns in
      elim (Option-cases (lookup_int n (count_all_numbers {F = F} txs []))) [
        | inl e ↦ rw (e, collect_numbers) rest
        | inr (s, e) ↦
            rw (e, collect_numbers)
              (
                with_attempt_rate-IsAttemptTally (attempts_of txs) s
                    (count_all_numbers-IsAttemptTally txs n s e),
                rest,
              )
      ]

  collect_numbers_once :
      (txs : List Transaction) (numbers : List ℕ) (n : ℕ)
      → results_with {F = F} n (collect_numbers (count_all_numbers txs []) numbers) ≡ (
          if ltb 0 (numbered n (λ a. true) (attempts_of txs))
          then count_where (λ k. k == n) numbers
          else 0)
  unfolding collect_numbers
  collect_numbers_once txs [] n = ground arith
  collect_numbers_once txs (k ∷ ks) n =
      let rest = collect_numbers_once txs ks n in
      let total = total_at F k txs in
      elim (Option-cases (lookup_int k (count_all_numbers {F = F} txs []))) [
        | inl e ↦
            let none_of : numbered k (λ a. true) (attempts_of txs) ≡ 0 =
              sym total ∙ rw (e, at) refl in
            let same : k ≡ n → numbered n (λ a. true) (attempts_of txs) ≡ 0 =
              λ q. subst (λ j. numbered j (λ a. true) (attempts_of txs) ≡ 0) q none_of in
            rw (e, collect_numbers) (ground (arith, rest, same))
        | inr (s, e) ↦
            let (own, some_of) = own_entries {F = F} txs k s e in
            let here : numbered k (λ a. true) (attempts_of txs) ≡ s.total_attempts =
              sym total ∙ rw (e, at) refl in
            let same : k ≡ n → numbered n (λ a. true) (attempts_of txs) ≡ s.total_attempts = λ q.
              subst (λ j. numbered j (λ a. true) (attempts_of txs) ≡ s.total_attempts) q here in
            let kept = with_attempt_rate_number s in
            rw (e, collect_numbers) (ground (arith, rest, same, kept, own, some_of))
      ]

  -- In whatever orders the maps are visited, each result of ByAttemptNumber counts the attempts of
  -- the stored transactions, each taken once, that have its number, and the successful ones among
  -- them; and every number of an attempt has exactly one result, any other number none; on a store
  -- with an exact index.
  pub by_attempt_number-Tallies :
      (order : List String) (numbers : List ℕ) (s : Store)
      → IsIndexed s
      → Enumerates order s.transactions
      → ((n : ℕ)
          → count_where (λ k. k == n) numbers
            ≡ (if contains_int n (count_all_numbers {F = F} (get_all order s) []) then 1 else 0))
      → let results = by_attempt_number {F = F} order numbers s in
        (txs : List Transaction) × IsSelection (λ tx. true) s txs
        × All (IsAttemptTally (attempts_of txs)) results
        × ((n : ℕ)
            → results_with n results
              ≡ (if ltb 0 (numbered n (λ a. true) (attempts_of txs)) then 1 else 0))
  unfolding by_attempt_number
  by_attempt_number-Tallies order numbers s indexed all en =
      let less = λ (a b : AttemptStats F). ltb a.attempt_number b.attempt_number in
      let txs = get_all order s in
      let found = collect_numbers (count_all_numbers txs []) numbers in
      (
        txs,
        get_all-IsSelection order s indexed all,
        sort_slice-All less (IsAttemptTally (attempts_of txs)) found
            (collect_numbers-All txs numbers),
        λ n.
            let sorted = sort_slice-count_where less (λ r. r.attempt_number == n) found in
            let once = collect_numbers_once txs numbers n in
            let total = total_at F n txs in
            elim (Option-cases (lookup_int n (count_all_numbers {F = F} txs []))) [
              | inl e ↦
                  let none_of : numbered n (λ a. true) (attempts_of txs) ≡ 0 =
                    sym total ∙ rw (e, at) refl in
                  ground (arith, sorted, once, none_of)
              | inr (u, e) ↦
                  let visited : count_where (λ k. k == n) numbers ≡ 1 =
                    en n ∙ rw (e, contains_int) refl in
                  ground (arith, sorted, once, visited)
            ],
      )
