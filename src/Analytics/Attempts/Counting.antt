-- ===== src/Analytics/Attempts/Counting.antt =====
-- The loops of ByAttemptNumber against counts over the attempts.
use zenithpay_retry.Base.{
  ℕ, ◌+◌, ◌<◌, ◌≡◌, refl, Bool, true, ◌&&◌, none, some, List, [], ◌∷◌, ◌++◌, IntDict, lookup_int,
  insert_int, lookup_int-insert_int, count_where, count_where-append, ap, ◌==◌, arith, Option-cases,
  inl, inr, if◌then◌else◌,
}
use zenithpay_retry.Float.{Float64}
use zenithpay_retry.Domain.Models.{Transaction, RetryAttempt}
use zenithpay_retry.Analytics.Attempts.{
  AttemptStats, new_attempt_stats, attempt_stats_for, count_attempt, count_numbers,
  count_all_numbers,
}

-- The attempts of all transactions.
abbrev pub attempts_of : List Transaction → List RetryAttempt
attempts_of [] = []
attempts_of (tx ∷ rest) = tx.retry_attempts ++ attempts_of rest

-- The attempts of that number which pass a test.
abbrev pub numbered : ℕ → (RetryAttempt → Bool) → List RetryAttempt → ℕ
numbered n test = count_where (λ a. a.attempt_number == n && test a)

-- The count under a number, 0 without an entry.
abbrev pub at : {F : Type 0} (field : AttemptStats F → ℕ) → ℕ → IntDict (AttemptStats F) → ℕ
at field n m = elim (lookup_int n m) [ none ↦ 0 | some s ↦ field s ]

module _ {F : Type 0} ⦃f : Float64 F⦄ where
  module _ (field : AttemptStats F → ℕ) (test : RetryAttempt → Bool)
      (starts : (n : ℕ) → field (new_attempt_stats n) ≡ 0)
      (steps : (a : RetryAttempt) (s : AttemptStats F)
        → field (count_attempt a s) ≡ (if test a then 1 else 0) + field s) where
    at-attempt_stats_for :
        (n : ℕ) (m : IntDict (AttemptStats F)) → field (attempt_stats_for n m) ≡ at field n m
    unfolding attempt_stats_for
    at-attempt_stats_for n m = ground (arith, starts n)

    at-insert_int :
        (n : ℕ) (a : RetryAttempt) (m : IntDict (AttemptStats F))
        → at field n
            (insert_int a.attempt_number (count_attempt a (attempt_stats_for a.attempt_number m)) m)
          ≡ (if a.attempt_number == n && test a then 1 else 0) + at field n m
    at-insert_int n a m = ground (
      arith,
      lookup_int-insert_int a.attempt_number n
          (count_attempt a (attempt_stats_for a.attempt_number m)) m,
      steps a (attempt_stats_for a.attempt_number m),
      at-attempt_stats_for a.attempt_number m,
    )

    at-count_numbers :
        (n : ℕ) (attempts : List RetryAttempt) (m : IntDict (AttemptStats F))
        → at field n (count_numbers attempts m) ≡ numbered n test attempts + at field n m
    unfolding count_numbers
    at-count_numbers n [] m = omega arith
    at-count_numbers n (a ∷ rest) m =
        let m' =
          insert_int a.attempt_number (count_attempt a (attempt_stats_for a.attempt_number m)) m in
        omega (arith, at-count_numbers n rest m', at-insert_int n a m)

    at-count_all_numbers :
        (n : ℕ) (txs : List Transaction) (m : IntDict (AttemptStats F))
        → at field n (count_all_numbers txs m) ≡ numbered n test (attempts_of txs) + at field n m
    unfolding count_all_numbers
    at-count_all_numbers n [] m = omega arith
    at-count_all_numbers n (tx ∷ rest) m = omega (
      arith,
      at-count_all_numbers n rest (count_numbers tx.retry_attempts m),
      at-count_numbers n tx.retry_attempts m,
      count_where-append (λ a. a.attempt_number == n && test a) tx.retry_attempts
          (attempts_of rest),
    )

  total_steps :
      (a : RetryAttempt) (s : AttemptStats F)
      → (count_attempt a s).total_attempts ≡ 1 + s.total_attempts
  unfolding count_attempt
  total_steps a s = omega arith

  success_steps :
      (a : RetryAttempt) (s : AttemptStats F)
      → (count_attempt a s).successes ≡ (if a.success then 1 else 0) + s.successes
  unfolding count_attempt
  success_steps a s = ground arith

  pub record IsAttemptTally (attempts : List RetryAttempt) (s : AttemptStats F) : Type 0 where
    pub totalled : s.total_attempts ≡ numbered s.attempt_number (λ a. true) attempts
    pub succeeded : s.successes ≡ numbered s.attempt_number (λ a. a.success) attempts

  -- An entry under its own number, that has counted something.
  abbrev pub IsOwnEntry : ℕ → AttemptStats F → Type 0
  IsOwnEntry n s = (s.attempt_number ≡ n) × (0 < s.total_attempts)

  abbrev AllOwn : IntDict (AttemptStats F) → Type 0
  AllOwn m = (n : ℕ) (s : AttemptStats F) → lookup_int n m ≡ some s → IsOwnEntry n s

  -- One more attempt of a number whose entry, if there is one, is under its own number.
  attempt_stats_for-own :
      (n : ℕ) (m : IntDict (AttemptStats F)) → AllOwn m → (attempt_stats_for n m).attempt_number ≡ n
  unfolding attempt_stats_for new_attempt_stats
  attempt_stats_for-own n m h = elim (Option-cases (lookup_int n m)) [
    | inl q ↦ rw (q, attempt_stats_for, new_attempt_stats) refl
    | inr (u, q) ↦ rw (q, attempt_stats_for) (h n u q).0
  ]

  insert_int-own :
      (a : RetryAttempt) (m : IntDict (AttemptStats F))
      → AllOwn m
      → AllOwn
          (insert_int a.attempt_number (count_attempt a (attempt_stats_for a.attempt_number m)) m)
  unfolding count_attempt
  insert_int-own a m h k u q =
      let v = count_attempt a (attempt_stats_for a.attempt_number m) in
      let own = attempt_stats_for-own a.attempt_number m h in
      ground (arith, lookup_int-insert_int a.attempt_number k v m, own, h k u)

  count_numbers-own :
      (attempts : List RetryAttempt) (m : IntDict (AttemptStats F))
      → AllOwn m
      → AllOwn (count_numbers attempts m)
  unfolding count_numbers
  count_numbers-own [] m h = h
  count_numbers-own (a ∷ rest) m h = count_numbers-own rest _ (insert_int-own a m h)

  count_all_numbers-own :
      (txs : List Transaction) (m : IntDict (AttemptStats F))
      → AllOwn m
      → AllOwn (count_all_numbers txs m)
  unfolding count_all_numbers
  count_all_numbers-own [] m h = h
  count_all_numbers-own (tx ∷ rest) m h =
      count_all_numbers-own rest _ (count_numbers-own tx.retry_attempts m h)

module _ {F : Type 0} ⦃f : Float64 F⦄ where
  pub own_entries : (txs : List Transaction) → AllOwn {F = F} (count_all_numbers txs [])
  unfolding lookup_int
  own_entries txs = count_all_numbers-own txs [] (λ n s e. ground arith)

pub total_at :
    (F : Type 0) ⦃f : Float64 F⦄ (n : ℕ) (txs : List Transaction)
    → at {F = F} (λ u. u.total_attempts) n (count_all_numbers txs [])
      ≡ numbered n (λ a. true) (attempts_of txs)
unfolding new_attempt_stats lookup_int
total_at F n txs =
    let e =
      at-count_all_numbers {F = F} (λ u. u.total_attempts) (λ a. true) (λ k. refl) total_steps n txs
        [] in
    omega (arith, e)

module _ {F : Type 0} ⦃f : Float64 F⦄ where
  -- The statistics of the loops count the attempts with their number.
  pub count_all_numbers-IsAttemptTally :
      (txs : List Transaction) (n : ℕ) (s : AttemptStats F)
      → lookup_int n (count_all_numbers txs []) ≡ some s
      → IsAttemptTally (attempts_of txs) s
  unfolding new_attempt_stats lookup_int
  count_all_numbers-IsAttemptTally txs n s e = record {
    totalled = tally (λ u. u.total_attempts) (λ a. true) (λ k. refl) total_steps;
    succeeded = tally (λ u. u.successes) (λ a. a.success) (λ k. refl) success_steps;
  }
    where
      tally :
          (field : AttemptStats F → ℕ) (test : RetryAttempt → Bool)
          → ((k : ℕ) → field (new_attempt_stats k) ≡ 0)
          → ((a : RetryAttempt) (u : AttemptStats F)
              → field (count_attempt a u) ≡ (if test a then 1 else 0) + field u)
          → field s ≡ numbered s.attempt_number test (attempts_of txs)
      tally field test starts steps =
          let counted = at-count_all_numbers field test starts steps n txs [] in
          let here : at field n (count_all_numbers txs []) ≡ field s = rw (e, at) refl in
          let own = (own_entries txs n s e).0 in
          let moved = ap (λ k. numbered k test (attempts_of txs)) own in
          omega (arith, counted, here, moved)
