-- ===== src/Analytics/Reasons/Counting.antt =====
-- The first loop of ByDeclineReason: the statistics of a code against a count over the transactions
-- with that code.
use zenithpay_retry.Base.{
  count_where, ℕ, suc, ◌+◌, ◌≡◌, refl, String, Bool, true, false, ◌&&◌, none, some, List, [], ◌∷◌,
  Dict, lookup, insert, lookup-insert, str_eq, eq_iff, arith, Option-cases, inl, inr, if◌then◌else◌,
}
use zenithpay_retry.Float.{Float64}
use zenithpay_retry.Domain.Models.{
  TransactionStatus, recovered, failed_final, rejected, Transaction,
}
use zenithpay_retry.Store.{is_pending_status}
use zenithpay_retry.Analytics.Reasons.{
  DeclineReasonStats, count_by_status, new_stats, count_reason, stats_for, count_reasons,
}

abbrev pub is_recovered : TransactionStatus → Bool
is_recovered recovered = true
is_recovered _ = false

abbrev pub is_failed : TransactionStatus → Bool
is_failed failed_final = true
is_failed rejected = true
is_failed _ = false

-- The transactions of a code that are in one of the statuses of a test.
abbrev pub having : String → (TransactionStatus → Bool) → List Transaction → ℕ
having code test txs = count_where (λ tx. str_eq tx.decline_code code && test tx.status) txs

module _ {F : Type 0} ⦃f : Float64 F⦄ where
  -- One count of the statistics, and the test of the transactions that it counts.
  module _ (field : DeclineReasonStats F → ℕ) (test : TransactionStatus → Bool)
      (starts : (tx : Transaction) → field (new_stats tx) ≡ 0)
      (steps : (tx : Transaction) (s : DeclineReasonStats F)
        → field (count_reason tx s) ≡ (if test tx.status then 1 else 0) + field s) where
    -- The count under a code, 0 without an entry.
    abbrev at : String → Dict (DeclineReasonStats F) → ℕ
    at code m = elim (lookup code m) [ none ↦ 0 | some s ↦ field s ]

    at-stats_for :
        (tx : Transaction) (m : Dict (DeclineReasonStats F))
        → field (stats_for tx m) ≡ at tx.decline_code m
    unfolding stats_for
    at-stats_for tx m = ground (arith, starts tx)

    at-insert :
        (code : String) (tx : Transaction) (m : Dict (DeclineReasonStats F))
        → at code (insert tx.decline_code (count_reason tx (stats_for tx m)) m)
          ≡ (if str_eq tx.decline_code code && test tx.status then 1 else 0) + at code m
    at-insert code tx m = ground (
      arith,
      lookup-insert tx.decline_code code (count_reason tx (stats_for tx m)) m,
      steps tx (stats_for tx m),
      at-stats_for tx m,
      eq_iff tx.decline_code code,
    )

    at-count_reasons :
        (code : String) (txs : List Transaction) (m : Dict (DeclineReasonStats F))
        → at code (count_reasons txs m)
          ≡ count_where (λ tx. str_eq tx.decline_code code && test tx.status) txs + at code m
    unfolding count_reasons
    at-count_reasons code [] m = omega arith
    at-count_reasons code (tx ∷ rest) m = omega (
      arith,
      at-count_reasons code rest (insert tx.decline_code (count_reason tx (stats_for tx m)) m),
      at-insert code tx m,
    )

  total_steps :
      (tx : Transaction) (s : DeclineReasonStats F) → (count_reason tx s).total ≡ 1 + s.total
  unfolding count_reason
  total_steps tx s = omega (arith, by_status tx.status)
    where
      by_status :
          (st : TransactionStatus)
          → (count_by_status st tx.retry_attempts (record s { total = suc s.total })).total
            ≡ suc s.total
      by_status st = ground arith

  recovered_steps :
      (tx : Transaction) (s : DeclineReasonStats F)
      → (count_reason tx s).recovered_count
        ≡ (if is_recovered tx.status then 1 else 0) + s.recovered_count
  unfolding count_reason
  recovered_steps tx s = ground arith

  failed_steps :
      (tx : Transaction) (s : DeclineReasonStats F)
      → (count_reason tx s).failed_count ≡ (if is_failed tx.status then 1 else 0) + s.failed_count
  unfolding count_reason
  failed_steps tx s = ground arith

  pending_steps :
      (tx : Transaction) (s : DeclineReasonStats F)
      → (count_reason tx s).pending_count
        ≡ (if is_pending_status tx.status then 1 else 0) + s.pending_count
  unfolding count_reason is_pending_status
  pending_steps tx s = ground arith

  code_kept :
      (tx : Transaction) (s : DeclineReasonStats F)
      → (count_reason tx s).decline_code ≡ s.decline_code
  unfolding count_reason
  code_kept tx s = ground arith

  -- The counts are those of the transactions with that code.
  pub record IsTally (txs : List Transaction) (code : String) (s : DeclineReasonStats F)
      : Type 0 where
    pub coded : s.decline_code ≡ code
    pub totalled : s.total ≡ having code (λ st. true) txs
    pub recoveries : s.recovered_count ≡ having code is_recovered txs
    pub failures : s.failed_count ≡ having code is_failed txs
    pub pendings : s.pending_count ≡ having code is_pending_status txs

  count_reasons-coded :
      (txs : List Transaction) (m : Dict (DeclineReasonStats F))
      → ((c : String) (s : DeclineReasonStats F) → lookup c m ≡ some s → s.decline_code ≡ c)
      → (c : String) (s : DeclineReasonStats F) → lookup c (count_reasons txs m) ≡ some s
      → s.decline_code ≡ c
  unfolding count_reasons
  count_reasons-coded [] m h c s e = h c s e
  count_reasons-coded (tx ∷ rest) m h c s e =
      count_reasons-coded rest (insert tx.decline_code (count_reason tx (stats_for tx m)) m) step c
        s e
    where
      kept : (stats_for tx m).decline_code ≡ tx.decline_code
      kept = elim (Option-cases (lookup tx.decline_code m)) [
        | inl n ↦ rw (n, stats_for) refl
        | inr (u, n) ↦ rw (n, stats_for) (h tx.decline_code u n)
      ]

      step :
          (c : String) (s : DeclineReasonStats F)
          → lookup c (insert tx.decline_code (count_reason tx (stats_for tx m)) m) ≡ some s
          → s.decline_code ≡ c
      step c s q = ground (
        arith,
        lookup-insert tx.decline_code c (count_reason tx (stats_for tx m)) m,
        code_kept tx (stats_for tx m),
        kept,
        h c s,
        eq_iff tx.decline_code c,
      )

  pub count_reasons-IsTally :
      (txs : List Transaction) (code : String) (s : DeclineReasonStats F)
      → lookup code (count_reasons txs []) ≡ some s
      → IsTally txs code s
  unfolding lookup new_stats
  count_reasons-IsTally txs code s e = record {
    coded = count_reasons-coded txs [] (λ c s q. cc) code s e;
    totalled =
        ground (
          arith,
          at-count_reasons (λ s. s.total) (λ st. true) (λ tx. refl) total_steps code txs [],
        );
    recoveries = ground (
      arith,
      at-count_reasons (λ s. s.recovered_count) is_recovered (λ tx. refl) recovered_steps code txs
          [],
    );
    failures = ground (
      arith,
      at-count_reasons (λ s. s.failed_count) is_failed (λ tx. refl) failed_steps code txs [],
    );
    pendings = ground (
      arith,
      at-count_reasons (λ s. s.pending_count) is_pending_status (λ tx. refl) pending_steps code txs
          [],
    );
  }

pub absent_code :
    {F : Type 0} ⦃f : Float64 F⦄ (txs : List Transaction) (code : String)
    → lookup code (count_reasons {F = F} txs []) ≡ none
    → having code (λ st. true) txs ≡ 0
unfolding lookup new_stats
absent_code {F} txs code e = ground (
  arith,
  at-count_reasons {F = F} (λ s. s.total) (λ st. true) (λ tx. refl) total_steps code txs [],
)
