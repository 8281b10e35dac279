-- ===== src/Examples/Reports.antt =====
-- The analytics and the reference data at the scenario.
use zenithpay_retry.Base.{
  ℕ, ◌≡◌, ◌↔◌, String, true, some, not, ◌&&◌, ◌||◌, List, [], All, Dict, lookup, elem, contains,
  ltb, if◌then◌else◌,
}
use zenithpay_retry.Float.{Micros, micros_float}
use zenithpay_retry.Domain.Models.{Transaction, soft_decline}
use zenithpay_retry.Domain.Decline.{hard_decline_codes, is_hard_decline, classify_decline}
use zenithpay_retry.Domain.Decline.Codes.{DeclineCodes}
use zenithpay_retry.Handler.{reply, decline_codes, StrategyInfo, handle_get_decline_codes}
use zenithpay_retry.Handler.Codes.{info_of, handle_get_decline_codes-Agrees}
use zenithpay_retry.Store.{get_all}
use zenithpay_retry.Store.Pending.{IsSelection}
use zenithpay_retry.Analytics.Reasons.{count_reasons, by_decline_reason}
use zenithpay_retry.Analytics.Reasons.Tallies.{IsOwnTally, codes_of, by_decline_reason-Tallies}
use zenithpay_retry.Analytics.Attempts.{count_all_numbers, by_attempt_number}
use zenithpay_retry.Analytics.Attempts.Counting.{attempts_of, numbered, IsAttemptTally}
use zenithpay_retry.Analytics.Attempts.Tallies.{results_with, by_attempt_number-Tallies}
use zenithpay_retry.Examples.Scenario.{table, waiting_store, waiting_store-IsIndexed}
use zenithpay_retry.Examples.Ranges.{keys, keys-Enumerates, int_keys, int_keys_once}

abbrev order : List String
order = keys waiting_store.transactions

abbrev codes : List String
codes = keys (count_reasons {F = Micros} (get_all order waiting_store) [])

abbrev numbers : List ℕ
numbers = int_keys (count_all_numbers {F = Micros} (get_all order waiting_store) [])

by_decline_reason-Tallies_example :
    let (soft, hard) = by_decline_reason {F = Micros} order codes waiting_store in
    (txs : List Transaction) × IsSelection (λ tx. true) waiting_store txs
    × All (IsOwnTally txs) soft
    × All (IsOwnTally txs) hard
    × ((id : String) (tx : Transaction)
        → lookup id waiting_store.transactions ≡ some tx
        → (elem tx.decline_code (codes_of soft) || elem tx.decline_code (codes_of hard)) ≡ true)
by_decline_reason-Tallies_example =
    by_decline_reason-Tallies Micros order codes waiting_store waiting_store-IsIndexed
      (keys-Enumerates waiting_store.transactions)
      (keys-Enumerates (count_reasons {F = Micros} (get_all order waiting_store) []))

by_attempt_number-Tallies_example :
    let results = by_attempt_number {F = Micros} order numbers waiting_store in
    (txs : List Transaction) × IsSelection (λ tx. true) waiting_store txs
    × All (IsAttemptTally (attempts_of txs)) results
    × ((n : ℕ)
        → results_with n results
          ≡ (if ltb 0 (numbered n (λ a. true) (attempts_of txs)) then 1 else 0))
by_attempt_number-Tallies_example =
    by_attempt_number-Tallies Micros order numbers waiting_store waiting_store-IsIndexed
      (keys-Enumerates waiting_store.transactions)
      (int_keys_once (count_all_numbers {F = Micros} (get_all order waiting_store) []))

handle_get_decline_codes-Agrees_example :
    (listed : DeclineCodes) × (infos : Dict StrategyInfo) × (handle_get_decline_codes
        (λ d. "0s")
        table
        (keys hard_decline_codes)
        (keys table)
      ≡ reply 200 (decline_codes listed infos))
    × (elem "do_not_honor" listed.hard_declines ≡ is_hard_decline "do_not_honor")
    × (elem "do_not_honor" listed.soft_declines ≡ contains "do_not_honor" table)
    × (lookup "do_not_honor" infos ≡ info_of (λ d. "0s") table (lookup "do_not_honor" table))
    × ((classify_decline table "do_not_honor").0 ≡ soft_decline
        ↔ (elem "do_not_honor" listed.soft_declines
            && not (elem "do_not_honor" listed.hard_declines))
          ≡ true)
handle_get_decline_codes-Agrees_example =
    handle_get_decline_codes-Agrees (λ d. "0s") table (keys hard_decline_codes) (keys table)
      "do_not_honor" (keys-Enumerates hard_decline_codes) (keys-Enumerates table)
