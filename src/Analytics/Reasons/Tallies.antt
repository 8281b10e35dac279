-- ===== src/Analytics/Reasons/Tallies.antt =====
-- The results of ByDeclineReason and the transactions that they count.
use mathlib.Core.Path.{subst, sym}
use zenithpay_retry.Base.{
  map, elem, ltb, ap, ◌<◌, ◌∙◌, Enumerates, contains, sort_slice-elem, All, sort_slice-All, ◌≡◌,
  String, Bool, true, ◌||◌, List, [], ◌∷◌, some, refl, str_eq, lookup, eq_iff, arith, Bool-cases,
  Option-cases, inl, inr,
}
use zenithpay_retry.Float.{Float64}
use zenithpay_retry.Domain.Models.{Transaction}
use zenithpay_retry.Store.{Store, get_all}
use zenithpay_retry.Store.Index.{IsIndexed}
use zenithpay_retry.Store.Pending.{ids_of, IsSelection}
use zenithpay_retry.Store.Listing.{get_all-IsSelection}
use zenithpay_retry.Analytics.Reasons.{
  collect_reasons, with_rate, with_average, is_soft_reason, is_hard_reason, by_decline_reason,
  DeclineReasonStats, count_reasons,
}
use zenithpay_retry.Analytics.Reasons.Counting.{having, IsTally, count_reasons-IsTally, absent_code}

module _ {F : Type 0} ⦃f : Float64 F⦄ where
  -- The averages and rates leave the counts alone.
  finished-IsTally :
      (txs : List Transaction) (code : String) (s : DeclineReasonStats F)
      → IsTally txs code s
      → IsTally txs code (with_rate (with_average s))
  unfolding with_rate with_average
  finished-IsTally txs code s h = record {
    coded = ground (arith, h.coded);
    totalled = ground (arith, h.totalled);
    recoveries = ground (arith, h.recoveries);
    failures = ground (arith, h.failures);
    pendings = ground (arith, h.pendings);
  }

  -- A result with the counts of its own code.
  abbrev pub IsOwnTally : List Transaction → DeclineReasonStats F → Type 0
  IsOwnTally txs s = IsTally txs s.decline_code s

  collect_reasons-All :
      (keep : DeclineReasonStats F → Bool) (txs : List Transaction) (codes : List String)
      → All (IsOwnTally txs) (collect_reasons keep (count_reasons txs []) codes)
  unfolding collect_reasons
  collect_reasons-All keep txs [] = tt
  collect_reasons-All keep txs (code ∷ codes) =
      let rest = collect_reasons-All keep txs codes in
      elim (Option-cases (lookup code (count_reasons {F = F} txs []))) [
        | inl e ↦ rw (e, collect_reasons) rest
        | inr (s, e) ↦ elim (Bool-cases (keep s)) [
          | inr out ↦ rw (e, collect_reasons, out) rest
          | inl kept ↦
              let t = finished-IsTally txs code s (count_reasons-IsTally txs code s e) in
              rw (e, collect_reasons, kept)
                (subst (λ c. IsTally txs c (with_rate (with_average s))) (sym t.coded) t, rest)
        ]
      ]

-- A stored transaction is counted under its code.
having_one :
    (s : Store) (id : String) (tx : Transaction)
    → lookup id s.transactions ≡ some tx
    → (txs : List Transaction)
    → All (λ t. (lookup t.id s.transactions ≡ some t) × (true ≡ true)) txs
    → elem id (ids_of txs) ≡ true
    → 0 < having tx.decline_code (λ st. true) txs
unfolding elem
having_one s id tx e [] h m = cc
having_one s id tx e (t ∷ ts) h m =
    let rest = having_one s id tx e ts h.1 in
    elim (Bool-cases (str_eq t.id id)) [
      | inl same ↦
          let here : id ≡ t.id = sym ((eq_iff t.id id).0 same) in
          let stored : lookup id s.transactions ≡ some t =
            ap (λ j. lookup j s.transactions) here ∙ h.0.0 in
          let code : t.decline_code ≡ tx.decline_code = ground arith in
          ground (arith, code, eq_iff t.decline_code tx.decline_code)
      | inr other ↦ ground (arith, m, other, rest)
    ]

-- The codes of the results.
abbrev pub codes_of : {F : Type 0} → List (DeclineReasonStats F) → List String
codes_of = map (λ s. s.decline_code)

module _ (F : Type 0) ⦃f : Float64 F⦄ where
  -- A code of some transaction has statistics, which pass one of the two tests.
  collect_reasons_complete :
      (txs : List Transaction) (codes : List String) (code : String)
      → elem code codes ≡ true
      → 0 < having code (λ st. true) txs
      → (elem code (codes_of (collect_reasons {F = F} is_soft_reason (count_reasons txs []) codes))
          || elem code
              (codes_of (collect_reasons {F = F} is_hard_reason (count_reasons txs []) codes)))
        ≡ true
  unfolding collect_reasons elem
  collect_reasons_complete txs [] code m h = cc
  collect_reasons_complete txs (c ∷ codes) code m h =
      elim (Option-cases (lookup c (count_reasons {F = F} txs []))) [
        | inl e ↦
            let zero_at : c ≡ code → ⊥ = λ q.
              let z = absent_code {F = F} txs c e in
              let same = ap (λ k. having k (λ st. true) txs) q in absurd (omega (arith, z, same)) in
            ground (arith, eq_iff c code, collect_reasons_complete txs codes code, zero_at)
        | inr (s, e) ↦
            let t = finished-IsTally txs c s (count_reasons-IsTally txs c s e) in
            ground (arith, eq_iff c code, t.coded, collect_reasons_complete txs codes code)
      ]

  -- Every stored transaction's code has a result, soft or hard.
  complete :
      (order codes : List String) (s : Store) (code : String)
      → Enumerates codes (count_reasons {F = F} (get_all order s) [])
      → 0 < having code (λ st. true) (get_all order s)
      → let (soft, hard) = by_decline_reason {F = F} order codes s in
        (elem code (codes_of soft) || elem code (codes_of hard)) ≡ true
  unfolding by_decline_reason
  complete order codes s code en h =
      let txs = get_all order s in
      let m = count_reasons {F = F} txs [] in
      let listed : elem code codes ≡ true = elim (Option-cases (lookup code m)) [
        | inl e ↦ absurd (omega (arith, absent_code {F = F} txs code e))
        | inr (r, e) ↦ en.visits code ∙ rw (e, contains)
      ] in
      ground (
        arith,
        sort_slice-elem (λ a b. f.lt b.recovery_rate a.recovery_rate) (λ r. r.decline_code)
            (collect_reasons is_soft_reason m codes) code,
        sort_slice-elem (λ a b. ltb b.total a.total) (λ r. r.decline_code)
            (collect_reasons is_hard_reason m codes) code,
        collect_reasons_complete txs codes code listed h,
      )

  -- In whatever orders the maps are visited, each result of ByDeclineReason counts the stored
  -- transactions, each once, with its code: all, the recovered, the failed or rejected, and the
  -- pending ones; and every code of a stored transaction has a result; on a store with an exact
  -- index.
  pub by_decline_reason-Tallies :
      (order codes : List String) (s : Store)
      → IsIndexed s
      → Enumerates order s.transactions
      → Enumerates codes (count_reasons {F = F} (get_all order s) [])
      → let (soft, hard) = by_decline_reason {F = F} order codes s in
        (txs : List Transaction) × IsSelection (λ tx. true) s txs
        × All (IsOwnTally txs) soft
        × All (IsOwnTally txs) hard
        × ((id : String) (tx : Transaction)
            → lookup id s.transactions ≡ some tx
            → (elem tx.decline_code (codes_of soft) || elem tx.decline_code (codes_of hard)) ≡ true)
  unfolding by_decline_reason
  by_decline_reason-Tallies order codes s indexed all en =
      let txs = get_all order s in
      let m = count_reasons {F = F} txs [] in
      let stored = get_all-IsSelection order s indexed all in
      (
        txs,
        stored,
        sort_slice-All _ (IsOwnTally txs) (collect_reasons is_soft_reason m codes)
            (collect_reasons-All is_soft_reason txs codes),
        sort_slice-All _ (IsOwnTally txs) (collect_reasons is_hard_reason m codes)
            (collect_reasons-All is_hard_reason txs codes),
        λ id tx e.
            complete order codes s tx.decline_code en
              (having_one s id tx e txs stored.sound (stored.complete id tx e refl)),
      )
