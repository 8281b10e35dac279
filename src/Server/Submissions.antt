-- ===== src/Server/Submissions.antt =====
-- POST /api/seed: the loop of its submissions.
use Prim.Native.String.{◌++◌ as join}
use mathlib.Core.Path.{subst}
use zenithpay_retry.Base.{
  ℕ, suc, ◌+◌, ◌≤◌, ◌<◌, ◌≡◌, refl, sym, ap, ◌∙◌, String, true, none, List, [], ◌∷◌, map, Dict,
  lookup, elem, Distinct, Outcome, ok, done, All, length, count_where, zero_padded, ltb, leb, ◌&&◌,
  if◌then◌else◌, str_eq, eq_iff, ◌⊎◌, Bool-cases, inl, inr, arith,
}
use zenithpay_retry.Float.{Float64}
use zenithpay_retry.Domain.Models.{Transaction, SubmitRequest, SubmitResponse}
use zenithpay_retry.Domain.Decline.{RetryStrategy}
use zenithpay_retry.Domain.Decline.Plan.{AllComplete}
use zenithpay_retry.Store.{put}
use zenithpay_retry.Store.Index.{lookup-put}
use zenithpay_retry.Retry.World.{World, EngineError}
use zenithpay_retry.Retry.Execute.Effects.{IsSafe}
use zenithpay_retry.Retry.Submit.{submit}
use zenithpay_retry.Retry.Submit.Behaviour.{
  Submitted, duplicate, rejects, schedules, submit-Submitted, submit-IsSafe,
}
use zenithpay_retry.Seed.Requests.{has_number, IsNumbered}
use zenithpay_retry.Retry.Batch.Keeps.{IsStored}
use zenithpay_retry.Server.{Library, Ranges, seed_count, seed_submit}

-- The transactions with the numbers 1 to n are stored.
abbrev pub AreStored : {F : Type 0} → ℕ → World F → Type 0
AreStored n w = (k : ℕ) → 0 < k → k ≤ n → IsStored (join "txn_" (zero_padded 6 k)) w

abbrev pub request_ids : List SubmitRequest → List String
request_ids = map (λ req. req.transaction_id)

counted_among :
    (k : ℕ) (reqs : List SubmitRequest)
    → elem (join "txn_" (zero_padded 6 k)) (request_ids reqs) ≡ true
    → 1 ≤ count_where (has_number k) reqs
unfolding elem
counted_among k [] e = absurd (ground arith)
counted_among k (req ∷ reqs) e = let rest = counted_among k reqs in ground (arith, rest)

among_counted :
    (k : ℕ) (reqs : List SubmitRequest)
    → 1 ≤ count_where (has_number k) reqs
    → elem (join "txn_" (zero_padded 6 k)) (request_ids reqs) ≡ true
unfolding elem
among_counted k [] e = absurd (omega (arith, e))
among_counted k (req ∷ reqs) e = let rest = among_counted k reqs in ground (arith, rest, e)

-- Requests that have numbers, none of them twice, have different ids.
pub numbered-Distinct :
    (reqs : List SubmitRequest)
    → All IsNumbered reqs
    → ((k : ℕ) → k < 1_000_000 → count_where (has_number k) reqs ≤ 1)
    → Distinct (request_ids reqs)
numbered-Distinct [] h once = tt
numbered-Distinct (req ∷ reqs) ((k, hk, e), h) once = (
  elim (Bool-cases (elem req.transaction_id (request_ids reqs))) [
    | inr out ↦ out
    | inl among ↦
        let same : req.transaction_id ≡ join "txn_" (zero_padded 6 k) =
          ground (arith, eq_iff req.transaction_id (join "txn_" (zero_padded 6 k)), e) in
        let again =
          counted_among k reqs (ap (λ id. elem id (request_ids reqs)) (sym same) ∙ among) in
        let most = once k hk in absurd (ground (arith, again, most, e))
  ],
  numbered-Distinct reqs h (λ j hj. let most = once j hj in ground (arith, most)),
)

module _ {G F : Type 0} ⦃f : Float64 F⦄ (strategies : Dict (RetryStrategy F)) (lib : Library G F)
    (all : AllComplete strategies) where
  submit_new :
      (req : SubmitRequest) (w : World F)
      → lookup req.transaction_id w.store.transactions ≡ none
      → let (w', r) = submit strategies lib.parse_rfc3339 req w in
        (resp : SubmitResponse) × (tx : Transaction) × (r ≡ ok resp)
        × (w'.store ≡ put req.transaction_id tx w.store)
  submit_new req w free = new _ _ (submit-Submitted strategies lib.parse_rfc3339 req w all)
    where
      new :
          (w' : World F) (r : Outcome EngineError SubmitResponse)
          → Submitted strategies lib.parse_rfc3339 req w w' r
          → (resp : SubmitResponse) × (tx : Transaction) × (r ≡ ok resp)
            × (w'.store ≡ put req.transaction_id tx w.store)
      new w' r (duplicate u taken s n e) = absurd (cc)
      new w' r (rejects tx resp _ hard asked st x s n e g b) = (resp, tx, e, s)
      new w' r (schedules tx resp str p t _ soft found plan asked st q x s n e g b) =
          (resp, tx, e, s)

  seed_submit_next :
      (ranges : Ranges F) (req : SubmitRequest) (reqs : List SubmitRequest) (n : ℕ) (w : World F)
      (resp : SubmitResponse)
      → (submit strategies lib.parse_rfc3339 req w).1 ≡ ok resp
      → seed_submit strategies lib ranges (req ∷ reqs) n w
        ≡ seed_submit strategies lib ranges reqs
            (suc n)
            (submit strategies lib.parse_rfc3339 req w).0
  unfolding seed_submit
  seed_submit_next ranges req reqs n w resp e = rw (e, seed_submit) refl

  -- What was stored, or has the id of a request, is stored after the loop.
  abbrev pub Covers : List SubmitRequest → World F → World F → Type 0
  Covers reqs w w' =
      (j : String) → (elem j (request_ids reqs) ≡ true) ⊎ IsStored j w → IsStored j w'

  submit_new-Covers :
      (req : SubmitRequest) (reqs : List SubmitRequest) (tx : Transaction) (w w' w'' : World F)
      → w'.store ≡ put req.transaction_id tx w.store
      → Covers reqs w' w''
      → Covers (req ∷ reqs) w w''
  unfolding elem
  submit_new-Covers req reqs tx w w' w'' s rest j h = elim (Bool-cases (str_eq id j)) [
    | inl same ↦ rest j (inr (tx, stored ∙ ground (arith, lookup-put id j tx w.store, same)))
    | inr other ↦ elim h [
      | inl m ↦ rest j (inl (ground (arith, m, other)))
      | inr (u, e) ↦ rest j (inr (u, stored ∙ ground (arith, lookup-put id j tx w.store, other, e)))
    ]
  ]
    where
      id : String
      id = req.transaction_id

      stored :
          lookup j w'.store.transactions ≡ lookup j (put req.transaction_id tx w.store).transactions
      stored = ap (λ x. lookup j x.transactions) s

  pub Covers-AreStored :
      (reqs : List SubmitRequest) (w w' : World F)
      → ((k : ℕ)
          → k < 1_000_000
          → count_where (has_number k) reqs ≡ (if ltb 0 k && leb k seed_count then 1 else 0))
      → Covers reqs w w'
      → AreStored seed_count w'
  Covers-AreStored reqs w w' numbers covers k lo hi =
      let n = numbers k (omega (arith, hi)) in
      covers (join "txn_" (zero_padded 6 k))
        (inl (among_counted k reqs (ground (arith, n, lo, hi))))

  -- The loop submits every request, if their ids are new and different.
  pub seed_submit_all :
      (ranges : Ranges F) (reqs : List SubmitRequest) (n : ℕ) (w : World F)
      → IsSafe w
      → Distinct (request_ids reqs)
      → ((j : String) → elem j (request_ids reqs) ≡ true → lookup j w.store.transactions ≡ none)
      → let (w', r) = seed_submit strategies lib ranges reqs n w in
        IsSafe w' × (r ≡ done (length reqs + n)) × Covers reqs w w'
  unfolding seed_submit elem
  seed_submit_all ranges [] n w h d new =
      (h, ap done (omega arith), λ j m. elim m [ inl e ↦ absurd (cc) | inr stored ↦ stored ])
  seed_submit_all ranges (req ∷ reqs) n w h d new =
      let id = req.transaction_id in
      let (resp, tx, e, s) = submit_new req w (new id (ground (arith, eq_iff id id))) in
      let w' = (submit strategies lib.parse_rfc3339 req w).0 in
      let safe = (submit-IsSafe strategies lib.parse_rfc3339 req w all h).0 in
      let still : (j : String)
          → elem j (request_ids reqs) ≡ true
          → lookup j w'.store.transactions ≡ none =
        λ j m.
          let other : str_eq id j ≡ true → ⊥ = λ q.
            let same : id ≡ j = ground (arith, eq_iff id j) in
            let here = ap (λ k. elem k (request_ids reqs)) same in ground (arith, d.0, m, here) in
          ap (λ x. lookup j x.transactions) s
          ∙ ground (arith, lookup-put id j tx w.store, other, new j (ground (arith, m))) in
      let (safe', r, covers) = seed_submit_all ranges reqs (suc n) w' safe d.1 still in
      subst (λ x. IsSafe x.0 × (x.1 ≡ done (suc (length reqs) + n)) × Covers (req ∷ reqs) w x.0)
        (sym (seed_submit_next ranges req reqs n w resp e))
        (
          safe',
          r ∙ ap done (omega arith),
          submit_new-Covers req reqs tx w w' (seed_submit strategies lib ranges reqs (suc n) w').0 s
              covers,
        )
