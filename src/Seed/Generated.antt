-- ===== src/Seed/Generated.antt =====
-- The generated requests together, whatever the random draws.
use Prim.Native.String.{◌++◌ as join}
use zenithpay_retry.Base.{
  ℕ, zero, suc, ◌+◌, ◌-◌, ◌≤◌, ◌<◌, ◌≡◌, ◌≢◌, refl, ap, ◌∙◌, String, Bool, true, false, ◌&&◌, List,
  [], ◌∷◌, ◌++◌, ℤ, ◌-ℤ◌, done, length, length-append as lists-append, All, All-append, count_where,
  count_where-append, apply_swaps-IsRearranged, lookup, zero_padded, ltb, leb, eq_iff, arith,
  if◌then◌else◌,
}
use zenithpay_retry.Float.{Float64}
use zenithpay_retry.Time.{Time, hours}
use zenithpay_retry.Domain.Models.{SubmitRequest}
use zenithpay_retry.Domain.Decline.{is_hard_decline, hard_decline_codes as domain_codes}
use zenithpay_retry.Seed.{
  soft_decline_codes, hard_decline_codes, Rand, soft_weights, hard_weights, generate_loop,
  soft_count, generate_transactions,
}
use zenithpay_retry.Seed.Requests.{
  IsRandom, IsGenerated, AreCodes, are_codes, IsNumbered, has_number, number_test,
  weighted_choice_total, generate_transaction_total,
}

-- How many requests of one kind are hard.
kind_count :
    (hard : Bool) (txs : List SubmitRequest)
    → All (λ req. is_hard_decline req.decline_code ≡ hard) txs
    → count_where (λ req. is_hard_decline req.decline_code) txs ≡ (if hard then length txs else 0)
kind_count hard [] h = ground arith
kind_count hard (x ∷ xs) h = let rest = kind_count hard xs h.1 in ground (arith, rest, h.0)

module _ {G F : Type 0} ⦃f : Float64 F⦄ (rand : Rand G F) (laws : IsRandom rand) where
  -- The requests of one loop: generated, of the loop's kind, as many as it counts, and with the
  -- indices that it counts through.
  record IsBatch (format_rfc3339 : Time → String) (now : Time) (hard : Bool) (from n : ℕ)
      (txs : List SubmitRequest) : Type 0 where
    good : All (IsGenerated format_rfc3339 now) txs
    kinds : All (λ req. is_hard_decline req.decline_code ≡ hard) txs
    size : length txs ≡ n
    named : from + n ≤ 1_000_000 → All IsNumbered txs
    numbers :
        (k : ℕ)
        → k < 1_000_000
        → from + n ≤ 1_000_000
        → count_where (has_number k) txs ≡ (if leb from k && ltb k (from + n) then 1 else 0)

  generate_loop_total :
      (format_rfc3339 : Time → String) (codes : List String) (ws : List F) (hard : Bool)
      (now : Time) (offset n i : ℕ) (g : G)
      → 0 < length codes
      → length ws ≤ length codes
      → AreCodes hard codes
      → (txs : List SubmitRequest) × (g' : G) × IsBatch format_rfc3339 now hard
          (offset + i + 1)
          n
          txs
        × (generate_loop rand format_rfc3339 codes ws (now -ℤ hours 168) now offset n i g
            ≡ done (txs, g'))
  unfolding generate_loop
  generate_loop_total format_rfc3339 codes ws hard now offset zero i g some_code room kinds = (
    [],
    g,
    record {
      good = tt;
      kinds = tt;
      size = refl;
      named = λ h. tt;
      numbers = λ k hk h. ground arith;
    },
    refl,
  )
  generate_loop_total format_rfc3339 codes ws hard now offset (suc n) i g some_code room kinds =
      let (code, g₁, (kind, full), e₁) =
        weighted_choice_total rand laws (λ code. (is_hard_decline code ≡ hard) × (code ≢ "")) codes
          ws g some_code room kinds in
      let (req, g₂, good, numbered, coded, e₂) =
        generate_transaction_total rand laws format_rfc3339 (offset + i + 1) code now g₁ full in
      let (txs, g₃, batch, e₃) =
        generate_loop_total format_rfc3339 codes ws hard now offset n (suc i) g₂ some_code room
          kinds in
      (
        req ∷ txs,
        g₃,
        record {
          good = (good, batch.good);
          kinds = (ap is_hard_decline coded ∙ kind, batch.kinds);
          size = omega (arith, batch.size);
          named = λ h. (
            (
              offset + i + 1,
              omega (arith, h),
              ground (
                arith,
                eq_iff req.transaction_id (join "txn_" (zero_padded 6 (offset + i + 1))),
                numbered,
              ),
            ),
            batch.named (omega (arith, h)),
          );
          numbers = λ k hk h.
              let here = number_test (offset + i + 1) k req numbered (omega (arith, h)) hk in
              let later = batch.numbers k hk (omega (arith, h)) in ground (arith, here, later);
        },
        rw (e₁, e₂, e₃) refl,
      )

-- What GenerateTransactions returns at the time `now`.
pub record IsDataset (format_rfc3339 : Time → String) (now : Time) (count soft : ℕ)
    (txs : List SubmitRequest) : Type 0 where
  pub size : length txs ≡ count
  pub generated : All (IsGenerated format_rfc3339 now) txs
  pub named : All IsNumbered txs
  pub hard_codes : count_where (λ req. is_hard_decline req.decline_code) txs ≡ count - soft
  pub numbers :
      (k : ℕ)
      → k < 1_000_000
      → count_where (has_number k) txs ≡ (if ltb 0 k && leb k count then 1 else 0)

module _ {G F : Type 0} ⦃f : Float64 F⦄ (rand : Rand G F) (laws : IsRandom rand) where
  -- GenerateTransactions, whatever the random draws and swaps, in range, does not panic and returns
  -- as many requests as asked for: each is complete, of $10.00 to $999.99 and from the seven days
  -- before the time of the call; each has a number for its id, and each of the numbers from 1 to
  -- their count is the id of exactly one; and all but the computed 70 percent have hard codes. At
  -- most 999,999 are generated, and the 70 percent, as computed, are not more than all.
  pub generate_transactions-IsDataset :
      (format_rfc3339 : Time → String) (now : Time) (count : ℕ) (seed : ℤ)
      → count < 1_000_000
      → soft_count rand count ≤ count
      → (txs : List SubmitRequest) × (generate_transactions rand format_rfc3339 now count seed
          ≡ done txs)
        × IsDataset format_rfc3339 now count (soft_count rand count) txs
  unfolding generate_transactions soft_weights hard_weights is_hard_decline lookup domain_codes
  generate_transactions-IsDataset format_rfc3339 now count seed few part =
      let soft = soft_count rand count in
      let (softs, g₁, b₁, e₁) =
        generate_loop_total rand laws format_rfc3339 soft_decline_codes (soft_weights rand) false
          now 0 soft 0 (rand.new_rand seed) (omega arith) (omega arith)
          (are_codes false soft_decline_codes refl refl) in
      let (hards, g₂, b₂, e₂) =
        generate_loop_total rand laws format_rfc3339 hard_decline_codes (hard_weights rand) true now
          soft (count - soft) 0 g₁ (omega arith) (omega arith)
          (are_codes true hard_decline_codes refl refl) in
      let all = softs ++ hards in
      let (txs, e₃, same) =
        apply_swaps-IsRearranged (rand.swaps (length all) g₂) all (laws.swaps_lt (length all) g₂) in
      (
        txs,
        rw (e₁, e₂) e₃,
        record {
          size = omega (arith, same.same_length, lists-append softs hards, b₁.size, b₂.size, part);
          generated = same.same_all _ (All-append _ softs hards b₁.good b₂.good);
          named = same.same_all _ (
              All-append _ softs hards (b₁.named (omega (arith, few, part)))
                (b₂.named (omega (arith, few, part))));
          hard_codes =
              let p = λ (req : SubmitRequest). is_hard_decline req.decline_code in
              omega (
                arith,
                same.same_count p,
                count_where-append p softs hards,
                kind_count false softs b₁.kinds,
                kind_count true hards b₂.kinds,
                b₂.size,
              );
          numbers = λ k hk.
              let m = same.same_count (has_number k) in
              let a = count_where-append (has_number k) softs hards in
              let x = b₁.numbers k hk (omega (arith, few, part)) in
              let y = b₂.numbers k hk (omega (arith, few, part)) in
              ground (arith, m, a, x, y, part);
        },
      )
