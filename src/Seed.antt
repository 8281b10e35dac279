-- ===== src/Seed.antt =====
-- internal/seed/generator.go: the random test data. math/rand's generator is an argument: its
-- methods answer a value and the generator's next state. The time package's formatter is one too,
-- and so are the reading of the clock and the seed.
pub mod Requests
pub mod Generated
use Prim.Native.String.{◌++◌ as join}
use zenithpay_retry.Base.{
  ℕ, zero, suc, ◌+◌, ◌-◌, String, List, [], ◌∷◌, ◌++◌, ℤ, pos, pos_part, ◌-ℤ◌, ◌+ℤ◌, leb_ℤ, Run,
  done, panic, index, ◌>>=◌, length, zero_padded, apply_swaps, if◌then◌else◌,
}
use zenithpay_retry.Float.{Float64}
use zenithpay_retry.Time.{Time, Duration, hours}
use zenithpay_retry.Domain.Models.{SubmitRequest}

abbrev pub soft_decline_codes : List String
soft_decline_codes =
    "insufficient_funds" ∷ "issuer_timeout" ∷ "do_not_honor" ∷ "processor_error"
    ∷ "authentication_failed" ∷ []

abbrev pub hard_decline_codes : List String
hard_decline_codes = "stolen_card" ∷ "fraud_suspected" ∷ "invalid_card" ∷ "expired_card" ∷ []

abbrev pub currencies : List String
currencies = "USD" ∷ "BRL" ∷ "MXN" ∷ "COP" ∷ "PEN" ∷ []

abbrev pub processors : List String
processors = "stripe_latam" ∷ "adyen_apac" ∷ "dlocal_br" ∷ "payu_mx" ∷ "mercadopago_co" ∷ []

abbrev pub merchants : List String
merchants = "voltcommerce" ∷ "megastore_br" ∷ "shopfast_mx" ∷ []

-- *rand.Rand. Intn and Int63n panic on an argument that is not positive, which is written out where
-- they are called; `swaps n` are the calls of its argument that Shuffle(n, ...) makes.
pub record Rand (G F : Type 0) : Type 0 where
  pub new_rand : ℤ → G
  pub intn : ℕ → G → ℕ × G
  pub int63n : ℕ → G → ℕ × G
  pub float64 : G → F × G
  pub swaps : ℕ → G → List (ℕ × ℕ)

module _ {G F : Type 0} ⦃f : Float64 F⦄ (rand : Rand G F) where
  unfoldable pub soft_weights : List F
  soft_weights =
      f.decimal 30 2 ∷ f.decimal 20 2 ∷ f.decimal 25 2 ∷ f.decimal 15 2 ∷ f.decimal 10 2 ∷ []

  unfoldable pub hard_weights : List F
  hard_weights = f.decimal 25 2 ∷ f.decimal 25 2 ∷ f.decimal 25 2 ∷ f.decimal 25 2 ∷ []

  -- The loop that adds up the weights.
  unfoldable pub total_weight : List F → F → F
  total_weight [] total = total
  total_weight (w ∷ ws) total = total_weight ws (f.add total w)

  -- The loop that finds where the draw `r` falls, from index i on.
  unfoldable pub fall : List String → List F → F → F → ℕ → Run String
  fall items [] r cumulative i = index items (length items - 1)
  fall items (w ∷ ws) r cumulative i =
      let reached = f.add cumulative w in
      let later = fall items ws r reached (suc i) in if f.le r reached then index items i else later

  unfoldable pub weighted_choice : List String → List F → G → Run (String × G)
  unfolding total_weight fall
  weighted_choice items weights g =
      let (x, g') = rand.float64 g in
      do
        item ← fall items weights (f.mul x (total_weight weights (f.decimal 0 0))) (f.decimal 0 0) 0
        done (item, g')

  -- xs[rng.Intn(len(xs))], for a list that is not empty.
  unfoldable pub pick : List String → G → Run (String × G)
  pick xs g = let (i, g') = rand.intn (length xs) g in do x ← index xs i; done (x, g')

  unfoldable pub generate_transaction :
      (Time → String) → ℕ → String → Time → Time → G → Run (SubmitRequest × G)
  unfolding pick
  generate_transaction format_rfc3339 idx decline_code start end g =
      let duration = end -ℤ start in
      if leb_ℤ duration (pos 0)
      then panic
      else let (offset, g₁) = rand.int63n (pos_part duration) g in
        let (amount, g₂) = rand.intn 99_000 g₁ in
        do
          (currency, g₃) ← pick currencies g₂
          (processor, g₄) ← pick processors g₃
          (merchant, g₅) ← pick merchants g₄
          let (customer, g₆) = rand.intn 5_000 g₅
          done (
            record {
              transaction_id = join "txn_" (zero_padded 6 idx);
              amount_cents = pos (1_000 + amount);
              currency = currency;
              customer_id = join "cust_" (zero_padded 6 (customer + 1));
              merchant_id = merchant;
              original_processor = processor;
              decline_code = decline_code;
              timestamp = format_rfc3339 (start +ℤ pos offset);
              webhook_url = "";
            },
            g₆,
          )

  -- The loop over `i` that appends n requests, from `i` on; its indices start after `offset`.
  unfoldable pub generate_loop :
      (Time → String)
      → List String
      → List F
      → Time
      → Time
      → ℕ
      → (n i : ℕ) → G
      → Run (List SubmitRequest × G)
  unfolding weighted_choice generate_transaction
  generate_loop format_rfc3339 codes weights start now offset zero i g = done ([], g)
  generate_loop format_rfc3339 codes weights start now offset (suc n) i g = do
    (code, g₁) ← weighted_choice codes weights g
    (tx, g₂) ← generate_transaction format_rfc3339 (offset + i + 1) code start now g₁
    (txs, g₃) ← generate_loop format_rfc3339 codes weights start now offset n (suc i) g₂
    done (tx ∷ txs, g₃)

  -- int(float64(count) * 0.70), which is not negative.
  unfoldable pub soft_count : ℕ → ℕ
  soft_count count = pos_part (f.to_int (f.mul (f.of_int (pos count)) (f.decimal 70 2)))

  unfoldable pub generate_transactions : (Time → String) → Time → ℕ → ℤ → Run (List SubmitRequest)
  unfolding soft_weights hard_weights generate_loop soft_count
  generate_transactions format_rfc3339 now count seed =
      let seven_days_ago = now -ℤ hours 168 in
      let soft = soft_count count in
      let hard = count - soft in
      do
        (softs, g₁) ←
            generate_loop format_rfc3339 soft_decline_codes soft_weights seven_days_ago now 0 soft 0
              (rand.new_rand seed)
        (hards, g₂) ←
            generate_loop format_rfc3339 hard_decline_codes hard_weights seven_days_ago now soft
              hard 0 g₁
        apply_swaps (rand.swaps (length (softs ++ hards)) g₂) (softs ++ hards)
