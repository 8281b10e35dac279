-- ===== src/Seed/Requests.antt =====
-- One generated request, whatever the random draws.
use Prim.Native.String.{◌++◌ as join, count as chars}
use text.Mathlib.TextLemmas.{append_cancel_left, length-append}
use zenithpay_retry.Base.{
  ℕ, suc, ◌+◌, ◌-◌, ◌≤◌, ◌<◌, ◌≡◌, ◌≢◌, refl, sym, ap, ◌∙◌, inl, inr, String, Bool, true, not, ◌&&◌,
  some, List, [], ◌∷◌, pos, ◌-ℤ◌, ◌+ℤ◌, ◌≤ℤ◌, ◌<ℤ◌, done, get_elem?, get_elem?-of_lt, length, All,
  All-get_elem?, zero_padded, zero_padded_inj, ◌==◌, str_eq, eq_iff, int_laws, eq_of_parts, arith,
  if◌then◌else◌, Bool-cases,
}
use zenithpay_retry.Float.{Float64}
use zenithpay_retry.Time.{Time, hours}
use zenithpay_retry.Domain.Models.{SubmitRequest}
use zenithpay_retry.Domain.Decline.{is_hard_decline}
use zenithpay_retry.Handler.Submits.{IsComplete}
use zenithpay_retry.Seed.{
  currencies, processors, merchants, Rand, total_weight, fall, weighted_choice, pick,
  generate_transaction,
}

-- What math/rand documents of its methods.
pub record IsRandom {G F : Type 0} (rand : Rand G F) : Type 0 where
  pub intn_lt : (n : ℕ) (g : G) → 0 < n → (rand.intn n g).0 < n
  pub int63n_lt : (n : ℕ) (g : G) → 0 < n → (rand.int63n n g).0 < n
  pub swaps_lt : (n : ℕ) (g : G) → All (λ (i, j). (i < n) × (j < n)) (rand.swaps n g)

-- A request as it is generated at the time `now`: complete, of $10.00 to $999.99, from the last
-- seven days.
pub record IsGenerated (format_rfc3339 : Time → String) (now : Time) (req : SubmitRequest)
    : Type 0 where
  pub complete : IsComplete req
  pub amount : (n : ℕ) × (req.amount_cents ≡ pos n) × (1_000 ≤ n) × (n ≤ 99_999)
  pub recent :
      (t : Time) × (req.timestamp ≡ format_rfc3339 t) × (now -ℤ hours 168 ≤ℤ t) × (t <ℤ now)

-- Entries that are not empty texts.
abbrev pub NonEmpty : List String → Type 0
NonEmpty = All (λ s. s ≢ "")

-- Codes that are hard, or not, as `hard` says, and not empty.
abbrev pub AreCodes : Bool → List String → Type 0
AreCodes hard = All (λ code. (is_hard_decline code ≡ hard) × (code ≢ ""))

abbrev pub all_named : List String → Bool
all_named [] = true
all_named (x ∷ xs) = not (str_eq x "") && all_named xs

pub named : (xs : List String) → all_named xs ≡ true → NonEmpty xs
named [] h = tt
named (x ∷ xs) h = let rest = named xs in (λ e. ground (arith, eq_iff x ""), rest (ground arith))

abbrev pub same_bool : Bool → Bool → Bool
same_bool a b = if a then b else not b

abbrev pub all_codes : Bool → List String → Bool
all_codes hard [] = true
all_codes hard (x ∷ xs) = same_bool (is_hard_decline x) hard && all_codes hard xs

pub are_codes :
    (hard : Bool) (xs : List String)
    → all_codes hard xs ≡ true
    → all_named xs ≡ true
    → AreCodes hard xs
are_codes hard [] h n = tt
are_codes hard (x ∷ xs) h n =
    let rest = are_codes hard xs (ground arith) (ground arith) in
    ((ground arith, λ e. ground (arith, eq_iff x "")), rest)

abbrev week_ns : ℕ
week_ns = 604_800_000_000_000

week : (now : Time) → now -ℤ (now -ℤ hours 168) ≡ hours 168
week now = eq_of_parts (now -ℤ (now -ℤ hours 168)) (hours 168) (omega int_laws)

pub numbered : (idx : ℕ) → join "txn_" (zero_padded 6 idx) ≢ ""
numbered idx e = omega (arith, length-append "txn_" (zero_padded 6 idx), ap chars e)

-- The request with the k-th id.
abbrev pub has_number : ℕ → SubmitRequest → Bool
has_number k req = str_eq req.transaction_id (join "txn_" (zero_padded 6 k))

abbrev pub IsNumbered : SubmitRequest → Type 0
IsNumbered req = (k : ℕ) × (k < 1_000_000) × (has_number k req ≡ true)

pub number_test :
    (n k : ℕ) (req : SubmitRequest)
    → req.transaction_id ≡ join "txn_" (zero_padded 6 n)
    → n < 1_000_000
    → k < 1_000_000
    → has_number k req ≡ (n == k)
number_test n k req e hn hk =
    let same : req.transaction_id ≡ join "txn_" (zero_padded 6 k) → n ≡ k =
      λ q. zero_padded_inj 6 n k hn hk (append_cancel_left "txn_" _ _ (sym e ∙ q)) in
    let back : n ≡ k → req.transaction_id ≡ join "txn_" (zero_padded 6 k) =
      λ q. e ∙ ap (λ j. join "txn_" (zero_padded 6 j)) q in
    ground (arith, eq_iff req.transaction_id (join "txn_" (zero_padded 6 k)), same, back)

module _ {G F : Type 0} ⦃f : Float64 F⦄ (rand : Rand G F) (laws : IsRandom rand) where
  -- The draw falls on one of the items, if there are no more weights than items.
  fall_total :
      (items : List String) (ws : List F) (r c : F) (i : ℕ)
      → 0 < length items
      → i + length ws ≤ length items
      → (k : ℕ) × (item : String) × (get_elem? items k ≡ some item)
        × (fall rand items ws r c i ≡ done item)
  unfolding fall
  fall_total items [] r c i some_item room =
      let (item, e) = get_elem?-of_lt items (length items - 1) (omega arith) in
      (length items - 1, item, e, ground arith)
  fall_total items (w ∷ ws) r c i some_item room =
      let (item, e) = get_elem?-of_lt items i (omega arith) in
      let (k, later, el, q) = fall_total items ws r (f.add c w) (suc i) some_item (omega arith) in
      elim (Bool-cases (f.le r (f.add c w))) [
        | inl here ↦ (i, item, e, rw (here) (ground arith))
        | inr past ↦ (k, later, el, rw (past) q)
      ]

  pub weighted_choice_total :
      (P : String → Type 0) (items : List String) (ws : List F) (g : G)
      → 0 < length items
      → length ws ≤ length items
      → All P items
      → (item : String) × (g' : G) × P item × (weighted_choice rand items ws g ≡ done (item, g'))
  unfolding weighted_choice
  weighted_choice_total P items ws g some_item room all =
      let start = f.decimal 0 0 in
      let drawn = f.mul (rand.float64 g).0 (total_weight rand ws start) in
      let (k, item, e, q) = fall_total items ws drawn start 0 some_item (omega (arith, room)) in
      (item, (rand.float64 g).1, All-get_elem? P items k item all e, rw (q) refl)

  pick_total :
      (xs : List String) (g : G)
      → 0 < length xs
      → NonEmpty xs
      → (x : String) × (g' : G) × (x ≢ "") × (pick rand xs g ≡ done (x, g'))
  unfolding pick
  pick_total xs g some_item all =
      let i = (rand.intn (length xs) g).0 in
      let (x, e) = get_elem?-of_lt xs i (laws.intn_lt (length xs) g some_item) in
      (x, (rand.intn (length xs) g).1, All-get_elem? (λ s. s ≢ "") xs i x all e, rw (e) refl)

  -- The request of that index and code.
  pub generate_transaction_total :
      (format_rfc3339 : Time → String) (idx : ℕ) (code : String) (now : Time) (g : G)
      → code ≢ ""
      → (req : SubmitRequest) × (g' : G) × IsGenerated format_rfc3339 now req
        × (req.transaction_id ≡ join "txn_" (zero_padded 6 idx))
        × (req.decline_code ≡ code)
        × (generate_transaction rand format_rfc3339 idx code (now -ℤ hours 168) now g
            ≡ done (req, g'))
  unfolding generate_transaction
  generate_transaction_total format_rfc3339 idx code now g full =
      let (offset, g₁) = rand.int63n week_ns g in
      let (amount, g₂) = rand.intn 99_000 g₁ in
      let (currency, g₃, has_currency, e₁) =
        pick_total currencies g₂ (omega arith) (named currencies refl) in
      let (processor, g₄, _, e₂) = pick_total processors g₃ (omega arith) (named processors refl) in
      let (merchant, g₅, _, e₃) = pick_total merchants g₄ (omega arith) (named merchants refl) in
      let span = laws.int63n_lt week_ns g (omega arith) in
      let limit = laws.intn_lt 99_000 g₁ (omega arith) in
      (
        record {
          transaction_id = join "txn_" (zero_padded 6 idx);
          amount_cents = pos (1_000 + amount);
          currency = currency;
          customer_id = join "cust_" (zero_padded 6 ((rand.intn 5_000 g₅).0 + 1));
          merchant_id = merchant;
          original_processor = processor;
          decline_code = code;
          timestamp = format_rfc3339 (now -ℤ hours 168 +ℤ pos offset);
          webhook_url = "";
        },
        (rand.intn 5_000 g₅).1,
        record {
          complete = record {
            has_id = numbered idx;
            has_code = full;
            has_amount = omega arith;
            has_currency = has_currency;
          };
          amount = (1_000 + amount, refl, omega arith, omega (arith, limit));
          recent = (now -ℤ hours 168 +ℤ pos offset, refl, omega int_laws, omega (int_laws, span));
        },
        refl,
        refl,
        rw (week now, e₁, e₂, e₃) refl,
      )
