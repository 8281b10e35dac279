-- ===== src/Examples/Ranges.antt =====
-- An order in which a range can visit a map, and libraries to run the program with.
use native.Mathlib.Nat.{mod-lt}
use zenithpay_retry.Base.{
  ℕ, zero, suc, ◌-◌, ◌%◌, ◌<◌, ◌≡◌, refl, String, Bool, true, false, List, [], ◌∷◌, map, inr, Dict,
  IntDict, lookup, contains, elem, Enumerates, lookup_int, contains_int, count_where, All, eq_iff,
  ◌==◌, Bool-cases, inl, arith, if◌then◌else◌, itoa,
}
use zenithpay_retry.Float.{Micros, micros_float}
use zenithpay_retry.Seed.{Rand, soft_count}
use zenithpay_retry.Seed.Requests.{IsRandom}
use zenithpay_retry.Server.{Library, Ranges}
use zenithpay_retry.Server.Safe.{IsSound, AreRanges}
use zenithpay_retry.Examples.Scenario.{request, no_time}

-- The keys of a map, each once.
abbrev pub keys : {V : Type 0} → Dict V → List String
keys [] = []
keys ((k, v) ∷ m) = let rest = keys m in if elem k rest then rest else k ∷ rest

keys-visits : {V : Type 0} (m : Dict V) (j : String) → elem j (keys m) ≡ contains j m
unfolding elem lookup
keys-visits [] j = refl
keys-visits ((k, v) ∷ m) j = let rest = keys-visits m j in ground (arith, rest, eq_iff k j)

keys-Distinct : {V : Type 0} (m : Dict V) → zenithpay_retry.Base.Distinct (keys m)
keys-Distinct [] = tt
keys-Distinct ((k, v) ∷ m) = elim (Bool-cases (elem k (keys m))) [
  | inl e ↦ rw e (keys-Distinct m)
  | inr e ↦ rw e (e, keys-Distinct m)
]

pub keys-Enumerates : {V : Type 0} (m : Dict V) → Enumerates (keys m) m
keys-Enumerates m = record { visits = keys-visits m; distinct = keys-Distinct m }

abbrev pub int_keys : {V : Type 0} → IntDict V → List ℕ
int_keys [] = []
int_keys ((k, v) ∷ m) = let rest = int_keys m in if contains_int k m then rest else k ∷ rest

pub int_keys_once :
    {V : Type 0} (m : IntDict V) (n : ℕ)
    → count_where (λ k. k == n) (int_keys m) ≡ (if contains_int n m then 1 else 0)
unfolding lookup_int
int_keys_once [] n = refl
int_keys_once ((k, v) ∷ m) n = let rest = int_keys_once m n in ground (arith, rest)

abbrev pub ranges : Ranges Micros
ranges = record {
  transactions = keys;
  pending = keys;
  hard_codes = keys;
  strategy_codes = keys;
  reasons = keys;
  numbers = int_keys;
}

pub ranges-AreRanges : AreRanges ranges
ranges-AreRanges m = keys-Enumerates m

abbrev ends : ℕ → List (ℕ × ℕ)
ends zero = []
ends (suc n) = (0, n) ∷ []

-- Numbers counted up in place of random ones.
abbrev pub counter : Rand ℕ Micros
counter = record {
  new_rand = λ z. 7;
  intn = λ n g. (g % n, suc g);
  int63n = λ n g. (g % n, suc g);
  float64 = λ g. (500_000, suc g);
  swaps = λ n g. ends n;
}

pub counter-IsRandom : IsRandom counter
counter-IsRandom = record {
  intn_lt = λ n g h. mod-lt g h;
  int63n_lt = λ n g h. mod-lt g h;
  swaps_lt = λ n g. in_range n;
}
  where
    in_range : (n : ℕ) → All (λ (i, j). (i < n) × (j < n)) (ends n)
    in_range zero = tt
    in_range (suc n) = ((omega arith, omega arith), tt)

-- A decoder that knows one body.
abbrev pub library : Library ℕ Micros
library = record {
  decode = λ limit body. inr request;
  parse_rfc3339 = no_time;
  format_rfc3339 = λ t. "";
  unix_nano = λ t. t;
  duration_string = λ d. "";
  rand = counter;
}

pub library-IsSound : IsSound library
unfolding soft_count
library-IsSound = record { random = counter-IsRandom; part = omega arith }
