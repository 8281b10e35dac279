-- ===== src/Base/Text.antt =====
-- `%d` of fmt.Sprintf on a number that is not negative.
use Prim.Native.Nat.{ℕ, zero, suc, ◌/◌, ◌%◌, ◌^◌, ◌<◌}
use Prim.Native.String.{String, ◌++◌, count}
use mathlib.Core.Path.{◌≡◌, refl, ap, sym, ◌∙◌}
use mathlib.Core.Bool.{Bool, true, not, ◌&&◌, ◌||◌}
use native.Mathlib.Omega.{arith}
use text.Mathlib.Text.{◌==◌ as str_eq}
use text.Mathlib.TextEquality.{eq_iff}
use text.Mathlib.TextLemmas.{append_inj, length-append}
use zenithpay_retry.Base.Tests.{ltb, ◌==◌, if◌then◌else◌}

abbrev digit : ℕ → String
digit zero = "0"
digit (suc zero) = "1"
digit (suc (suc zero)) = "2"
digit (suc (suc (suc zero))) = "3"
digit (suc (suc (suc (suc zero)))) = "4"
digit (suc (suc (suc (suc (suc zero))))) = "5"
digit (suc (suc (suc (suc (suc (suc zero)))))) = "6"
digit (suc (suc (suc (suc (suc (suc (suc zero))))))) = "7"
digit (suc (suc (suc (suc (suc (suc (suc (suc zero)))))))) = "8"
digit (suc (suc (suc (suc (suc (suc (suc (suc (suc n))))))))) = "9"

-- The number has at most as many digits as its value plus one.
digits_from : ℕ → ℕ → String
digits_from zero n = ""
digits_from (suc fuel) n =
    let front = digits_from fuel (n / 10) in if ltb n 10 then digit n else front ++ digit (n % 10)

unfoldable pub itoa : ℕ → String
unfolding digits_from
itoa n = digits_from (suc n) n

-- The k lowest decimal digits.
low_digits : ℕ → ℕ → String
low_digits zero n = ""
low_digits (suc k) n = low_digits k (n / 10) ++ digit (n % 10)

-- `%0kd` of fmt.Sprintf on a number that is not negative.
unfoldable pub zero_padded : ℕ → ℕ → String
unfolding low_digits
zero_padded k n = if ltb n (10 ^ k) then low_digits k n else itoa n

-- A test that passes below a bound.
abbrev all_below : ℕ → (ℕ → Bool) → Bool
all_below zero p = true
all_below (suc n) p = p n && all_below n p

all_below_lem : (n : ℕ) (p : ℕ → Bool) (i : ℕ) → all_below n p ≡ true → i < n → p i ≡ true
all_below_lem zero p i h l = elim l [ ]
all_below_lem (suc n) p i h l =
    let rest = all_below_lem n p i in
    let last : i ≡ n → p i ≡ p n = λ e. ap p e in ground (arith, rest, last)

digit_inj : (a b : ℕ) → a < 10 → b < 10 → digit a ≡ digit b → a ≡ b
digit_inj a b ha hb e =
    let row =
      all_below_lem 10 (λ b. not (str_eq (digit a) (digit b)) || a == b) b
        (all_below_lem 10 (λ a. all_below 10 (λ b. not (str_eq (digit a) (digit b)) || a == b)) a
          refl ha)
        hb in
    ground (arith, row, eq_iff (digit a) (digit b))

count-digit : (a : ℕ) → a < 10 → count (digit a) ≡ 1
count-digit a h =
    let one = all_below_lem 10 (λ a. count (digit a) == 1) a refl h in ground (arith, one)

rem_lt : (n : ℕ) → n % 10 < 10
rem_lt n = omega arith

count-low_digits : (k n : ℕ) → count (low_digits k n) ≡ k
unfolding low_digits
count-low_digits zero n = refl
count-low_digits (suc k) n = omega (
  arith,
  length-append (low_digits k (n / 10)) (digit (n % 10)),
  count-low_digits k (n / 10),
  count-digit (n % 10) (rem_lt n),
)

low_digits_inj : (k m n : ℕ) → m < 10 ^ k → n < 10 ^ k → low_digits k m ≡ low_digits k n → m ≡ n
unfolding low_digits
low_digits_inj zero m n hm hn e = omega arith
low_digits_inj (suc k) m n hm hn e =
    let (front, last) =
      append_inj e (count-low_digits k (m / 10) ∙ sym (count-low_digits k (n / 10))) in
    let same_front = low_digits_inj k (m / 10) (n / 10) (omega arith) (omega arith) front in
    let same_last = digit_inj (m % 10) (n % 10) (rem_lt m) (rem_lt n) last in
    omega (arith, same_front, same_last)

pub zero_padded_inj :
    (k m n : ℕ) → m < 10 ^ k → n < 10 ^ k → zero_padded k m ≡ zero_padded k n → m ≡ n
unfolding zero_padded
zero_padded_inj k m n hm hn e = low_digits_inj k m n hm hn (ground arith)
