-- ===== src/Float.antt =====
-- float64: the operations that the program applies. The language's floating-point arithmetic is a
-- parameter: no theorem uses more of it than is written in the theorem's hypotheses.
use zenithpay_retry.Base.{ℕ, ◌*◌, ◌/◌, ◌+◌, Bool, ℤ, pos, pos_part, ltb, leb}

pub record Float64 (F : Type 0) : Type 0 where
  -- The literal n / 10^k, for `decimal n k`.
  pub decimal : ℕ → ℕ → F
  -- float64(n)
  pub of_int : ℤ → F
  -- int64(x)
  pub to_int : F → ℤ
  pub add : F → F → F
  pub mul : F → F → F
  pub div : F → F → F
  pub lt : F → F → Bool
  pub le : F → F → Bool

-- Whole millionths, for the examples: negative numbers are cut to 0.
abbrev pub Micros : Type 0
Micros = ℕ

abbrev scaled : ℕ → ℕ → ℕ
scaled n k = n * 1_000_000 / Prim.Native.Nat.◌^◌ 10 k

instance abbrev pub micros_float : Float64 Micros
micros_float = record {
  decimal = scaled;
  of_int = λ z. pos_part z * 1_000_000;
  to_int = λ x. pos (x / 1_000_000);
  add = λ x y. x + y;
  mul = λ x y. x * y / 1_000_000;
  div = λ x y. x * 1_000_000 / y;
  lt = ltb;
  le = leb;
}
