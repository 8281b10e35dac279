-- ===== src/Base/Loops.antt =====
-- Go code that can panic on an index out of range, and the counted loop over such code.
use Prim.Native.Nat.{ℕ, zero, suc, ◌+◌, ◌<◌}
use mathlib.Core.Path.{◌≡◌, refl}
use mathlib.Core.Option.{Option, none, some}
use mathlib.Core.List.{List, [], ◌∷◌}
use native.Mathlib.Omega.{arith}
use native.Mathlib.Nat.{add-zero, add-suc, suc-add}
use zenithpay_retry.Base.Lists.{length, get_elem?}

pub data Run {ℓ} (A : Type ℓ) : Type ℓ where
  panic : Run A
  done : A → Run A

infixl 5 ◌>>=◌
-- A panic ends the function: what follows does not run.
abbrev pub ◌>>=◌ {ℓ ℓ'} : {A : Type ℓ} {B : Type ℓ'} (run : Run A) (continue : A → Run B) → Run B
panic >>= continue = panic
done a >>= continue = continue a

module _ {ℓ} {A : Type ℓ} where
  abbrev pub or_panic : Option A → Run A
  or_panic none = panic
  or_panic (some a) = done a

  -- `xs[i]`, which panics out of range.
  abbrev pub index : List A → ℕ → Run A
  index xs i = or_panic (get_elem? xs i)

  -- `for i := start; i < start + n; i++ { out = append(out, f(i)) }`
  unfoldable pub collect : (n start : ℕ) → (ℕ → Run A) → Run (List A)
  collect zero start f = done []
  collect (suc n) start f = do x ← f start; xs ← collect n (suc start) f; done (x ∷ xs)

module _ {ℓ} {A : Type ℓ} where
  -- What a finished loop has computed: one entry for each index.
  abbrev pub Collects : (ℕ → Run A) → ℕ → List A → Type ℓ
  Collects f start [] = Unit
  Collects f start (x ∷ xs) = (f start ≡ done x) × Collects f (suc start) xs

  -- A loop whose body never panics finishes, with an entry for each index.
  pub collect_total :
      (n start : ℕ) (f : ℕ → Run A)
      → ((i : ℕ) → (a : A) × (f i ≡ done a))
      → (xs : List A) × (collect n start f ≡ done xs) × (length xs ≡ n) × Collects f start xs
  unfolding collect
  collect_total zero start f h = ([], refl, refl, tt)
  collect_total (suc n) start f h =
      let (x, e) = h start in
      let (xs, r, l, c) = collect_total n (suc start) f h in
      (x ∷ xs, ground arith, omega arith, (e, c))

  pub Collects-get_elem? :
      (f : ℕ → Run A) (start : ℕ) (xs : List A) (i : ℕ) (a : A)
      → Collects f start xs
      → get_elem? xs i ≡ some a
      → f (start + i) ≡ done a
  Collects-get_elem? f start [] i a c e = ground arith
  Collects-get_elem? f start (x ∷ xs) zero a c e = rw add-zero (ground arith)
  Collects-get_elem? f start (x ∷ xs) (suc i) a c e =
      rw (add-suc, ← suc-add) (Collects-get_elem? f (suc start) xs i a c.1 e)

  -- A loop whose first round panics does.
  pub collect_panic :
      (n start : ℕ) (f : ℕ → Run A) → 0 < n → f start ≡ panic → collect n start f ≡ panic
  unfolding collect
  collect_panic zero start f h e = elim h [ ]
  collect_panic (suc n) start f h e = rw e
