-- ===== src/Base/Swaps.antt =====
-- Slices that are written in place: `xs[i] = x`, and `xs[i], xs[j] = xs[j], xs[i]`.
use Prim.Native.Nat.{ℕ, zero, suc, ◌+◌, ◌<◌}
use mathlib.Core.Path.{◌≡◌, refl, sym, ◌∙◌, subst}
use mathlib.Core.Bool.{Bool}
use mathlib.Core.List.{List, [], ◌∷◌}
use mathlib.Core.Option.{Option, none, some}
use native.Mathlib.Omega.{arith}
use zenithpay_retry.Base.Tests.{if◌then◌else◌}
use zenithpay_retry.Base.Lists.{length, get_elem?, get_elem?-of_lt, All, All-get_elem?, count_where}
use zenithpay_retry.Base.Loops.{Run, done, index, ◌>>=◌}

module _ {ℓ} {A : Type ℓ} where
  abbrev set_at : List A → ℕ → A → List A
  set_at [] i y = []
  set_at (x ∷ xs) zero y = y ∷ xs
  set_at (x ∷ xs) (suc i) y = x ∷ set_at xs i y

  -- Both sides of the assignment panic on an index out of range.
  unfoldable pub swap : ℕ → ℕ → List A → Run (List A)
  swap i j xs = do x ← index xs i; y ← index xs j; done (set_at (set_at xs i y) j x)

  -- The calls of a `swap` function, one after the other.
  unfoldable pub apply_swaps : List (ℕ × ℕ) → List A → Run (List A)
  apply_swaps [] xs = done xs
  apply_swaps ((i, j) ∷ rest) xs = do ys ← swap i j xs; apply_swaps rest ys

module _ {ℓ} {A : Type ℓ} where
  length-set_at : (xs : List A) (i : ℕ) (y : A) → length (set_at xs i y) ≡ length xs
  length-set_at [] i y = refl
  length-set_at (x ∷ xs) zero y = refl
  length-set_at (x ∷ xs) (suc i) y = omega (arith, length-set_at xs i y)

  get_elem?-set_at :
      (xs : List A) (i j : ℕ) (x y : A)
      → get_elem? xs i ≡ some x
      → get_elem? xs j ≡ some y
      → get_elem? (set_at xs i y) j ≡ some y
  get_elem?-set_at [] i j x y e d = d
  get_elem?-set_at (z ∷ xs) zero zero x y e d = refl
  get_elem?-set_at (z ∷ xs) zero (suc j) x y e d = d
  get_elem?-set_at (z ∷ xs) (suc i) zero x y e d = d
  get_elem?-set_at (z ∷ xs) (suc i) (suc j) x y e d = get_elem?-set_at xs i j x y e d

  count_where-set_at :
      (p : A → Bool) (xs : List A) (i : ℕ) (x y : A)
      → get_elem? xs i ≡ some x
      → (if p x then 1 else 0) + count_where p (set_at xs i y)
        ≡ (if p y then 1 else 0) + count_where p xs
  count_where-set_at p [] i x y e = ground arith
  count_where-set_at p (z ∷ xs) zero x y e =
      subst
        (λ z.
          (if p x then 1 else 0) + count_where p (y ∷ xs)
          ≡ (if p y then 1 else 0) + count_where p (z ∷ xs))
        (mathlib.Core.Option.some-injective _ _ (sym e)) (omega arith)
  count_where-set_at p (z ∷ xs) (suc i) x y e = omega (arith, count_where-set_at p xs i x y e)

  All-set_at {κ} :
      (P : A → Type κ) (xs : List A) (i : ℕ) (y : A) → P y → All P xs → All P (set_at xs i y)
  All-set_at P [] i y h all = all
  All-set_at P (x ∷ xs) zero y h all = (h, all.1)
  All-set_at P (x ∷ xs) (suc i) y h all = (all.0, All-set_at P xs i y h all.1)

  -- The list has been rearranged: what holds of all entries, the length and every count are kept.
  pub record IsRearranged (xs ys : List A) : Type (ℓ + 1) where
    pub same_length : length ys ≡ length xs
    pub same_count : (p : A → Bool) → count_where p ys ≡ count_where p xs
    pub same_all : (P : A → Type ℓ) → All P xs → All P ys

  swap-IsRearranged :
      (i j : ℕ) (xs : List A)
      → i < length xs
      → j < length xs
      → (ys : List A) × (swap i j xs ≡ done ys) × IsRearranged xs ys
  unfolding swap
  swap-IsRearranged i j xs hi hj =
      let (x, ex) = get_elem?-of_lt xs i hi in
      let (y, ey) = get_elem?-of_lt xs j hj in
      (
        set_at (set_at xs i y) j x,
        ground arith,
        record {
          same_length = length-set_at (set_at xs i y) j x ∙ length-set_at xs i y;
          same_count = λ p.
              let first = count_where-set_at p xs i x y ex in
              let second =
                count_where-set_at p (set_at xs i y) j y x (get_elem?-set_at xs i j x y ex ey) in
              omega (arith, first, second);
          same_all = λ P all.
              All-set_at P (set_at xs i y) j x (All-get_elem? P xs i x all ex)
                (All-set_at P xs i y (All-get_elem? P xs j y all ey) all);
        },
      )

  -- Swaps in range rearrange the list, without a panic.
  pub apply_swaps-IsRearranged :
      (swaps : List (ℕ × ℕ)) (xs : List A)
      → All (λ (i, j). (i < length xs) × (j < length xs)) swaps
      → (ys : List A) × (apply_swaps swaps xs ≡ done ys) × IsRearranged xs ys
  unfolding apply_swaps
  apply_swaps-IsRearranged [] xs h =
      (xs, refl, record { same_length = refl; same_count = λ p. refl; same_all = λ P all. all })
  apply_swaps-IsRearranged ((i, j) ∷ rest) xs h =
      let (ys, e, r) = swap-IsRearranged i j xs h.0.0 h.0.1 in
      let (zs, e', r') =
        apply_swaps-IsRearranged rest ys
          (subst (λ n. All (λ (i, j). (i < n) × (j < n)) rest) (sym r.same_length) h.1) in
      (
        zs,
        ground arith,
        record {
          same_length = r'.same_length ∙ r.same_length;
          same_count = λ p. r'.same_count p ∙ r.same_count p;
          same_all = λ P all. r'.same_all P (r.same_all P all);
        },
      )
