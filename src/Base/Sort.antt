-- ===== src/Base/Sort.antt =====
-- sort.Slice, as insertion sort. Go's sort is not stable: which of its results comes out depends on
-- the order of the input, and so it does here.
use Prim.Native.String.{String}
use mathlib.Core.Path.{◌≡◌, refl, ap, ◌∙◌}
use mathlib.Core.Bool.{Bool, true, false, ◌||◌}
use mathlib.Core.List.{List, [], ◌∷◌, map}
use native.Mathlib.Omega.{arith}
use text.Mathlib.Text.{◌==◌ as str_eq}
use zenithpay_retry.Base.Lists.{All, count_where}
use zenithpay_retry.Base.Maps.{elem}
use zenithpay_retry.Base.Tests.{if◌then◌else◌}

module _ {ℓ} {A : Type ℓ} (less : A → A → Bool) where
  unfoldable pub insert_sorted : A → List A → List A
  insert_sorted x [] = x ∷ []
  insert_sorted x (y ∷ ys) = if less y x then y ∷ insert_sorted x ys else x ∷ y ∷ ys

  unfoldable pub sort_slice : List A → List A
  unfolding insert_sorted
  sort_slice [] = []
  sort_slice (x ∷ xs) = insert_sorted x (sort_slice xs)

module _ {ℓ κ} {A : Type ℓ} (less : A → A → Bool) (P : A → Type κ) where
  pub insert_sorted-All : (x : A) (xs : List A) → P x → All P xs → All P (insert_sorted less x xs)
  unfolding insert_sorted
  insert_sorted-All x [] p h = (p, tt)
  insert_sorted-All x (y ∷ ys) p h = split (less y x) (insert_sorted-All x ys p h.1)
    where
      split :
          (b : Bool)
          → All P (insert_sorted less x ys)
          → All P (if b then y ∷ insert_sorted less x ys else x ∷ y ∷ ys)
      split true rest = (h.0, rest)
      split false rest = (p, h)

  pub sort_slice-All : (xs : List A) → All P xs → All P (sort_slice less xs)
  unfolding sort_slice
  sort_slice-All [] h = tt
  sort_slice-All (x ∷ xs) h = insert_sorted-All x (sort_slice less xs) h.0 (sort_slice-All xs h.1)

-- Sorting keeps what is found under a key.
module _ {ℓ} {A : Type ℓ} (less : A → A → Bool) (key : A → String) where
  pub insert_sorted-elem :
      (x : A) (xs : List A) (k : String)
      → elem k (map key (insert_sorted less x xs)) ≡ (str_eq (key x) k || elem k (map key xs))
  unfolding insert_sorted elem
  insert_sorted-elem x [] k = refl
  insert_sorted-elem x (y ∷ ys) k = let rest = insert_sorted-elem x ys k in ground (arith, rest)

  pub sort_slice-elem :
      (xs : List A) (k : String) → elem k (map key (sort_slice less xs)) ≡ elem k (map key xs)
  unfolding sort_slice elem
  sort_slice-elem [] k = refl
  sort_slice-elem (x ∷ xs) k =
      insert_sorted-elem x (sort_slice less xs) k
      ∙ ap (λ b. str_eq (key x) k || b) (sort_slice-elem xs k)

-- Sorting keeps how many entries pass a test.
module _ {ℓ} {A : Type ℓ} (less : A → A → Bool) (test : A → Bool) where
  insert_sorted-count_where :
      (x : A) (xs : List A) → count_where test (insert_sorted less x xs) ≡ count_where test (x ∷ xs)
  unfolding insert_sorted
  insert_sorted-count_where x [] = refl
  insert_sorted-count_where x (y ∷ ys) =
      let rest = insert_sorted-count_where x ys in ground (arith, rest)

  pub sort_slice-count_where :
      (xs : List A) → count_where test (sort_slice less xs) ≡ count_where test xs
  unfolding sort_slice
  sort_slice-count_where [] = refl
  sort_slice-count_where (x ∷ xs) =
      let rest = sort_slice-count_where xs in
      let here = insert_sorted-count_where x (sort_slice less xs) in omega (arith, rest, here)
