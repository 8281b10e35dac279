-- ===== src/Base/IntMaps.antt =====
-- Go's maps with keys of type int, none of them negative, as association lists.
use Prim.Native.Nat.{ℕ}
use mathlib.Core.Path.{◌≡◌, refl}
use mathlib.Core.Bool.{Bool, true, false}
use mathlib.Core.Option.{Option, none, some}
use mathlib.Core.List.{List, [], ◌∷◌}
use native.Mathlib.Omega.{arith}
use zenithpay_retry.Base.Tests.{◌==◌, if◌then◌else◌}

abbrev pub IntDict {ℓ} : Type ℓ → Type ℓ
IntDict V = List (ℕ × V)

module _ {ℓ} {V : Type ℓ} where
  -- `v, ok := m[n]`
  unfoldable pub lookup_int : ℕ → IntDict V → Option V
  lookup_int n [] = none
  lookup_int n ((first, v) ∷ rest) = if first == n then some v else lookup_int n rest

  -- `m[n] = v`
  unfoldable pub insert_int : ℕ → V → IntDict V → IntDict V
  insert_int n v [] = (n, v) ∷ []
  insert_int n v ((first, old) ∷ rest) =
      if first == n then (n, v) ∷ rest else (first, old) ∷ insert_int n v rest

module _ {ℓ} {V : Type ℓ} where
  -- `_, ok := m[n]`
  abbrev pub contains_int : ℕ → IntDict V → Bool
  contains_int n m = elim (lookup_int n m) [ none ↦ false | some _ ↦ true ]

  pub lookup_int-insert_int :
      (n other : ℕ) (v : V) (m : IntDict V)
      → lookup_int other (insert_int n v m) ≡ (if n == other then some v else lookup_int other m)
  unfolding lookup_int insert_int
  lookup_int-insert_int n other v [] = refl
  lookup_int-insert_int n other v ((first, old) ∷ rest) =
      let later = lookup_int-insert_int n other v rest in ground (arith, later)
