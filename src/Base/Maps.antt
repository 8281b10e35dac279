-- ===== src/Base/Maps.antt =====
-- Go's maps with string keys, as association lists, and the order in which a `range` visits them.
use Prim.Native.String.{String}
use mathlib.Core.Path.{◌≡◌, refl}
use mathlib.Core.Bool.{Bool, true, false, ◌||◌}
use mathlib.Core.Option.{Option, none, some}
use mathlib.Core.List.{List, [], ◌∷◌}
use native.Mathlib.Omega.{arith}
use text.Mathlib.Text.{◌==◌ as str_eq}
use text.Mathlib.TextEquality.{eq_iff}
use zenithpay_retry.Base.Tests.{if◌then◌else◌}

abbrev pub Dict {ℓ} : Type ℓ → Type ℓ
Dict V = List (String × V)

module _ {ℓ} {V : Type ℓ} where
  -- `v, ok := m[k]`
  unfoldable pub lookup : String → Dict V → Option V
  lookup k [] = none
  lookup k ((first, v) ∷ rest) = if str_eq first k then some v else lookup k rest

  -- `m[k] = v`
  unfoldable pub insert : String → V → Dict V → Dict V
  insert k v [] = (k, v) ∷ []
  insert k v ((first, old) ∷ rest) =
      if str_eq first k then (k, v) ∷ rest else (first, old) ∷ insert k v rest

  -- `delete(m, k)`
  unfoldable pub erase : String → Dict V → Dict V
  erase k [] = []
  erase k ((j, w) ∷ m) = let rest = erase k m in if str_eq j k then rest else (j, w) ∷ rest

module _ {ℓ} {V : Type ℓ} where
  -- `_, ok := m[k]; return ok`
  abbrev pub contains : String → Dict V → Bool
  contains k m = elim (lookup k m) [ none ↦ false | some _ ↦ true ]

  pub lookup-insert :
      (key other : String) (v : V) (m : Dict V)
      → lookup other (insert key v m) ≡ (if str_eq key other then some v else lookup other m)
  unfolding lookup insert
  lookup-insert key other v [] = refl
  lookup-insert key other v ((first, w) ∷ m) =
      let rest = lookup-insert key other v m in
      ground (arith, rest, eq_iff first other, eq_iff first key, eq_iff key other)

  pub lookup-erase :
      (key other : String) (m : Dict V)
      → lookup other (erase key m) ≡ (if str_eq key other then none else lookup other m)
  unfolding lookup erase
  lookup-erase key other [] = ground arith
  lookup-erase key other ((first, w) ∷ m) =
      let rest = lookup-erase key other m in
      ground (arith, rest, eq_iff first other, eq_iff first key, eq_iff key other)

unfoldable pub elem : String → List String → Bool
elem k [] = false
elem k (j ∷ js) = str_eq j k || elem k js

-- No key twice.
abbrev pub Distinct : List String → Type 0
Distinct [] = Unit
Distinct (k ∷ ks) = (elem k ks ≡ false) × Distinct ks

-- A `range` over a map visits every key once, in an order that the runtime chooses.
pub record Enumerates {V : Type 0} (order : List String) (m : Dict V) : Type 0 where
  pub visits : (k : String) → elem k order ≡ contains k m
  pub distinct : Distinct order
