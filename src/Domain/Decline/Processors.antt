-- ===== src/Domain/Decline/Processors.antt =====
-- Which processor a retry goes to.
use zenithpay_retry.Base.{
  ℕ, zero, suc, ◌%◌, ◌≤◌, ◌<◌, ◌≡◌, refl, String, Bool, true, false, List, [], ◌∷◌, done, index,
  length, get_elem?-of_lt, All, All-get_elem?, elem, str_eq, eq_iff, arith, Bool-cases, inl, inr,
}
use native.Mathlib.Nat.{mod-lt}
use mathlib.Core.Path.{subst}
use zenithpay_retry.Domain.Decline.{
  available_processors, other_processors, get_available_processors, processor_at,
}

abbrev IsOther : String → List String → String → Type 0
IsOther excluded all p = (str_eq p excluded ≡ false) × (elem p all ≡ true)

weaken-IsOther :
    (excluded q : String) (all ps : List String)
    → All (IsOther excluded all) ps
    → All (IsOther excluded (q ∷ all)) ps
unfolding elem
weaken-IsOther excluded q all [] h = tt
weaken-IsOther excluded q all (p ∷ ps) h = (ground arith, weaken-IsOther excluded q all ps h.1)

other_processors-IsOther :
    (excluded : String) (ps : List String)
    → All (IsOther excluded ps) (other_processors excluded ps)
unfolding other_processors elem
other_processors-IsOther excluded [] = tt
other_processors-IsOther excluded (p ∷ ps) = ground (
  arith,
  eq_iff p p,
  weaken-IsOther excluded p ps (other_processors excluded ps)
      (other_processors-IsOther excluded ps),
)

length-skip-le :
    (excluded p : String) (ps : List String)
    → length (other_processors excluded ps) ≤ length (other_processors excluded (p ∷ ps))
unfolding other_processors
length-skip-le excluded p ps = ground arith

kept_pos :
    (excluded p : String) (ps : List String)
    → str_eq p excluded ≡ false
    → 0 < length (other_processors excluded (p ∷ ps))
unfolding other_processors
kept_pos excluded p ps h = ground arith

-- There is another processor, whichever one is excluded.
pub get_available_processors_pos :
    (excluded : String) → 0 < length (get_available_processors excluded)
unfolding get_available_processors available_processors
get_available_processors_pos excluded = elim (Bool-cases (str_eq "stripe_latam" excluded)) [
  | inr e ↦ kept_pos excluded "stripe_latam" _ e
  | inl e ↦
      subst (λ x. 0 < length (get_available_processors x)) ((eq_iff _ _).0 e)
        (unfold other_processors in omega arith)
]

alternate_lem :
    (original : String) (j : ℕ)
    → (p : String) × (index
          (get_available_processors original)
          (j % length (get_available_processors original))
        ≡ done p)
      × IsOther original available_processors p
unfolding get_available_processors
alternate_lem original j =
    let others = get_available_processors original in
    let (p, e) =
      get_elem?-of_lt others (j % length others)
        (mod-lt j (get_available_processors_pos original)) in
    (
      p,
      rw e,
      All-get_elem? (IsOther original available_processors) others _ p
          (other_processors-IsOther original available_processors) e,
    )

-- What is said of the processor of attempt i + 1: it is the original one, or, from the second
-- attempt of a strategy with alternates on, one of the available processors but the original.
abbrev pub IsChosen : Bool → String → ℕ → String → Type 0
IsChosen true original (suc i) p = IsOther original available_processors p
IsChosen _ original _ p = p ≡ original

pub processor_at_lem :
    (alternate : Bool) (original : String) (i : ℕ)
    → (p : String) × (processor_at alternate original (get_available_processors original) i
        ≡ done p)
      × IsChosen alternate original i p
unfolding processor_at
processor_at_lem false original i = (original, refl, refl)
processor_at_lem true original zero = (original, refl, refl)
processor_at_lem true original (suc i) =
    let (p, e, o) = alternate_lem original i in
    (p, ground (arith, get_available_processors_pos original), o)
