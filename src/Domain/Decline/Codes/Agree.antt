-- ===== src/Domain/Decline/Codes/Agree.antt =====
-- The reference lists of decline codes against the classifier.
use mathlib.Core.List.{append-nil, append_assoc}
use zenithpay_retry.Base.{
  ◌≡◌, ◌↔◌, refl, ◌∙◌, sym, String, true, not, ◌&&◌, List, [], ◌∷◌, ◌++◌, map, Dict, contains, elem,
  Enumerates, sort_slice, sort_slice-elem, ap, arith,
}
use zenithpay_retry.Domain.Models.{soft_decline}
use zenithpay_retry.Domain.Decline.{
  RetryStrategy, hard_decline_codes, is_hard_decline, classify_decline,
}
use zenithpay_retry.Domain.Decline.Plan.{classify_decline_lem}
use zenithpay_retry.Domain.Decline.Codes.{text_less, append_codes, get_all_decline_codes}

map_same : (xs : List String) → map (λ x. x) xs ≡ xs
map_same [] = refl
map_same (x ∷ xs) = ap (λ ys. x ∷ ys) (map_same xs)

elem-sorted : (xs : List String) (c : String) → elem c (sort_slice text_less xs) ≡ elem c xs
elem-sorted xs c =
    ap (elem c) (sym (map_same (sort_slice text_less xs)))
    ∙ sort_slice-elem text_less (λ x. x) xs c
    ∙ ap (elem c) (map_same xs)

append_codes_all : (result codes : List String) → append_codes result codes ≡ result ++ codes
unfolding append_codes
append_codes_all result [] = sym (append-nil result)
append_codes_all result (c ∷ codes) =
    append_codes_all (result ++ c ∷ []) codes ∙ append_assoc result (c ∷ []) codes

elem-listed :
    (order : List String) (c : String)
    → elem c (sort_slice text_less (append_codes [] order)) ≡ elem c order
elem-listed order c =
    elem-sorted (append_codes [] order) c ∙ ap (elem c) (append_codes_all [] order)

-- The lists against the two tests and the classifier, for one code.
pub get_all_decline_codes-Agrees :
    {F : Type 0} (strategies : Dict (RetryStrategy F)) (hard_order soft_order : List String)
    (code : String)
    → Enumerates hard_order hard_decline_codes
    → Enumerates soft_order strategies
    → let listed = get_all_decline_codes hard_order soft_order in
      (elem code listed.hard_declines ≡ is_hard_decline code)
      × (elem code listed.soft_declines ≡ contains code strategies)
      × ((classify_decline strategies code).0 ≡ soft_decline
          ↔ (elem code listed.soft_declines && not (elem code listed.hard_declines)) ≡ true)
unfolding get_all_decline_codes is_hard_decline
get_all_decline_codes-Agrees strategies hard_order soft_order code hard soft =
    let is_hard = elem-listed hard_order code ∙ hard.visits code in
    let is_soft = elem-listed soft_order code ∙ soft.visits code in
    let (to, from) = classify_decline_lem strategies code in
    (
      is_hard,
      is_soft,
      (λ e. ground (arith, is_hard, is_soft, to e), λ e. ground (arith, is_hard, is_soft, from)),
    )
