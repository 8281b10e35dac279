-- ===== src/Domain/Decline/Codes.antt =====
-- internal/domain/decline.go, GetAllDeclineCodes. The two `range` loops visit their maps in an
-- order that the runtime chooses, which is an argument for each.
pub mod Agree
use Prim.Native.String.{String, compare}
use Prim.Native.Nat.{Ordering}
use zenithpay_retry.Base.{Bool, true, false, List, [], ◌∷◌, ◌++◌, sort_slice}

-- s < t
abbrev pub text_less : String → String → Bool
text_less s t = elim (compare s t) [ Ordering.lt ↦ true | _ ↦ false ]

pub record DeclineCodes : Type 0 where
  pub hard_declines : List String
  pub soft_declines : List String

-- A loop that appends each code to the result.
unfoldable pub append_codes : List String → List String → List String
append_codes result [] = result
append_codes result (code ∷ codes) = append_codes (result ++ code ∷ []) codes

unfoldable pub get_all_decline_codes : List String → List String → DeclineCodes
unfolding append_codes
get_all_decline_codes hard_order soft_order = record {
  hard_declines = sort_slice text_less (append_codes [] hard_order);
  soft_declines = sort_slice text_less (append_codes [] soft_order);
}
