-- ===== src/Handler/Codes.antt =====
-- GET /api/decline-codes.
use zenithpay_retry.Base.{
  ◌≡◌, ◌↔◌, refl, ◌∙◌, String, Bool, true, false, not, ◌&&◌, Option, none, some, List, [], ◌∷◌,
  Dict, lookup, insert, lookup-insert, contains, elem, Enumerates, eq_iff, Option-cases, inl, inr,
  arith, if◌then◌else◌,
}
use zenithpay_retry.Time.{Duration}
use zenithpay_retry.Domain.Models.{soft_decline}
use zenithpay_retry.Domain.Decline.{
  RetryStrategy, hard_decline_codes, is_hard_decline, classify_decline, get_retry_strategy,
}
use zenithpay_retry.Domain.Decline.Codes.{DeclineCodes, get_all_decline_codes}
use zenithpay_retry.Domain.Decline.Codes.Agree.{get_all_decline_codes-Agrees}
use zenithpay_retry.Handler.{
  reply, decline_codes, StrategyInfo, strategy_info, add_strategies, handle_get_decline_codes,
}

abbrev is_some : {A : Type 0} → Option A → Bool
is_some found = elim found [ none ↦ false | some _ ↦ true ]

module _ {F : Type 0} (duration_string : Duration → String) (table : Dict (RetryStrategy F)) where
  -- What is told of a strategy that was looked up.
  abbrev pub info_of : Option (RetryStrategy F) → Option StrategyInfo
  info_of none = none
  info_of (some s) = some (strategy_info duration_string s)

  lookup-add_strategies :
      (codes : List String) (infos : Dict StrategyInfo) (code : String)
      → lookup code (add_strategies duration_string table codes infos) ≡ (
          if elem code codes && contains code table
          then info_of (lookup code table)
          else lookup code infos)
  unfolding add_strategies elem get_retry_strategy
  lookup-add_strategies [] infos code = refl
  lookup-add_strategies (c ∷ codes) infos code = elim (Option-cases (lookup c table)) [
    | inl e ↦
        let rest = lookup-add_strategies codes infos code in
        rw (e, add_strategies) (ground (arith, rest, e, eq_iff c code))
    | inr (s, e) ↦
        let infos' = insert c (strategy_info duration_string s) infos in
        let rest = lookup-add_strategies codes infos' code in
        let here = lookup-insert c code (strategy_info duration_string s) infos in
        rw (e, add_strategies) (ground (arith, rest, here, e, eq_iff c code))
  ]

  told :
      (code : String) (found : Option (RetryStrategy F)) {among : Bool}
      → among ≡ is_some found
      → (if among && is_some found then info_of found else lookup code []) ≡ info_of found
  unfolding lookup
  told code none e = ground (arith, e)
  told code (some s) e = ground (arith, e)

  -- Whatever the orders of the two ranges, GET /api/decline-codes answers 200 and lists a code as
  -- hard exactly when IsHardDecline does, as soft exactly when it has a strategy, and with the
  -- details of its strategy if it has one; ClassifyDecline answers soft for exactly the codes that
  -- are listed as soft and not as hard.
  pub handle_get_decline_codes-Agrees :
      (hard_order soft_order : List String) (code : String)
      → Enumerates hard_order hard_decline_codes
      → Enumerates soft_order table
      → (listed : DeclineCodes) × (infos : Dict StrategyInfo) × (handle_get_decline_codes
            duration_string table hard_order soft_order
          ≡ reply 200 (decline_codes listed infos))
        × (elem code listed.hard_declines ≡ is_hard_decline code)
        × (elem code listed.soft_declines ≡ contains code table)
        × (lookup code infos ≡ info_of (lookup code table))
        × ((classify_decline table code).0 ≡ soft_decline
            ↔ (elem code listed.soft_declines && not (elem code listed.hard_declines)) ≡ true)
  unfolding handle_get_decline_codes
  handle_get_decline_codes-Agrees hard_order soft_order code hard soft =
      let listed = get_all_decline_codes hard_order soft_order in
      let (is_hard, is_soft, agree) =
        get_all_decline_codes-Agrees table hard_order soft_order code hard soft in
      (
        listed,
        add_strategies duration_string table listed.soft_declines [],
        refl,
        is_hard,
        is_soft,
        lookup-add_strategies listed.soft_declines [] code ∙ told code (lookup code table) is_soft,
        agree,
      )
