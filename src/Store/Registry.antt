-- ===== src/Store/Registry.antt =====
-- What the store promises to its callers: a registry of transactions by id, without the map and the
-- pending index that represent it.
use mathlib.Core.Path.{fun_ext, subst}
use zenithpay_retry.Base.{
  String, ◌≡◌, refl, ap, ◌∙◌, Bool, true, false, Option, none, some, List, [], ◌∷◌, lookup, Outcome,
  ok, err, panicked, str_eq, Option-cases, inl, inr, if◌then◌else◌,
}
use zenithpay_retry.Domain.Models.{Transaction}
use zenithpay_retry.Store.{
  Store, StoreError, already_exists, UpdateError, missing, refused, put, save, save_if_not_exists,
  finish_update, update_func, get, exists, clear,
}
use zenithpay_retry.Store.Index.{lookup-put}

abbrev pub Registry : Type 0
Registry = String → Option Transaction

-- The registry that a store represents.
abbrev pub view : Store → Registry
view s id = lookup id s.transactions

abbrev pub assign : String → Transaction → Registry → Registry
assign id tx m j = if str_eq id j then some tx else m j

abbrev pub is_known : Option Transaction → Bool
is_known none = false
is_known (some _) = true

view-put : (id : String) (tx : Transaction) (s : Store) → view (put id tx s) ≡ assign id tx (view s)
view-put id tx s = fun_ext λ j. lookup-put id j tx s

module _ (E R : Type 0) where
  -- A call of the store. The callback of an update answers the new transaction and what it captures,
  -- or fails, or panics.
  pub data Command : Type 0 where
    gets exists_with : String → Command
    saves saves_new : Transaction → Command
    updates : String → (Transaction → Outcome E (Transaction × R)) → Command
    clears : Command

  -- What a call returns.
  pub data Answer : Type 0 where
    found : Option Transaction → Answer
    known : Bool → Answer
    saved : Option StoreError → Answer
    updated : Outcome (UpdateError E) R → Answer
    completed : Answer

module _ {E R : Type 0} where
  -- The store's own operations.
  abbrev pub perform : Command E R → Store → Store × Answer E R
  perform (gets id) s = (s, found (get id s))
  perform (exists_with id) s = (s, known (exists id s))
  perform (saves tx) s = (save tx s, completed)
  perform (saves_new tx) s = let (s', failure) = save_if_not_exists tx s in (s', saved failure)
  perform (updates id fn) s = let (s', r) = update_func id fn s in (s', updated r)
  perform clears s = (clear s, completed)

  abbrev pub enter_new : Option Transaction → Transaction → Registry → Registry × Answer E R
  enter_new (some _) tx m = (m, saved (some already_exists))
  enter_new none tx m = (assign tx.id tx m, saved none)

  abbrev pub amend : String → Outcome E (Transaction × R) → Registry → Registry × Answer E R
  amend id (ok (tx, captured)) m = (assign id tx m, updated (ok captured))
  amend id (err e) m = (m, updated (err (refused e)))
  amend id panicked m = (m, updated panicked)

  abbrev pub amend_known :
      String
      → Option Transaction
      → (Transaction → Outcome E (Transaction × R))
      → Registry
      → Registry × Answer E R
  amend_known id none fn m = (m, updated (err missing))
  amend_known id (some tx) fn m = amend id (fn tx) m

  -- The same calls on a registry.
  abbrev pub specified : Command E R → Registry → Registry × Answer E R
  specified (gets id) m = (m, found (m id))
  specified (exists_with id) m = (m, known (is_known (m id)))
  specified (saves tx) m = (assign tx.id tx m, completed)
  specified (saves_new tx) m = enter_new (m tx.id) tx m
  specified (updates id fn) m = amend_known id (m id) fn m
  specified clears m = (λ id. none, completed)

  -- The store after a call represents the registry after it, and both answer the same.
  abbrev Refines : Store × Answer E R → Registry × Answer E R → Type 0
  Refines (s, a) (m, b) = (view s ≡ m) × (a ≡ b)

  finish_update-Refines :
      (id : String) (s : Store) (o : Outcome E (Transaction × R))
      → let (s', r) = finish_update id s o in Refines (s', updated r) (amend id o (view s))
  unfolding finish_update
  finish_update-Refines id s (ok (tx, captured)) = (view-put id tx s, refl)
  finish_update-Refines id s (err e) = (refl, refl)
  finish_update-Refines id s panicked = (refl, refl)

  perform-Refines : (c : Command E R) (s : Store) → Refines (perform c s) (specified c (view s))
  unfolding get exists save save_if_not_exists update_func clear lookup
  perform-Refines (gets id) s = (refl, refl)
  perform-Refines (exists_with id) s = (refl, ap known (same (lookup id s.transactions)))
    where
      same :
          (o : Option Transaction)
          → (elim o as (λ _. Bool) [ none ↦ false | some _ ↦ true ]) ≡ is_known o
      same none = refl
      same (some tx) = refl
  perform-Refines (saves tx) s = (view-put tx.id tx s, refl)
  perform-Refines (saves_new tx) s = elim (Option-cases (lookup tx.id s.transactions)) [
    | inl e ↦ rw (e, save_if_not_exists, enter_new) (view-put tx.id tx s, refl)
    | inr (u, e) ↦ rw (e, save_if_not_exists, enter_new) (refl, refl)
  ]
  perform-Refines (updates id fn) s = elim (Option-cases (lookup id s.transactions)) [
    | inl e ↦ rw (e, update_func, amend_known) (refl, refl)
    | inr (tx, e) ↦ rw (e, update_func, amend_known) (finish_update-Refines id s (fn tx))
  ]
  perform-Refines clears s = (refl, refl)

  -- Calls one after the other, with their answers.
  abbrev pub performed : List (Command E R) → Store → Store × List (Answer E R)
  performed [] s = (s, [])
  performed (c ∷ cs) s =
      let (s', a) = perform c s in let (s'', answers) = performed cs s' in (s'', a ∷ answers)

  abbrev pub all_specified : List (Command E R) → Registry → Registry × List (Answer E R)
  all_specified [] m = (m, [])
  all_specified (c ∷ cs) m =
      let (m', a) = specified c m in let (m'', answers) = all_specified cs m' in (m'', a ∷ answers)

  -- Any sequence of Get, Exists, Save, SaveIfNotExists, UpdateFunc and Clear, whatever the
  -- callbacks and from whatever store, answers as a registry of transactions by id would, and
  -- leaves the store representing the registry that the same calls lead to.
  pub performed-refines :
      (cs : List (Command E R)) (s : Store)
      → let (s', answers) = performed cs s in
        let (m, expected) = all_specified cs (view s) in (view s' ≡ m) × (answers ≡ expected)
  performed-refines [] s = (refl, refl)
  performed-refines (c ∷ cs) s =
      let (s', a) = perform c s in
      let (v, q) = perform-Refines c s in
      let (v', q') =
        subst
          (λ m.
            let (t, answers) = performed cs s' in
            let (m', expected) = all_specified cs m in (view t ≡ m') × (answers ≡ expected))
          v (performed-refines cs s') in
      (v', ap (λ x. x ∷ (performed cs s').1) q ∙ ap (λ xs. (specified c (view s)).1 ∷ xs) q')
