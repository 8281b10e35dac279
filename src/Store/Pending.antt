-- ===== src/Store/Pending.antt =====
-- What the scheduler's lookups return, in terms of the transactions alone.
use mathlib.Core.Path.{subst, fun_ext}
use zenithpay_retry.Base.{
  String, ◌≡◌, refl, ap, ◌∙◌, Bool, true, false, ◌&&◌, some, List, [], ◌∷◌, map, lookup, elem,
  Distinct, Enumerates, All, contains, eq_iff, arith, Option-cases, Bool-cases, inl, inr,
}
use zenithpay_retry.Time.{Time}
use zenithpay_retry.Domain.Models.{Transaction}
use zenithpay_retry.Store.{
  Store, is_pending_status, visit, is_due, get_pending_retries, get_due_retries,
}
use zenithpay_retry.Store.Index.{IsIndexed}

abbrev pub ids_of : List Transaction → List String
ids_of = map (λ tx. tx.id)

-- `txs` are the stored transactions that pass `keep`, each once.
pub record IsSelection (keep : Transaction → Bool) (s : Store) (txs : List Transaction)
    : Type 0 where
  pub sound : All (λ tx. (lookup tx.id s.transactions ≡ some tx) × (keep tx ≡ true)) txs
  pub complete :
      (id : String) (tx : Transaction)
      → lookup id s.transactions ≡ some tx
      → keep tx ≡ true
      → elem id (ids_of txs) ≡ true
  pub distinct : Distinct (ids_of txs)

module _ (keep : Transaction → Bool) (s : Store) (h : IsIndexed s) where
  -- `also` is what is known of the transactions that the loop visits.
  visit_sound :
      (also : Transaction → Bool) (order : List String)
      → ((id : String) (tx : Transaction)
          → elem id order ≡ true
          → lookup id s.transactions ≡ some tx
          → also tx ≡ true)
      → All
          (λ tx. (lookup tx.id s.transactions ≡ some tx) × (also tx && keep tx ≡ true))
          (visit keep s.transactions order)
  unfolding visit elem
  visit_sound also [] known = tt
  visit_sound also (id ∷ ids) known =
      let rest = visit_sound also ids (λ j tx m. known j tx (ground arith)) in
      elim (Option-cases (lookup id s.transactions)) [
        | inl e ↦ rw (e, visit) rest
        | inr (tx, e) ↦ elim (Bool-cases (keep tx)) [
          | inl k ↦
              rw (e, visit, k)
                (
                  (
                    ap (λ x. lookup x s.transactions) (h.keyed id tx e) ∙ e,
                    rw (k, known id tx (ground (arith, eq_iff id id)) e),
                  ),
                  rest,
                )
          | inr k ↦ rw (e, visit, k) rest
        ]
      ]

  elem-visit :
      (id : String) (order : List String)
      → elem id (ids_of (visit keep s.transactions order)) ≡ true
      → elem id order ≡ true
  unfolding visit elem
  elem-visit id [] m = m
  elem-visit id (j ∷ js) m = elim (Option-cases (lookup j s.transactions)) [
    | inl e ↦ ground (arith, elem-visit id js)
    | inr (tx, e) ↦ ground (arith, elem-visit id js, h.keyed j tx e)
  ]

  visit-Distinct :
      (order : List String) → Distinct order → Distinct (ids_of (visit keep s.transactions order))
  unfolding visit
  visit-Distinct [] d = tt
  visit-Distinct (j ∷ js) d = elim (Option-cases (lookup j s.transactions)) [
    | inl e ↦ ground (arith, visit-Distinct js d.1)
    | inr (tx, e) ↦ ground (arith, visit-Distinct js d.1, h.keyed j tx e, elem-visit j js)
  ]

  visit_complete :
      (order : List String) (id : String) (tx : Transaction)
      → lookup id s.transactions ≡ some tx
      → keep tx ≡ true
      → elem id order ≡ true
      → elem id (ids_of (visit keep s.transactions order)) ≡ true
  unfolding visit elem
  visit_complete [] id tx e k m = m
  visit_complete (j ∷ js) id tx e k m = elim (Option-cases (lookup j s.transactions)) [
    | inl n ↦ ground (arith, visit_complete js id tx e k, eq_iff j id)
    | inr (u, n) ↦
        ground (arith, visit_complete js id tx e k, eq_iff j id, h.keyed j u n, eq_iff u.id id)
  ]

  -- A loop over the pending index selects the pending transactions that pass its test.
  visit_pending :
      (order : List String)
      → Enumerates order s.pending_ids
      → IsSelection
          (λ tx. is_pending_status tx.status && keep tx)
          s
          (visit keep s.transactions order)
  visit_pending order en = record {
    sound =
        visit_sound (λ tx. is_pending_status tx.status) order
          λ id tx m e. ground (arith, en.visits id, h.indexed id);
    complete = λ id tx e k.
        visit_complete order id tx e (ground arith) (ground (arith, en.visits id, h.indexed id));
    distinct = visit-Distinct order en.distinct;
  }

-- A loop over all transactions selects those that pass its test.
pub visit_all :
    (keep : Transaction → Bool) (s : Store) (order : List String)
    → IsIndexed s
    → Enumerates order s.transactions
    → IsSelection keep s (visit keep s.transactions order)
visit_all keep s order h en = record {
  sound = visit_sound keep s h (λ tx. true) order (λ id tx m e. refl);
  complete = λ id tx e k. visit_complete keep s h order id tx e k (en.visits id ∙ rw (e, contains));
  distinct = visit-Distinct keep s h order en.distinct;
}

and_true : (b : Bool) → (b && true) ≡ b
and_true true = refl
and_true false = refl

-- In whatever order the index is visited, GetPendingRetries returns every scheduled or retrying
-- transaction once, as it is stored, and no other; on a store with an exact index.
pub get_pending_retries-IsSelection :
    (s : Store) (order : List String)
    → IsIndexed s
    → Enumerates order s.pending_ids
    → IsSelection (λ tx. is_pending_status tx.status) s (get_pending_retries order s)
unfolding get_pending_retries
get_pending_retries-IsSelection s order h en =
    subst (λ keep. IsSelection keep s (visit (λ _. true) s.transactions order))
      (fun_ext λ tx. and_true (is_pending_status tx.status))
      (visit_pending (λ _. true) s h order en)

-- In whatever order the index is visited, GetDueRetries returns every pending transaction whose
-- next retry is at or before the given time, once, and no other; on a store with an exact index.
pub get_due_retries-IsSelection :
    (s : Store) (now : Time) (order : List String)
    → IsIndexed s
    → Enumerates order s.pending_ids
    → IsSelection
        (λ tx. is_pending_status tx.status && is_due now tx)
        s
        (get_due_retries now order s)
unfolding get_due_retries
get_due_retries-IsSelection s now order h en = visit_pending (is_due now) s h order en
