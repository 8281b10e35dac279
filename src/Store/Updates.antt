-- ===== src/Store/Updates.antt =====
-- SaveIfNotExists and UpdateFunc of internal/store/memory.go.
use zenithpay_retry.Base.{
  String, ◌≡◌, refl, inl, inr, Option, none, some, lookup, Outcome, ok, err, panicked, str_eq,
  eq_iff, arith, if◌then◌else◌, Option-cases,
}
use zenithpay_retry.Domain.Models.{Transaction}
use zenithpay_retry.Store.{
  Store, StoreError, already_exists, UpdateError, missing, refused, put, save_if_not_exists,
  finish_update, update_func,
}
use zenithpay_retry.Store.Index.{lookup-put}

module _ {E R : Type 0} (id : String) (fn : Transaction → Outcome E (Transaction × R))
    (s : Store) where
  pub update_func-eq_put :
      (tx u : Transaction) (r : R)
      → lookup id s.transactions ≡ some tx
      → fn tx ≡ ok (u, r)
      → update_func id fn s ≡ (put id u s, ok r)
  unfolding update_func
  update_func-eq_put tx u r e c = rw (e, update_func, c)

  -- How an update ends.
  pub data Updated : Store × Outcome (UpdateError E) R → Type 0 where
    no_transaction : lookup id s.transactions ≡ none → Updated (s, err missing)
    refused_by :
        (tx : Transaction) (e : E)
        → lookup id s.transactions ≡ some tx
        → fn tx ≡ err e
        → Updated (s, err (refused e))
    panicked_on :
        (tx : Transaction)
        → lookup id s.transactions ≡ some tx
        → fn tx ≡ panicked
        → Updated (s, panicked)
    replaced :
        (tx u : Transaction) (r : R)
        → lookup id s.transactions ≡ some tx
        → fn tx ≡ ok (u, r)
        → Updated (put id u s, ok r)

  finished :
      (tx : Transaction) (o : Outcome E (Transaction × R))
      → lookup id s.transactions ≡ some tx
      → fn tx ≡ o
      → Updated (finish_update id s o)
  unfolding finish_update
  finished tx (ok (u, r)) e c = replaced tx u r e c
  finished tx (err x) e c = refused_by tx x e c
  finished tx panicked e c = panicked_on tx e c

  -- UpdateFunc writes the callback's result and returns what the callback captured, or leaves the
  -- store as it was and reports a missing transaction, the callback's error or its panic.
  pub update_func-Updated : Updated (update_func id fn s)
  unfolding update_func
  update_func-Updated = elim (Option-cases (lookup id s.transactions)) [
    | inl e ↦ rw (e, update_func) (no_transaction e)
    | inr (tx, e) ↦ rw (e, update_func) (finished tx (fn tx) e refl)
  ]

pub save_taken :
    (tx u : Transaction) (s : Store)
    → lookup tx.id s.transactions ≡ some u
    → save_if_not_exists tx s ≡ (s, some already_exists)
unfolding save_if_not_exists
save_taken tx u s e = rw (e, save_if_not_exists)

pub save_free :
    (tx : Transaction) (s : Store)
    → lookup tx.id s.transactions ≡ none
    → save_if_not_exists tx s ≡ (put tx.id tx s, none)
unfolding save_if_not_exists
save_free tx s e = rw (e, save_if_not_exists)

-- How SaveIfNotExists ends: the id is taken, and nothing changes; or the transaction is stored, no
-- other one is touched, and every later call with that id finds it taken.
pub data Saved (tx : Transaction) (s : Store) : Store × Option StoreError → Type 0 where
  taken :
      (u : Transaction) → lookup tx.id s.transactions ≡ some u → Saved tx s (s, some already_exists)
  stored :
      (s' : Store)
      → lookup tx.id s.transactions ≡ none
      → ((j : String)
          → lookup j s'.transactions
            ≡ (if str_eq tx.id j then some tx else lookup j s.transactions))
      → ((v : Transaction) → v.id ≡ tx.id → save_if_not_exists v s' ≡ (s', some already_exists))
      → Saved tx s (s', none)

-- SaveIfNotExists of a taken id changes nothing and fails; of a free id it stores the transaction,
-- touches no other, and every later call with that id fails.
pub save_if_not_exists-Saved : (tx : Transaction) (s : Store) → Saved tx s (save_if_not_exists tx s)
save_if_not_exists-Saved tx s = elim (Option-cases (lookup tx.id s.transactions)) [
  | inr (u, e) ↦ rw (save_taken tx u s e) (taken u e)
  | inl e ↦ rw (save_free tx s e) (
      stored (put tx.id tx s) e (λ j. lookup-put tx.id j tx s)
        (λ v same.
          save_taken v tx (put tx.id tx s)
            (ground (arith, lookup-put tx.id v.id tx s, eq_iff tx.id v.id))))
]
