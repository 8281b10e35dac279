-- ===== src/Store/Index.antt =====
-- The pending index and the transactions that it stands for, and sequences of writes.
use mathlib.Core.Path.{subst}
use zenithpay_retry.Base.{
  String, Bool-cases, ◌≡◌, refl, Bool, false, Option, none, some, List, [], ◌∷◌, ◌∙◌, lookup,
  contains, lookup-insert, lookup-erase, Outcome, ok, err, panicked, str_eq, eq_iff, arith,
  if◌then◌else◌, Option-cases, inl, inr,
}
use zenithpay_retry.Domain.Models.{Transaction}
use zenithpay_retry.Store.{
  Store, new_store, is_pending_status, put, save, save_if_not_exists, finish_update, update_func,
  clear,
}

abbrev pub pending_tx : Option Transaction → Bool
pending_tx none = false
pending_tx (some tx) = is_pending_status tx.status

pub record IsIndexed (s : Store) : Type 0 where
  -- The index holds an id exactly if the transaction of that id is scheduled or retrying.
  pub indexed : (id : String) → contains id s.pending_ids ≡ pending_tx (lookup id s.transactions)
  -- A transaction is stored under its own id.
  pub keyed : (id : String) (tx : Transaction) → lookup id s.transactions ≡ some tx → tx.id ≡ id

pub lookup-put :
    (id j : String) (tx : Transaction) (s : Store)
    → lookup j (put id tx s).transactions
      ≡ (if str_eq id j then some tx else lookup j s.transactions)
unfolding put
lookup-put id j tx s = ground (arith, lookup-insert id j tx s.transactions)

-- What holds of the new transaction and of the stored ones holds of all afterwards.
pub put_all :
    (P : Transaction → Type 0) (id : String) (u : Transaction) (s : Store)
    → P u
    → ((j : String) (v : Transaction) → lookup j s.transactions ≡ some v → P v)
    → (j : String) (v : Transaction) → lookup j (put id u s).transactions ≡ some v
    → P v
put_all P id u s new old j v e = elim (Bool-cases (str_eq id j)) [
  | inl same ↦ subst P (ground (arith, lookup-put id j u s)) new
  | inr other ↦ old j v (ground (arith, lookup-put id j u s))
]

contains-put :
    (id j : String) (tx : Transaction) (s : Store)
    → contains j (put id tx s).pending_ids
      ≡ (if str_eq id j then is_pending_status tx.status else contains j s.pending_ids)
unfolding put
contains-put id j tx s =
    ground (arith, lookup-insert id j tt s.pending_ids, lookup-erase id j s.pending_ids)

pub put-IsIndexed :
    (id : String) (tx : Transaction) (s : Store)
    → tx.id ≡ id
    → IsIndexed s
    → IsIndexed (put id tx s)
put-IsIndexed id tx s same h = record {
  indexed = λ j. ground (arith, contains-put id j tx s, lookup-put id j tx s, h.indexed j);
  keyed = λ j u e. ground (arith, lookup-put id j tx s, h.keyed j u, eq_iff id j);
}

pub new_store-IsIndexed : IsIndexed new_store
unfolding new_store lookup
new_store-IsIndexed = record { indexed = λ id. refl; keyed = λ id tx e. cc }

pub clear-IsIndexed : (s : Store) → IsIndexed (clear s)
unfolding clear lookup
clear-IsIndexed s = record { indexed = λ id. refl; keyed = λ id tx e. cc }

pub save-IsIndexed : (tx : Transaction) (s : Store) → IsIndexed s → IsIndexed (save tx s)
unfolding save
save-IsIndexed tx s h = put-IsIndexed tx.id tx s refl h

pub save_if_not_exists-IsIndexed :
    (tx : Transaction) (s : Store) → IsIndexed s → IsIndexed (save_if_not_exists tx s).0
unfolding save_if_not_exists
save_if_not_exists-IsIndexed tx s h = elim (Option-cases (lookup tx.id s.transactions)) [
  | inl e ↦ rw (e, save_if_not_exists) (put-IsIndexed tx.id tx s refl h)
  | inr (u, e) ↦ rw (e, save_if_not_exists) h
]

module _ {E R : Type 0} where
  -- A callback that does not rename the transaction.
  abbrev pub KeepsId : (Transaction → Outcome E (Transaction × R)) → Type 0
  KeepsId fn = (tx u : Transaction) (r : R) → fn tx ≡ ok (u, r) → u.id ≡ tx.id

  finish_update-IsIndexed :
      (id : String) (s : Store) (o : Outcome E (Transaction × R))
      → ((u : Transaction) (r : R) → o ≡ ok (u, r) → u.id ≡ id)
      → IsIndexed s
      → IsIndexed (finish_update id s o).0
  unfolding finish_update
  finish_update-IsIndexed id s (ok (u, r)) k h = put-IsIndexed id u s (k u r refl) h
  finish_update-IsIndexed id s (err e) k h = h
  finish_update-IsIndexed id s panicked k h = h

  pub update_func-IsIndexed :
      (id : String) (fn : Transaction → Outcome E (Transaction × R)) (s : Store)
      → KeepsId fn
      → IsIndexed s
      → IsIndexed (update_func id fn s).0
  unfolding update_func
  update_func-IsIndexed id fn s k h = elim (Option-cases (lookup id s.transactions)) [
    | inl e ↦ rw (e, update_func) h
    | inr (tx, e) ↦
        rw (e, update_func)
          (finish_update-IsIndexed id s (fn tx) (λ u r p. k tx u r p ∙ h.keyed id tx e) h)
  ]

-- A write to the store, by any caller.
pub data Write : Type 1 where
  saves : Transaction → Write
  saves_new : Transaction → Write
  updates :
      {E R : Type 0} (id : String) (fn : Transaction → Outcome E (Transaction × R))
      → KeepsId fn
      → Write
  clears : Write

pub write : Store → Write → Store
write s (saves tx) = save tx s
write s (saves_new tx) = (save_if_not_exists tx s).0
write s (updates id fn k) = (update_func id fn s).0
write s clears = clear s

pub writes : Store → List Write → Store
writes s [] = s
writes s (w ∷ ws) = writes (write s w) ws

write-IsIndexed : (s : Store) (w : Write) → IsIndexed s → IsIndexed (write s w)
unfolding write
write-IsIndexed s (saves tx) h = save-IsIndexed tx s h
write-IsIndexed s (saves_new tx) h = save_if_not_exists-IsIndexed tx s h
write-IsIndexed s (updates id fn k) h = update_func-IsIndexed id fn s k h
write-IsIndexed s clears h = clear-IsIndexed s

writes_from : (s : Store) (ws : List Write) → IsIndexed s → IsIndexed (writes s ws)
unfolding writes
writes_from s [] h = h
writes_from s (w ∷ ws) h = writes_from (write s w) ws (write-IsIndexed s w h)

-- After any sequence of Save, SaveIfNotExists, UpdateFunc (with a callback that keeps the id) and
-- Clear on a new store, the pending index holds exactly the ids of the scheduled and the retrying
-- transactions, and every transaction stands under its own id.
pub writes-IsIndexed : (ws : List Write) → IsIndexed (writes new_store ws)
writes-IsIndexed ws = writes_from new_store ws new_store-IsIndexed
