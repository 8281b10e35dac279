-- ===== src/Store/Listing.antt =====
-- List and GetAll of internal/store/memory.go: which transactions they return, and in which order.
use zenithpay_retry.Base.{
  ◌≡◌, refl, ◌∙◌, String, Bool, true, false, ◌||◌, List, [], ◌∷◌, elem, Distinct, Enumerates, All,
  All-map, insert_sorted, insert_sorted-All, insert_sorted-elem, sort_slice, sort_slice-All,
  sort_slice-elem, str_eq, eq_iff, Bool-cases, inl, inr, arith,
}
use zenithpay_retry.Time.{before}
use zenithpay_retry.Domain.Models.{Transaction, status_text}
use zenithpay_retry.Store.{Store, newer, visit, get_all, list}
use zenithpay_retry.Store.Index.{IsIndexed}
use zenithpay_retry.Store.Pending.{ids_of, IsSelection, visit_all}

-- No transaction was created before one that comes after it.
abbrev pub NewestFirst : List Transaction → Type 0
NewestFirst [] = Unit
NewestFirst (tx ∷ txs) = All (λ u. before tx.created_at u.created_at ≡ false) txs × NewestFirst txs

insert_sorted-NewestFirst :
    (tx : Transaction) (txs : List Transaction)
    → NewestFirst txs
    → NewestFirst (insert_sorted newer tx txs)
unfolding insert_sorted
insert_sorted-NewestFirst tx [] h = (tt, tt)
insert_sorted-NewestFirst tx (u ∷ us) h = elim (Bool-cases (newer u tx)) [
  | inl e ↦
      rw (e, insert_sorted)
        (
          insert_sorted-All newer (λ v. before u.created_at v.created_at ≡ false) tx us
              (ground (arith, e)) h.0,
          insert_sorted-NewestFirst tx us h.1,
        )
  | inr e ↦ rw (e, insert_sorted) ((e, All-map (λ v q. ground (arith, e, q)) us h.0), h)
]

sort_slice-NewestFirst : (txs : List Transaction) → NewestFirst (sort_slice newer txs)
unfolding sort_slice
sort_slice-NewestFirst [] = tt
sort_slice-NewestFirst (tx ∷ txs) =
    insert_sorted-NewestFirst tx (sort_slice newer txs) (sort_slice-NewestFirst txs)

insert_sorted-Distinct :
    (tx : Transaction) (txs : List Transaction)
    → elem tx.id (ids_of txs) ≡ false
    → Distinct (ids_of txs)
    → Distinct (ids_of (insert_sorted newer tx txs))
unfolding insert_sorted elem
insert_sorted-Distinct tx [] out d = (refl, tt)
insert_sorted-Distinct tx (u ∷ us) out d = elim (Bool-cases (newer u tx)) [
  | inl e ↦
      rw (e, insert_sorted)
        (
          insert_sorted-elem newer (λ v. v.id) tx us u.id
              ∙ ground (arith, out, d.0, eq_iff tx.id u.id, eq_iff u.id tx.id),
          insert_sorted-Distinct tx us (ground (arith, out)) d.1,
        )
  | inr e ↦ rw (e, insert_sorted) (out, d)
]

sort_slice-Distinct :
    (txs : List Transaction) → Distinct (ids_of txs) → Distinct (ids_of (sort_slice newer txs))
unfolding sort_slice
sort_slice-Distinct [] d = tt
sort_slice-Distinct (tx ∷ txs) d =
    insert_sorted-Distinct tx (sort_slice newer txs)
      (sort_slice-elem newer (λ v. v.id) txs tx.id ∙ d.0) (sort_slice-Distinct txs d.1)

-- What the status filter of List lets through.
abbrev pub has_status : String → Transaction → Bool
has_status status tx = str_eq status "" || str_eq (status_text tx.status) status

-- Sorting keeps a selection.
sort_slice-IsSelection :
    (keep : Transaction → Bool) (s : Store) (txs : List Transaction)
    → IsSelection keep s txs
    → IsSelection keep s (sort_slice newer txs)
sort_slice-IsSelection keep s txs sel = record {
  sound = sort_slice-All newer _ txs sel.sound;
  complete = λ id tx e k. sort_slice-elem newer (λ v. v.id) txs id ∙ sel.complete id tx e k;
  distinct = sort_slice-Distinct txs sel.distinct;
}

-- GetAll returns every stored transaction once.
pub get_all-IsSelection :
    (order : List String) (s : Store)
    → IsIndexed s
    → Enumerates order s.transactions
    → IsSelection (λ tx. true) s (get_all order s)
unfolding get_all
get_all-IsSelection order s h en =
    sort_slice-IsSelection (λ tx. true) s (visit (λ tx. true) s.transactions order)
      (visit_all (λ tx. true) s order h en)

-- What List returns, and in which order.
pub list-IsSelection :
    (status : String) (order : List String) (s : Store)
    → IsIndexed s
    → Enumerates order s.transactions
    → IsSelection (has_status status) s (list status order s) × NewestFirst (list status order s)
unfolding list
list-IsSelection status order s h en =
    let sel = visit_all (has_status status) s order h en in
    let txs = visit (has_status status) s.transactions order in
    (sort_slice-IsSelection (has_status status) s txs sel, sort_slice-NewestFirst txs)
