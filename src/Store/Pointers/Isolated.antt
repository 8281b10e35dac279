-- ===== src/Store/Pointers/Isolated.antt =====
-- Callers and the store have no cell in common.
use mathlib.Core.Path.{subst}
use mathlib.Core.Option.{some-injective}
use zenithpay_retry.Base.{
  ℕ, ◌≤◌, ◌<◌, ◌≡◌, refl, sym, ap, ◌∙◌, String, true, false, ◌&&◌, ◌||◌, Option, none, some, List,
  Dict, lookup, insert, lookup-insert, str_eq, ◌==◌, ltb, leb, if◌then◌else◌, Bool-cases, inl, inr,
  arith,
}
use zenithpay_retry.Domain.Models.{Transaction}
use zenithpay_retry.Store.Pointers.{Cell, Memory, store_cell, allocate, copy_transaction}
use zenithpay_retry.Store.Pointers.Reading.{
  Region, OptionalAt, Holds, Agrees, Holds-Agrees, Extends, Fresh,
}
use zenithpay_retry.Store.Pointers.Copying.{allocate-Copied, copy_transaction-Copies}
use zenithpay_retry.Store.Pointers.Sharing.{
  Shared, OfCallers, OfStore, Action, act, act_all, Access, allocates, writes, gets, saves, updates,
  clears, Accesses, no_more, and_then, Matches,
}

optional-Agrees :
    (R R' : Region) (m m' : Memory) (a : Option ℕ) (tx : Option Transaction)
    → Agrees R R' m m'
    → OptionalAt Holds R m a tx
    → OptionalAt Holds R' m' a tx
optional-Agrees R R' m m' none none same h = tt
optional-Agrees R R' m m' (some a) (some tx) same h = Holds-Agrees R R' m m' same h
optional-Agrees R R' m m' none (some tx) same h = h
optional-Agrees R R' m m' (some a) none same h = h

-- A new entry on both sides.
insert-entries :
    (R : Region) (m : Memory) (stored : Dict ℕ) (d : Dict Transaction) (id : String) (b : ℕ)
    (tx : Transaction)
    → Holds R m b tx
    → ((j : String) → OptionalAt Holds R m (lookup j stored) (lookup j d))
    → (j : String)
    → OptionalAt Holds R m (lookup j (insert id b stored)) (lookup j (insert id tx d))
insert-entries R m stored d id b tx new old j =
    subst (λ x. OptionalAt Holds R m x (lookup j (insert id tx d)))
      (sym (lookup-insert id j b stored))
      (subst (λ x. OptionalAt Holds R m (if str_eq id j then some b else lookup j stored) x)
        (sym (lookup-insert id j tx d))
        (elim (Bool-cases (str_eq id j)) [ inl e ↦ rw e new | inr e ↦ rw e (old j) ]))

copied :
    (R : Region) (m m' : Memory) (a b : ℕ) (tx : Transaction)
    → ((x : ℕ) → R x → x < m.next)
    → Holds R m a tx
    → copy_transaction a m ≡ some (m', b)
    → Extends m m' × Holds (Fresh m.next m') m' b tx
copied R m m' a b tx below h q =
    let (m₁, c, q', e, k) = copy_transaction-Copies R m a tx below h in
    subst (λ (x : Memory × ℕ). Extends m x.0 × Holds (Fresh m.next x.0) x.0 x.1 tx)
      (some-injective _ _ (sym q' ∙ q)) (e, k)

module _ (s : Shared) (d : Dict Transaction) (h : Matches s d) where
  -- A cell that is free is no caller's.
  not_callers : (b : ℕ) → s.memory.next ≤ b → s.callers b ≡ false
  not_callers b le = elim (Bool-cases (s.callers b)) [
    | inl e ↦ absurd (omega (arith, h.allocated b e, le))
    | inr e ↦ e
  ]

  -- New cells, of which the callers may get some.
  grown :
      (s' : Shared)
      → s'.stored ≡ s.stored
      → Extends s.memory s'.memory
      → ((b : ℕ) → b < s.memory.next → s'.callers b ≡ s.callers b)
      → ((b : ℕ) → s'.callers b ≡ true → b < s'.memory.next)
      → Matches s' d
  grown s' same (grows, kept) old below = record {
    allocated = below;
    entries = λ id.
        subst (λ x. OptionalAt Holds (OfStore s') s'.memory (lookup id x) (lookup id d)) (sym same)
          (optional-Agrees (OfStore s) (OfStore s') s.memory s'.memory (lookup id s.stored)
            (lookup id d)
            (λ b (free, low). ((old b low ∙ free, omega (arith, low, grows)), kept b low))
            (h.entries id));
  }

  -- A new entry, of new cells.
  replaced :
      (id : String) (b : ℕ) (tx : Transaction) (m' : Memory)
      → Extends s.memory m'
      → Holds (Fresh s.memory.next m') m' b tx
      → Matches (record s { memory = m'; stored = insert id b s.stored }) (insert id tx d)
  replaced id b tx m' (grows, kept) new =
      let s' = record s { memory = m' } in
      let still =
        grown s' refl (grows, kept) (λ x lt. refl) (λ x c. omega (arith, h.allocated x c, grows)) in
      record {
        allocated = still.allocated;
        entries =
            insert-entries (OfStore s') m' s.stored d id b tx
              (Holds-Agrees (Fresh s.memory.next m') (OfStore s') m' m'
                (λ x (low, high). ((not_callers x low, high), refl)) new)
              still.entries;
      }

allocate-Extends :
    (c : Cell) (m m' : Memory) (b : ℕ)
    → allocate c m ≡ (m', b)
    → Extends m m' × (b < m'.next) × (m.next ≤ b)
allocate-Extends c m m' b e =
    let (x, (found, (low, high))) = allocate-Copied c m in
    subst (λ (r : Memory × ℕ). Extends m r.0 × (r.1 < r.0.next) × (m.next ≤ r.1)) e (x, high, low)

-- What the store has under an id is what the map has.
entry-value :
    (R : Region) (m : Memory) (found : Option ℕ) (value : Option Transaction) (a : ℕ)
    → OptionalAt Holds R m found value
    → found ≡ some a
    → (tx : Transaction) × (value ≡ some tx) × Holds R m a tx
entry-value R m none none a h e = absurd (cc)
entry-value R m none (some tx) a h e = absurd h
entry-value R m (some b) none a h e = absurd h
entry-value R m (some b) (some tx) a h e =
    (tx, refl, subst (λ x. Holds R m x tx) (some-injective _ _ e) h)

entry-pointer :
    (R : Region) (m : Memory) (found : Option ℕ) (value : Option Transaction) (tx : Transaction)
    → OptionalAt Holds R m found value
    → value ≡ some tx
    → (a : ℕ) × (found ≡ some a) × Holds R m a tx
entry-pointer R m none none tx h e = absurd (cc)
entry-pointer R m none (some v) tx h e = absurd h
entry-pointer R m (some b) none tx h e = absurd h
entry-pointer R m (some b) (some v) tx h e =
    (b, refl, subst (λ x. Holds R m b x) (some-injective _ _ e) h)

Access-Matches :
    (s s' : Shared) (d : Dict Transaction) (a : Action)
    → Access s a s'
    → Matches s d
    → Matches s' (act a d)
unfolding lookup
Access-Matches s _ d _ (allocates c m' b e) h =
    let (x, high, low) = allocate-Extends c s.memory m' b e in
    grown s d h (record s { memory = m'; callers = λ x. s.callers x || x == b }) refl x
      (λ k lt. ground (arith, low, lt))
      (λ k q. elim (Bool-cases (s.callers k)) [
        | inl old ↦ omega (arith, h.allocated k old, x.0)
        | inr new ↦ ground (arith, q, new, high)
      ])
Access-Matches s _ d _ (writes a c own) h = record {
  allocated = h.allocated;
  entries = λ id.
      optional-Agrees (OfStore s) (OfStore s) s.memory (store_cell a c s.memory)
        (lookup id s.stored) (lookup id d)
        (λ b (free, low). (
          (free, low),
          elim (Bool-cases (b == a)) [
            | inl e ↦
                let same : b ≡ a = ground (arith, e) in
                absurd (ground (arith, free, own, ap s.callers same))
            | inr e ↦ rw e refl
          ],
        ))
        (h.entries id);
}
Access-Matches s _ d _ (gets id a b m' e q) h =
    let (tx, value, k) =
      entry-value (OfStore s) s.memory (lookup id s.stored) (lookup id d) a (h.entries id) e in
    let (x, new) = copied (OfStore s) s.memory m' a b tx (λ c (free, low). low) k q in
    let s' = record s {
      memory = m';
      callers = λ x. s.callers x || leb s.memory.next x && ltb x m'.next;
    } in
    grown s d h s' refl x (λ c lt. ground (arith, lt))
      (λ c own. elim (Bool-cases (s.callers c)) [
        | inl old ↦ omega (arith, h.allocated c old, x.0)
        | inr free ↦ ground (arith, own, free)
      ])
Access-Matches s _ d _ (saves a b tx m' k q) h =
    let (x, new) = copied (OfCallers s) s.memory m' a b tx h.allocated k q in
    replaced s d h tx.id b tx m' x new
Access-Matches s _ d _ (updates id a b c tx m' e k q) h =
    let (x, new) = copied (OfCallers s) s.memory m' b c tx h.allocated k q in
    replaced s d h id c tx m' x new
Access-Matches s _ d _ clears h = record { allocated = h.allocated; entries = λ id. tt }

Accesses-Matches :
    (s s' : Shared) (d : Dict Transaction) (actions : List Action)
    → Accesses s actions s'
    → Matches s d
    → Matches s' (act_all actions d)
Accesses-Matches s _ d _ no_more h = h
Accesses-Matches s s'' d _ (and_then {a = a} {actions = actions} {s' = s'} x xs) h =
    Accesses-Matches s' s'' (act a d) actions xs (Access-Matches s s' d a x h)

-- However callers write to the cells that they have made or been handed, in whatever order with the
-- accesses of Save, Get, UpdateFunc and Clear to the memory that they share with the store: the
-- store holds the values of a map that only Save, a successful UpdateFunc and Clear change, in
-- cells that no caller has; and a Get of any of its ids then meets no nil pointer and hands out a
-- transaction that reads as the value, made of new cells alone. The callback of UpdateFunc is such
-- a caller. From a store and a map that match.
pub Accesses-Isolated :
    (s s' : Shared) (d : Dict Transaction) (actions : List Action)
    → Matches s d
    → Accesses s actions s'
    → Matches s' (act_all actions d)
      × ((id : String) (tx : Transaction)
          → lookup id (act_all actions d) ≡ some tx
          → (a b : ℕ) × (m' : Memory) × (lookup id s'.stored ≡ some a)
            × (copy_transaction a s'.memory ≡ some (m', b))
            × Holds (Fresh s'.memory.next m') m' b tx)
Accesses-Isolated s s' d actions h xs =
    let k = Accesses-Matches s s' d actions xs h in
    (
      k,
      λ id tx e.
          let (a, found, there) =
            entry-pointer (OfStore s') s'.memory (lookup id s'.stored)
              (lookup id (act_all actions d)) tx (k.entries id) e in
          let (m', b, q, x, new) =
            copy_transaction-Copies (OfStore s') s'.memory a tx (λ c (free, low). low) there in
          (a, b, m', found, q, new),
    )
