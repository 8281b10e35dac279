-- ===== src/Store/Pointers/Sharing.antt =====
-- The store's map of pointers and the callers that share its memory: Save, Get and UpdateFunc of
-- internal/store/memory.go, and the map of values that they stand for.
use zenithpay_retry.Base.{
  ℕ, ◌<◌, ◌≡◌, String, Bool, true, false, ◌&&◌, ◌||◌, some, List, [], ◌∷◌, Dict, lookup, insert,
  ◌==◌, ltb, leb,
}
use zenithpay_retry.Domain.Models.{Transaction}
use zenithpay_retry.Store.Pointers.{Cell, Memory, store_cell, allocate, copy_transaction}
use zenithpay_retry.Store.Pointers.Reading.{Region, OptionalAt, Holds}

-- The memory, the store's map, and the addresses that callers have come by.
pub record Shared : Type 0 where
  pub memory : Memory
  pub stored : Dict ℕ
  pub callers : ℕ → Bool

abbrev pub OfCallers : Shared → Region
OfCallers s b = s.callers b ≡ true

abbrev pub OfStore : Shared → Region
OfStore s b = (s.callers b ≡ false) × (b < s.memory.next)

-- What an access means for a map of values.
pub data Action : Type 0 where
  works emptied : Action
  saved : Transaction → Action
  updated : String → Transaction → Action

abbrev pub act : Action → Dict Transaction → Dict Transaction
act works d = d
act emptied d = []
act (saved tx) d = insert tx.id tx d
act (updated id tx) d = insert id tx d

abbrev pub act_all : List Action → Dict Transaction → Dict Transaction
act_all [] d = d
act_all (a ∷ actions) d = act_all actions (act a d)

pub data Access (s : Shared) : Action → Shared → Type 0 where
  -- A caller makes a new cell, or writes to one that it has come by.
  allocates :
      (c : Cell) (m' : Memory) (b : ℕ)
      → allocate c s.memory ≡ (m', b)
      → Access s works (record s { memory = m'; callers = λ x. s.callers x || x == b })
  writes :
      (a : ℕ) (c : Cell)
      → s.callers a ≡ true
      → Access s works (record s { memory = store_cell a c s.memory })
  -- Get hands out a copy, and so do the methods that return several transactions, for each.
  gets :
      (id : String) (a b : ℕ) (m' : Memory)
      → lookup id s.stored ≡ some a
      → copy_transaction a s.memory ≡ some (m', b)
      → Access s works (record s {
        memory = m';
        callers = λ x. s.callers x || leb s.memory.next x && ltb x m'.next;
      })
  -- Save takes a copy of a caller's transaction, and so does SaveIfNotExists for a new id.
  saves :
      (a b : ℕ) (tx : Transaction) (m' : Memory)
      → Holds (OfCallers s) s.memory a tx
      → copy_transaction a s.memory ≡ some (m', b)
      → Access s (saved tx) (record s { memory = m'; stored = insert tx.id b s.stored })
  -- UpdateFunc hands its callback a copy, as Get does; the callback is a caller. When it has
  -- succeeded, a copy of what it was handed is stored under the id.
  updates :
      (id : String) (a b c : ℕ) (tx : Transaction) (m' : Memory)
      → lookup id s.stored ≡ some a
      → Holds (OfCallers s) s.memory b tx
      → copy_transaction b s.memory ≡ some (m', c)
      → Access s (updated id tx) (record s { memory = m'; stored = insert id c s.stored })
  -- Clear makes a new map.
  clears : Access s emptied (record s { stored = [] })

pub data Accesses : Shared → List Action → Shared → Type 0 where
  no_more : {s : Shared} → Accesses s [] s
  and_then :
      {a : Action} {actions : List Action} {s s' s'' : Shared}
      → Access s a s'
      → Accesses s' actions s''
      → Accesses s (a ∷ actions) s''

-- The store holds the values of the map, in cells that no caller has.
pub record Matches (s : Shared) (d : Dict Transaction) : Type 0 where
  pub allocated : (b : ℕ) → s.callers b ≡ true → b < s.memory.next
  pub entries :
      (id : String) → OptionalAt Holds (OfStore s) s.memory (lookup id s.stored) (lookup id d)
