-- ===== src/Base/Outcomes.antt =====
-- How a call ends: with a value, with an error value, or in a panic.

pub data Outcome (E A : Type 0) : Type 0 where
  ok : A → Outcome E A
  err : E → Outcome E A
  panicked : Outcome E A
