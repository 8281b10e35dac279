-- ===== src/Retry/Concurrent/Backing.antt =====
-- What a call that is under way may rely on while other calls run.
use mathlib.Core.Path.{subst}
use zenithpay_retry.Base.{
  ℕ, suc, ◌≡◌, refl, ap, ◌∙◌, inl, inr, String, none, some, length, get_elem?, lookup, arith,
  Bool-cases, str_eq, eq_iff,
}
use zenithpay_retry.Domain.Models.{Transaction, RetryPlan}
use zenithpay_retry.Store.{Store, put}
use zenithpay_retry.Store.Index.{lookup-put}
use zenithpay_retry.Lifecycle.{IsPlanned, AllFailed}
use zenithpay_retry.Lifecycle.Attempts.{Fits}
use zenithpay_retry.Retry.Execute.{Intent}
use zenithpay_retry.Retry.Concurrent.{Call, paying, recording, giving_up}

-- Every attempt of the plan has been made, and failed.
pub record IsFull (tx : Transaction) (p : RetryPlan) : Type 0 where
  pub on_plan : IsPlanned p tx
  pub failed : AllFailed tx.retry_attempts
  pub full : length tx.retry_attempts ≡ p.max_attempts

-- What a call that is under way may rely on: the plan that it read is still the transaction's plan.
pub record HasPlan (s : Store) (id : String) (p : RetryPlan) (v : Transaction) : Type 0 where
  pub found : lookup id s.transactions ≡ some v
  pub planned : v.retry_plan ≡ some p

pub record Aims (p : RetryPlan) (k : ℕ) (i : Intent) : Type 0 where
  pub numbered : i.attempt_num ≡ suc k
  pub routed : get_elem? p.processors k ≡ some i.processor
  pub timed : get_elem? p.scheduled_times k ≡ some i.scheduled_at

abbrev pub Backed : Store → Call → Type 0
Backed s (paying id i) =
    (p : RetryPlan) × (v : Transaction) × HasPlan s id p v × (k : ℕ) × Aims p k i
Backed s (recording id i a) =
    (p : RetryPlan) × (v : Transaction) × HasPlan s id p v × (k : ℕ) × Fits p k a
Backed s (giving_up id tx n) =
    (p : RetryPlan) × (v : Transaction) × (lookup id s.transactions ≡ some v) × IsFull v p

-- What no step takes away from a stored transaction.
pub record Evolved (v u : Transaction) : Type 0 where
  pub plan_kept : u.retry_plan ≡ v.retry_plan
  pub full_kept : (p : RetryPlan) → IsFull v p → IsFull u p

abbrev pub Evolves : Store → Store → Type 0
Evolves s s' =
    (id : String) (v : Transaction)
    → lookup id s.transactions ≡ some v
    → (u : Transaction) × (lookup id s'.transactions ≡ some u) × Evolved v u

pub unchanged : (s s' : Store) → s' ≡ s → Evolves s s'
unchanged s s' e id v found = (
  v,
  ap (λ x. lookup id x.transactions) e ∙ found,
  record { plan_kept = refl; full_kept = λ p h. h },
)

pub put-Evolves :
    (id : String) (v u : Transaction) (s s' : Store)
    → lookup id s.transactions ≡ some v
    → s' ≡ put id u s
    → Evolved v u
    → Evolves s s'
put-Evolves id v u s s' found e step j x here = elim (Bool-cases (str_eq id j)) [
  | inl same ↦
      let is_v : v ≡ x = ground (arith, eq_iff id j) in
      (
        u,
        ap (λ z. lookup j z.transactions) e ∙ ground (arith, lookup-put id j u s),
        subst (λ z. Evolved z u) is_v step,
      )
  | inr other ↦ (
    x,
    ap (λ z. lookup j z.transactions) e ∙ ground (arith, lookup-put id j u s),
    record { plan_kept = refl; full_kept = λ p h. h },
  )
]

pub add-Evolves :
    (id : String) (u : Transaction) (s s' : Store)
    → lookup id s.transactions ≡ none
    → s' ≡ put id u s
    → Evolves s s'
add-Evolves id u s s' free e j x here = (
  x,
  ap (λ z. lookup j z.transactions) e ∙ ground (arith, lookup-put id j u s, eq_iff id j),
  record { plan_kept = refl; full_kept = λ p h. h },
)

pub Backed-Evolves : (s s' : Store) (c : Call) → Evolves s s' → Backed s c → Backed s' c
Backed-Evolves s s' (paying id i) ev (p, v, h, k, a) =
    let (u, found, e) = ev id v h.found in
    (p, u, record { found = found; planned = e.plan_kept ∙ h.planned }, k, a)
Backed-Evolves s s' (recording id i r) ev (p, v, h, k, a) =
    let (u, found, e) = ev id v h.found in
    (p, u, record { found = found; planned = e.plan_kept ∙ h.planned }, k, a)
Backed-Evolves s s' (giving_up id tx n) ev (p, v, h, full) =
    let (u, found, e) = ev id v h in (p, u, found, e.full_kept p full)
