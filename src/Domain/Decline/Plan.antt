-- ===== src/Domain/Decline/Plan.antt =====
-- BuildRetryPlan as a whole, and the classification of decline codes.
use mathlib.Core.Path.{subst}
use native.Mathlib.Nat.{zero-add}
use zenithpay_retry.Base.{
  ℕ, ◌<◌, ◌≡◌, ◌↔◌, refl, inl, inr, String, Bool, true, false, some, List, [], Dict, lookup,
  contains, Run, done, panic, collect, collect_total, collect_panic, Bool-cases, Collects-get_elem?,
  length, get_elem?, arith,
}
use zenithpay_retry.Float.{Float64}
use zenithpay_retry.Time.{Time, Duration}
use zenithpay_retry.Domain.Models.{RetryPlan, soft_decline}
use zenithpay_retry.Domain.Decline.{
  RetryStrategy, default_strategies, is_hard_decline, classify_decline, get_retry_strategy,
  get_available_processors, processor_at, build_fixed_times, build_business_hours_times,
  build_scheduled_times, build_retry_plan, delay_at,
}
use zenithpay_retry.Domain.Decline.Processors.{IsChosen, processor_at_lem}
use zenithpay_retry.Domain.Decline.Schedule.{
  IsComplete, IsScheduledAt, build_scheduled_times_total, is_exponential, is_business_hours,
}

choose :
    (alternate : Bool) (original : String) (i : ℕ) (p : String)
    → processor_at alternate original (get_available_processors original) i ≡ done p
    → IsChosen alternate original i p
choose alternate original i p e =
    let (q, e', c) = processor_at_lem alternate original i in
    let same : q ≡ p = ground arith in subst (IsChosen alternate original i) same c

no_delay : {delays : List Duration} → delays ≡ [] → delay_at delays 0 ≡ panic
unfolding delay_at
no_delay h = rw h

module _ {F : Type 0} ⦃f : Float64 F⦄ where
  -- Every strategy of the table can be planned and simulated without an index out of range.
  abbrev pub AllComplete : Dict (RetryStrategy F) → Type 0
  AllComplete strategies =
      (code : String) (s : RetryStrategy F) → lookup code strategies ≡ some s → IsComplete s

  -- The plan that a strategy asks for.
  pub record IsPlanFor (s : RetryStrategy F) (code original : String) (base : Time)
      (plan : RetryPlan) : Type 0 where
    pub attempts : plan.max_attempts ≡ s.max_attempts
    pub described : plan.strategy ≡ s.description
    pub coded : plan.plan_code ≡ code
    pub times : length plan.scheduled_times ≡ plan.max_attempts
    pub routes : length plan.processors ≡ plan.max_attempts
    pub timed :
        (i : ℕ) (t : Time) → get_elem? plan.scheduled_times i ≡ some t → IsScheduledAt s base i t
    pub routed :
        (i : ℕ) (p : String)
        → get_elem? plan.processors i ≡ some p
        → IsChosen s.use_alt_processor original i p

  abbrev plan_of : RetryStrategy F → String → List Time → List String → RetryPlan
  plan_of s code ts ps = record {
    max_attempts = s.max_attempts;
    strategy = s.description;
    plan_code = code;
    scheduled_times = ts;
    processors = ps;
  }

  build_from :
      (strategies : Dict (RetryStrategy F)) (code original : String) (base : Time)
      (s : RetryStrategy F) (ts : List Time) (ps : List String)
      → lookup code strategies ≡ some s
      → build_scheduled_times s base ≡ done ts
      → collect s.max_attempts 0
          (processor_at s.use_alt_processor original (get_available_processors original))
        ≡ done ps
      → build_retry_plan strategies code original base ≡ done (some (plan_of s code ts ps))
  unfolding build_retry_plan get_retry_strategy
  build_from strategies code original base s ts ps found et ep = ground arith

  -- For a code with a complete strategy BuildRetryPlan returns a plan, with one time and one
  -- processor for each attempt, as the backoff type and the use of alternate processors say.
  pub build_retry_plan_lem :
      (strategies : Dict (RetryStrategy F)) (code original : String) (base : Time)
      (s : RetryStrategy F)
      → lookup code strategies ≡ some s
      → IsComplete s
      → (plan : RetryPlan) × (build_retry_plan strategies code original base ≡ done (some plan))
        × IsPlanFor s code original base plan
  build_retry_plan_lem strategies code original base s found c =
      let (ts, et, lt, gt) = build_scheduled_times_total s base c in
      let (ps, ep, lp, cp) = collect_total s.max_attempts 0 route total in
      (
        plan_of s code ts ps,
        build_from strategies code original base s ts ps found et ep,
        record {
          attempts = refl;
          described = refl;
          coded = refl;
          times = lt;
          routes = lp;
          timed = gt;
          routed = λ i p e.
              choose s.use_alt_processor original i p
                (rw zero-add at (Collects-get_elem? route 0 ps i p cp e));
        },
      )
    where
      route : ℕ → Run String
      route = processor_at s.use_alt_processor original (get_available_processors original)

      total : (i : ℕ) → (p : String) × (route i ≡ done p)
      total i = let (p, e, _) = processor_at_lem s.use_alt_processor original i in (p, e)

  -- Every built-in strategy has delays and rates, so that neither its plan nor a simulated payment
  -- indexes an empty list.
  pub default_strategies-AllComplete : AllComplete default_strategies
  unfolding default_strategies lookup
  default_strategies-AllComplete code s h = ground arith

  build_scheduled_times_panics :
      (s : RetryStrategy F) (base : Time)
      → is_exponential s ≡ false
      → s.delays ≡ []
      → 0 < s.max_attempts
      → build_scheduled_times s base ≡ panic
  unfolding build_scheduled_times build_fixed_times build_business_hours_times
  build_scheduled_times_panics s base e none_given some_attempts =
      elim (Bool-cases (is_business_hours s)) [
        | inl b ↦
            rw (e, b) (collect_panic s.max_attempts 0 _ some_attempts (rw (no_delay none_given)))
        | inr b ↦
            rw (e, b) (collect_panic s.max_attempts 0 _ some_attempts (rw (no_delay none_given)))
      ]

  -- For a code whose strategy has attempts, no delays and is not exponential, BuildRetryPlan
  -- panics.
  pub build_retry_plan_panics :
      (strategies : Dict (RetryStrategy F)) (code original : String) (base : Time)
      (s : RetryStrategy F)
      → lookup code strategies ≡ some s
      → is_exponential s ≡ false
      → s.delays ≡ []
      → 0 < s.max_attempts
      → build_retry_plan strategies code original base ≡ panic
  unfolding build_retry_plan get_retry_strategy
  build_retry_plan_panics strategies code original base s found e none_given some_attempts =
      ground (arith, build_scheduled_times_panics s base e none_given some_attempts)

-- A code is soft exactly if it is not one of the hard codes and the table has a strategy for it,
-- whatever the table.
pub classify_decline_lem :
    {F : Type 0} (strategies : Dict (RetryStrategy F)) (code : String)
    → ((classify_decline strategies code).0 ≡ soft_decline)
      ↔ ((is_hard_decline code ≡ false) × (contains code strategies ≡ true))
unfolding classify_decline is_hard_decline
classify_decline_lem strategies code = ground arith
