-- ===== src/Retry/Concurrent/Safe.antt =====
-- The engine's invariant under interleaved calls.
use mathlib.Core.Path.{subst}
use zenithpay_retry.Base.{
  ◌<◌, arith, ℕ, ◌≡◌, ◌≢◌, sym, ap, ◌∙◌, String, Option, some, List, [], ◌∷◌, ◌++◌, Dict, All,
  Outcome, panicked, Run, done, panic,
}
use zenithpay_retry.Float.{Float64}
use zenithpay_retry.Time.{Time}
use zenithpay_retry.Domain.Models.{RetryPlan, RetryAttempt, SubmitRequest, SubmitResponse}
use zenithpay_retry.Domain.Decline.{RetryStrategy}
use zenithpay_retry.Domain.Decline.Plan.{AllComplete}
use zenithpay_retry.Lifecycle.Attempts.{Fits}
use zenithpay_retry.Retry.World.{World, EngineError}
use zenithpay_retry.Retry.Execute.{Intent, simulate, commit, give_up}
use zenithpay_retry.Retry.Execute.Reads.{Read, prepare-Read}
use zenithpay_retry.Retry.Execute.Payments.{simulate_total}
use zenithpay_retry.Retry.Execute.Effects.{IsSafe}
use zenithpay_retry.Retry.Submit.{submit}
use zenithpay_retry.Retry.Submit.Behaviour.{
  Submitted, duplicate, rejects, schedules, submit-Submitted, submit-IsSafe,
}
use zenithpay_retry.Retry.Concurrent.{
  Call, paying, recording, giving_up, Step, begins, finds_none_left, pays, records, gives_up,
  submits, Reach, idle, next,
}
use zenithpay_retry.Retry.Concurrent.Commit.{commit-Committed}
use zenithpay_retry.Retry.Concurrent.Backing.{
  Aims, Backed, Evolves, unchanged, add-Evolves, Backed-Evolves,
}
use zenithpay_retry.Retry.Concurrent.Steps.{
  aimed, none_to_make, Kept, same_store, Committed-Kept, give_up-Kept,
}

pub All-split :
    (P : Call → Type 0) (bs : List Call) (c : Call) (cs : List Call)
    → All P (bs ++ c ∷ cs)
    → P c × All P (bs ++ cs)
All-split P [] c cs h = h
All-split P (b ∷ bs) c cs h = let (x, rest) = All-split P bs c cs h.1 in (x, (h.0, rest))

pub All-join :
    (P : Call → Type 0) (bs : List Call) (c : Call) (cs : List Call)
    → P c
    → All P (bs ++ cs)
    → All P (bs ++ c ∷ cs)
All-join P [] c cs x h = (x, h)
All-join P (b ∷ bs) c cs x h = (h.0, All-join P bs c cs x h.1)

All-map : (P Q : Call → Type 0) → ((c : Call) → P c → Q c) → (cs : List Call) → All P cs → All Q cs
All-map P Q f [] h = tt
All-map P Q f (c ∷ cs) h = (f c h.0, All-map P Q f cs h.1)

-- The attempt that a payment gives is the one that was intended.
abbrev IsFor : Intent → Run RetryAttempt → Type 0
IsFor i panic = ⊥
IsFor i (done a) =
    (a.attempt_number ≡ i.attempt_num)
    × (a.processor ≡ i.processor)
    × (a.scheduled_at ≡ i.scheduled_at)

fitting :
    (p : RetryPlan) (k : ℕ) (i : Intent) (a : RetryAttempt)
    → Aims p k i
    → IsFor i (done a)
    → Fits p k a
fitting p k i a h (n, r, t) = record {
  numbered = n ∙ h.numbered;
  routed = h.routed ∙ ap some (sym r);
  timed = h.timed ∙ ap some (sym t);
}

module _ {F : Type 0} ⦃f : Float64 F⦄ (strategies : Dict (RetryStrategy F)) where
  -- The next step of a call does not panic.
  abbrev pub CannotPanic : World F → Call → Type 0
  CannotPanic w (paying id i) = (simulate strategies i w).1 ≢ panic
  CannotPanic w (recording id i a) = (commit id i a w).1 ≢ panicked
  CannotPanic w (giving_up id tx n) = (give_up id tx n w).1 ≢ panicked

module _ {F : Type 0} ⦃f : Float64 F⦄ (strategies : Dict (RetryStrategy F))
    (all : AllComplete strategies) where
  simulate-IsFor :
      (i : Intent) (w : World F)
      → 0 < i.attempt_num
      → let (w', r) = simulate strategies i w in (w'.store ≡ w.store) × IsFor i r
  simulate-IsFor i w some_number =
      let (w₁, a, e, s, n, num, pr, at, answer) = simulate_total strategies i w all some_number in
      subst (λ x. (x.0.store ≡ w.store) × IsFor i x.1) (sym e) (s, (num, pr, at))

  Submitted-Evolves :
      {parse : String → Option Time} (req : SubmitRequest) (w w' : World F)
      (r : Outcome EngineError SubmitResponse)
      → Submitted strategies parse req w w' r
      → Evolves w.store w'.store
  Submitted-Evolves req w w' r (duplicate u e s n q) = unchanged w.store w'.store s
  Submitted-Evolves req w w' r (rejects tx resp free hard i st rej s n q el pl) =
      add-Evolves req.transaction_id tx w.store w'.store free s
  Submitted-Evolves req w w' r
        (schedules tx resp st p t free soft fs plan i sc pl life s n q el pl') =
      add-Evolves req.transaction_id tx w.store w'.store free s

  -- The invariant of a world with calls under way.
  record IsSound (w : World F) (cs : List Call) : Type 0 where
    safe : IsSafe w
    backed : All (Backed w.store) cs

  after : (w w' : World F) (cs : List Call) → Kept w w' → All (Backed w.store) cs → IsSound w' cs
  after w w' cs k h = record {
    safe = k.safe;
    backed =
        All-map (Backed w.store) (Backed w'.store)
          (λ c. Backed-Evolves w.store w'.store c k.evolves) cs h;
  }

  module _ (parse_rfc3339 : String → Option Time) where
    Step-IsSound :
        (w w' : World F) (cs cs' : List Call)
        → Step strategies parse_rfc3339 w cs w' cs'
        → IsSound w cs
        → IsSound w' cs'
    Step-IsSound w _ _ _ (begins id i cs e) h = record {
      safe = h.safe;
      backed = (
        aimed id w.store i (subst (Read id w.store) e (prepare-Read id w.store h.safe.live)),
        h.backed,
      );
    }
    Step-IsSound w _ _ _ (finds_none_left id tx n cs e) h = record {
      safe = h.safe;
      backed = (
        none_to_make id w.store tx n
            (subst (Read id w.store) e (prepare-Read id w.store h.safe.live)),
        h.backed,
      );
    }
    Step-IsSound w _ _ _ (pays bs id i cs w' a e) h =
        let ((p, v, has, k, aims), others) =
          All-split (Backed w.store) bs (paying id i) cs h.backed in
        let (s, for) =
          subst (λ x. (x.0.store ≡ w.store) × IsFor i x.1) e
            (simulate-IsFor i w (ground (arith, aims.numbered))) in
        after w w' (bs ++ recording id i a ∷ cs) (same_store w w' h.safe s) (
          All-join (Backed w.store) bs (recording id i a) cs
            (p, v, has, k, fitting p k i a aims for) others)
    Step-IsSound w _ _ _ (records bs id i a cs) h =
        let ((p, v, has, k, fits), others) =
          All-split (Backed w.store) bs (recording id i a) cs h.backed in
        after w (commit id i a w).0 (bs ++ cs)
          (Committed-Kept id i a w v has.found p (commit id i a w) h.safe has.planned (
            commit-Committed id i a w v has.found p k (h.safe.live id v has.found) has.planned
              fits)).0
          others
    Step-IsSound w _ _ _ (gives_up bs id tx n cs) h =
        let ((p, v, found, full), others) =
          All-split (Backed w.store) bs (giving_up id tx n) cs h.backed in
        after w (give_up id tx n w).0 (bs ++ cs) (give_up-Kept id tx n w v p h.safe found full)
          others
    Step-IsSound w _ _ _ (submits req cs) h =
        let (w₁, r) = submit strategies parse_rfc3339 req w in
        after w w₁ cs
          (record {
            safe = (submit-IsSafe strategies parse_rfc3339 req w all h.safe).0;
            evolves =
                Submitted-Evolves req w w₁ r (submit-Submitted strategies parse_rfc3339 req w all);
          })
          h.backed

    Reach-IsSound :
        (start w : World F) (cs : List Call)
        → IsSafe start
        → Reach strategies parse_rfc3339 start w cs
        → IsSound w cs
    Reach-IsSound start w cs h idle = record { safe = h; backed = tt }
    Reach-IsSound start w cs h (next {w = v} {cs = ds} r s) =
        Step-IsSound v w ds cs s (Reach-IsSound start v ds h r)

    Backed-CannotPanic :
        (w : World F) (c : Call) → IsSafe w → Backed w.store c → CannotPanic strategies w c
    unfolding give_up
    Backed-CannotPanic w (paying id i) h (p, v, has, k, aims) =
        λ e. subst (IsFor i) e (simulate-IsFor i w (ground (arith, aims.numbered))).1
    Backed-CannotPanic w (recording id i a) h (p, v, has, k, fits) =
        (Committed-Kept id i a w v has.found p (commit id i a w) h has.planned
          (commit-Committed id i a w v has.found p k (h.live id v has.found) has.planned fits)).1
    Backed-CannotPanic w (giving_up id tx n) h b = λ e. cc

    -- However the steps of any number of calls of ExecuteRetry and Submit interleave, every stored
    -- transaction is at a point of its life, the pending index is exact, and the next step of no
    -- call under way panics; from a safe world and with complete strategies.
    pub Reach-IsSafe :
        (start w : World F) (cs : List Call)
        → IsSafe start
        → Reach strategies parse_rfc3339 start w cs
        → IsSafe w × All (CannotPanic strategies w) cs
    Reach-IsSafe start w cs h r =
        let x = Reach-IsSound start w cs h r in
        (
          x.safe,
          All-map (Backed w.store) (CannotPanic strategies w)
              (λ c b. Backed-CannotPanic w c x.safe b) cs x.backed,
        )
