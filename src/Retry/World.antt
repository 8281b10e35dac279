-- ===== src/Retry/World.antt =====
-- The state that the engine's methods share: the store and the notifier, and the two sources that
-- they read from outside. `time.Now()` answers the next reading of the clock, and the simulator's
-- generator the next number of its stream; both streams are arbitrary.
use zenithpay_retry.Base.{ℕ, suc}
use zenithpay_retry.Time.{Time}
use zenithpay_retry.Store.{Store}
use zenithpay_retry.Webhook.{Notifier, send}
use zenithpay_retry.Domain.Models.{Transaction, EventType}

-- What `errors.Is` can tell of the errors that the engine returns.
pub data EngineError : Type 0 where
  already_submitted saving_failed unknown_id not_retryable attempts_exhausted : EngineError

pub record World (F : Type 0) : Type 0 where
  pub store : Store
  pub notifier : Notifier
  pub clock : ℕ → Time
  pub ticks : ℕ
  pub rolls : ℕ → F
  pub draws : ℕ

module _ {F : Type 0} where
  -- The time that the next `time.Now().UTC()` answers.
  abbrev pub now : World F → Time
  now w = w.clock w.ticks

  -- The clock after one more reading.
  abbrev pub tick : World F → World F
  tick w = record w { ticks = suc w.ticks }

  -- e.notifier.Send(tx, event_type, attempt_number)
  unfoldable pub notify : Transaction → EventType → ℕ → World F → World F
  notify tx event_type attempt_number w = record w {
    notifier = send tx event_type attempt_number (now w) w.notifier;
    ticks = suc w.ticks;
  }
