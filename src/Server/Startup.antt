-- ===== src/Server/Startup.antt =====
-- cmd/server/main.go, main: from the configuration to the exit. The requests and the ticks that come
-- in while the server listens, and how the listening ends, are arguments; the handlers and the
-- scheduler share one state, which the constructors build. The banner and the log are left out.
pub mod Serves
use Prim.Native.String.{◌++◌}
use zenithpay_retry.Base.{ℕ, String, Option, none, some, List, ℤ, Dict, str_eq, if◌then◌else◌}
use zenithpay_retry.Float.{Float64}
use zenithpay_retry.Time.{Time, Duration}
use zenithpay_retry.Domain.Decline.{RetryStrategy, default_strategies}
use zenithpay_retry.Domain.Config.{StrategyConfig, ConfigError, load_retry_config}
use zenithpay_retry.Store.{new_store}
use zenithpay_retry.Webhook.{new_notifier}
use zenithpay_retry.Retry.World.{World}
use zenithpay_retry.Server.{Library, Ranges, Event, Result, run}

-- What main reads of its surroundings: the variables, the files, the clock, and the numbers that a
-- generator yields from a seed.
pub record Environment (F : Type 0) : Type 0 where
  pub getenv : String → String
  pub read_file : String → Option String
  pub decode_config : String → Option (List (String × StrategyConfig F))
  pub parse_duration : String → Option Duration
  pub clock : ℕ → Time
  pub generator : ℤ → ℕ → F

-- How ListenAndServe ends: with http.ErrServerClosed or with another error.
pub data Closing : Type 0 where
  shut_down failed : Closing

unfoldable pub exit_code : Closing → ℕ
exit_code shut_down = 0
exit_code failed = 1

-- The process from its start to its exit: it refused the configuration and exited with a code, or it
-- listened at an address, and came to a last state, with the results of what came in, and a code.
pub data Process (F : Type 0) : Type 0 where
  refused : ConfigError → ℕ → Process F
  served : String → World F → List (Result F) → ℕ → Process F

module _ {F : Type 0} where
  -- store.New, NewNotifier, NewSimulator and NewEngine. The simulator's seed is the first reading of
  -- the clock.
  unfoldable pub new_engine : (Time → ℤ) → Environment F → World F
  new_engine unix_nano env = record {
    store = new_store;
    notifier = new_notifier;
    clock = env.clock;
    ticks = 1;
    rolls = env.generator (unix_nano (env.clock 0));
    draws = 0;
  }

  unfoldable pub address : Environment F → String
  address env = let port = env.getenv "PORT" in ":" ++ (if str_eq port "" then "8080" else port)

module _ {F : Type 0} ⦃f : Float64 F⦄ where
  -- The table of the strategies after the configuration, and the error that it ends with.
  unfoldable pub configure : Environment F → Dict (RetryStrategy F) × Option ConfigError
  configure env =
      let path = env.getenv "RETRY_CONFIG_PATH" in
      if str_eq path ""
      then (default_strategies, none)
      else load_retry_config env.parse_duration env.read_file env.decode_config path
          default_strategies

  unfoldable pub main :
      {G : Type 0} → Environment F → Library G F → List (Ranges F × Event) → Closing → Process F
  unfolding configure new_engine address exit_code
  main env lib events closing =
      let (table, failure) = configure env in
      elim failure [
        | some e ↦ refused e 1
        | none ↦
            let (w, results) = run table lib events (new_engine lib.unix_nano env) in
            served (address env) w results (exit_code closing)
      ]
