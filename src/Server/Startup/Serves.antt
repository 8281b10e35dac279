-- ===== src/Server/Startup/Serves.antt =====
-- main, from the configuration to the exit.
use zenithpay_retry.Base.{
  ℕ, suc, ◌↔◌, ◌≡◌, refl, ap, ◌⊎◌, inl, inr, String, true, false, none, some, List, [], ◌∷◌, Dict,
  lookup, contains, All, length, str_eq, arith, Bool-cases, Option-cases,
}
use zenithpay_retry.Float.{Float64}
use zenithpay_retry.Domain.Decline.{RetryStrategy, default_strategies, soft_strategy}
use zenithpay_retry.Domain.Decline.Plan.{AllComplete, default_strategies-AllComplete}
use zenithpay_retry.Domain.Config.{StrategyConfig, ConfigError, load_retry_config}
use zenithpay_retry.Domain.Config.Equipped.{
  AllEquipped, Brings, apply_strategy_overrides-AllComplete,
}
use zenithpay_retry.Store.{new_store}
use zenithpay_retry.Store.Index.{new_store-IsIndexed}
use zenithpay_retry.Webhook.{new_notifier, events_with_id, get_events_by_transaction}
use zenithpay_retry.Retry.World.{World}
use zenithpay_retry.Retry.Execute.Effects.{IsSafe}
use zenithpay_retry.Retry.History.{IsTold}
use zenithpay_retry.Handler.{handle_get}
use zenithpay_retry.Server.{Library, Ranges, Event, Result, step, run}
use zenithpay_retry.Server.Safe.{IsSound, AreRanges, IsFine, run-IsSafe}
use zenithpay_retry.Server.History.{Shown, run-Shown}
use zenithpay_retry.Server.Startup.{
  Environment, Closing, shut_down, failed, exit_code, Process, refused, served, new_engine, address,
  configure, main,
}

-- The overrides that a configuration file may hold: each is for a built-in code, or brings delays and
-- rates.
abbrev pub AreAllowed : {F : Type 0} ⦃f : Float64 F⦄ → List (String × StrategyConfig F) → Type 0
AreAllowed {F = F} overrides =
    All (λ o. (contains o.0 (default_strategies {F = F}) ≡ true) ⊎ Brings o.1) overrides

default_strategies-AllEquipped :
    {F : Type 0} ⦃f : Float64 F⦄ → AllEquipped (default_strategies {F = F})
unfolding default_strategies soft_strategy lookup
default_strategies-AllEquipped code s e = record {
  some_delays = ground arith;
  some_rates = ground arith;
}

module _ {F : Type 0} where
  new_engine-IsSafe : (unix_nano : _) (env : Environment F) → IsSafe (new_engine unix_nano env)
  unfolding new_engine new_store lookup
  new_engine-IsSafe unix_nano env = record {
    live = λ id tx e. absurd (cc);
    indexed = new_store-IsIndexed;
  }

  new_engine-IsTold : (unix_nano : _) (env : Environment F) → IsTold (new_engine unix_nano env)
  unfolding new_engine new_store new_notifier get_events_by_transaction events_with_id lookup
  new_engine-IsTold unix_nano env id = refl

-- What the process came to.
pub data Ran {G F : Type 0} ⦃f : Float64 F⦄ (env : Environment F) (lib : Library G F)
    (events : List (Ranges F × Event)) (closing : Closing) : Process F → Type 0 where
  -- A configuration that is named and not accepted: no request is taken.
  refuses :
      (e : ConfigError)
      → str_eq (env.getenv "RETRY_CONFIG_PATH") "" ≡ false
      → (load_retry_config env.parse_duration env.read_file env.decode_config
          (env.getenv "RETRY_CONFIG_PATH")
          default_strategies).1
        ≡ some e
      → Ran env lib events closing (refused e 1)
  -- One result for each event: no answer is missing, and the answers on transactions are true.
  serves :
      (w : World F) (results : List (Result F)) (code : ℕ)
      → (str_eq (env.getenv "RETRY_CONFIG_PATH") "" ≡ true)
        ⊎ ((load_retry_config env.parse_duration env.read_file env.decode_config
              (env.getenv "RETRY_CONFIG_PATH")
              default_strategies).1
            ≡ none)
      → length results ≡ length events
      → All IsFine results
      → IsSafe w
      → ((id : String) → str_eq id "" ≡ false → Shown id w (handle_get id w))
      → (code ≡ 0) ↔ (closing ≡ shut_down)
      → Ran env lib events closing (served (address env) w results code)

exit_code_zero : (closing : Closing) → (exit_code closing ≡ 0) ↔ (closing ≡ shut_down)
unfolding exit_code
exit_code_zero shut_down = (λ e. refl, λ e. refl)
exit_code_zero failed = (λ e. absurd (omega (arith, e)), λ e. absurd (cc))

module _ {G F : Type 0} ⦃f : Float64 F⦄ (strategies : Dict (RetryStrategy F))
    (lib : Library G F) where
  length-run :
      (events : List (Ranges F × Event)) (w : World F)
      → length (run strategies lib events w).1 ≡ length events
  unfolding run
  length-run [] w = refl
  length-run ((ranges, event) ∷ events) w =
      ap suc (length-run events (step strategies lib ranges event w).0)

module _ {F : Type 0} ⦃f : Float64 F⦄ (env : Environment F) where
  -- The file that the configuration path names.
  abbrev pub BringsAllowed : Type 0
  BringsAllowed =
      (text : String) (overrides : List (String × StrategyConfig F))
      → env.read_file (env.getenv "RETRY_CONFIG_PATH") ≡ some text
      → env.decode_config text ≡ some overrides
      → AreAllowed overrides

  load_retry_config-AllComplete :
      BringsAllowed
      → AllComplete
          (load_retry_config env.parse_duration env.read_file env.decode_config
            (env.getenv "RETRY_CONFIG_PATH")
            default_strategies).0
  unfolding load_retry_config
  load_retry_config-AllComplete allowed =
      let path = env.getenv "RETRY_CONFIG_PATH" in
      elim (Bool-cases (str_eq path "")) [
        | inl e ↦ rw (e, load_retry_config) default_strategies-AllComplete
        | inr e ↦ elim (Option-cases (env.read_file path)) [
          | inl r ↦ rw (e, load_retry_config, r) default_strategies-AllComplete
          | inr (text, r) ↦ elim (Option-cases (env.decode_config text)) [
            | inl d ↦ rw (e, load_retry_config, r, d) default_strategies-AllComplete
            | inr (overrides, d) ↦
                rw (e, load_retry_config, r, d)
                  (apply_strategy_overrides-AllComplete env.parse_duration overrides
                    default_strategies (allowed text overrides r d) default_strategies-AllEquipped)
          ]
        ]
      ]

  configure-AllComplete : BringsAllowed → AllComplete (configure env).0
  unfolding configure
  configure-AllComplete allowed = elim (Bool-cases (str_eq (env.getenv "RETRY_CONFIG_PATH") "")) [
    | inl e ↦ rw e default_strategies-AllComplete
    | inr e ↦ rw e (load_retry_config-AllComplete allowed)
  ]

  configure_failure :
      (e : ConfigError)
      → (configure env).1 ≡ some e
      → (str_eq (env.getenv "RETRY_CONFIG_PATH") "" ≡ false)
        × ((load_retry_config env.parse_duration env.read_file env.decode_config
              (env.getenv "RETRY_CONFIG_PATH")
              default_strategies).1
            ≡ some e)
  unfolding configure
  configure_failure e h = elim (Bool-cases (str_eq (env.getenv "RETRY_CONFIG_PATH") "")) [
    | inl q ↦ absurd (ground arith)
    | inr q ↦ (q, ground arith)
  ]

  configure_success :
      (configure env).1 ≡ none
      → (str_eq (env.getenv "RETRY_CONFIG_PATH") "" ≡ true)
        ⊎ ((load_retry_config env.parse_duration env.read_file env.decode_config
              (env.getenv "RETRY_CONFIG_PATH")
              default_strategies).1
            ≡ none)
  unfolding configure
  configure_success h = elim (Bool-cases (str_eq (env.getenv "RETRY_CONFIG_PATH") "")) [
    | inl q ↦ inl q
    | inr q ↦ inr (ground arith)
  ]

-- Whatever the surroundings, the requests and the ticks: the process either exits with code 1
-- before it takes a request, because a configuration was named and not accepted, or it listens,
-- without a configuration or with one that was accepted, and gives one result for each event, with
-- every request answered and every tick carried through; then every stored transaction is at a
-- point of its life, the pending index is exact, GET /api/transactions/{id} shows every transaction
-- with its history, and the exit code is 0 exactly when the server was shut down. If the overrides
-- of the file are for built-in codes or bring delays and rates, random draws and swaps are in
-- range, 70 percent of 200, as computed, are at most 200, and each range over the pending index
-- visits every key once.
pub main-Ran :
    {G F : Type 0} ⦃f : Float64 F⦄ (env : Environment F) (lib : Library G F)
    (events : List (Ranges F × Event)) (closing : Closing)
    → BringsAllowed env
    → IsSound lib
    → All (λ e. AreRanges e.0) events
    → Ran env lib events closing (main env lib events closing)
unfolding main
main-Ran env lib events closing allowed sound en = elim (Option-cases (configure env).1) [
  | inr (e, failure) ↦
      let (named, fails) = configure_failure env e failure in
      rw (main, failure) (refuses e named fails)
  | inl fine ↦
      let all = configure-AllComplete env allowed in
      let w = new_engine lib.unix_nano env in
      let table = (configure env).0 in
      let safe = new_engine-IsSafe lib.unix_nano env in
      let (safe', results) = run-IsSafe table lib all sound events w en safe in
      rw (main, fine)
        (serves (run table lib events w).0 (run table lib events w).1 (exit_code closing)
          (configure_success env fine) (length-run table lib events w) results safe'
          (λ id named.
            run-Shown table lib events w id all safe (new_engine-IsTold lib.unix_nano env) named)
          (exit_code_zero closing))
]
