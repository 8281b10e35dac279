-- ===== src/Examples/Runs.antt =====
-- The process, its scheduler and its history, from the start and at the scenario.
use mathlib.Core.Option.{some-injective}
use mathlib.Core.Path.{subst}
use zenithpay_retry.Base.{
  zero, suc, ◌≡◌, refl, ◌⊎◌, true, false, some, List, [], ◌∷◌, ◌++◌, map, pos, All, lookup, arith,
  if◌then◌else◌, str_eq, contains,
}
use zenithpay_retry.Float.{Micros, micros_float}
use zenithpay_retry.Time.{hours, before}
use zenithpay_retry.Domain.Models.{Transaction, recovered, failed_final}
use zenithpay_retry.Retry.World.{World}
use zenithpay_retry.Retry.Execute.Effects.{IsSafe}
use zenithpay_retry.Retry.History.{IsTold}
use zenithpay_retry.Retry.Scheduler.{new_scheduler, ticked, cancelled, stopped}
use zenithpay_retry.Retry.Scheduler.{start as start_loop}
use zenithpay_retry.Retry.Scheduler.Watch.{AllPast}
use zenithpay_retry.Retry.Scheduler.Settles.{start-Settles}
use zenithpay_retry.Store.{new_store}
use zenithpay_retry.Webhook.{new_notifier, events_with_id, get_events_by_transaction}
use zenithpay_retry.Handler.{handle_get}
use zenithpay_retry.Server.{
  Ranges, Event, request, sweep, post_transaction, get_transaction, post_seed, run,
}
use zenithpay_retry.Server.Safe.{AreRanges}
use zenithpay_retry.Server.History.{Shown, run-Shown}
use zenithpay_retry.Server.Startup.{Environment, shut_down, main}
use zenithpay_retry.Server.Startup.Serves.{BringsAllowed, Ran, main-Ran}
use zenithpay_retry.Examples.Scenario.{
  table, table-AllComplete, start, start-IsSafe, plan, waiting_tx, waiting, waiting-IsSafe,
}
use zenithpay_retry.Examples.Ranges.{
  keys, keys-Enumerates, ranges, ranges-AreRanges, library, library-IsSound,
}
use zenithpay_retry.Examples.Configs.{one_hour, configs, configs_allowed}

abbrev events : List (Ranges Micros × Event)
events =
    (ranges, request "POST" (post_transaction "{}"))
    ∷ (ranges, sweep)
    ∷ (ranges, request "GET" (get_transaction "txn_1"))
    ∷ (ranges, request "POST" post_seed)
    ∷ []

events-AreRanges : All (λ (e : Ranges Micros × Event). AreRanges e.0) events
events-AreRanges =
    (ranges-AreRanges, (ranges-AreRanges, (ranges-AreRanges, (ranges-AreRanges, tt))))

start-IsTold : IsTold start
unfolding new_store new_notifier get_events_by_transaction events_with_id lookup
start-IsTold id = refl

run-Shown_example :
    let (w', results) = run table library events start in
    Shown "txn_000001" w' (handle_get "txn_000001" w')
run-Shown_example =
    run-Shown table library events start "txn_000001" table-AllComplete start-IsSafe start-IsTold
      refl

-- Both times of the plan are past.
abbrev late : World Micros
late = record waiting { clock = λ n. hours 100 }

late-AllPast : AllPast plan late
late-AllPast n zero at le e = subst (λ t. before (hours 100) t ≡ false) (some-injective _ _ e) refl
late-AllPast n (suc zero) at le e =
    subst (λ t. before (hours 100) t ≡ false) (some-injective _ _ e) refl
late-AllPast n (suc (suc k)) at le e = absurd (cc)

found : lookup "txn_2" late.store.transactions ≡ some waiting_tx
unfolding lookup
found = refl

start-Settles_example :
    let (w', state) =
      start_loop table
        (new_scheduler (hours 1))
        (map ticked (keys ∷ keys ∷ []) ++ cancelled ∷ ticked keys ∷ [])
        late in
    (state ≡ stopped)
    × IsSafe w'
    × ((u : Transaction) × (lookup "txn_2" w'.store.transactions ≡ some u)
        × ((u.status ≡ recovered) ⊎ (u.status ≡ failed_final)))
unfolding new_scheduler
start-Settles_example =
    start-Settles table (new_scheduler (hours 1)) (keys ∷ keys ∷ []) (ticked keys ∷ []) late "txn_2"
      waiting_tx plan table-AllComplete
      (record { live = waiting-IsSafe.live; indexed = waiting-IsSafe.indexed }) (omega arith)
      (keys-Enumerates, (keys-Enumerates, tt)) found refl (omega arith) (omega arith) late-AllPast

-- A configuration file for one new code and one known one.
abbrev environment : Environment Micros
environment = record {
  getenv = λ name. if str_eq name "RETRY_CONFIG_PATH" then "retry.json" else "";
  read_file = λ path. some "{}";
  decode_config = λ text. some configs;
  parse_duration = one_hour;
  clock = λ n. pos n;
  generator = λ seed n. 500_000;
}

environment-BringsAllowed : BringsAllowed environment
environment-BringsAllowed text overrides r d =
    subst
      (λ o.
        All (λ c. (contains c.0 table ≡ true) ⊎ zenithpay_retry.Domain.Config.Equipped.Brings c.1)
          o)
      (some-injective _ _ d) configs_allowed

main-Ran_example :
    Ran environment library events shut_down (main environment library events shut_down)
main-Ran_example =
    main-Ran environment library events shut_down environment-BringsAllowed library-IsSound
      events-AreRanges
