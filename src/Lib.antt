-- ===== src/Lib.antt =====
-- zenithpay-retry: a service that retries failed card payments. A merchant submits a failed
-- transaction; the service classifies its decline code, stores it with a retry plan or as rejected,
-- and a scheduler, an API call or a batch run carries out the attempts of the plan through a
-- simulated processor, until one succeeds or the plan is used up. Every step is logged as a webhook
-- event.
--
-- The parts, and the files that model them:
--   Base: lists, maps, signed integers, loops that may panic, and outcomes.
--   Time: time.Time and time.Duration as signed nanoseconds. All computation is in UTC.
--   Float: float64 as a parameter, a record of the operations that the code applies.
--   Domain/Models: internal/domain/models.go. One record for each struct, in snake_case; a pointer
--     is an Option; a string type with constants is a data type.
--   Domain/Decline: internal/domain/decline.go, classification, plans and, in Codes, the lists of
--     codes. The strategy table, a package variable that the configuration fills at startup, is an
--     argument. BuildRetryPlan is build_retry_plan, snapToBusinessHours is snap_to_business_hours,
--     and so on.
--   Domain/Config: internal/domain/config.go. ApplyStrategyOverrides takes the overrides in the order
--     in which the range visits them. Reading the file, decoding it and parsing durations are
--     arguments.
--   Store: internal/store/memory.go. Each method holds the lock throughout, so it is one function
--     from the store to the store. The two maps are association lists with the map laws of
--     Base/Maps; a range over a map takes the order of its visits as an argument. Transactions are
--     values there; Store/Pointers has copyTransaction, and Save, Get and UpdateFunc as accesses to a
--     memory that the store shares with its callers.
--   Webhook: internal/webhook/notifier.go. The log, and the deliveries that Send starts.
--   Retry/World: the state that the engine's methods share. The clock and the random numbers are
--     arbitrary streams; a reading advances a counter.
--   Retry/Simulator: internal/retry/simulator.go.
--   Retry/Submit, Retry/Execute: Submit and ExecuteRetry of internal/retry/engine.go. ExecuteRetry
--     is prepare (the read of the store), simulate (outside the lock), commit (UpdateFunc and the
--     event).
--   Retry/Concurrent: calls of ExecuteRetry and Submit that run at the same time, as a relation whose
--     steps are the parts of a call between two uses of the store's lock. Resets adds the clearing of
--     the store and of the log to the steps.
--   Retry/Batch: ProcessAllPending and the scheduler's processDueRetries.
--   Retry/Scheduler: NewScheduler and Start of internal/retry/scheduler.go. The loop takes a list of
--     the signals that its select can take: ticks, and the cancelled context.
--   Retry/History: what the event log says of a stored transaction.
--   Lifecycle: what holds of a stored transaction in each status, the invariant of the engine.
--   Analytics, Analytics/Reasons, Analytics/Attempts: Overview, ByDeclineReason and ByAttemptNumber
--     of internal/handler/analytics.go.
--   Seed: internal/seed/generator.go, over any generator of random numbers.
--   Handler: internal/handler/transaction.go. A handler takes what it reads of a request, and gives
--     the new world and a reply: a status and the value that is written as JSON.
--   Server: cmd/server/main.go. serve is the routing table with the seed and reset endpoints, cors the
--     middleware, and run a sequence of requests and ticks of the scheduler, one after the other.
--   Server/Startup: main, from the configuration to the exit code.
--   Server/Wire: how an answer goes through responseWriter, loggingMiddleware and corsMiddleware, and
--     through writeJSON, to the ResponseWriter of net/http, which is an interface with the laws that
--     its documentation gives.
--   Examples: the theorems at concrete inputs.
--
-- Errors are values: Outcome has a value, an error or a panic. An index out of range or a nil
-- dereference is a panic. Loops over lists are structural; the endless inner loop of
-- ProcessAllPending runs on fuel, one round for each attempt left and one more: every round but the
-- last makes an attempt of the plan. Counts are natural numbers: they are lengths of slices and small
-- literals, or are only set where positive. Durations are signed, and their sums in exponential
-- backoff wrap at 64 bits.
--
-- The server gives ProcessAllPending as many rounds as all stored plans have attempts, and one more.
-- Of the libraries, the model takes as arguments: float64, the decoding of JSON, the parsing and
-- printing of times, the printing of durations, the random numbers, and the orders of ranges over
-- maps. Of math/rand it is relied on that a draw below n is below n and that Shuffle swaps in range.
--
-- Not modelled: the text of the logs, the listening socket, the signals of the system and the deadline
-- of the shutdown, the time between the ticks of the scheduler, the delivery of webhooks over the
-- network. Requests that are handled at the same time are modelled for ExecuteRetry, Submit and the
-- reset. A slice is as long as it is asked to be: running out of memory, as with a plan of billions
-- of attempts, is left out.
pub mod Base
pub mod Time
pub mod Float
pub mod Domain
pub mod Store
pub mod Webhook
pub mod Lifecycle
pub mod Retry
pub mod Analytics
pub mod Seed
pub mod Handler
pub mod Server
pub mod Examples
