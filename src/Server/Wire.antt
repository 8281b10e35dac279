-- ===== src/Server/Wire.antt =====
-- cmd/server/main.go, responseWriter and the two middlewares, and internal/handler/transaction.go,
-- writeJSON: how an answer goes through the ResponseWriter of net/http, whose methods are an
-- interface here. An error of the encoder is only logged, and left out, as is the duration.
pub mod Http
mod Statuses
pub mod Answers
use zenithpay_retry.Base.{ℕ, String, Option, none, some, Dict, str_eq, if◌then◌else◌}
use zenithpay_retry.Float.{Float64}
use zenithpay_retry.Domain.Decline.{RetryStrategy}
use zenithpay_retry.Retry.World.{World}
use zenithpay_retry.Handler.{Body, Reply, reply, no_reply, unfinished}
use zenithpay_retry.Server.{Library, Ranges, Route, get_health, post_seed, post_reset, serve}

-- http.ResponseWriter, with a state W: w.Header().Set, w.WriteHeader, and the Write of a body that
-- json.NewEncoder(w).Encode makes.
pub record ResponseWriter (W F : Type 0) : Type 0 where
  pub set_header : String → String → W → W
  pub write_header : ℕ → W → W
  pub encode : Body F → W → W

-- responseWriter of main.go: a writer, and the status code that it has seen.
pub record LoggedWriter (W : Type 0) : Type 0 where
  pub inner : W
  pub status_code : ℕ

-- The line that loggingMiddleware writes.
pub record LogEntry : Type 0 where
  pub method : String
  pub path : String
  pub status : ℕ

module _ {W F : Type 0} where
  -- The methods of responseWriter: WriteHeader is its own, the others are the embedded writer's.
  unfoldable pub logged : ResponseWriter W F → ResponseWriter (LoggedWriter W) F
  logged h = record {
    set_header = λ key value w. record w { inner = h.set_header key value w.inner };
    write_header = λ code w. record { inner = h.write_header code w.inner; status_code = code };
    encode = λ body w. record w { inner = h.encode body w.inner };
  }

  -- writeJSON
  unfoldable pub send_json : ResponseWriter W F → ℕ → Body F → W → W
  send_json h status body w =
      h.encode body (h.write_header status (h.set_header "Content-Type" "application/json" w))

  -- The health, seed and reset endpoints write a body and no status.
  unfoldable pub send_body : ResponseWriter W F → Body F → W → W
  send_body h body w = h.encode body (h.set_header "Content-Type" "application/json" w)

  -- What the handler of a route writes. A panic and an endless loop write nothing.
  unfoldable pub respond : ResponseWriter W F → Route → Reply F → W → W
  unfolding send_json send_body
  respond h route no_reply w = w
  respond h route unfinished w = w
  respond h get_health (reply status body) w = send_body h body w
  respond h post_seed (reply status body) w = send_body h body w
  respond h post_reset (reply status body) w = send_body h body w
  respond h route (reply status body) w = send_json h status body w

  -- The three headers of corsMiddleware.
  unfoldable pub set_cors_headers : ResponseWriter W F → W → W
  set_cors_headers h w = h.set_header "Access-Control-Allow-Headers" "Content-Type, Authorization" (
      h.set_header "Access-Control-Allow-Methods" "GET, POST, OPTIONS"
        (h.set_header "Access-Control-Allow-Origin" "*" w))

module _ {G F W : Type 0} ⦃f : Float64 F⦄ (strategies : Dict (RetryStrategy F)) (lib : Library G F)
    (h : ResponseWriter W F) (ranges : Ranges F) where
  -- The mux, with a writer of any kind.
  unfoldable pub serve_http : {V : Type 0} → ResponseWriter V F → Route → World F → V → World F × V
  unfolding respond
  serve_http writer route w out =
      let (w', r) = serve strategies lib ranges route w in (w', respond writer route r out)

  -- loggingMiddleware
  unfoldable pub log_request : String → String → Route → World F → W → World F × W × Option LogEntry
  unfolding logged serve_http
  log_request method path route w out =
      let (w', rw) = serve_http (logged h) route w (record { inner = out; status_code = 200 }) in
      (w', rw.inner, some (record { method = method; path = path; status = rw.status_code }))

  -- corsMiddleware(loggingMiddleware(logger, mux))
  unfoldable pub handle_request :
      String → String → Route → World F → W → World F × W × Option LogEntry
  unfolding set_cors_headers log_request
  handle_request method path route w out =
      let out' = set_cors_headers h out in
      if str_eq method "OPTIONS"
      then (w, h.write_header 204 out', none)
      else log_request method path route w out'
