-- ===== src/Server/Wire/Answers.antt =====
-- An answer of the handlers as it goes to the client, through both middlewares.
use zenithpay_retry.Base.{ℕ, ◌≡◌, String, Option, none, some, [], str_eq, if◌then◌else◌}
use zenithpay_retry.Retry.World.{World}
use zenithpay_retry.Handler.{Body}
use zenithpay_retry.Server.Wire.{LogEntry}
use zenithpay_retry.Server.Wire.Http.{View, delivered}

-- The answer to a request as the client and the log have it.
pub record Arrives {W F : Type 0} (see : View W F) (method path : String) (status : ℕ)
    (body : Body F) (out : W) (entry : Option LogEntry) : Type 0 where
  pub status_line : see.status out ≡ some status
  pub origin : see.sent_header "Access-Control-Allow-Origin" out ≡ some "*"
  pub content :
      if str_eq method "OPTIONS"
      then (see.bodies out ≡ []) × (entry ≡ none)
      else (see.bodies out ≡ delivered method body [])
        × (see.sent_header "Content-Type" out ≡ some "application/json")
        × (entry ≡ some (record { method = method; path = path; status = status }))
