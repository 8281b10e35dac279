-- ===== src/Examples/Wires.antt =====
-- Answers through a recorder of what is written, as the tests of the handlers use one.
use zenithpay_retry.Base.{
  ℕ, String, Option, none, some, List, [], ◌∷◌, ◌++◌, str_eq, Bool, false, ◌||◌, ◌==◌,
  if◌then◌else◌,
}
use zenithpay_retry.Float.{Micros, micros_float}
use zenithpay_retry.Handler.{Body}
use zenithpay_retry.Server.Wire.{ResponseWriter}
use zenithpay_retry.Server.Wire.Http.{View}

record Recorder : Type 0 where
  header : String → Option String
  sent : Option (ℕ × (String → Option String))
  bodies : List (Body Micros)

abbrev send_head : ℕ → Recorder → Recorder
send_head code w = elim w.sent [ none ↦ record w { sent = some (code, w.header) } | some _ ↦ w ]

abbrev sent_status : Option (ℕ × (String → Option String)) → Option ℕ
sent_status none = none
sent_status (some (code, headers)) = some code

abbrev sent_value : String → Option (ℕ × (String → Option String)) → Option String
sent_value k none = none
sent_value k (some (code, headers)) = headers k

-- The codes that forbid a body.
abbrev bodiless : Option ℕ → Bool
bodiless none = false
bodiless (some code) = code == 204 || code == 304

abbrev recorder : ResponseWriter Recorder Micros
recorder = record {
  set_header =
      λ key value w. record w { header = λ k. if str_eq key k then some value else w.header k };
  write_header = send_head;
  encode = λ body w. record (send_head 200 w) {
    bodies = if bodiless (sent_status w.sent) then w.bodies else w.bodies ++ body ∷ [];
  };
}

abbrev recorded : View Recorder Micros
recorded = record {
  header = λ k w. w.header k;
  status = λ w. sent_status w.sent;
  sent_header = λ k w. sent_value k w.sent;
  bodies = λ w. w.bodies;
}

abbrev fresh : Recorder
fresh = record { header = λ k. none; sent = none; bodies = [] }
