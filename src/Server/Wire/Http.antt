-- ===== src/Server/Wire/Http.antt =====
-- What net/http documents of a ResponseWriter, as far as the program relies on it.
use zenithpay_retry.Base.{
  ℕ, ◌≤◌, ◌<◌, ◌≡◌, ◌≢◌, ap, ◌∙◌, false, String, Option, none, some, List, [], ◌∷◌, ◌++◌, str_eq,
  if◌then◌else◌,
}
use zenithpay_retry.Handler.{Body}
use zenithpay_retry.Server.Wire.{ResponseWriter, LoggedWriter, logged, send_json, send_body}

-- What can be seen of a writer: the header map, and what has gone to the client: the status line,
-- the headers beside it, and the bodies.
pub record View (W F : Type 0) : Type 0 where
  pub header : String → W → Option String
  pub status : W → Option ℕ
  pub sent_header : String → W → Option String
  pub bodies : W → List (Body F)

-- A code that WriteHeader takes and sends at once; it panics on a code of other than three digits,
-- and may be called again after one below 200.
abbrev pub IsFinal : ℕ → Type 0
IsFinal code = (200 ≤ code) × (code < 1000)

-- A code whose answer may have a body.
abbrev pub HasBody : ℕ → Type 0
HasBody code = IsFinal code × (code ≢ 204) × (code ≢ 304)

-- The bodies after a Write that is allowed: the answer to HEAD has none.
abbrev pub delivered : {F : Type 0} → String → Body F → List (Body F) → List (Body F)
delivered method body bodies = if str_eq method "HEAD" then bodies else bodies ++ body ∷ []

-- The writer for the answer to a request with that method. Set replaces the value of its key. The
-- first WriteHeader of a final code sends it and the headers that are set; the first Write sends 200
-- and the headers, if WriteHeader has not been called. A later Write sends a body, if the code
-- allows one, and changes nothing else.
pub record IsHttp {W F : Type 0} (method : String) (h : ResponseWriter W F) (see : View W F)
    : Type 0 where
  pub header_set :
      (k key value : String) (w : W)
      → see.header k (h.set_header key value w)
        ≡ (if str_eq key k then some value else see.header k w)
  pub status_set :
      (key value : String) (w : W) → see.status (h.set_header key value w) ≡ see.status w
  pub bodies_set :
      (key value : String) (w : W) → see.bodies (h.set_header key value w) ≡ see.bodies w
  pub status_first :
      (code : ℕ) (w : W)
      → IsFinal code
      → see.status w ≡ none
      → see.status (h.write_header code w) ≡ some code
  pub headers_first :
      (code : ℕ) (k value : String) (w : W)
      → IsFinal code
      → see.status w ≡ none
      → see.header k w ≡ some value
      → see.sent_header k (h.write_header code w) ≡ some value
  pub bodies_first :
      (code : ℕ) (w : W)
      → IsFinal code
      → see.status w ≡ none
      → see.bodies (h.write_header code w) ≡ see.bodies w
  pub status_body :
      (body : Body F) (w : W) → see.status w ≡ none → see.status (h.encode body w) ≡ some 200
  pub headers_body :
      (body : Body F) (k value : String) (w : W)
      → see.status w ≡ none
      → see.header k w ≡ some value
      → see.sent_header k (h.encode body w) ≡ some value
  pub bodies_body :
      (body : Body F) (w : W)
      → see.status w ≡ none
      → see.bodies (h.encode body w) ≡ delivered method body (see.bodies w)
  pub status_later :
      (body : Body F) (w : W) (code : ℕ)
      → see.status w ≡ some code
      → see.status (h.encode body w) ≡ some code
  pub headers_later :
      (body : Body F) (w : W) (code : ℕ) (k : String)
      → see.status w ≡ some code
      → see.sent_header k (h.encode body w) ≡ see.sent_header k w
  pub bodies_later :
      (body : Body F) (w : W) (code : ℕ)
      → see.status w ≡ some code
      → HasBody code
      → see.bodies (h.encode body w) ≡ delivered method body (see.bodies w)

-- What is seen of the wrapped writer is seen through responseWriter.
abbrev pub through : {W F : Type 0} → View W F → View (LoggedWriter W) F
through see = record {
  header = λ k w. see.header k w.inner;
  status = λ w. see.status w.inner;
  sent_header = λ k w. see.sent_header k w.inner;
  bodies = λ w. see.bodies w.inner;
}

module _ {W F : Type 0} (method : String) (h : ResponseWriter W F) (see : View W F)
    (laws : IsHttp method h see) where
  pub logged-IsHttp : IsHttp method (logged h) (through see)
  unfolding logged
  logged-IsHttp = record {
    header_set = λ k key value w. laws.header_set k key value w.inner;
    status_set = λ key value w. laws.status_set key value w.inner;
    bodies_set = λ key value w. laws.bodies_set key value w.inner;
    status_first = λ code w. laws.status_first code w.inner;
    headers_first = λ code k value w. laws.headers_first code k value w.inner;
    bodies_first = λ code w. laws.bodies_first code w.inner;
    status_body = λ body w. laws.status_body body w.inner;
    headers_body = λ body k value w. laws.headers_body body k value w.inner;
    status_later = λ body w code. laws.status_later body w.inner code;
    headers_later = λ body w code k. laws.headers_later body w.inner code k;
    bodies_body = λ body w. laws.bodies_body body w.inner;
    bodies_later = λ body w code. laws.bodies_later body w.inner code;
  }

  -- A whole answer has gone to the client, with the headers that were set before.
  pub record Sends (status : ℕ) (body : Body F) (w w' : W) : Type 0 where
    pub status_sent : see.status w' ≡ some status
    pub body_sent : see.bodies w' ≡ delivered method body (see.bodies w)
    pub type_sent : see.sent_header "Content-Type" w' ≡ some "application/json"
    pub others_sent :
        (k value : String)
        → str_eq "Content-Type" k ≡ false
        → see.header k w ≡ some value
        → see.sent_header k w' ≡ some value

  typed : W → W
  typed w = h.set_header "Content-Type" "application/json" w

  typed-status : (w : W) → see.status w ≡ none → see.status (typed w) ≡ none
  unfolding typed
  typed-status w new = laws.status_set "Content-Type" "application/json" w ∙ new

  typed_type : (w : W) → see.header "Content-Type" (typed w) ≡ some "application/json"
  unfolding typed
  typed_type w = laws.header_set "Content-Type" "Content-Type" "application/json" w

  typed_others :
      (w : W) (k value : String)
      → str_eq "Content-Type" k ≡ false
      → see.header k w ≡ some value
      → see.header k (typed w) ≡ some value
  unfolding typed
  typed_others w k value other e =
      laws.header_set k "Content-Type" "application/json" w ∙ rw other e

  pub send_body-Sends :
      (body : Body F) (w : W) → see.status w ≡ none → Sends 200 body w (send_body h body w)
  unfolding send_body typed
  send_body-Sends body w new = record {
    status_sent = laws.status_body body (typed w) (typed-status w new);
    body_sent =
        laws.bodies_body body (typed w) (typed-status w new)
        ∙ ap (delivered method body) (laws.bodies_set "Content-Type" "application/json" w);
    type_sent =
        laws.headers_body body "Content-Type" "application/json" (typed w) (typed-status w new)
          (typed_type w);
    others_sent = λ k value other e.
        laws.headers_body body k value (typed w) (typed-status w new)
          (typed_others w k value other e);
  }

  pub send_json-Sends :
      (status : ℕ) (body : Body F) (w : W)
      → HasBody status
      → see.status w ≡ none
      → Sends status body w (send_json h status body w)
  unfolding send_json typed
  send_json-Sends status body w allowed new =
      let final = allowed.0 in
      let w₂ = h.write_header status (typed w) in
      let new' = typed-status w new in
      let out = laws.status_first status (typed w) final new' in
      record {
        status_sent = laws.status_later body w₂ status out;
        body_sent =
            laws.bodies_later body w₂ status out allowed
            ∙ ap (delivered method body) (
                laws.bodies_first status (typed w) final new'
                ∙ laws.bodies_set "Content-Type" "application/json" w);
        type_sent =
            laws.headers_later body w₂ status "Content-Type" out
            ∙ laws.headers_first status "Content-Type" "application/json" (typed w) final new'
                (typed_type w);
        others_sent = λ k value other e.
            laws.headers_later body w₂ status k out
            ∙ laws.headers_first status k value (typed w) final new'
                (typed_others w k value other e);
      }
