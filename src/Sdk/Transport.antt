-- ===== src/Sdk/Transport.antt =====
-- src/sdk/transport.rs: the transports, and what they send. reqwest is the parameter `Reqwest`, the
-- browser's fetch another; the transport's state is in Sdk/Execution.antt.
use duckdb_superhuman_docs.Base.{ℕ, ◌≡◌, refl, ◌∙◌, Text, List, [], ◌∷◌, Option, none, codes}
use duckdb_superhuman_docs.Sdk.Execution.{Request, Response, Answer, answered, failed}
use duckdb_superhuman_docs.Sdk.Fetch.{
  FetchStart, prepared_fetch, checked_text, nul_position, body_bytes, is_some, bearer,
}

-- `REQUEST_TIMEOUT`, in milliseconds
abbrev pub request_timeout : ℕ
request_timeout = 30000

-- A request of reqwest's builder, with its headers in order.
pub record HttpRequest : Type 0 where
  pub method : Text
  pub url : Text
  pub headers : List (Text × Text)
  pub body : Option (List ℕ)

-- reqwest: `C` is its client. A failure is the text of its error.
pub record Reqwest (W C : Type 0) : Type 0 where
  pub build : ℕ → Answer C
  pub method_from_bytes : Text → Answer Text
  pub send : C → HttpRequest → W → Answer Response × W

-- `HttpTransport`, without its state; natively with a client, for Emscripten with the timeout
pub record HttpTransport (C : Type 0) : Type 0 where
  pub credential : Text
  pub client : C

module _ {W C : Type 0} (reqwest : Reqwest W C) where
  built : Text → Answer C → Answer (HttpTransport C)
  built credential (failed error) = failed error
  built credential (answered client) =
      answered (record { credential = credential; client = client })

  new_with_timeout : Text → ℕ → Answer (HttpTransport C)
  unfolding built
  new_with_timeout credential timeout = built credential (reqwest.build timeout)

  -- `HttpTransport::new`
  pub transport_new : Text → Answer (HttpTransport C)
  unfolding new_with_timeout
  transport_new credential = new_with_timeout credential request_timeout

  -- the request that the builder is given
  pub http_request : Text → Text → Request → HttpRequest
  http_request credential method request = record {
    method = method;
    url = request.url;
    headers =
        (codes "Authorization", bearer credential)
        ∷ (codes "Content-Type", codes "application/json")
        ∷ [];
    body = request.body;
  }

  sent : HttpTransport C → Request → Answer Text → W → Answer Response × W
  sent transport request (failed error) w = (failed error, w)
  sent transport request (answered method) w =
      reqwest.send transport.client (http_request transport.credential method request) w

  -- `send_http_request`, natively
  pub send_http_request : HttpTransport C → Request → W → Answer Response × W
  unfolding sent http_request
  send_http_request transport request w =
      sent transport request (reqwest.method_from_bytes request.method) w

-- The names and the values of headers, one after the other.
abbrev flat : List (Text × Text) → List Text
flat [] = []
flat ((name, value) ∷ headers) = name ∷ value ∷ flat headers

checked_text-none :
    {A : Type 0} (text : Text) (next : Answer A)
    → nul_position text ≡ none
    → checked_text text next ≡ next
unfolding checked_text
checked_text-none text next e = rw (e, checked_text) refl

-- What the browser is told to send and what reqwest is told are the same request, for texts without
-- NULs and a method that reqwest takes as it is.
pub prepared_fetch-http_request :
    {W C : Type 0} (reqwest : Reqwest W C) (credential : Text) (request : Request) (timeout : ℕ)
    → nul_position request.method ≡ none
    → nul_position request.url ≡ none
    → nul_position (bearer credential) ≡ none
    → (start : FetchStart) × (prepared_fetch request credential timeout ≡ answered start)
      × (start.method ≡ (http_request reqwest credential request.method request).method)
      × (start.url ≡ (http_request reqwest credential request.method request).url)
      × (start.headers ≡ flat (http_request reqwest credential request.method request).headers)
      × (start.body ≡ body_bytes (http_request reqwest credential request.method request).body)
      × (start.body_present ≡ is_some (http_request reqwest credential request.method request).body)
unfolding prepared_fetch http_request
prepared_fetch-http_request reqwest credential request timeout e₁ e₂ e₃ = (
  _,
  checked_text-none request.method _ e₁
      ∙ (checked_text-none request.url _ e₂ ∙ checked_text-none (bearer credential) _ e₃),
  refl,
  refl,
  refl,
  refl,
  refl,
)
