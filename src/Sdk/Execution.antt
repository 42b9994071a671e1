-- ===== src/Sdk/Execution.antt =====
-- `SdkClient::execute`, `execute_accepting_status` and `validate_token` of src/sdk.rs with
-- `HttpTransport::dispatch` of src/sdk/transport.rs. The SDK's operations and the HTTP client are
-- not of this repository: an operation is given by the requests that it sends through the transport
-- and what it makes of their answers, and the HTTP client is a function of the world. The locks are
-- not modelled: an execution holds them throughout.
pub mod Fresh
mod Tests
use duckdb_superhuman_docs.Base.{
  ℕ, Text, String, List, [], ◌∷◌, Bool, true, false, Option, none, some, Result, ok, err, Error,
  Exec, and_then, continue, pure, raise, lift, ◌==◌, if◌then◌else◌, sdk_message, no_response,
  unexpected_accepted_status, ◌>>=◌,
}
use duckdb_superhuman_docs.Sdk.Calls.{Call, SdkClient, Network, whoami}

-- The SDK's `Request` and `Response`; a body is a list of bytes.
pub record Request : Type 0 where
  pub method : Text
  pub url : Text
  pub body : Option (List ℕ)
  pub expected_status : ℕ

pub record Response : Type 0 where
  pub status : ℕ
  pub body : List ℕ

-- the variants of the SDK's `Error` that the source tells apart, with their texts
pub data SdkError : Type 0 where
  deserialize : Text → SdkError
  unexpected_status : ℕ → Text → SdkError
  other : Text → SdkError

-- `error.to_string()`
error_text : SdkError → Error
error_text (deserialize message) = sdk_message message
error_text (unexpected_status actual message) = sdk_message message
error_text (other message) = sdk_message message

pub data Answer (A : Type 0) : Type 0 where
  answered : A → Answer A
  failed : SdkError → Answer A

-- An operation of the SDK: what it sends, and whether it succeeds in the end.
pub data Operation : Type 0 where
  done : Answer (Unit {0}) → Operation
  send : Request → (Answer Response → Operation) → Operation

pub record Exchange : Type 0 where
  pub expected_status : ℕ
  pub response : Response

-- `TransportState`: its exchange
abbrev pub TransportState : Type 0
TransportState = Option Exchange

-- the exchange that is kept of a request
abbrev pub exchange_of : Request → Response → Exchange
exchange_of request response = record {
  expected_status = request.expected_status;
  response = response;
}

-- What the SDK and the HTTP client are given by.
pub record Sdk (W F : Type 0) : Type 0 where
  -- `send_http_request`
  pub http : Request → W → Answer Response × W
  pub operation : Call F → Operation
  -- `String::from_utf8`
  pub from_utf8 : List ℕ → Result Text

module _ {W F : Type 0} (sdk : Sdk W F) where
  -- `HttpTransport::dispatch`: what the transport keeps of an answer
  recorded : Request → Answer Response → TransportState → TransportState
  recorded request (answered response) state = some (exchange_of request response)
  recorded request (failed error) state = state

  -- `operation(&self.client).await`, with the state of the transport
  run : Operation → TransportState → W → Answer (Unit {0}) × TransportState × W
  run (done result) state w = (result, state, w)
  run (send request next) state w =
      let (answer, w') = sdk.http request w in run (next answer) (recorded request answer state) w'

  -- `response_body`
  response_body : Response → Result Text
  response_body response = sdk.from_utf8 response.body

  -- the body of a response, marked as one
  body_of : Exchange → Result (Option Text)
  body_of exchange = and_then (response_body exchange.response) (λ body. ok (some body))

  -- whether a status is the one that the caller accepts
  accepts : Option ℕ → ℕ → Bool
  accepts none actual = false
  accepts (some status) actual = status == actual

  -- the `match` on the result and the exchange
  outcome : Option ℕ → Answer (Unit {0}) → Option Exchange → Result (Option Text)
  outcome accepted (answered _) (some exchange) = body_of exchange
  outcome accepted (answered _) none = err no_response
  outcome accepted (failed (deserialize message)) (some exchange) =
      if exchange.response.status == exchange.expected_status
      then body_of exchange
      else err (sdk_message message)
  outcome accepted (failed (unexpected_status actual message)) (some exchange) =
      if accepts accepted actual then ok none else err (sdk_message message)
  outcome accepted (failed error) _ = err (error_text error)

  -- The state of the transport is cleared before, and taken after the operation.
  abbrev concluded :
      Option ℕ → Answer (Unit {0}) × TransportState × W → Result (Option Text) × TransportState × W
  concluded accepted (result, exchange, w) = (outcome accepted result exchange, none, w)

  pub execute_inner :
      Option ℕ → Operation → TransportState → W → Result (Option Text) × TransportState × W
  execute_inner accepted operation state w = concluded accepted (run operation none w)

  -- `.ok_or_else(…)` on what `execute_inner` returned
  required : Result (Option Text) → Result Text
  required (ok (some body)) = ok body
  required (ok none) = err unexpected_accepted_status
  required (err error) = err error

  pub execute : Operation → TransportState → W → Result Text × TransportState × W
  execute operation state w =
      let (result, state', w') = execute_inner none operation state w in
      (required result, state', w')

  pub execute_accepting_status :
      ℕ → Operation → TransportState → W → Result (Option Text) × TransportState × W
  execute_accepting_status status operation state w = execute_inner (some status) operation state w

  -- The client that the other components use, the transport's state left out: it starts empty.
  pub client : SdkClient W F
  client = record {
    execute = λ call w. let (result, _, w') = execute (sdk.operation call) none w in (result, w');
    execute_accepting_status = λ status call w.
        let (result, _, w') = execute_accepting_status status (sdk.operation call) none w in
        (result, w');
  }

module _ {W F : Type 0} (network : Network W F) where
  unfoldable pub validate_token_at : Text → Text → Exec W (Unit {0})
  validate_token_at base_url credential w =
      continue (lift (network.at base_url credential) w)
        λ sdk w'. continue (sdk.execute whoami w') (λ body. pure tt)

  unfoldable pub validate_token : Text → Exec W (Unit {0})
  unfolding validate_token_at
  validate_token credential = validate_token_at network.default_base_url credential
