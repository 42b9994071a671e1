-- ===== src/Sdk/Execution/Fresh.antt =====
-- What an execution returns is of its own last response, not of an earlier execution's.
use mathlib.Core.Path.{subst}
use duckdb_superhuman_docs.Base.{
  ℕ, ◌≡◌, ◌∙◌, ◌⊎◌, inl, inr, refl, sym, ap, Text, List, [], ◌∷◌, Option, none, some, Result, ok,
  err, and_then-eq-ok, ◌==◌, ==_iff, if-eq, err-ne-ok,
}
use duckdb_superhuman_docs.Sdk.Execution.{
  Sdk, Operation, done, send, Answer, answered, failed, deserialize, unexpected_status, other,
  Exchange, exchange_of, TransportState, Request, Response, run, recorded, outcome, body_of,
  response_body, accepts, required, execute, execute_inner, execute_accepting_status,
}

-- The last of a list, or what there was before it.
abbrev pub last_or : TransportState → List Exchange → TransportState
last_or state [] = state
last_or state (exchange ∷ exchanges) = last_or (some exchange) exchanges

module _ {W F : Type 0} (sdk : Sdk W F) where
  -- How an operation ends in a world, and the responses that it gets, each with the status that its
  -- request expected.
  pub ending : Operation → W → Answer (Unit {0})
  ending (done result) w = result
  ending (send request next) w = let (answer, w') = sdk.http request w in ending (next answer) w'

  abbrev also : Answer Response → (Response → Exchange) → List Exchange → List Exchange
  also (answered response) exchange exchanges = exchange response ∷ exchanges
  also (failed error) exchange exchanges = exchanges

  pub exchanges : Operation → W → List Exchange
  exchanges (done result) w = []
  exchanges (send request next) w =
      let (answer, w') = sdk.http request w in
      also answer (exchange_of request) (exchanges (next answer) w')

  last_or-also :
      (request : Request) (answer : Answer Response) (state : TransportState)
      (later : List Exchange)
      → last_or (recorded sdk request answer state) later
        ≡ last_or state (also answer (exchange_of request) later)
  unfolding recorded
  last_or-also request (answered response) state later = refl
  last_or-also request (failed error) state later = refl

  run-exchanges :
      (operation : Operation) (state : TransportState) (w : W)
      → ((run sdk operation state w).0 ≡ ending operation w)
        × ((run sdk operation state w).1 ≡ last_or state (exchanges operation w))
  unfolding run recorded ending exchanges
  run-exchanges (done result) state w = (refl, refl)
  run-exchanges (send request next) state w =
      let (answer, w') = sdk.http request w in
      let (ends, keeps) = run-exchanges (next answer) (recorded sdk request answer state) w' in
      (ends, keeps ∙ last_or-also request answer state (exchanges (next answer) w'))

  -- The operation succeeded, or the SDK could not read a response with the status it expected.
  abbrev pub IsReadable : Answer (Unit {0}) → Exchange → Type 0
  IsReadable result exchange =
      (result ≡ answered tt)
      ⊎ ((message : Text) × (result ≡ failed (deserialize message))
          × (exchange.response.status ≡ exchange.expected_status))

  none_returned : {body : Text} → ok none ≡ ok (some body) → ⊥
  none_returned h = cc

  outcome-body :
      (accepted : Option ℕ) (result : Answer (Unit {0})) (kept : Option Exchange) (body : Text)
      → outcome sdk accepted result kept ≡ ok (some body)
      → (exchange : Exchange) × (kept ≡ some exchange)
        × (sdk.from_utf8 exchange.response.body ≡ ok body)
        × IsReadable result exchange
  unfolding outcome body_of response_body
  outcome-body accepted (answered tt) (some exchange) body h =
      let (text, e, h') = and_then-eq-ok (sdk.from_utf8 exchange.response.body) _ h in
      let same : text ≡ body = cc in (exchange, refl, e ∙ ap ok same, inl refl)
  outcome-body accepted (answered _) none body h = cc
  outcome-body accepted (failed (deserialize message)) (some exchange) body h =
      elim (if-eq (exchange.response.status == exchange.expected_status) _ _ h) [
        | inl (expected, h') ↦
            let (text, e, h'') = and_then-eq-ok (sdk.from_utf8 exchange.response.body) _ h' in
            let same : text ≡ body = cc in
            let status = (==_iff exchange.response.status exchange.expected_status).0 expected in
            (exchange, refl, e ∙ ap ok same, inr (message, refl, status))
        | inr (_, h') ↦ absurd (err-ne-ok h')
      ]
  outcome-body accepted (failed (unexpected_status actual message)) (some exchange) body h =
      elim (if-eq (accepts sdk accepted actual) _ _ h) [
        | inl (_, h') ↦ absurd (none_returned h')
        | inr (_, h') ↦ absurd (err-ne-ok h')
      ]
  outcome-body accepted (failed (other message)) (some exchange) body h = cc
  outcome-body accepted (failed (deserialize message)) none body h = cc
  outcome-body accepted (failed (unexpected_status actual message)) none body h = cc
  outcome-body accepted (failed (other message)) none body h = cc

  required-eq-ok :
      (r : Result (Option Text)) {body : Text} → required sdk r ≡ ok body → r ≡ ok (some body)
  unfolding required
  required-eq-ok (ok (some text)) h = cc
  required-eq-ok (ok none) h = cc
  required-eq-ok (err error) h = cc

  -- A body that an execution returns is that of the last response that its own operation got, with
  -- any transport state that earlier executions left: the operation succeeded, or the SDK could not
  -- read a response that had the expected status. The transport's state is empty afterwards.
  pub execute-exchanges :
      (operation : Operation) (state : TransportState) (w : W) (body : Text)
      → (execute sdk operation state w).0 ≡ ok body
      → (exchange : Exchange) × (last_or none (exchanges operation w) ≡ some exchange)
        × (sdk.from_utf8 exchange.response.body ≡ ok body)
        × IsReadable (ending operation w) exchange
        × ((execute sdk operation state w).1 ≡ none)
  unfolding execute execute_inner
  execute-exchanges operation state w body h =
      let (ends, keeps) = run-exchanges operation none w in
      let (exchange, kept, text, readable) =
        outcome-body none (run sdk operation none w).0 (run sdk operation none w).1 body (
          required-eq-ok
            (outcome sdk none (run sdk operation none w).0 (run sdk operation none w).1) h) in
      (exchange, sym keeps ∙ kept, text, subst (λ r. IsReadable r exchange) ends readable, refl)

  body_of-ne-none : (exchange : Exchange) → body_of sdk exchange ≡ ok none → ⊥
  unfolding body_of response_body
  body_of-ne-none exchange h =
      let (text, _, h') = and_then-eq-ok (sdk.from_utf8 exchange.response.body) _ h in
      none_returned (sym h')

  outcome-none :
      (status : ℕ) (result : Answer (Unit {0})) (kept : Option Exchange)
      → outcome sdk (some status) result kept ≡ ok none
      → (message : Text) × (result ≡ failed (unexpected_status status message))
  unfolding outcome accepts
  outcome-none status (answered tt) (some exchange) h = absurd (body_of-ne-none exchange h)
  outcome-none status (answered tt) none h = cc
  outcome-none status (failed (deserialize message)) (some exchange) h =
      elim (if-eq (exchange.response.status == exchange.expected_status) _ _ h) [
        | inl (_, h') ↦ absurd (body_of-ne-none exchange h')
        | inr (_, h') ↦ absurd (err-ne-ok h')
      ]
  outcome-none status (failed (unexpected_status actual message)) (some exchange) h =
      elim (if-eq (status == actual) _ _ h) [
        | inl (e, _) ↦ (
          message,
          ap (λ s. failed (unexpected_status s message)) (sym ((==_iff status actual).0 e)),
        )
        | inr (_, h') ↦ absurd (err-ne-ok h')
      ]
  outcome-none status (failed (other message)) (some exchange) h = cc
  outcome-none status (failed (deserialize message)) none h = cc
  outcome-none status (failed (unexpected_status actual message)) none h = cc
  outcome-none status (failed (other message)) none h = cc

  -- An execution that accepts a status returns without a body only if the operation itself ended
  -- with that status as an unexpected one.
  pub execute_accepting_status-none :
      (status : ℕ) (operation : Operation) (state : TransportState) (w : W)
      → (execute_accepting_status sdk status operation state w).0 ≡ ok none
      → (message : Text) × (ending operation w ≡ failed (unexpected_status status message))
  unfolding execute_accepting_status execute_inner
  execute_accepting_status-none status operation state w h =
      let (ends, _) = run-exchanges operation none w in
      let (message, e) =
        outcome-none status (run sdk operation none w).0 (run sdk operation none w).1 h in
      (message, sym ends ∙ e)
