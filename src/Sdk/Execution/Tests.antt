-- ===== src/Sdk/Execution/Tests.antt =====
-- A request that is sent again after a redirect, and the theorems about executions at it.
use duckdb_superhuman_docs.Base.{ℕ, suc, ◌≡◌, refl, Text, [], ◌∷◌, none, some, ok, codes}
use duckdb_superhuman_docs.Sdk.Execution.{
  Sdk, Operation, done, send, answered, failed, deserialize, unexpected_status, Exchange, Request,
  run, recorded, outcome, body_of, response_body, required, accepts, execute, execute_inner,
  execute_accepting_status,
}
use duckdb_superhuman_docs.Sdk.Execution.Fresh.{
  last_or, ending, exchanges, IsReadable, execute-exchanges, execute_accepting_status-none,
}

abbrev request : Request
request = record { method = codes "GET"; url = codes "u"; body = none; expected_status = 200 }

-- A server that counts: the world is the number of requests so far.
abbrev sdk : Sdk ℕ ℕ
sdk = record {
  http = λ r w. (answered (record { status = 200; body = w ∷ [] }), suc w);
  operation = λ call. done (answered tt);
  from_utf8 = λ bytes. ok bytes;
}

-- Two requests; the second response is not what the SDK expects.
abbrev twice : Operation
twice = send request λ first. send request λ second. done (failed (deserialize (codes "no field")))

abbrev not_found : Operation
not_found = send request λ first. done (failed (unexpected_status 404 (codes "404")))

abbrev stale : Exchange
stale = record { expected_status = 200; response = record { status = 200; body = codes "old" } }

executing : (execute sdk twice (some stale) 5).0 ≡ ok (6 ∷ [])
unfolding execute execute_inner run recorded outcome body_of response_body required
executing = refl

execute-exchanges_example :
    (exchange : Exchange) × (last_or none (exchanges sdk twice 5) ≡ some exchange)
    × (ok exchange.response.body ≡ ok (6 ∷ []))
    × IsReadable sdk (ending sdk twice 5) exchange
    × ((execute sdk twice (some stale) 5).1 ≡ none)
execute-exchanges_example = execute-exchanges sdk twice (some stale) 5 (6 ∷ []) executing

accepted : (execute_accepting_status sdk 404 not_found none 5).0 ≡ ok none
unfolding execute_accepting_status execute_inner run recorded outcome accepts
accepted = refl

execute_accepting_status-none_example :
    (message : Text) × (ending sdk not_found 5 ≡ failed (unexpected_status 404 message))
execute_accepting_status-none_example =
    execute_accepting_status-none sdk 404 not_found none 5 accepted
