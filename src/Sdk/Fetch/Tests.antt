-- ===== src/Sdk/Fetch/Tests.antt =====
-- Schedules of a fetch, and the theorems about them.
use duckdb_superhuman_docs.Base.{◌≡◌, refl, [], ◌∷◌, none, some, true, codes, arith}
use duckdb_superhuman_docs.Base.Decimal.{to_string}
use duckdb_superhuman_docs.Sdk.Execution.{Request, Response, Answer, answered, failed, other}
use duckdb_superhuman_docs.Sdk.Fetch.{
  Fetch, dropped, stored, drop_future, parked, ready, waiting, taken, started, poll, register,
  recheck, complete, take_waker, step, run, prepared_fetch, nul_position, checked_text,
}
use duckdb_superhuman_docs.Sdk.Fetch.Delivery.{Inv, IsWoken, callback_rest, run-Inv, run-IsWoken}
use duckdb_superhuman_docs.Sdk.Fetch.Prepared.{Prepared, prepared_fetch-Prepared}

abbrev answer : Answer Response
answer = answered (record { status = 200; body = 7 ∷ [] })

fetching : Unit {0}
unfolding run step
fetching = tt

-- The second poll registers waker 5 and parks, while the callback has not run.
abbrev pending : Fetch
pending = record (started 3) { waker = some 5; task = parked 5 }

parks :
    run (poll 4 ∷ register ∷ recheck ∷ poll 5 ∷ register ∷ recheck ∷ []) (started 3) ≡ some pending
unfolding fetching
parks = refl

-- The callback runs between the registration and the second look, which finds the result.
abbrev raced : Fetch
raced = record (started 3) {
  completed = true;
  task = ready answer;
  callback = taken (some 4);
  given = some answer;
}

races :
    run (poll 4 ∷ register ∷ complete answer ∷ take_waker ∷ recheck ∷ []) (started 3) ≡ some raced
unfolding fetching
races = refl

-- The callback has stored a result that no poll takes, and the future is dropped.
abbrev unread : Fetch
unread = record (started 3) {
  result = some answer;
  waker = some 4;
  task = dropped;
  callback = stored;
  cancelled = true;
  given = some answer;
}

drops :
    run (poll 4 ∷ register ∷ recheck ∷ complete answer ∷ drop_future ∷ []) (started 3) ≡ some unread
unfolding fetching
drops = refl

run-Inv_example : Inv 3 unread
run-Inv_example =
    run-Inv 3 (poll 4 ∷ register ∷ recheck ∷ complete answer ∷ drop_future ∷ []) unread
      (omega arith) drops

run-IsWoken_example :
    (f' : Fetch) × (run (callback_rest answer waiting) pending ≡ some f') × IsWoken 5 f'
run-IsWoken_example =
    run-IsWoken 3 (poll 4 ∷ register ∷ recheck ∷ poll 5 ∷ register ∷ recheck ∷ []) pending 5 answer
      (omega arith) parks refl

-- A credential with a NUL is refused at its place in the header, and nothing is started.
nul :
    prepared_fetch
      (record { method = codes "GET"; url = codes "u"; body = none; expected_status = 200 })
      (0 ∷ [])
      30000
    ≡ failed (other (codes "nul byte found in provided data at position: 7"))
unfolding prepared_fetch nul_position to_string checked_text
nul = refl

abbrev refused : Request
refused = record { method = codes "GET"; url = 252 ∷ 0 ∷ []; body = none; expected_status = 200 }

-- The NUL stands behind a character of two bytes.
nul_in_url :
    prepared_fetch refused (codes "t") 30000
    ≡ failed (other (codes "nul byte found in provided data at position: 2"))
unfolding prepared_fetch nul_position to_string checked_text
nul_in_url = refl

prepared_fetch-Prepared_example :
    Prepared refused (codes "t") 30000 (prepared_fetch refused (codes "t") 30000)
prepared_fetch-Prepared_example = prepared_fetch-Prepared refused (codes "t") 30000
