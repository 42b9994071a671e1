-- ===== src/Mutation/Status.antt =====
-- src/mutation/status.rs: reading the answers about a mutation, and the loop that waits for one.
-- Durations are nanoseconds. The loop takes fuel, one unit a round; `none` means that it ran out.
pub mod Verdict
pub mod Progress
mod Tests
use duckdb_superhuman_docs.Base.{
  ℕ, zero, suc, ◌*◌, ◌-◌, ◌/◌, ◌^◌, min, Text, Bool, true, false, Option, none, some, Result, ok,
  err, Exec, Error, and_then, map_err, ok_or, leb, is_blank, codes, if◌then◌else◌,
  invalid_mutation_response, invalid_mutation_status_response, missing_request_id,
  missing_completed, warning_not_string, check_failed, completed_with_warning, mutation_timed_out,
}
use duckdb_superhuman_docs.Json.{Value, Serde, null, string}
use duckdb_superhuman_docs.Json.Access.{get, get_str, get_bool, non_empty}
use duckdb_superhuman_docs.Model.{ClientConfig}
use duckdb_superhuman_docs.Sdk.Calls.{SdkClient, read_mutation_status}

abbrev pub second : ℕ
second = 10 ^ 9

abbrev pub mutation_poll_interval : ℕ
mutation_poll_interval = 1 * second

-- the match on `root.get("warning")`
warning_of : {N : Type 0} → Option (Value N) → Result (Option Text)
warning_of none = ok none
warning_of (some null) = ok none
warning_of (some (string s)) = if is_blank s then ok none else ok (some s)
warning_of (some v) = err warning_not_string

module _ {N F : Type 0} (serde : Serde N F) where
  mutation_request_id : Text → Result Text
  mutation_request_id body =
      and_then (map_err invalid_mutation_response (serde.from_str body))
        λ root. ok_or missing_request_id (non_empty (get_str "requestId" root))

  pub mutation_status : Text → Result (Bool × Option Text)
  mutation_status body =
      and_then (map_err invalid_mutation_status_response (serde.from_str body)) λ root.
        and_then (ok_or missing_completed (get_bool "completed" root))
          λ completed. and_then (warning_of (get "warning" root)) λ warning. ok (completed, warning)

-- The closures that the loop is given: `fetch`, `elapsed` and `sleep`.
pub record Polling (W : Type 0) : Type 0 where
  pub fetch : Exec W Text
  pub elapsed : W → ℕ × W
  pub sleep : ℕ → W → W

-- What one round of the loop does: it returns, or it goes on to the next round.
data Turn (W : Type 0) : Type 0 where
  stop : Result (Unit {0}) → W → Turn W
  again : W → Turn W

abbrev proceed :
    {W : Type 0} → Turn W → (W → Option (Result (Unit {0}) × W)) → Option (Result (Unit {0}) × W)
proceed (stop r w) next = some (r, w)
proceed (again w) next = next w

pub timed_out : Text → ℕ → Error
timed_out request_id timeout = mutation_timed_out request_id (timeout / second)

-- `if completed { … }`, on the warning
settle : Text → Bool → Option Text → Result (Unit {0})
settle request_id allow_warnings none = ok tt
settle request_id allow_warnings (some warning) =
    if allow_warnings then ok tt else err (completed_with_warning request_id warning)

module _ {N F W : Type 0} (serde : Serde N F) (env : Polling W) where
  module _ (request_id : Text) (timeout : ℕ) (allow_warnings : Bool) where
    -- the end of a round whose check says that the mutation is not complete
    pause : W → Turn W
    pause w =
        let (elapsed_now, w') = env.elapsed w in
        if leb timeout elapsed_now
        then stop (err (timed_out request_id timeout)) w'
        else again (env.sleep (min mutation_poll_interval (timeout - elapsed_now)) w')

    -- the reading of the fetched body
    judge : Result (Bool × Option Text) → W → Turn W
    judge (err e) w = stop (err (check_failed request_id e)) w
    judge (ok (true, warning)) w = stop (settle request_id allow_warnings warning) w
    judge (ok (false, warning)) w = pause w

    check_body : Result Text → W → Turn W
    check_body (err e) w = stop (err (check_failed request_id e)) w
    check_body (ok body) w = judge (mutation_status serde body) w

    check : W → Turn W
    check w = let (body, w') = env.fetch w in check_body body w'

    -- one round; only the first is not preceded by a look at the clock
    turn : Bool → W → Turn W
    turn true w = check w
    turn false w =
        let (elapsed, w') = env.elapsed w in
        if leb timeout elapsed then stop (err (timed_out request_id timeout)) w' else check w'

    poll : ℕ → Bool → W → Option (Result (Unit {0}) × W)
    poll zero first_check w = none
    poll (suc fuel) first_check w = proceed (turn first_check w) (poll fuel false)

    -- The loop as it is entered.
    pub poll_mutation_status : ℕ → W → Option (Result (Unit {0}) × W)
    unfolding poll turn check check_body judge pause settle timed_out mutation_status warning_of
    poll_mutation_status fuel w = poll fuel true w

-- the `fetch` that `wait_for_mutation` builds: a 404 counts as not completed
fetch_status : {W F : Type 0} → SdkClient W F → Text → Exec W Text
fetch_status sdk request_id w =
    let (answer, w') = sdk.execute_accepting_status 404 (read_mutation_status request_id) w in
    (
      and_then answer λ body. ok (elim body [ some b ↦ b | none ↦ codes "{\"completed\":false}" ]),
      w',
    )

-- `Instant::now` and `tokio::time::sleep`
pub record Clock (W : Type 0) : Type 0 where
  pub now : W → ℕ × W
  pub sleep : ℕ → W → W

module _ {N F W : Type 0} (serde : Serde N F) (clock : Clock W) (sdk : SdkClient W F) where
  -- the closures over `sdk`, `request_id` and `started`
  pub polling : ℕ → Text → Polling W
  polling started request_id = record {
    fetch = fetch_status sdk request_id;
    elapsed = λ w. let (instant, w') = clock.now w in (instant - started, w');
    sleep = clock.sleep;
  }

  poll_request : ℕ → ClientConfig → Result Text → W → Option (Result (Unit {0}) × W)
  poll_request fuel config (err e) w = some (err e, w)
  poll_request fuel config (ok request_id) w =
      let (started, w') = clock.now w in
      poll_mutation_status serde (polling started request_id) request_id
        (config.mutation_timeout_seconds * second) config.allow_mutation_warnings fuel w'

  unfoldable pub wait_for_mutation : ℕ → ClientConfig → Text → W → Option (Result (Unit {0}) × W)
  unfolding poll_request mutation_request_id
  wait_for_mutation fuel config response_body w =
      if config.wait_for_mutations
      then poll_request fuel config (mutation_request_id serde response_body) w
      else some (ok tt, w)
