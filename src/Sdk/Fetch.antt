-- ===== src/Sdk/Fetch.antt =====
-- src/sdk/transport/fetch.rs: a request of the browser as a future. The future's task and the
-- browser's callback share a result and a waker, each behind a mutex, so that the accesses to them
-- interleave: `step` makes one access of one of the two, and a schedule is a list of events. The
-- host calls the callback once, also for a request that is cancelled.
pub mod Delivery
mod Prepared
mod Tests
use duckdb_superhuman_docs.Base.{
  ℕ, zero, suc, ◌+◌, Text, String, List, [], ◌∷◌, ◌++◌, Bool, true, false, Option, none, some,
  codes, not, ◌&&◌, ◌==◌, if◌then◌else◌, min, ◌^◌, ◌-◌,
}
use duckdb_superhuman_docs.Base.Decimal.{to_string}
use duckdb_superhuman_docs.Memory.Utf8.{utf8_size}
use duckdb_superhuman_docs.Sdk.Execution.{
  Request, Response, Answer, answered, failed, SdkError, other,
}

-- Where the task stands: never polled; between the first look at the result and the registration of
-- the waker; between that and the second look; waiting, after a poll that was `Pending`; after one
-- that was `Ready`; dropped.
pub data Task : Type 0 where
  fresh dropped : Task
  checked registered parked : ℕ → Task
  ready : Answer Response → Task

-- Where the callback stands: not called; between its store of the result and its look at the waker;
-- before the call of the waker that it took, if any; returned.
pub data Callback : Type 0 where
  waiting stored returned : Callback
  taken : Option ℕ → Callback

-- `Shared` and `FetchFuture`. Wakers are numbered; `woken` is the one that was called, and `given`
-- what the callback was called with.
pub record Fetch : Type 0 where
  pub result : Option (Answer Response)
  pub waker : Option ℕ
  pub handle : ℕ
  pub completed : Bool
  pub task : Task
  pub callback : Callback
  pub woken : Option ℕ
  pub cancelled : Bool
  pub given : Option (Answer Response)

-- the future that `send` returns
abbrev pub started : ℕ → Fetch
started handle = record {
  result = none;
  waker = none;
  handle = handle;
  completed = false;
  task = fresh;
  callback = waiting;
  woken = none;
  cancelled = false;
  given = none;
}

pub data Event : Type 0 where
  -- the task: `poll` with a waker up to its first look, the store of the waker, the second look
  poll : ℕ → Event
  register recheck : Event
  -- `drop`
  drop_future : Event
  -- the callback: the store of the result, the look at the waker, and its call
  complete : Answer Response → Event
  take_waker wake : Event

-- `shared.result.lock().take()`, and what the poll does without a result
look : Fetch → Option (Answer Response) → Task → Fetch
look f (some answer) next = record f { result = none; completed = true; task = ready answer }
look f none next = record f { task = next }

-- `poll` is called neither after it was `Ready` nor after `drop`.
on_poll : Fetch → ℕ → Task → Option Fetch
on_poll f waker fresh = some (look f f.result (checked waker))
on_poll f waker (parked _) = some (look f f.result (checked waker))
on_poll f waker _ = none

on_register : Fetch → Task → Option Fetch
on_register f (checked waker) = some (record f { waker = some waker; task = registered waker })
on_register f _ = none

on_recheck : Fetch → Task → Option Fetch
on_recheck f (registered waker) = some (look f f.result (parked waker))
on_recheck f _ = none

-- `!self.completed && self.handle != 0`
dropped_future : Fetch → Fetch
dropped_future f = record f { task = dropped; cancelled = not f.completed && not (f.handle == 0) }

-- A future is dropped between polls.
on_drop : Fetch → Task → Option Fetch
on_drop f fresh = some (dropped_future f)
on_drop f (parked _) = some (dropped_future f)
on_drop f (ready _) = some (dropped_future f)
on_drop f _ = none

on_complete : Fetch → Answer Response → Callback → Option Fetch
on_complete f answer waiting =
    some (record f { result = some answer; callback = stored; given = some answer })
on_complete f answer _ = none

on_take_waker : Fetch → Callback → Option Fetch
on_take_waker f stored = some (record f { waker = none; callback = taken f.waker })
on_take_waker f _ = none

on_wake : Fetch → Callback → Option Fetch
on_wake f (taken none) = some (record f { callback = returned })
on_wake f (taken (some waker)) = some (record f { callback = returned; woken = some waker })
on_wake f _ = none

-- One access; `none` for an event that is not the next of its side.
pub step : Event → Fetch → Option Fetch
unfolding look on_poll on_register on_recheck dropped_future on_drop on_complete on_take_waker
    on_wake
step (poll waker) f = on_poll f waker f.task
step register f = on_register f f.task
step recheck f = on_recheck f f.task
step drop_future f = on_drop f f.task
step (complete answer) f = on_complete f answer f.callback
step take_waker f = on_take_waker f f.callback
step wake f = on_wake f f.callback

-- A schedule, whose events are all possible.
pub run : List Event → Fetch → Option Fetch
run [] f = some f
run (event ∷ events) f = elim (step event f) [ none ↦ none | some f' ↦ run events f' ]

-- What `complete` is called with: a status, a body that may be null, and a message that may be.
pub completed_answer : ℕ → Option (List ℕ) → Option Text → Answer Response
completed_answer zero body none = failed (other (codes "Emscripten Fetch failed"))
completed_answer zero body (some message) = failed (other message)
completed_answer (suc n) none message = answered (record { status = suc n; body = [] })
completed_answer (suc n) (some bytes) message = answered (record { status = suc n; body = bytes })

-- What `rust_ext_emscripten_fetch_start` is called with.
pub record FetchStart : Type 0 where
  pub method : Text
  pub url : Text
  pub headers : List Text
  pub body : List ℕ
  pub body_present : Bool
  pub timeout_ms : ℕ

-- The position of the first NUL in bytes, for which `CString::new` fails.
pub nul_position : Text → Option ℕ
nul_position [] = none
nul_position (c ∷ s) =
    if c == 0
    then some 0
    else elim (nul_position s) [ none ↦ none | some i ↦ some (utf8_size c + i) ]

-- `CString::new(text).map_err(Error::transport)?`
unfoldable pub checked_text : {A : Type 0} → Text → Answer A → Answer A
checked_text text next = elim (nul_position text) [
  | none ↦ next
  | some i ↦ failed (other (codes "nul byte found in provided data at position: " ++ to_string i))
]

abbrev pub body_bytes : Option (List ℕ) → List ℕ
body_bytes none = []
body_bytes (some bytes) = bytes

abbrev pub is_some : {A : Type 0} → Option A → Bool
is_some none = false
is_some (some a) = true

abbrev pub bearer : Text → Text
bearer credential = codes "Bearer " ++ credential

-- What `send` starts, or why it does not; `timeout` is in milliseconds.
unfoldable pub prepared_fetch : Request → Text → ℕ → Answer FetchStart
prepared_fetch request credential timeout = checked_text request.method (
    checked_text request.url (
      checked_text (bearer credential) (
        answered (record {
          method = request.method;
          url = request.url;
          headers =
              codes "Authorization"
              ∷ bearer credential
              ∷ codes "Content-Type"
              ∷ codes "application/json"
              ∷ [];
          body = body_bytes request.body;
          body_present = is_some request.body;
          timeout_ms = min timeout (2 ^ 32 - 1);
        }))))

-- the handle that the host returned; 0 means that nothing was started
future_of : ℕ → Answer Fetch
future_of zero = failed (other (codes "failed to start Emscripten Fetch request"))
future_of (suc n) = answered (started (suc n))

module _ {W : Type 0} (fetch_start : FetchStart → W → ℕ × W) where
  start_with : Answer FetchStart → W → Answer Fetch × W
  start_with (failed error) w = (failed error, w)
  start_with (answered start) w = let (handle, w') = fetch_start start w in (future_of handle, w')

  -- `send`, up to its `await`
  pub send_fetch : Request → Text → ℕ → W → Answer Fetch × W
  send_fetch request credential timeout w = start_with (prepared_fetch request credential timeout) w
