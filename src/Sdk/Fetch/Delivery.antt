-- ===== src/Sdk/Fetch/Delivery.antt =====
-- No wake-up is lost and the answer is delivered once, whatever the order of the accesses.
use duckdb_superhuman_docs.Base.{
  ℕ, ◌<◌, ◌≡◌, ◌≢◌, refl, sym, ◌⊎◌, List, [], ◌∷◌, true, false, Option, none, some, arith,
  elim-eq-some,
}
use duckdb_superhuman_docs.Sdk.Execution.{Response, Answer}
use duckdb_superhuman_docs.Sdk.Fetch.{
  Fetch, Task, fresh, dropped, checked, registered, parked, ready, Callback, waiting, stored,
  returned, taken, started, Event, poll, register, recheck, drop_future, complete, take_waker, wake,
  step, run,
}

-- Whom the callback will wake, or has woken, once the task is parked.
abbrev IsLinked : Fetch → ℕ → Callback → Type 0
IsLinked f w waiting = f.waker ≡ some w
IsLinked f w stored = f.waker ≡ some w
IsLinked f w (taken waker) = waker ≡ some w
IsLinked f w returned = f.woken ≡ some w

-- The same between the registration and the second look, which finds any result.
abbrev IsRegistered : Fetch → ℕ → Callback → Type 0
IsRegistered f w waiting = f.waker ≡ some w
IsRegistered f w stored = f.waker ≡ some w
IsRegistered f w _ = Unit

-- The result while it is not taken: none before the callback stored it.
abbrev IsUnread : Fetch → Callback → Type 0
IsUnread f waiting = (f.result ≡ none) × (f.given ≡ none)
IsUnread f _ = (f.result ≡ f.given) × (f.given ≢ none)

abbrev IsOpen : Fetch → Callback → Type 0
IsOpen f callback = (f.completed ≡ false) × (f.cancelled ≡ false) × IsUnread f callback

abbrev Fits : Fetch → Task → Callback → Type 0
Fits f fresh callback = IsOpen f callback
Fits f (checked w) callback = IsOpen f callback
Fits f (registered w) callback = IsOpen f callback × IsRegistered f w callback
Fits f (parked w) callback = IsOpen f callback × IsLinked f w callback
Fits f (ready answer) callback =
    (f.completed ≡ true)
    × (f.cancelled ≡ false)
    × (f.result ≡ none)
    × (f.given ≡ some answer)
    × (callback ≢ waiting)
Fits f dropped callback =
    ((f.completed ≡ true)
      × (f.cancelled ≡ false)
      × (f.result ≡ none)
      × (f.given ≢ none)
      × (callback ≢ waiting))
    ⊎ ((f.completed ≡ false) × (f.cancelled ≡ true) × IsUnread f callback)

pub Inv : ℕ → Fetch → Type 0
Inv handle f = (f.handle ≡ handle) × Fits f f.task f.callback

step-Inv :
    {handle : ℕ} (pos : 0 < handle) (event : Event) (f f' : Fetch)
    → step event f ≡ some f'
    → Inv handle f
    → Inv handle f'
unfolding step Inv
step-Inv pos (poll w) f f' h v = ground arith
step-Inv pos register f f' h v = ground arith
step-Inv pos recheck f f' h v = ground arith
step-Inv pos drop_future f f' h v = ground arith
step-Inv pos (complete answer) f f' h v = ground arith
step-Inv pos take_waker f f' h v = ground arith
step-Inv pos wake f f' h v = ground arith

started-Inv : (handle : ℕ) → 0 < handle → Inv handle (started handle)
unfolding Inv
started-Inv handle pos = ground arith

kept :
    {handle : ℕ} (pos : 0 < handle) (events : List Event) (f f' : Fetch)
    → run events f ≡ some f'
    → Inv handle f
    → Inv handle f'
unfolding run
kept pos [] f f' h v = let same : f ≡ f' = cc in rw (sym same) v
kept pos (event ∷ events) f f' h v =
    let (f₁, e, h₁) = elim-eq-some (step event f) (run events) h in
    kept pos events f₁ f' h₁ (step-Inv pos event f f₁ e v)

-- After any schedule of a future that was started: its handle is the one it was started with; a
-- result that is not yet taken is what the callback was given; a task that is ready has just that
-- answer, no result is left, and the future is completed and not cancelled; a future that is dropped is completed and
-- not cancelled if a poll took the result before, and cancelled if none did, whether or not the
-- callback has stored one; and the waker of a poll that was pending is in the callback's reach until
-- the callback calls it.
pub run-Inv :
    (handle : ℕ) (events : List Event) (f : Fetch)
    → 0 < handle
    → run events (started handle) ≡ some f
    → Inv handle f
run-Inv handle events f pos h = kept pos events (started handle) f h (started-Inv handle pos)

-- the accesses that the callback has yet to make, if it is called with `answer`
abbrev pub callback_rest : Answer Response → Callback → List Event
callback_rest answer waiting = complete answer ∷ take_waker ∷ wake ∷ []
callback_rest answer stored = take_waker ∷ wake ∷ []
callback_rest answer (taken waker) = wake ∷ []
callback_rest answer returned = []

-- What a poll finds after the callback: the waker of the poll before was called, and it is ready.
pub record IsWoken (w : ℕ) (f : Fetch) : Type 0 where
  pub answer : Answer Response
  pub after : Fetch
  pub woken : f.woken ≡ some w
  pub given : f.given ≡ some answer
  pub polls : (w' : ℕ) → (step (poll w') f ≡ some after)
  pub delivered : after.task ≡ ready answer

run-step :
    (event : Event) (events : List Event) (f f₁ : Fetch) {f' : Fetch}
    → step event f ≡ some f₁
    → run events f₁ ≡ some f'
    → run (event ∷ events) f ≡ some f'
unfolding run
run-step event events f f₁ e h = rw (e, run) h

-- The callback's accesses that are left end, whatever it is at, and leave the task alone.
Finished : Task → List Event → Fetch → Type 0
Finished task events f =
    (f' : Fetch) × (run events f ≡ some f') × (f'.task ≡ task) × (f'.callback ≡ returned)

finishes_taken :
    (task : Task) (f : Fetch) (waker : Option ℕ)
    → f.task ≡ task
    → f.callback ≡ taken waker
    → Finished task (wake ∷ []) f
unfolding run step Finished
finishes_taken task f none t c = (record f { callback = returned }, ground arith, t, refl)
finishes_taken task f (some w) t c =
    (record f { callback = returned; woken = some w }, ground arith, t, refl)

finishes_stored :
    (task : Task) (f : Fetch)
    → f.task ≡ task
    → f.callback ≡ stored
    → Finished task (take_waker ∷ wake ∷ []) f
unfolding step Finished
finishes_stored task f t c =
    let f₁ : Fetch = record f { waker = none; callback = taken f.waker } in
    let (f', h, t', c') = finishes_taken task f₁ f.waker t refl in
    (f', run-step take_waker (wake ∷ []) f f₁ (ground arith) h, t', c')

finishes :
    (task : Task) (answer : Answer Response) (f : Fetch) (callback : Callback)
    → f.task ≡ task
    → f.callback ≡ callback
    → Finished task (callback_rest answer callback) f
unfolding step run Finished
finishes task answer f waiting t c =
    let f₁ : Fetch = record f { result = some answer; callback = stored; given = some answer } in
    let (f', h, t', c') = finishes_stored task f₁ t refl in
    (f', run-step (complete answer) (take_waker ∷ wake ∷ []) f f₁ (ground arith) h, t', c')
finishes task answer f stored t c = finishes_stored task f t c
finishes task answer f (taken waker) t c = finishes_taken task f waker t c
finishes task answer f returned t c = (f, refl, t, c)

-- A parked task behind a callback that has returned was woken, and its next poll is ready.
returned-IsWoken :
    (handle w : ℕ) (f : Fetch)
    → Inv handle f
    → f.task ≡ parked w
    → f.callback ≡ returned
    → IsWoken w f
unfolding step Inv
returned-IsWoken handle w f v t c = given_answer f.given refl
  where
    given_answer : (o : Option (Answer Response)) → f.given ≡ o → IsWoken w f
    given_answer none e = absurd (ground arith)
    given_answer (some answer) e = record {
      answer = answer;
      after = record f { result = none; completed = true; task = ready answer };
      woken = ground arith;
      given = e;
      polls = λ w'. ground arith;
      delivered = refl;
    }

-- No wake-up is lost: whenever a poll was pending with a waker, in whatever order the task and the
-- callback made their accesses before, the callback's remaining accesses are possible, that waker is
-- called by the time the callback returns, and the next poll is ready with the callback's answer.
pub run-IsWoken :
    (handle : ℕ) (events : List Event) (f : Fetch) (w : ℕ) (answer : Answer Response)
    → 0 < handle
    → run events (started handle) ≡ some f
    → f.task ≡ parked w
    → (f' : Fetch) × (run (callback_rest answer f.callback) f ≡ some f') × IsWoken w f'
unfolding Finished
run-IsWoken handle events f w answer pos h t =
    let v = run-Inv handle events f pos h in
    let (f', h', t', c') = finishes (parked w) answer f f.callback t refl in
    (
      f',
      h',
      returned-IsWoken handle w f' (kept pos (callback_rest answer f.callback) f f' h' v) t' c',
    )
