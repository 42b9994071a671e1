-- ===== src/Mutation/Status/Progress.antt =====
-- The polling loop of src/mutation/status.rs ends, and it sleeps only inside its time.
use duckdb_superhuman_docs.Base.{
  ℕ, zero, suc, ◌+◌, ◌*◌, ◌-◌, ◌≤◌, ◌<◌, ◌≡◌, refl, min, Text, Bool, true, false, Option, some,
  Result, ok, err, arith, Bool-cases, leb, inl, inr,
}
use duckdb_superhuman_docs.Json.{Serde}
use duckdb_superhuman_docs.Mutation.Status.{
  Polling, mutation_status, pause, judge, check_body, check, turn, poll, poll_mutation_status, Turn,
  stop, again, proceed, mutation_poll_interval,
}

-- What `Instant` and `sleep` document, over the reading `now`: time does not go back, `elapsed`
-- reads it, and a sleep lasts at least as long as it is asked to.
pub record IsClocked {W : Type 0} (env : Polling W) (now : W → ℕ) : Type 0 where
  pub reads : (w : W) → (env.elapsed w).0 ≡ now (env.elapsed w).1
  pub elapsed_later : (w : W) → now w ≤ now (env.elapsed w).1
  pub fetch_later : (w : W) → now w ≤ now (env.fetch w).1
  pub slept : (d : ℕ) (w : W) → now w + d ≤ now (env.sleep d w)

module _ {N F W : Type 0} (serde : Serde N F) (env : Polling W) where
  module _ (request_id : Text) (timeout : ℕ) (allow_warnings : Bool) where
    module _ (now : W → ℕ) (clocked : IsClocked env now) where
      -- The time a round has gained when it goes on: an interval, or all that was left.
      abbrev Gained : ℕ → Turn W → Type 0
      Gained start (stop r w) = Unit
      Gained start (again w) =
          (start < timeout) × (min (start + mutation_poll_interval) timeout ≤ now w)

      Gained-pause :
          (start : ℕ) (w : W)
          → start ≤ now w
          → Gained start (pause serde env request_id timeout allow_warnings w)
      unfolding pause
      Gained-pause start w h = elim (Bool-cases (leb timeout (env.elapsed w).0)) [
        | inl over ↦ rw over tt
        | inr time ↦ rw time (
            let v = (env.elapsed w).1 in
            let nap = min mutation_poll_interval (timeout - (env.elapsed w).0) in
            let before : (env.elapsed w).0 < timeout = ground arith in
            (
              omega (arith, clocked.reads w, clocked.elapsed_later w),
              omega (arith, clocked.reads w, clocked.elapsed_later w, clocked.slept nap v),
            ))
      ]

      Gained-judge :
          (start : ℕ) (r : Result (Bool × Option Text)) (w : W)
          → start ≤ now w
          → Gained start (judge serde env request_id timeout allow_warnings r w)
      unfolding judge
      Gained-judge start (err e) w h = tt
      Gained-judge start (ok (true, warning)) w h = tt
      Gained-judge start (ok (false, warning)) w h = Gained-pause start w h

      Gained-check_body :
          (start : ℕ) (body : Result Text) (w : W)
          → start ≤ now w
          → Gained start (check_body serde env request_id timeout allow_warnings body w)
      unfolding check_body
      Gained-check_body start (err e) w h = tt
      Gained-check_body start (ok body) w h = Gained-judge start (mutation_status serde body) w h

      Gained-turn :
          (first : Bool) (w : W)
          → Gained (now w) (turn serde env request_id timeout allow_warnings first w)
      unfolding turn check
      Gained-turn true w =
          Gained-check_body (now w) (env.fetch w).0 (env.fetch w).1 (clocked.fetch_later w)
      Gained-turn false w = elim (Bool-cases (leb timeout (env.elapsed w).0)) [
        | inl over ↦ rw over tt
        | inr time ↦ rw time (
            let v = (env.elapsed w).1 in
            Gained-check_body (now w) (env.fetch v).0 (env.fetch v).1
              (omega (arith, clocked.elapsed_later w, clocked.fetch_later v)))
      ]

      -- What is left of the loop after a round, when `k` more intervals cover the time.
      follow-ends :
          (k : ℕ) (start : ℕ) (t : Turn W) (next : W → Option (Result (Unit {0}) × W))
          → timeout ≤ start + k * mutation_poll_interval
          → Gained start t
          → ((j : ℕ) (v : W)
              → k ≡ suc j
              → timeout ≤ now v + j * mutation_poll_interval
              → (r : Result (Unit {0}) × W) × (next v ≡ some r))
          → (r : Result (Unit {0}) × W) × (proceed t next ≡ some r)
      follow-ends k start (stop r w) next h gained ih = ((r, w), refl)
      follow-ends zero start (again w) next h gained ih = absurd (omega arith)
      follow-ends (suc j) start (again w) next h gained ih = ih j w refl (omega arith)

      poll-ends :
          (k : ℕ) (first : Bool) (w : W)
          → timeout ≤ now w + k * mutation_poll_interval
          → (r : Result (Unit {0}) × W) × (poll serde env request_id timeout allow_warnings
                (suc k)
                first
                w
              ≡ some r)
      unfolding poll
      poll-ends zero first w h =
          follow-ends 0 (now w) (turn serde env request_id timeout allow_warnings first w)
            (poll serde env request_id timeout allow_warnings 0 false) h (Gained-turn first w)
            (λ j v e. absurd (omega arith))
      poll-ends (suc k) first w h =
          follow-ends (suc k) (now w) (turn serde env request_id timeout allow_warnings first w)
            (poll serde env request_id timeout allow_warnings (suc k) false) h (Gained-turn first w)
            (λ j v e bound. poll-ends k false v (omega arith))

      -- With a clock that does not go back and sleeps that last, the loop returns within as many
      -- rounds as the time-out has poll intervals, and one more: one status check a round at most.
      pub poll_mutation_status-ends :
          (k : ℕ) (w : W)
          → timeout ≤ k * mutation_poll_interval
          → (r : Result (Unit {0}) × W) × (poll_mutation_status serde env request_id timeout
                allow_warnings
                (suc k)
                w
              ≡ some r)
      unfolding poll_mutation_status
      poll_mutation_status-ends k w h = poll-ends k true w (omega arith)

      module _ (I : W → Type 0) where
        -- What the loop may do to the world besides its checks and its looks at the clock.
        pub record Sleeps : Type 0 where
          pub kept_fetch : (w : W) → I w → I (env.fetch w).1
          pub kept_elapsed : (w : W) → I w → I (env.elapsed w).1
          pub kept_sleep :
              (d : ℕ) (w : W)
              → 0 < d
              → d ≤ mutation_poll_interval
              → now w + d ≤ timeout
              → I w
              → I (env.sleep d w)

        module _ (k : Sleeps) where
          abbrev Kept : Turn W → Type 0
          Kept (stop r w) = I w
          Kept (again w) = I w

          Kept-pause : (w : W) → I w → Kept (pause serde env request_id timeout allow_warnings w)
          unfolding pause
          Kept-pause w i = elim (Bool-cases (leb timeout (env.elapsed w).0)) [
            | inl over ↦ rw over (k.kept_elapsed w i)
            | inr time ↦ rw time (
                let v = (env.elapsed w).1 in
                let nap = min mutation_poll_interval (timeout - (env.elapsed w).0) in
                let before : (env.elapsed w).0 < timeout = ground arith in
                k.kept_sleep nap v (omega arith) (omega arith) (omega (arith, clocked.reads w))
                  (k.kept_elapsed w i))
          ]

          Kept-judge :
              (r : Result (Bool × Option Text)) (w : W)
              → I w
              → Kept (judge serde env request_id timeout allow_warnings r w)
          unfolding judge
          Kept-judge (err e) w i = i
          Kept-judge (ok (true, warning)) w i = i
          Kept-judge (ok (false, warning)) w i = Kept-pause w i

          Kept-check : (w : W) → I w → Kept (check serde env request_id timeout allow_warnings w)
          unfolding check
          Kept-check w i = body (env.fetch w).0 (k.kept_fetch w i)
            where
              body :
                  (b : Result Text)
                  → I (env.fetch w).1
                  → Kept (check_body serde env request_id timeout allow_warnings b (env.fetch w).1)
              body (err e) j = unfold check_body in j
              body (ok b) j = unfold check_body in Kept-judge (mutation_status serde b) _ j

          Kept-turn :
              (first : Bool) (w : W)
              → I w
              → Kept (turn serde env request_id timeout allow_warnings first w)
          unfolding turn
          Kept-turn true w i = Kept-check w i
          Kept-turn false w i = elim (Bool-cases (leb timeout (env.elapsed w).0)) [
            | inl over ↦ rw over (k.kept_elapsed w i)
            | inr time ↦ rw time (Kept-check (env.elapsed w).1 (k.kept_elapsed w i))
          ]

          follow-keeps :
              (t : Turn W) (next : W → Option (Result (Unit {0}) × W)) {r : Result (Unit {0})}
              {w : W}
              → Kept t
              → ((v : W) → I v → next v ≡ some (r, w) → I w)
              → proceed t next ≡ some (r, w)
              → I w
          follow-keeps (stop r' v) next {r} {w} i ih h = let same : v ≡ w = cc in rw (← same) i
          follow-keeps (again v) next {r} {w} i ih h = ih v i h

          poll-keeps :
              (fuel : ℕ) (first : Bool) (w : W) (r : Result (Unit {0})) (w' : W)
              → I w
              → poll serde env request_id timeout allow_warnings fuel first w ≡ some (r, w')
              → I w'
          unfolding poll
          poll-keeps zero first w r w' i h = cc
          poll-keeps (suc fuel) first w r w' i h =
              follow-keeps (turn serde env request_id timeout allow_warnings first w)
                (poll serde env request_id timeout allow_warnings fuel false) (Kept-turn first w i)
                (λ v j e. poll-keeps fuel false v r w' j e) h

          -- The loop never sleeps for longer than the poll interval nor past the time-out: what
          -- checks, looks at the clock and such sleeps keep, the whole loop keeps.
          pub poll_mutation_status-keeps :
              (fuel : ℕ) (w : W) (r : Result (Unit {0})) (w' : W)
              → I w
              → poll_mutation_status serde env request_id timeout allow_warnings fuel w
                ≡ some (r, w')
              → I w'
          unfolding poll_mutation_status
          poll_mutation_status-keeps fuel w r w' i h = poll-keeps fuel true w r w' i h
