-- ===== src/Mutation/Status/Verdict.antt =====
-- Why the polling loop of src/mutation/status.rs ended as it did.
use duckdb_superhuman_docs.Base.{
  ℕ, zero, suc, ◌≤◌, ◌≡◌, refl, ◌⊎◌, inl, inr, Text, Bool, true, false, Option, none, some, Result,
  ok, err, Error, arith, check_failed, completed_with_warning, Bool-cases, leb, if◌then◌else◌,
}
use duckdb_superhuman_docs.Json.{Serde}
use duckdb_superhuman_docs.Mutation.Status.{
  Polling, mutation_status, timed_out, settle, pause, judge, check_body, check, turn, poll,
  poll_mutation_status, Turn, stop, again, proceed,
}

module _ {N F W : Type 0} (serde : Serde N F) (env : Polling W) where
  module _ (request_id : Text) (timeout : ℕ) (allow_warnings : Bool) where
    -- The event that a result of the loop, and the state it is returned in, rest on.
    pub data Verdict : Result (Unit {0}) → W → Type 0 where
      completed :
          (v : W) (w : W) (body : Text) (warning : Option Text)
          → env.fetch v ≡ (ok body, w)
          → mutation_status serde body ≡ ok (true, warning)
          → (warning ≡ none) ⊎ (allow_warnings ≡ true)
          → Verdict (ok tt) w
      warned :
          (v : W) (w : W) (body : Text) (warning : Text)
          → env.fetch v ≡ (ok body, w)
          → mutation_status serde body ≡ ok (true, some warning)
          → allow_warnings ≡ false
          → Verdict (err (completed_with_warning request_id warning)) w
      unchecked :
          (v : W) (w : W) (e : Error)
          → env.fetch v ≡ (err e, w)
          → Verdict (err (check_failed request_id e)) w
      unreadable :
          (v : W) (w : W) (body : Text) (e : Error)
          → env.fetch v ≡ (ok body, w)
          → mutation_status serde body ≡ err e
          → Verdict (err (check_failed request_id e)) w
      late :
          (v : W) (w : W) (n : ℕ)
          → env.elapsed v ≡ (n, w)
          → timeout ≤ n
          → Verdict (err (timed_out request_id timeout)) w

    -- What a round proves if it stops.
    abbrev Explained : Turn W → Type 0
    Explained (stop r w) = Verdict r w
    Explained (again w) = Unit

    Explained-pause : (w : W) → Explained (pause serde env request_id timeout allow_warnings w)
    unfolding pause
    Explained-pause w = elim (Bool-cases (leb timeout (env.elapsed w).0)) [
      | inl over ↦ rw over (late w (env.elapsed w).1 (env.elapsed w).0 refl (ground arith))
      | inr time ↦ rw time tt
    ]

    Verdict-settle :
        (v w : W) (body : Text) (warning : Option Text)
        → env.fetch v ≡ (ok body, w)
        → mutation_status serde body ≡ ok (true, warning)
        → Verdict (settle request_id allow_warnings warning) w
    unfolding settle
    Verdict-settle v w body none p q = completed v w body none p q (inl refl)
    Verdict-settle v w body (some warning) p q = split allow_warnings refl
      where
        split :
            (allowed : Bool)
            → allow_warnings ≡ allowed
            → Verdict (if allowed then ok tt else err (completed_with_warning request_id warning)) w
        split true e = completed v w body (some warning) p q (inr e)
        split false e = warned v w body warning p q e

    Explained-judge :
        (v w : W) (body : Text) (r : Result (Bool × Option Text))
        → env.fetch v ≡ (ok body, w)
        → mutation_status serde body ≡ r
        → Explained (judge serde env request_id timeout allow_warnings r w)
    unfolding judge
    Explained-judge v w body (err e) p q = unreadable v w body e p q
    Explained-judge v w body (ok (true, warning)) p q = Verdict-settle v w body warning p q
    Explained-judge v w body (ok (false, warning)) p q = Explained-pause w

    Explained-check_body :
        (v w : W) (body : Result Text)
        → env.fetch v ≡ (body, w)
        → Explained (check_body serde env request_id timeout allow_warnings body w)
    unfolding check_body
    Explained-check_body v w (err e) p = unchecked v w e p
    Explained-check_body v w (ok body) p =
        Explained-judge v w body (mutation_status serde body) p refl

    Explained-turn :
        (first : Bool) (w : W)
        → Explained (turn serde env request_id timeout allow_warnings first w)
    unfolding turn check
    Explained-turn true w = Explained-check_body w (env.fetch w).1 (env.fetch w).0 refl
    Explained-turn false w = elim (Bool-cases (leb timeout (env.elapsed w).0)) [
      | inl over ↦ rw over (late w (env.elapsed w).1 (env.elapsed w).0 refl (ground arith))
      | inr time ↦
          rw time (
            let v = (env.elapsed w).1 in
            Explained-check_body v (env.fetch v).1 (env.fetch v).0 refl)
    ]

    -- The rest of the loop after a round.
    follow-Verdict :
        (t : Turn W) (next : W → Option (Result (Unit {0}) × W)) {r : Result (Unit {0})} {w : W}
        → Explained t
        → ((v : W) → next v ≡ some (r, w) → Verdict r w)
        → proceed t next ≡ some (r, w)
        → Verdict r w
    follow-Verdict (stop r' v) next {r} {w} x ih h =
        let same_result : r' ≡ r = cc in
        let same_state : v ≡ w = cc in rw (← same_result, ← same_state) x
    follow-Verdict (again v) next x ih h = ih v h

    poll-Verdict :
        (fuel : ℕ) (first : Bool) (w : W) (r : Result (Unit {0})) (w' : W)
        → poll serde env request_id timeout allow_warnings fuel first w ≡ some (r, w')
        → Verdict r w'
    unfolding poll
    poll-Verdict zero first w r w' h = cc
    poll-Verdict (suc fuel) first w r w' h =
        follow-Verdict (turn serde env request_id timeout allow_warnings first w)
          (poll serde env request_id timeout allow_warnings fuel false) (Explained-turn first w)
          (λ v k. poll-Verdict fuel false v r w' k) h

    -- A result of the polling loop always has its event: success means that the last check read a
    -- completed mutation, with no warning unless warnings are allowed; a warning error, that it
    -- read a completed mutation whose warning is not allowed; a check error, that the last check
    -- failed or could not be read; a time-out, that the clock showed the time-out or more.
    pub poll_mutation_status-Verdict :
        (fuel : ℕ) (w : W) (r : Result (Unit {0})) (w' : W)
        → poll_mutation_status serde env request_id timeout allow_warnings fuel w ≡ some (r, w')
        → Verdict r w'
    unfolding poll_mutation_status
    poll_mutation_status-Verdict fuel w r w' h = poll-Verdict fuel true w r w' h
