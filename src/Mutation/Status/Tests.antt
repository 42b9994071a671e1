-- ===== src/Mutation/Status/Tests.antt =====
-- Runs of the polling loop, and the theorems about it at them.
use duckdb_superhuman_docs.Base.{
  ℕ, ◌+◌, ◌*◌, ◌≤◌, ◌≡◌, refl, Text, List, [], ◌∷◌, String, some, Result, ok, err, codes, true,
  false, arith, completed_with_warning, mutation_timed_out, is_blank,
}
use native.Mathlib.Nat.{le_refl}
use duckdb_superhuman_docs.Json.{Value, Serde, bool}
use duckdb_superhuman_docs.Json.Access.{get, get_bool}
use duckdb_superhuman_docs.Samples.{read_known, sample_serde, obj, str, World, world, answer}
use duckdb_superhuman_docs.Mutation.Status.{Polling, poll_mutation_status, second}
use duckdb_superhuman_docs.Mutation.Status.Verdict.{Verdict, poll_mutation_status-Verdict}
use duckdb_superhuman_docs.Mutation.Status.Progress.{
  IsClocked, Sleeps, poll_mutation_status-ends, poll_mutation_status-keeps,
}

abbrev known : List (String × Value ℕ)
known =
    ("pending", obj (("completed", bool false) ∷ []))
    ∷ ("done", obj (("completed", bool true) ∷ []))
    ∷ ("partial", obj (("completed", bool true) ∷ ("warning", str "caveat") ∷ []))
    ∷ []

abbrev serde : Serde ℕ ℕ
serde = sample_serde known

-- A clock that moves only in sleeps.
abbrev env : Polling World
env = record {
  fetch = λ w. answer w.answers w;
  elapsed = λ w. (w.time, w);
  sleep = λ d w. record w { time = w.time + d };
}

time : World → ℕ
time w = w.time

answer-time : (l : List (Result Text)) (w : World) → time w ≡ time (answer l w).1
unfolding answer time
answer-time [] w = refl
answer-time (a ∷ l) w = refl

clocked : IsClocked env time
unfolding time
clocked = record {
  reads = λ w. refl;
  elapsed_later = λ w. omega arith;
  fetch_later = λ w. omega (arith, answer-time w.answers w);
  slept = λ d w. omega arith;
}

polling : Unit {0}
unfolding poll_mutation_status answer read_known get get_bool is_blank
polling = tt

-- Two checks, with a sleep of a second in between.
completes :
    poll_mutation_status serde env
      (codes "m")
      (2 * second)
      false
      3
      (world ("pending" ∷ "done" ∷ []))
    ≡ some (ok tt, record { answers = []; time = second })
unfolding polling
completes = refl

warns :
    poll_mutation_status serde env (codes "m") (2 * second) false 3 (world ("partial" ∷ []))
    ≡ some (err (completed_with_warning (codes "m") (codes "caveat")), world [])
unfolding polling
warns = refl

gives_up :
    poll_mutation_status serde env (codes "m") second false 3 (world ("pending" ∷ "done" ∷ []))
    ≡ some (err (mutation_timed_out (codes "m") 1), record (world ("done" ∷ [])) { time = second })
unfolding polling
gives_up = refl

poll_mutation_status-Verdict_example :
    Verdict serde env
      (codes "m")
      (2 * second)
      false
      (ok tt)
      (record { answers = []; time = second })
poll_mutation_status-Verdict_example =
    poll_mutation_status-Verdict serde env (codes "m") (2 * second) false 3
      (world ("pending" ∷ "done" ∷ [])) (ok tt) (record { answers = []; time = second }) completes

poll_mutation_status-ends_example :
    (r : Result (Unit {0}) × World) × (poll_mutation_status serde env
        (codes "m")
        (2 * second)
        false
        3
        (world ("pending" ∷ []))
      ≡ some r)
poll_mutation_status-ends_example =
    poll_mutation_status-ends serde env (codes "m") (2 * second) false time clocked 2
      (world ("pending" ∷ [])) (le_refl (2 * second))

-- In this world the time at the end is never past the time-out.
sleeps : Sleeps serde env (codes "m") (2 * second) false time clocked (λ w. time w ≤ 2 * second)
unfolding time
sleeps = record {
  kept_fetch = λ w h. omega (arith, answer-time w.answers w);
  kept_elapsed = λ w h. h;
  kept_sleep = λ d w p q r h. r;
}

poll_mutation_status-keeps_example : time (record { answers = []; time = second }) ≤ 2 * second
unfolding time
poll_mutation_status-keeps_example =
    poll_mutation_status-keeps serde env (codes "m") (2 * second) false time clocked
      (λ w. time w ≤ 2 * second) sleeps 3 (world ("pending" ∷ "done" ∷ [])) (ok tt)
      (record { answers = []; time = second }) (omega arith) completes
