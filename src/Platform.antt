-- ===== src/Platform.antt =====
-- src/platform.rs for Emscripten: a future is polled until it is ready, with a pause of a
-- millisecond after each poll. The loop takes fuel, one unit a poll; `none` means that it ran out.
use duckdb_superhuman_docs.Base.{
  ℕ, zero, suc, ◌^◌, ◌-◌, ◌≤◌, ◌≡◌, refl, min, Option, none, some, arith,
}

module _ {W A : Type 0} (poll : W → Option A × W) (emscripten_sleep : ℕ → W → W) where
  settle : Option A × W → (W → Option (A × W)) → Option (A × W)
  settle (some output, w) next = some (output, w)
  settle (none, w) next = next (emscripten_sleep 1 w)

  pub block_on : ℕ → W → Option (A × W)
  unfolding settle
  block_on zero w = none
  block_on (suc fuel) w = settle (poll w) (block_on fuel)

  -- A future that is pending for a number of polls, and then ready.
  pub data Polls : ℕ → W → A → W → Type 0 where
    ready : (w w' : W) (output : A) → poll w ≡ (some output, w') → Polls 0 w output w'
    pending :
        (n : ℕ) (w w₁ w' : W) (output : A)
        → poll w ≡ (none, w₁)
        → Polls n (emscripten_sleep 1 w₁) output w'
        → Polls (suc n) w output w'

  -- A future that gets ready is read by as many polls as it needs, and the loop ends with its output
  -- and the world of its last poll; more fuel changes nothing.
  pub block_on-Polls :
      (fuel : ℕ) {n : ℕ} {w w' : W} {output : A}
      → n ≤ fuel
      → Polls n w output w'
      → block_on (suc fuel) w ≡ some (output, w')
  unfolding block_on
  block_on-Polls fuel le (ready w w' output e) = rw e refl
  block_on-Polls zero le (pending n w w₁ w' output e later) = absurd (omega (arith, le))
  block_on-Polls (suc fuel) le (pending n w w₁ w' output e later) =
      rw e (block_on-Polls fuel (omega (arith, le)) later)

-- `sleep`: the milliseconds that the host is asked for
pub sleep_milliseconds : ℕ → ℕ
sleep_milliseconds milliseconds = min milliseconds (2 ^ 32 - 1)
