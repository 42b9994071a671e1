-- ===== src/Attach/Options/Timeout.antt =====
-- The mutation timeout of an ATTACH, `parse_mutation_timeout` of src/attach.rs.
use Prim.Native.Nat.{◌^◌, ◌<◌}
use mathlib.Core.Path.{◌≡◌}
use native.Mathlib.Omega.{arith}
use duckdb_superhuman_docs.Base.{ℕ, Text, Option, none, some, ◌∷◌, [], ok}
use duckdb_superhuman_docs.Base.Decimal.{
  to_string, parse_u64, parse_u64-to_string, is_empty-to_string,
}
use duckdb_superhuman_docs.Attach.Options.{parse_mutation_timeout, positive}

positive-positive :
    (value : Text) (o : Option ℕ) (n : ℕ) → positive value o ≡ ok n → (0 < n) × (o ≡ some n)
unfolding positive
positive-positive value none n h = cc
positive-positive value (some m) n h = ground arith

-- Whatever text the option has, a timeout that is accepted is positive.
pub parse_mutation_timeout-positive :
    (value : Text) (n : ℕ) → parse_mutation_timeout value ≡ ok n → 0 < n
unfolding parse_mutation_timeout
parse_mutation_timeout-positive [] n h = ground arith
parse_mutation_timeout-positive (c ∷ value) n h =
    (positive-positive (c ∷ value) (parse_u64 (c ∷ value)) n h).0

-- A positive number of seconds below 2^64, written in decimal, is read as that number.
pub parse_mutation_timeout-to_string :
    (n : ℕ) → 0 < n → n < 2 ^ 64 → parse_mutation_timeout (to_string n) ≡ ok n
unfolding parse_mutation_timeout positive
parse_mutation_timeout-to_string n p q =
    rw (is_empty-to_string, parse_u64-to_string n q) (ground arith)
