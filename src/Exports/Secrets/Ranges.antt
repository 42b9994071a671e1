-- ===== src/Exports/Secrets/Ranges.antt =====
-- The addresses of the parts of a secret.
use duckdb_superhuman_docs.Base.{ℕ, ◌≤◌, ◌≡◌, arith}
use duckdb_superhuman_docs.Memory.Owned.{Own, within, either, Disjoint}

-- Six neighbouring ranges, and three sets of two of them each.
module _ (a₀ a₁ a₂ a₃ a₄ a₅ a₆ : ℕ) (le₀ : a₀ ≤ a₁) (le₁ : a₁ ≤ a₂) (le₂ : a₂ ≤ a₃) (le₃ : a₃ ≤ a₄)
    (le₄ : a₄ ≤ a₅) (le₅ : a₅ ≤ a₆) where
  abbrev pub of_scope : Own
  of_scope = either (within a₃ a₄) (within a₁ a₂)

  abbrev pub of_entries : Own
  of_entries = either (within a₄ a₅) (within a₀ a₁)

  abbrev pub of_keys : Own
  of_keys = either (within a₅ a₆) (within a₂ a₃)

  pub entries-Disjoint : Disjoint of_entries of_keys
  entries-Disjoint x mine = ground arith

  pub scope-Disjoint : Disjoint of_scope (either of_entries of_keys)
  scope-Disjoint x mine = ground arith

  -- Together they are the whole range.
  pub whole : (x : ℕ) → either of_scope (either of_entries of_keys) x ≡ within a₀ a₆ x
  whole x = ground arith
