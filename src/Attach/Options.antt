-- ===== src/Attach/Options.antt =====
-- The readings of the ATTACH options in src/attach.rs.
pub mod Timeout
use duckdb_superhuman_docs.Base.{
  ℕ, Text, Bool, true, false, Option, none, some, List, ◌∷◌, [], Result, ok, err, codes, is_empty,
  one_of, ◌==◌, if◌then◌else◌, String, invalid_boolean, timeout_not_positive,
}
use duckdb_superhuman_docs.Base.Decimal.{parse_u64}

abbrev pub default_mutation_timeout_seconds : ℕ
default_mutation_timeout_seconds = 60

unfoldable pub parse_boolean_option : String → Text → Bool → Result Bool
parse_boolean_option name value default =
    if is_empty value
    then ok default
    else if one_of value ("true" ∷ "TRUE" ∷ "True" ∷ "1" ∷ [])
    then ok true
    else if one_of value ("false" ∷ "FALSE" ∷ "False" ∷ "0" ∷ [])
    then ok false
    else err (invalid_boolean (codes name) value)

-- the test on the parsed seconds
positive : Text → Option ℕ → Result ℕ
positive value none = err (timeout_not_positive value)
positive value (some seconds) = if seconds == 0 then err (timeout_not_positive []) else ok seconds

unfoldable pub parse_mutation_timeout : Text → Result ℕ
unfolding positive
parse_mutation_timeout value =
    if is_empty value then ok default_mutation_timeout_seconds else positive value (parse_u64 value)
