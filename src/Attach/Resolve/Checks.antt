-- ===== src/Attach/Resolve/Checks.antt =====
-- The mutation settings that an ATTACH accepts.
use duckdb_superhuman_docs.Base.{
  String, [], ◌∷◌, arith, ℕ, ◌<◌, ◌≡◌, sym, Text, Bool, true, false, ok, and_then-eq-ok,
  ok-injective, err-ne-ok, is_empty, not, ◌&&◌, if-eq, inl, inr, ◌⊎◌, Bool-cases,
}
use duckdb_superhuman_docs.Attach.Options.{
  parse_boolean_option, parse_mutation_timeout, default_mutation_timeout_seconds,
}
use duckdb_superhuman_docs.Attach.Options.Timeout.{parse_mutation_timeout-positive}
use duckdb_superhuman_docs.Attach.Resolve.{Settings, RawOptions, settings}

-- The timeout is positive, and without waiting it is the default and no warning is allowed.
pub record IsSettings (s : Settings) : Type 0 where
  pub timeout_positive : 0 < s.mutation_timeout_seconds
  pub waits_or_default :
      (s.wait_for_mutations ≡ true)
      ⊎ ((s.mutation_timeout_seconds ≡ default_mutation_timeout_seconds)
          × (s.allow_mutation_warnings ≡ false))

default_timeout_lem :
    (text : Text) (n : ℕ)
    → is_empty text ≡ true
    → parse_mutation_timeout text ≡ ok n
    → n ≡ default_mutation_timeout_seconds
unfolding parse_mutation_timeout
default_timeout_lem [] n e h = ok-injective (sym h)
default_timeout_lem (c ∷ text) n e h = cc

default_boolean_lem :
    (name : String) (text : Text) (b : Bool)
    → is_empty text ≡ true
    → parse_boolean_option name text false ≡ ok b
    → b ≡ false
unfolding parse_boolean_option
default_boolean_lem name [] b e h = ok-injective (sym h)
default_boolean_lem name (c ∷ text) b e h = cc

-- A text that is refused unless the source waits is empty where it does not.
not_waiting : (wait empty : Bool) → (not wait && not empty) ≡ false → wait ≡ false → empty ≡ true
not_waiting wait empty h e = ground arith

pub settings-IsSettings : (raw : RawOptions) (s : Settings) → settings raw ≡ ok s → IsSettings s
unfolding settings
settings-IsSettings raw s h =
    let (include, _, h1) =
      and_then-eq-ok (parse_boolean_option "INCLUDE_ROW_METADATA" raw.include_row_metadata false) _
        h in
    let (wait, _, h2) =
      and_then-eq-ok (parse_boolean_option "WAIT_FOR_MUTATIONS" raw.wait_for_mutations false) _
        h1 in
    elim (if-eq (not wait && not (is_empty raw.mutation_timeout_seconds)) _ _ h2) [
      | inl (_, e) ↦ absurd (err-ne-ok e)
      | inr (quiet, h3) ↦
          elim (if-eq (not wait && not (is_empty raw.allow_mutation_warnings)) _ _ h3) [
            | inl (_, e) ↦ absurd (err-ne-ok e)
            | inr (silent, h4) ↦
                let (timeout, et, h5) =
                  and_then-eq-ok (parse_mutation_timeout raw.mutation_timeout_seconds) _ h4 in
                let (allow, ea, h6) =
                  and_then-eq-ok
                    (parse_boolean_option "ALLOW_MUTATION_WARNINGS" raw.allow_mutation_warnings
                      false)
                    _ h5 in
                rw (sym (ok-injective h6)) (record {
                  timeout_positive =
                      parse_mutation_timeout-positive raw.mutation_timeout_seconds timeout et;
                  waits_or_default = elim (Bool-cases wait) [
                    | inl waits ↦ inl waits
                    | inr e ↦ inr (
                      default_timeout_lem raw.mutation_timeout_seconds timeout
                          (not_waiting wait _ quiet e) et,
                      default_boolean_lem "ALLOW_MUTATION_WARNINGS" raw.allow_mutation_warnings
                          allow (not_waiting wait _ silent e) ea,
                    )
                  ];
                })
          ]
    ]
