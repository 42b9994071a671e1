-- ===== src/Mutation/Payload/Parts.antt =====
-- The field of a rich value that `simple_cell_value` takes.
use duckdb_superhuman_docs.Base.{
  ◌≡◌, ◌≢◌, refl, ◌⊎◌, inl, inr, String, Text, List, [], ◌∷◌, Option, none, one_of, err, Result,
  Bool, sym, null_in_array, some, true-ne-false, if◌then◌else◌, true, false, some, ok,
  and_then-eq-ok, ok-injective, err-ne-ok, ok_or-eq-ok, Bool-cases, ok_or, ◌||◌, arith,
  missing_writable_field,
}
use duckdb_superhuman_docs.Base.Ascii.{to_ascii_lowercase}
use duckdb_superhuman_docs.Json.{Value, Fields, number, bool, string, null, array, object}
use duckdb_superhuman_docs.Json.Access.{is_null, is_array, is_object, get}
use duckdb_superhuman_docs.Mutation.Payload.{
  simple_cell_value, primitive_only, writable_value, object_field, first_field, blank,
}

primitive_only-eq :
    {N : Type 0} (format_type : Text) (value simple : Value N)
    → primitive_only format_type value ≡ ok simple
    → value ≡ simple
unfolding primitive_only
primitive_only-eq format_type value simple h =
    elim (Bool-cases (is_object value || is_array value || is_null value)) [
      | inl bad ↦ absurd (err-ne-ok (rw bad at h))
      | inr good ↦ ok-injective (rw good at h)
    ]

module _ {N : Type 0} where
  -- The value itself, or a field of it.
  abbrev pub IsPart : Value N → Value N → Type 0
  IsPart v part =
      (v ≡ part)
      ⊎ ((name : String) × (is_object v ≡ true) × (get name v ≡ some part) × (part ≢ string []))

  -- A field that is not blank is no empty text.
  blank-ne : (v : Value N) → blank v ≡ false → v ≢ string []
  unfolding blank
  blank-ne v h = λ e. true-ne-false (rw e at h)

  first_field-IsPart :
      (fs : Fields N) (names : List String) (part : Value N)
      → first_field (object fs) names ≡ some part
      → IsPart (object fs) part
  unfolding first_field
  first_field-IsPart fs [] part h = absurd (ground arith)
  first_field-IsPart fs (name ∷ names) part h =
      by_field (first_field-IsPart fs names part) (get name (object fs)) refl h
    where
      by_field :
          (first_field (object fs) names ≡ some part → IsPart (object fs) part)
          → (o : Option (Value N)) → get name (object fs) ≡ o
          → elim o [
            | none ↦ first_field (object fs) names
            | some v ↦ elim (blank v) [ true ↦ first_field (object fs) names | false ↦ some v ]
          ]
            ≡ some part
          → IsPart (object fs) part
      by_field later none e h = later h
      by_field later (some v) e h = elim (Bool-cases (blank v)) [
        | inl bad ↦ later (rw bad at h)
        | inr good ↦
            let same : v ≡ part = (let found = rw good at h in cc) in
            inr (name, refl, rw (← same) e, rw (← same) (blank-ne v good))
      ]

  object_field-IsPart :
      (v : Value N) (names : List String) (part : Value N)
      → object_field v names ≡ some part
      → IsPart v part
  unfolding object_field
  object_field-IsPart (object fs) names part h = first_field-IsPart fs names part h
  object_field-IsPart null names part h = cc
  object_field-IsPart (bool b) names part h = cc
  object_field-IsPart (number n) names part h = cc
  object_field-IsPart (string t) names part h = cc
  object_field-IsPart (array vs) names part h = cc

  -- What follows from either branch follows from the test.
  choose :
      (test : Bool) {R : Type 0} {part : Value N} {o o' : Option (Value N)}
      → (o ≡ some part → R)
      → (o' ≡ some part → R)
      → (if test then o else o') ≡ some part
      → R
  choose true f g h = f h
  choose false f g h = g h

  itself : (v part : Value N) → some v ≡ some part → IsPart v part
  itself v part e = let same : v ≡ part = cc in inl same

  writable_value-IsPart :
      (kind : Text) (v part : Value N) → writable_value kind v ≡ some part → IsPart v part
  unfolding writable_value object_field
  writable_value-IsPart kind v part h =
      choose (one_of kind ("currency" ∷ [])) (object_field-IsPart v ("amount" ∷ []) part)
        (choose (one_of kind ("image" ∷ [])) (object_field-IsPart v ("url" ∷ []) part) (
          choose (one_of kind ("person" ∷ [])) (object_field-IsPart v ("email" ∷ "name" ∷ []) part)
            (choose (one_of kind ("link" ∷ "hyperlink" ∷ []))
              (object_field-IsPart v ("url" ∷ []) part)
              (choose (one_of kind ("lookup" ∷ []))
                (object_field-IsPart v ("rowId" ∷ "name" ∷ []) part) (itself v part)))))
        h

  pub simple_cell_value-IsPart :
      (format_type : Text) (v simple : Value N)
      → simple_cell_value format_type v ≡ ok simple
      → IsPart v simple
  unfolding simple_cell_value
  simple_cell_value-IsPart format_type v simple h =
      let (_, h₁) = present h in
      let (part, e, h₂) =
        and_then-eq-ok
          (ok_or (missing_writable_field format_type)
            (writable_value (to_ascii_lowercase format_type) v))
          (primitive_only format_type) h₁ in
      writable_value-IsPart (to_ascii_lowercase format_type) v simple
        (rw (← primitive_only-eq format_type part simple h₂) (ok_or-eq-ok _ _ e))
    where
      present :
          {r : Result (Value N)}
          → (if is_null v then err null_in_array else r) ≡ ok simple
          → (is_null v ≡ false) × (r ≡ ok simple)
      present h = elim (Bool-cases (is_null v)) [
        | inl null' ↦ absurd (err-ne-ok (rw null' at h))
        | inr good ↦ (good, rw good at h)
      ]

  -- A value with a part that is no array is no array.
  pub IsPart-is_array :
      (v part : Value N) → IsPart v part → is_array part ≡ false → is_array v ≡ false
  IsPart-is_array v part (inl same) h = rw same h
  IsPart-is_array (object fs) part (inr _) h = refl
  IsPart-is_array null part (inr (_, e, _, _)) h = refl
  IsPart-is_array (bool b) part (inr (_, e, _, _)) h = refl
  IsPart-is_array (number n) part (inr (_, e, _, _)) h = refl
  IsPart-is_array (string t) part (inr (_, e, _, _)) h = refl
  IsPart-is_array (array vs) part (inr (_, e, _, _)) h = sym e
