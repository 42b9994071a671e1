-- ===== src/Base/Results.antt =====
-- `Result<T, String>`: each message that the source builds is a constructor of `Error` with the
-- values that the message quotes. `Exec` is a computation that may fail and acts on a state, which
-- survives an error.
use Prim.Native.Nat.{ℕ}
use Prim.Native.Nat.{suc}
use mathlib.Core.List.{List, [], ◌∷◌}
use mathlib.Core.Path.{◌≡◌, refl, ap}
use native.Mathlib.Omega.{arith}
use duckdb_superhuman_docs.Base.Lists.{length, All}
use mathlib.Core.Logic.{◌⊎◌, inl, inr}
use mathlib.Core.Bool.{Bool, true, false}
use mathlib.Core.Option.{Option, none, some}
use duckdb_superhuman_docs.Base.Strings.{Text}
use duckdb_superhuman_docs.Base.Tests.{if◌then◌else◌}

pub data Error : Type 0 where
  -- messages of the host, the environment, the SDK and serde_json, passed on as they are
  host_message sdk_message json_message env_message : Text → Error
  -- sdk.rs
  unexpected_accepted_status no_response invalid_utf8 : Error
  -- mutation/status.rs
  invalid_mutation_response invalid_mutation_status_response : Error → Error
  missing_request_id missing_completed warning_not_string : Error
  check_failed : Text → Error → Error
  completed_with_warning : Text → Text → Error
  mutation_timed_out : Text → ℕ → Error
  -- mutation/payload.rs and mutation.rs
  invalid_composite : Error → Error
  unsupported_input_type : ℕ → Error
  null_in_array : Error
  missing_pointer : Text → Error
  missing_writable_field not_primitive : Text → Error
  expects_array : Text → Text → Error
  not_representable not_scalar : Text → Error
  update_to_null insert_unsupported invalid_insert_shape : Error
  update_unsupported invalid_update_shape null_query : Error
  update_column_mismatch update_value_mismatch : Error
  slice_panic : Error
  -- json.rs
  missing_items missing_table_id missing_table_name : Error
  missing_column_id missing_column_name missing_row_id : Error
  unsupported_sort : Text → Error
  -- attach.rs
  invalid_boolean : Text → Text → Error
  timeout_not_positive : Text → Error
  token_and_token_env empty_doc_id timeout_requires_wait warnings_require_wait : Error
  missing_url_credential missing_credential : Error
  invalid_link_response : Error → Error
  missing_resource missing_type missing_doc_id missing_href : Error
  not_in_document empty_link_doc_id : Text → Error
  -- secret.rs
  null_secret_option : Error
  unknown_secret_type : Text → Error
  unknown_parameter : Text → Text → Error

pub data Result {ℓ} (A : Type ℓ) : Type ℓ where
  ok : A → Result A
  err : Error → Result A

module _ {ℓ} {A : Type ℓ} where
  pub Result-cases : (r : Result A) → ((a : A) × (r ≡ ok a)) ⊎ ((e : Error) × (r ≡ err e))
  Result-cases (ok a) = inl (a, refl)
  Result-cases (err e) = inr (e, refl)

  pub ok-injective : {a b : A} → ok a ≡ ok b → a ≡ b
  ok-injective h = cc

  pub err-ne-ok : {e : Error} {a : A} → err e ≡ ok a → ⊥
  err-ne-ok h = cc

  -- `option.ok_or(error)`
  abbrev pub ok_or : Error → Option A → Result A
  ok_or e none = err e
  ok_or e (some a) = ok a

  pub ok_or-eq-ok : (e : Error) (o : Option A) {a : A} → ok_or e o ≡ ok a → o ≡ some a
  ok_or-eq-ok e none h = cc
  ok_or-eq-ok e (some b) h = cc

  -- `result.map_err(f)`
  abbrev pub map_err : (Error → Error) → Result A → Result A
  map_err f (ok a) = ok a
  map_err f (err e) = err (f e)

  -- `if !test { return Err(error) }`
  abbrev pub ensure : Bool → Error → Result A → Result A
  ensure true e r = r
  ensure false e r = err e

module _ {ℓ κ} {A : Type ℓ} {B : Type κ} where
  -- the operator `?`
  abbrev pub and_then : Result A → (A → Result B) → Result B
  and_then (ok a) f = f a
  and_then (err e) f = err e

  pub and_then-eq-ok :
      (r : Result A) (f : A → Result B) {b : B}
      → and_then r f ≡ ok b
      → (a : A) × (r ≡ ok a) × (f a ≡ ok b)
  and_then-eq-ok (ok a) f h = (a, refl, h)
  and_then-eq-ok (err e) f h = cc

module _ {ℓ κ} {A : Type ℓ} {B : Type κ} where
  -- a loop that pushes one result for each element and returns at the first error
  abbrev pub collect : (A → Result B) → List A → Result (List B)
  collect f [] = ok []
  collect f (x ∷ xs) = and_then (f x) λ y. and_then (collect f xs) λ ys. ok (y ∷ ys)

  pub length-collect :
      (f : A → Result B) (xs : List A) (ys : List B) → collect f xs ≡ ok ys → length ys ≡ length xs
  length-collect f [] ys h = ground arith
  length-collect f (x ∷ xs) ys h =
      let (y, _, h') = and_then-eq-ok (f x) _ h in
      let (ys', e, h'') = and_then-eq-ok (collect f xs) _ h' in
      let same : ys ≡ y ∷ ys' = cc in rw same (ap suc (length-collect f xs ys' e))

  -- What every single result has, all the results have.
  pub All-collect :
      (P : B → Type 0) (f : A → Result B) (xs : List A) (ys : List B)
      → ((x : A) (y : B) → f x ≡ ok y → P y)
      → collect f xs ≡ ok ys
      → All P ys
  All-collect P f [] ys each h = let same : ys ≡ [] = cc in rw same tt
  All-collect P f (x ∷ xs) ys each h =
      let (y, e, h') = and_then-eq-ok (f x) _ h in
      let (ys', e', h'') = and_then-eq-ok (collect f xs) _ h' in
      let same : ys ≡ y ∷ ys' = cc in rw same (each x y e, All-collect P f xs ys' each e')

  -- Two lists of the same length whose elements, in their order, are related.
  abbrev pub Paired : (A → B → Type 0) → List A → List B → Type 0
  Paired R [] [] = Unit
  Paired R (x ∷ xs) (y ∷ ys) = R x y × Paired R xs ys
  Paired R _ _ = ⊥

  -- What relates each element to its result relates the list to the results.
  pub Paired-collect :
      (R : A → B → Type 0) (f : A → Result B) (xs : List A) (ys : List B)
      → ((x : A) (y : B) → f x ≡ ok y → R x y)
      → collect f xs ≡ ok ys
      → Paired R xs ys
  Paired-collect R f [] ys each h = let same : ys ≡ [] = cc in rw same tt
  Paired-collect R f (x ∷ xs) ys each h =
      let (y, e, h') = and_then-eq-ok (f x) _ h in
      let (ys', e', h'') = and_then-eq-ok (collect f xs) _ h' in
      let same : ys ≡ y ∷ ys' = cc in rw same (each x y e, Paired-collect R f xs ys' each e')

abbrev pub Exec : Type 0 → Type 0 → Type 0
Exec W A = W → Result A × W

module _ {W A B : Type 0} where
  -- the operator `?` after a call that acts on the state
  abbrev pub continue : Result A × W → (A → Exec W B) → Result B × W
  continue (ok a, w) f = f a w
  continue (err e, w) f = (err e, w)

  abbrev pub bind : Exec W A → (A → Exec W B) → Exec W B
  bind m f w = continue (m w) f

  -- `?` on a result that needs no state
  abbrev pub try : Result A → (A → Exec W B) → Exec W B
  try (ok a) f w = f a w
  try (err e) f w = (err e, w)

module _ {W A : Type 0} where
  abbrev pub pure : A → Exec W A
  pure a w = (ok a, w)

  abbrev pub raise : Error → Exec W A
  raise e w = (err e, w)

-- `do` blocks are of `Exec`.
infixl 5 ◌>>=◌ ◌>>◌
abbrev pub ◌>>=◌ : {W A B : Type 0} → Exec W A → (A → Exec W B) → Exec W B
◌>>=◌ m f w = continue (m w) f

abbrev pub ◌>>◌ : {W A B : Type 0} → Exec W A → Exec W B → Exec W B
◌>>◌ m n w = continue (m w) (λ _. n)

-- What a chain of calls returned, each of its calls returned.
module _ {W A B : Type 0} where
  pub continue-eq-ok :
      (r : Result A × W) (f : A → Exec W B) {b : B} {w' : W}
      → continue r f ≡ (ok b, w')
      → (a : A) × (r.0 ≡ ok a) × (f a r.1 ≡ (ok b, w'))
  continue-eq-ok (ok a, w) f h = (a, refl, h)
  continue-eq-ok (err e, w) f h = absurd (err-ne-ok (ap (λ p. p.0) h))

-- A result that needs no state.
abbrev pub lift : {W A : Type 0} → Result A → Exec W A
lift r w = (r, w)

-- `if !test { return Err(error) }`, in a block
abbrev pub require : {W : Type 0} → Bool → Error → Exec W (Unit {0})
require true e w = (ok tt, w)
require false e w = (err e, w)

-- A chain goes on after a requirement only where its test holds.
pub require-eq-ok :
    {W B : Type 0} (test : Bool) (e : Error) (w : W) (f : Exec W B) {b : B} {w' : W}
    → continue (require test e w) (λ _. f) ≡ (ok b, w')
    → (test ≡ true) × (f w ≡ (ok b, w'))
require-eq-ok true e w f h = (refl, h)
require-eq-ok false e w f h = absurd (err-ne-ok (ap (λ p. p.0) h))

-- What a branch that ran returned, and which branch it was.
pub if-run :
    {W A : Type 0} (test : Bool) (f g : Exec W A) (w : W) {r : Result A × W}
    → (if test then f else g) w ≡ r
    → ((test ≡ true) × (f w ≡ r)) ⊎ ((test ≡ false) × (g w ≡ r))
if-run true f g w h = inl (refl, h)
if-run false f g w h = inr (refl, h)

pub pure-injective : {W A : Type 0} {a b : A} {w w' : W} → pure a w ≡ pure b w' → a ≡ b
pure-injective h = ok-injective (ap (λ p. p.0) h)

pub raise-ne-pure : {W A : Type 0} {e : Error} {a : A} {w w' : W} → raise e w ≡ pure a w' → ⊥
raise-ne-pure h = err-ne-ok (ap (λ p. p.0) h)

-- A call whose result is known.
pub pair_eq : {W A : Type 0} {m : Result A × W} {a : A} → m.0 ≡ ok a → m ≡ pure a m.1
pair_eq {W} {A} {m} h = ap (λ r. pure_of r m.1) h
  where
    pure_of : Result A → W → Result A × W
    pure_of r w = (r, w)
