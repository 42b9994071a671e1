-- ===== src/Exports/Secrets/Lifetime.antt =====
-- What DuckDB reads of a secret, until it frees it.
use mathlib.Core.Path.{subst}
use duckdb_superhuman_docs.Exports.Secrets.Ranges.{entries-Disjoint, scope-Disjoint, whole}
use duckdb_superhuman_docs.Base.{
  map_same, or_right, ℕ, ◌≤◌, ◌≡◌, refl, Text, List, map, Option, some, Result, ok, Error, Exec,
}
use duckdb_superhuman_docs.Json.{Serde}
use duckdb_superhuman_docs.Sdk.Calls.{Network}
use duckdb_superhuman_docs.Secret.{SecretInput, Secret, create_secret}
use duckdb_superhuman_docs.Exports.{returned, ffi_bool, block_on_result}
use duckdb_superhuman_docs.Memory.{
  Heap, Reading, and_maybe, map_each, read_each, for_each, vec_into_raw_parts, read_vec, free_vec,
}
use duckdb_superhuman_docs.Memory.Owned.{
  Own, within, either, Disjoint, IsHeld, IsHeld-both, IsHeld-pair, IsHeld-same, Grows-refl,
  Grows-trans,
}
use duckdb_superhuman_docs.Memory.Build.{IsBuilt, Builds, IsBuilt-both, map_each-Builds}
use duckdb_superhuman_docs.Memory.Vectors.{IsHeld-apart, vec_into_raw_parts-Grows}
use duckdb_superhuman_docs.Memory.Strings.{
  FfiString, as_str, alloc_string, free, alloc_string-Builds,
}
use duckdb_superhuman_docs.Ffi.Structs.{FfiNamedValue, FfiSecret}
use duckdb_superhuman_docs.Ffi.Blocks.{Block, strings_buffer, named_buffer, contents}
use duckdb_superhuman_docs.Exports.Secrets.{
  ffi_entry, ffi_secret, free_entry, free_secret, rust_ext_free_secret, secret_body,
  rust_ext_create_secret,
}

module _ {N S : Type 0} where
  -- an entry, which is a named text
  abbrev pub see_entry : FfiNamedValue → Reading (Block N S) (Text × Text)
  see_entry entry h =
      and_maybe (as_str contents entry.name h)
        λ name. and_maybe (as_str contents entry.string_value h) λ value. some (name, value)

  abbrev pub see_secret : FfiSecret → Reading (Block N S) Secret
  see_secret secret h =
      and_maybe (read_vec strings_buffer (as_str contents) secret.scope h) λ scope.
        and_maybe (read_vec named_buffer see_entry secret.entries h) λ entries.
          and_maybe (read_vec strings_buffer (as_str contents) secret.redact_keys h)
            λ keys. some (record { scope = scope; entries = entries; redact_keys = keys })

  ffi_entry-Builds : Builds see_entry free_entry (ffi_entry {N = N} {S = S}) (λ e. e)
  unfolding ffi_entry free_entry
  ffi_entry-Builds (name, credential) h =
      let (name', h₁) = alloc_string contents name h in
      let (value, h₂) = alloc_string contents credential h₁ in
      let (grows, held) =
        IsBuilt-both (as_str contents name') (as_str contents value) (free contents name')
          (free contents value) name credential h h₁ h₂ (alloc_string-Builds contents name h)
          (alloc_string-Builds contents credential h₁) in
      (grows, λ g agree. let (e₁, e₂, released) = held g agree in (rw (e₁, e₂) refl, released))

  strings-Builds :
      Builds
        (read_each (as_str {B = Block N S} contents))
        (for_each (free contents))
        (map_each (alloc_string contents))
        (map (λ t. t))
  strings-Builds =
      map_each-Builds (as_str contents) (free contents) (alloc_string contents) (λ t. t)
        (alloc_string-Builds contents)

  module _ (secret : FfiSecret) (scope keys : List Text) (entries : List (Text × Text)) where
    -- The parts of a secret make it up.
    parts :
        (p q r : Own) (h : Heap (Block N S))
        → Disjoint q r
        → Disjoint p (either q r)
        → IsHeld p
            (read_vec strings_buffer (as_str contents) secret.scope)
            (free_vec strings_buffer (free contents) secret.scope)
            scope
            h
        → IsHeld q
            (read_vec named_buffer see_entry secret.entries)
            (free_vec named_buffer free_entry secret.entries)
            entries
            h
        → IsHeld r
            (read_vec strings_buffer (as_str contents) secret.redact_keys)
            (free_vec strings_buffer (free contents) secret.redact_keys)
            keys
            h
        → IsHeld
            (either p (either q r))
            (see_secret secret)
            (rust_ext_free_secret secret)
            (record { scope = scope; entries = entries; redact_keys = keys })
            h
    unfolding rust_ext_free_secret free_secret
    parts p q r h apart apart' held₁ held₂ held₃ g agree =
        let rest = IsHeld-pair q r _ _ _ _ entries keys h apart held₂ held₃ in
        let (e, e', released) =
          IsHeld-both p (either q r) _ _ _ _ scope (entries, keys) h g apart' held₁ rest agree in
        let (e₂, e₃, _) =
          IsHeld-both q r _ _ _ _ entries keys h g apart held₂ held₃
            (λ z mine. agree z (or_right (p z) (either q r z) mine)) in
        (rw (e, e₂, e₃) refl, released)

  module _ (secret : Secret) (built : FfiSecret) (a₀ a₁ a₂ a₃ a₄ a₅ a₆ : ℕ) (le₀ : a₀ ≤ a₁)
      (le₁ : a₁ ≤ a₂) (le₂ : a₂ ≤ a₃) (le₃ : a₃ ≤ a₄) (le₄ : a₄ ≤ a₅) (le₅ : a₅ ≤ a₆)
      (h : Heap (Block N S)) where
    -- The three vectors of a secret and their strings, in the order in which they were built.
    together :
        IsHeld
          (either (within a₃ a₄) (within a₁ a₂))
          (read_vec strings_buffer (as_str contents) built.scope)
          (free_vec strings_buffer (free contents) built.scope)
          (map (λ t. t) secret.scope)
          h
        → IsHeld
            (either (within a₄ a₅) (within a₀ a₁))
            (read_vec named_buffer see_entry built.entries)
            (free_vec named_buffer free_entry built.entries)
            (map (λ e. e) secret.entries)
            h
        → IsHeld
            (either (within a₅ a₆) (within a₂ a₃))
            (read_vec strings_buffer (as_str contents) built.redact_keys)
            (free_vec strings_buffer (free contents) built.redact_keys)
            (map (λ t. t) secret.redact_keys)
            h
        → IsHeld (within a₀ a₆) (see_secret built) (rust_ext_free_secret built) secret h
    together held₁ held₂ held₃ =
        let p = either (within a₃ a₄) (within a₁ a₂) in
        let q = either (within a₄ a₅) (within a₀ a₁) in
        let r = either (within a₅ a₆) (within a₂ a₃) in
        subst (λ s. IsHeld (within a₀ a₆) (see_secret built) (rust_ext_free_secret built) s h)
          (λ i. record {
            scope = map_same secret.scope i;
            entries = map_same secret.entries i;
            redact_keys = map_same secret.redact_keys i;
          })
          (IsHeld-same (either p (either q r)) (within a₀ a₆) (see_secret built)
            (rust_ext_free_secret built) _ h (whole a₀ a₁ a₂ a₃ a₄ a₅ a₆ le₀ le₁ le₂ le₃ le₄ le₅)
            (parts built (map (λ t. t) secret.scope) (map (λ t. t) secret.redact_keys)
              (map (λ e. e) secret.entries) p q r h
              (entries-Disjoint a₀ a₁ a₂ a₃ a₄ a₅ a₆ le₀ le₁ le₂ le₃ le₄ le₅)
              (scope-Disjoint a₀ a₁ a₂ a₃ a₄ a₅ a₆ le₀ le₁ le₂ le₃ le₄ le₅) held₁ held₂ held₃))

  -- A secret that is handed to DuckDB, whatever memory there is: as long as its blocks are as they
  -- were built, DuckDB reads its scopes, its entries and the keys to redact; and
  -- `rust_ext_free_secret` then never goes wrong and frees exactly the blocks that were added.
  pub ffi_secret-Builds :
      Builds see_secret rust_ext_free_secret (ffi_secret {N = N} {S = S}) (λ s. s)
  unfolding ffi_secret rust_ext_free_secret free_secret
  ffi_secret-Builds secret h =
      let (entries, h₁) = map_each ffi_entry secret.entries h in
      let (scope, h₂) = map_each (alloc_string contents) secret.scope h₁ in
      let (keys, h₃) = map_each (alloc_string contents) secret.redact_keys h₂ in
      let h₄ = (vec_into_raw_parts strings_buffer scope h₃).1 in
      let h₅ = (vec_into_raw_parts named_buffer entries h₄).1 in
      let h₆ = (vec_into_raw_parts strings_buffer keys h₅).1 in
      let made =
        map_each-Builds see_entry free_entry ffi_entry (λ e. e) ffi_entry-Builds secret.entries h in
      let made' = strings-Builds secret.scope h₁ in
      let made'' = strings-Builds secret.redact_keys h₂ in
      let up₃ = vec_into_raw_parts-Grows strings_buffer scope h₃ in
      let up₄ = vec_into_raw_parts-Grows named_buffer entries h₄ in
      let up₅ = vec_into_raw_parts-Grows strings_buffer keys h₅ in
      let up₃₅ = Grows-trans h₃ h₄ h₅ up₃ up₄ in
      let up₂₄ = Grows-trans h₂ h₃ h₄ made''.0 up₃ in
      let up₁₄ = Grows-trans h₁ h₂ h₄ made'.0 up₂₄ in
      let up₄₆ = Grows-trans h₄ h₅ h₆ up₄ up₅ in
      let up = Grows-trans h h₁ h₆ made.0 (Grows-trans h₁ h₄ h₆ up₁₄ up₄₆) in
      let scope_held =
        IsHeld-apart strings_buffer (as_str contents) (free contents) scope
          (map (λ t. t) secret.scope) h₁ h₂ h₃ h₆ made' made''.0 up₄₆ in
      let entries_held =
        IsHeld-apart named_buffer see_entry free_entry entries (map (λ e. e) secret.entries) h h₁ h₄
          h₆ made up₁₄ up₅ in
      let keys_held =
        IsHeld-apart strings_buffer (as_str contents) (free contents) keys
          (map (λ t. t) secret.redact_keys) h₂ h₃ h₅ h₆ made'' up₃₅ (Grows-refl h₆) in
      let built = (ffi_secret secret h).0 in
      (
        up,
        together secret built h.next h₁.next h₂.next h₃.next h₄.next h₅.next h₆.next made.0.0
            made'.0.0 made''.0.0 up₃.0 up₄.0 up₅.0 h₆ scope_held entries_held keys_held,
      )

module _ {N S F W : Type 0} (serde : Serde N F) (network : Network W F)
    (env_var : Text → Exec W Text) (runtime : Result (Unit {0})) (display : Error → Text) where
  -- A secret that is created through the exported function, with the runtime built and an output
  -- pointer that is not null: where `create_secret` returns a secret, the call succeeds; as long as
  -- the blocks that were added are as they were built, DuckDB reads the secret's scopes, its entries
  -- and the keys to redact; and `rust_ext_free_secret` then never goes wrong and frees exactly these
  -- blocks, each once.
  pub create_secret-IsBuilt :
      (input : SecretInput F) (old : FfiSecret) (error : Option FfiString) (h : Heap (Block N S))
      (w w' : W) (secret : Secret)
      → runtime ≡ ok tt
      → create_secret serde network env_var input w ≡ (ok secret, w')
      → (built : FfiSecret) × (h' : Heap (Block N S)) × (rust_ext_create_secret serde network
            env_var runtime display input
            (some old)
            error
            h
            w
          ≡ returned (some built) error h' w')
        × IsBuilt (see_secret built) (rust_ext_free_secret built) secret h h'
  unfolding rust_ext_create_secret ffi_bool secret_body block_on_result
  create_secret-IsBuilt input old error h w w' secret running created =
      let (built, h') = ffi_secret secret h in
      (built, h', rw (running, created) refl, ffi_secret-Builds secret h)
