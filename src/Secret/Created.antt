-- ===== src/Secret/Created.antt =====
-- What a secret that is created holds.
use duckdb_superhuman_docs.Base.{
  ℕ, ◌+◌, ◌≤◌, ◌≡◌, refl, sym, ap, Text, List, [], ◌∷◌, false, Option, none, some, ok, Exec, codes,
  is_empty, text_eq, text_eq_iff, length, All, continue-eq-ok, require-eq-ok, pure-injective,
  pair_eq, lift, pure, arith,
}
use duckdb_superhuman_docs.Json.{Serde}
use duckdb_superhuman_docs.Ffi.{InputValue}
use duckdb_superhuman_docs.Sdk.Calls.{Network}
use duckdb_superhuman_docs.Sdk.Execution.{validate_token}
use duckdb_superhuman_docs.Secret.{
  SecretInput, Secret, secret_type_name, scopes, replace, option_value, resolved, credential_from,
  entry_of, create_secret,
}

module _ {N F W : Type 0} (serde : Serde N F) (network : Network W F)
    (env_var : Text → Exec W Text) where
  -- The service accepted the credential in some state of the world.
  abbrev pub IsAccepted : Text × Text → Type 0
  IsAccepted entry = (w : W) × ((validate_token network entry.1 w).0 ≡ ok tt)

  -- A secret for an input: of the right type, with the scopes that the input gives, all of them and
  -- in their order, or the general one where it gives none, and with one entry for the one option,
  -- if there is one, that is named and redacted as the token and was accepted by the service.
  pub record IsCreated (input : SecretInput F) (secret : Secret) : Type 0 where
    pub kind : input.secret_type ≡ codes "superhuman_docs"
    pub given : is_empty input.scope ≡ false → secret.scope ≡ input.scope
    pub general : input.scope ≡ [] → secret.scope ≡ codes "superhuman_docs:" ∷ []
    pub has_scope : is_empty secret.scope ≡ false
    pub single : length input.options ≤ 1
    pub entered : length secret.entries ≡ length input.options
    pub tokens : All (λ entry. (entry.0 ≡ codes "token") × IsAccepted entry) secret.entries
    pub redacted : secret.redact_keys ≡ codes "token" ∷ []

  abbrev count : Option Text → ℕ
  count none = 0
  count (some credential) = 1

  count-le_one : (credential : Option Text) → count credential ≤ 1
  count-le_one none = omega arith
  count-le_one (some credential) = omega arith

  replace-count :
      (credential : Option Text) (found : Text) (c : Option Text)
      → replace credential found ≡ ok c
      → (count credential ≡ 0) × (count c ≡ 1)
  unfolding replace
  replace-count none found c h = let same : some found ≡ c = cc in (refl, rw (sym same) refl)
  replace-count (some credential) found c h = cc

  credential_from-count :
      (secret_type : Text) (credential c : Option Text) (options : List (Text × InputValue F))
      (w w' : W)
      → credential_from serde network env_var secret_type credential options w ≡ pure c w'
      → (count credential + length options ≡ count c) × (count c ≤ 1)
  unfolding credential_from
  credential_from-count secret_type credential c [] w w' h =
      let same : credential ≡ c = pure-injective h in rw same (omega arith, count-le_one c)
  credential_from-count secret_type credential c ((name, value) ∷ options) w w' h =
      let (text, _, h₁) = continue-eq-ok (lift (option_value serde network env_var value) w) _ h in
      let (found, _, h₂) =
        continue-eq-ok (resolved serde network env_var secret_type name text w) _ h₁ in
      let (credential', r, h₃) = continue-eq-ok (lift (replace credential found) _) _ h₂ in
      let (before, one) = replace-count credential found credential' r in
      let (later, le) = credential_from-count secret_type credential' c options _ w' h₃ in
      (omega (arith, before, one, later), le)

  entry_of-count :
      (credential : Option Text) (entries : List (Text × Text)) (w w' : W)
      → entry_of serde network env_var credential w ≡ pure entries w'
      → (length entries ≡ count credential)
        × All (λ entry. (entry.0 ≡ codes "token") × IsAccepted entry) entries
  unfolding entry_of
  entry_of-count none entries w w' h =
      let same : [] ≡ entries = pure-injective h in rw (sym same) (refl, tt)
  entry_of-count (some credential) entries w w' h =
      let (_, e, h₁) = continue-eq-ok (validate_token network credential w) _ h in
      let same : (codes "token", credential) ∷ [] ≡ entries = pure-injective h₁ in
      rw (sym same) (refl, ((refl, (w, e)), tt))

  scopes-full : (scope : List Text) → is_empty (scopes scope) ≡ false
  scopes-full [] = refl
  scopes-full (s ∷ rest) = refl

  scopes-given : (scope : List Text) → is_empty scope ≡ false → scopes scope ≡ scope
  scopes-given [] h = absurd (ground arith)
  scopes-given (s ∷ rest) h = refl

  -- A secret that is created, whatever the environment and the service answer: its input is of the
  -- type `superhuman_docs` and has at most one option; it has the scopes of the input, or the
  -- general one `superhuman_docs:` where there are none, so that it always has one; it has an entry exactly for the
  -- option, named as the token, whose credential the service accepted; and the token is redacted.
  pub create_secret-IsCreated :
      (input : SecretInput F) (secret : Secret) (w w' : W)
      → create_secret serde network env_var input w ≡ (ok secret, w')
      → IsCreated input secret
  unfolding create_secret
  create_secret-IsCreated input secret w w' h =
      let (kind, h₁) = require-eq-ok (text_eq input.secret_type secret_type_name) _ w _ h in
      let (credential, c, h₂) =
        continue-eq-ok
          (credential_from serde network env_var input.secret_type none input.options w) _ h₁ in
      let (entries, e, h₃) = continue-eq-ok (entry_of serde network env_var credential _) _ h₂ in
      let (many, le) =
        credential_from-count input.secret_type none credential input.options w _ (pair_eq c) in
      let (same, accepted) = entry_of-count credential entries _ _ (pair_eq e) in
      rw (sym (pure-injective h₃)) (record {
        kind = (text_eq_iff input.secret_type secret_type_name).0 kind;
        given = scopes-given input.scope;
        general = λ e. ap scopes e;
        has_scope = scopes-full input.scope;
        single = omega (arith, many, le);
        entered = omega (arith, many, same);
        tokens = accepted;
        redacted = refl;
      })
