-- ===== src/Attach/Resolve/Credentials.antt =====
-- What an ATTACH that succeeds has: a document, a credential and settings that go together.
use duckdb_superhuman_docs.Base.{
  ◌≡◌, refl, sym, Text, true, false, Option, some, ok, Exec, is_empty, not, if◌then◌else◌, if-eq,
  inl, inr, continue-eq-ok, require-eq-ok, if-run, pure-injective, raise-ne-pure, pair_eq, [], ◌∷◌,
  Error, raise, ◌||◌, missing_credential, missing_url_credential, ◌++◌, lift, pure,
}
use duckdb_superhuman_docs.Json.{Serde}
use duckdb_superhuman_docs.Sdk.Calls.{Network, resolve_browser_link}
use duckdb_superhuman_docs.Ffi.{ref_from_raw}
use duckdb_superhuman_docs.Attach.Resource.{
  strip_attach_resource_prefix, is_browser_url, doc_id_from_resolved_link, doc_id_from_browser_url,
}
use duckdb_superhuman_docs.Attach.Resource.Links.{doc_id_from_resolved_link-is_empty}
use duckdb_superhuman_docs.Attach.Resolve.{
  AttachConfig, Host, RawOptions, Settings, settings, resolve_attach, resolve_options,
  resolve_resource, resolve_browser_url, resolve_stored_credential, general_secret,
  bootstrap_credential, canonical_credential, owned_secret, scoped_secret, secret_scope_prefix,
  explicit_credential, raw_options,
}
use duckdb_superhuman_docs.Attach.Resolve.Checks.{IsSettings, settings-IsSettings}

-- A document and a credential, neither of them empty, the document also as the name of the
-- database, and settings that go together.
pub record IsAttached (config : AttachConfig) : Type 0 where
  pub named : config.database_name ≡ config.handle.resource
  pub has_resource : is_empty config.handle.resource ≡ false
  pub has_credential : is_empty config.handle.credential ≡ false
  pub consistent : IsSettings (record {
    include_system_columns = config.handle.include_system_columns;
    wait_for_mutations = config.handle.wait_for_mutations;
    mutation_timeout_seconds = config.handle.mutation_timeout_seconds;
    allow_mutation_warnings = config.handle.allow_mutation_warnings;
  })

not_empty : (t : Text) → not (is_empty t) ≡ true → is_empty t ≡ false
not_empty [] h = cc
not_empty (c ∷ t) h = refl

-- A text that is replaced where it is empty.
or_else-is_empty :
    {W : Type 0} (t u : Text) (other : Exec W Text) (w w' : W)
    → (other w ≡ (ok u, w') → is_empty u ≡ false)
    → (if is_empty t then other else pure t) w ≡ (ok u, w')
    → is_empty u ≡ false
or_else-is_empty t u other w w' other_full h = elim (if-run (is_empty t) other (pure t) w h) [
  | inl (_, e) ↦ other_full e
  | inr (f, e) ↦ rw (sym (pure-injective e)) f
]

module _ {W : Type 0} (host : Host W) where
  general_secret-is_empty :
      (missing : Error) (w w' : W) (t : Text)
      → general_secret host missing w ≡ (ok t, w')
      → is_empty t ≡ false
  unfolding general_secret
  general_secret-is_empty missing w w' t h =
      let (general, _, h1) = continue-eq-ok (owned_secret host secret_scope_prefix w) _ h in
      or_else-is_empty general t (raise missing) _ w' (λ e. absurd (raise-ne-pure e)) h1

  stored-is_empty :
      (resource : Text) (w w' : W) (t : Text)
      → resolve_stored_credential host resource w ≡ (ok t, w')
      → is_empty t ≡ false
  unfolding resolve_stored_credential
  stored-is_empty resource w w' t h =
      let (value, _, h1) =
        continue-eq-ok (owned_secret host (secret_scope_prefix ++ resource) w) _ h in
      or_else-is_empty value t (general_secret host missing_credential) _ w'
        (general_secret-is_empty missing_credential _ w' t) h1

  bootstrap-is_empty :
      (url explicit : Text) (w w' : W) (t : Text)
      → bootstrap_credential host url explicit w ≡ (ok t, w')
      → is_empty t ≡ false
  unfolding bootstrap_credential
  bootstrap-is_empty url explicit w w' t h =
      elim (if-run (not (is_empty explicit)) (pure explicit) _ w h) [
        | inl (f, e) ↦ rw (sym (pure-injective e)) (not_empty explicit f)
        | inr (_, h1) ↦
            let (scoped, _, h2) =
              continue-eq-ok (scoped_secret host (doc_id_from_browser_url url) w) _ h1 in
            elim (if-run (not (is_empty scoped)) (pure scoped)
              (general_secret host missing_url_credential) _ h2) [
                | inl (f, e) ↦ rw (sym (pure-injective e)) (not_empty scoped f)
                | inr (_, e) ↦ general_secret-is_empty missing_url_credential _ w' t e
              ]
      ]

  canonical-is_empty :
      (explicit bootstrap doc_id : Text) (w w' : W) (t : Text)
      → is_empty bootstrap ≡ false
      → canonical_credential host explicit bootstrap doc_id w ≡ (ok t, w')
      → is_empty t ≡ false
  unfolding canonical_credential
  canonical-is_empty explicit bootstrap doc_id w w' t f h =
      elim (if-run (is_empty explicit) _ (pure bootstrap) w h) [
        | inl (_, h1) ↦
            let (canonical, _, h2) =
              continue-eq-ok (owned_secret host (secret_scope_prefix ++ doc_id) w) _ h1 in
            elim (if-eq (is_empty canonical) bootstrap canonical (pure-injective h2)) [
              | inl (_, e) ↦ rw (sym e) f
              | inr (g, e) ↦ rw (sym e) g
            ]
        | inr (_, e) ↦ rw (sym (pure-injective e)) f
      ]

  module _ {N F : Type 0} (serde : Serde N F) (network : Network W F) where
    abbrev IsResolved : Text × Text → Type 0
    IsResolved (resource, credential) = (is_empty resource ≡ false) × (is_empty credential ≡ false)

    resolve_browser_url-IsResolved :
        (url explicit endpoint : Text) (w w' : W) (r : Text × Text)
        → resolve_browser_url host serde network url explicit endpoint w ≡ (ok r, w')
        → IsResolved r
    unfolding resolve_browser_url
    resolve_browser_url-IsResolved url explicit endpoint w w' r h =
        let (bootstrap, b, h1) = continue-eq-ok (bootstrap_credential host url explicit w) _ h in
        let (sdk, _, h2) = continue-eq-ok (lift (network.at endpoint bootstrap) _) _ h1 in
        let (body, _, h3) =
          continue-eq-ok (sdk.execute (resolve_browser_link url (some false)) _) _ h2 in
        let (doc_id, d, h4) = continue-eq-ok (lift (doc_id_from_resolved_link serde body) _) _ h3 in
        let (credential, c, h5) =
          continue-eq-ok (canonical_credential host explicit bootstrap doc_id _) _ h4 in
        rw (sym (pure-injective h5)) (
          doc_id_from_resolved_link-is_empty serde body doc_id d,
          canonical-is_empty explicit bootstrap doc_id _ _ credential
              (bootstrap-is_empty url explicit w _ bootstrap (pair_eq b)) (pair_eq c),
        )

    resolve_resource-IsResolved :
        (resource explicit endpoint : Text) (w w' : W) (r : Text × Text)
        → is_empty resource ≡ false
        → resolve_resource host serde network resource explicit endpoint w ≡ (ok r, w')
        → IsResolved r
    unfolding resolve_resource
    resolve_resource-IsResolved resource explicit endpoint w w' r f h =
        elim (if-run (is_browser_url resource)
          (resolve_browser_url host serde network resource explicit endpoint) _ w h) [
            | inl (_, e) ↦ resolve_browser_url-IsResolved resource explicit endpoint w w' r e
            | inr (_, h1) ↦
                let (credential, c, h2) =
                  continue-eq-ok
                    ((if is_empty explicit
                        then resolve_stored_credential host resource
                        else pure explicit)
                      w)
                    _ h1 in
                rw (sym (pure-injective h2)) (
                  f,
                  or_else-is_empty explicit credential (resolve_stored_credential host resource) w _
                      (stored-is_empty resource w _ credential) (pair_eq c),
                )
          ]

    resolve_options-IsAttached :
        (path : Text) (raw : RawOptions) (w w' : W) (config : AttachConfig)
        → resolve_options host serde network path raw w ≡ (ok config, w')
        → IsAttached config
    unfolding resolve_options
    resolve_options-IsAttached path raw w w' config h =
        let (_, h1) = require-eq-ok (is_empty raw.token || is_empty raw.token_env) _ w _ h in
        let (explicit, _, h2) = continue-eq-ok (explicit_credential host raw w) _ h1 in
        let resource = strip_attach_resource_prefix path in
        let (f, h3) = require-eq-ok (not (is_empty resource)) _ _ _ h2 in
        let (s, e, h4) = continue-eq-ok (lift (settings raw) _) _ h3 in
        let ((document, credential), r, h5) =
          continue-eq-ok (resolve_resource host serde network resource explicit _ _) _ h4 in
        let (g, c) =
          resolve_resource-IsResolved resource explicit _ _ _ (document, credential)
            (not_empty resource f) (pair_eq r) in
        rw (sym (pure-injective h5)) (record {
          named = refl;
          has_resource = g;
          has_credential = c;
          consistent = settings-IsSettings raw s e;
        })

-- The configuration with the given parts.
abbrev pub attached : Text → Text → Text → Settings → AttachConfig
attached resource credential endpoint s = record {
  handle = record {
    resource = resource;
    credential = credential;
    endpoint = endpoint;
    include_system_columns = s.include_system_columns;
    wait_for_mutations = s.wait_for_mutations;
    mutation_timeout_seconds = s.mutation_timeout_seconds;
    allow_mutation_warnings = s.allow_mutation_warnings;
  };
  database_name = resource;
}

module _ {N F W : Type 0} (serde : Serde N F) (network : Network W F) where
  -- An ATTACH that succeeds, with a raw document id or a browser URL, whatever the host, the
  -- environment and the service answer: the database is named as the document, neither the document
  -- nor the credential is empty, the timeout is positive, and without waiting for mutations it is
  -- the default and no warning is allowed.
  pub resolve_attach-IsAttached :
      (path : Text) (host : Option (Host W)) (w w' : W) (config : AttachConfig)
      → resolve_attach serde network path host w ≡ (ok config, w')
      → IsAttached config
  unfolding resolve_attach
  resolve_attach-IsAttached path host w w' config h =
      let (host', _, h1) = continue-eq-ok (lift (ref_from_raw host "attach host") w) _ h in
      let (raw, _, h2) = continue-eq-ok (raw_options host' _) _ h1 in
      resolve_options-IsAttached host' serde network path raw _ w' config h2
