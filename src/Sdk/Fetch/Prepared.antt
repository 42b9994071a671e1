-- ===== src/Sdk/Fetch/Prepared.antt =====
-- What `send` of src/sdk/transport/fetch.rs starts, and when it refuses to.
use duckdb_superhuman_docs.Base.{
  ℕ, ◌+◌, ◌≤◌, ◌≡◌, ◌≢◌, refl, ap, ◌⊎◌, inl, inr, Text, List, [], ◌∷◌, ◌++◌, true, false, Option,
  none, some, Bool, codes, All, Bool-cases, ◌==◌, arith,
}
use duckdb_superhuman_docs.Base.Decimal.{to_string}
use duckdb_superhuman_docs.Memory.Utf8.{utf8_size, utf8_length}
use duckdb_superhuman_docs.Sdk.Execution.{Request, Answer, answered, failed, SdkError, other}
use duckdb_superhuman_docs.Sdk.Fetch.{
  FetchStart, nul_position, checked_text, body_bytes, is_some, bearer, prepared_fetch,
}

-- A text without NUL.
abbrev pub IsClean : Text → Type 0
IsClean t = All (λ c. c ≢ 0) t

-- The first NUL of a text, at a position in bytes.
abbrev pub HasNul : Text → ℕ → Type 0
HasNul t position =
    (before : Text) × (after : Text) × (t ≡ before ++ (0 ∷ after))
    × IsClean before
    × (position ≡ utf8_length before)

-- The error for a text with a NUL.
abbrev pub IsNulError : Text → SdkError → Type 0
IsNulError t error =
    (position : ℕ) × HasNul t position
    × (error ≡ other (codes "nul byte found in provided data at position: " ++ to_string position))

nul_position-cases :
    (t : Text)
    → (IsClean t × (nul_position t ≡ none))
      ⊎ ((position : ℕ) × HasNul t position × (nul_position t ≡ some position))
unfolding nul_position utf8_length
nul_position-cases [] = inl (tt, refl)
nul_position-cases (c ∷ t) = elim (Bool-cases (c == 0)) [
  | inl first ↦
      let same : c ≡ 0 = ground arith in
      inr (0, ([], t, ap (λ d. d ∷ t) same, tt, refl), rw first refl)
  | inr not_first ↦ behind (nul_position-cases t) not_first
]
  where
    behind :
        (IsClean t × (nul_position t ≡ none))
          ⊎ ((position : ℕ) × HasNul t position × (nul_position t ≡ some position))
        → (c == 0) ≡ false
        → (IsClean (c ∷ t) × (nul_position (c ∷ t) ≡ none))
          ⊎ ((position : ℕ) × HasNul (c ∷ t) position × (nul_position (c ∷ t) ≡ some position))
    behind (inl (clean, e)) first = inl ((ground arith, clean), rw (first, e) refl)
    behind (inr (position, (before, after, split, clean, same), e)) first = inr (
      utf8_size c + position,
      (
        c ∷ before,
        after,
        ap (λ s. c ∷ s) split,
        (ground arith, clean),
        ap (λ n. utf8_size c + n) same,
      ),
      rw (first, e) refl,
    )

checked_text-cases :
    {A : Type 0} (R : Answer A → Type 0) (t : Text) (next : Answer A)
    → (IsClean t → R next)
    → ((error : SdkError) → IsNulError t error → R (failed error))
    → R (checked_text t next)
unfolding checked_text
checked_text-cases R t next clean refused = elim (nul_position-cases t) [
  | inl (c, e) ↦ rw (e, checked_text) (clean c)
  | inr (position, nul, e) ↦ rw (e, checked_text) (refused _ (position, nul, refl))
]

-- The bytes that are passed on of a body, marked as one if there is one.
abbrev pub IsBody : Option (List ℕ) → List ℕ → Bool → Type 0
IsBody none bytes present = (bytes ≡ []) × (present ≡ false)
IsBody (some body) bytes present = (bytes ≡ body) × (present ≡ true)

body_bytes-IsBody : (body : Option (List ℕ)) → IsBody body (body_bytes body) (is_some body)
body_bytes-IsBody none = (refl, refl)
body_bytes-IsBody (some bytes) = (refl, refl)

-- The request that is started.
pub record IsStarted (request : Request) (credential : Text) (timeout : ℕ) (start : FetchStart)
    : Type 0 where
  pub clean : IsClean start.method × IsClean start.url × All IsClean start.headers
  pub method : start.method ≡ request.method
  pub url : start.url ≡ request.url
  pub authorized :
      start.headers
      ≡ codes "Authorization"
        ∷ (codes "Bearer " ++ credential)
        ∷ codes "Content-Type"
        ∷ codes "application/json"
        ∷ []
  pub carried : IsBody request.body start.body start.body_present
  pub timed : start.timeout_ms ≤ 4294967295
  pub exact : timeout ≤ 4294967295 → start.timeout_ms ≡ timeout

-- What `send` makes of a request.
abbrev pub Prepared : Request → Text → ℕ → Answer FetchStart → Type 0
Prepared request credential timeout (answered start) = IsStarted request credential timeout start
Prepared request credential timeout (failed error) =
    IsNulError request.method error
    ⊎ (IsNulError request.url error ⊎ IsNulError (codes "Bearer " ++ credential) error)

-- A request is started as it is, with its body, if it has one, with the credential in its header and
-- with the milliseconds it may take, at most 2^32 - 1, and no text that is passed on has a NUL; or the method, the URL or the header has one, and
-- the error tells where the first one stands, counted in bytes.
pub prepared_fetch-Prepared :
    (request : Request) (credential : Text) (timeout : ℕ)
    → Prepared request credential timeout (prepared_fetch request credential timeout)
unfolding prepared_fetch
prepared_fetch-Prepared request credential timeout =
    checked_text-cases (Prepared request credential timeout) request.method _
      (λ method.
        checked_text-cases (Prepared request credential timeout) request.url _
          (λ url.
            checked_text-cases (Prepared request credential timeout) (bearer credential) _
              (λ header. record {
                clean = (method, url, (ground arith, (header, (ground arith, (ground arith, tt)))));
                method = refl;
                url = refl;
                authorized = refl;
                carried = body_bytes-IsBody request.body;
                timed = ground arith;
                exact = λ small. ground arith;
              })
              (λ error nul. inr (inr nul)))
          (λ error nul. inr (inl nul)))
      (λ error nul. inl nul)
