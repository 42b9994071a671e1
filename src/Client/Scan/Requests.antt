-- ===== src/Client/Scan/Requests.antt =====
-- Which tokens the requests of a scan carry.
use duckdb_superhuman_docs.Base.{
  ℕ, ◌+◌, ◌≤◌, ◌≡◌, refl, sym, ap, List, [], Bool, true, false, Result, ok, err, is_empty,
  is_empty_iff, not, arith, and_then-eq-ok, ok-injective, ◌∷◌, zero, suc, Option, some, inl, inr,
  if-eq, ◌||◌,
}
use duckdb_superhuman_docs.Json.{Serde}
use duckdb_superhuman_docs.Model.{ClientConfig, Table, Row, RowsRequest, RowsResponse}
use duckdb_superhuman_docs.Sdk.{sdk_client_new}
use duckdb_superhuman_docs.Sdk.Calls.{Network}
use duckdb_superhuman_docs.Client.Scan.{
  ScanHandle, ScanBatch, Scanned, next_batch, settle, ScanRequest, scan_new, request, receive,
  respond, round, list_rows,
}

-- A request that carries a sync token.
abbrev pub is_sync : RowsRequest → Bool
is_sync r = not (is_empty r.sync_token)

abbrev bit : Bool → ℕ
bit true = 1
bit false = 0

-- How many of some requests do.
abbrev pub sync_count : List RowsRequest → ℕ
sync_count [] = 0
sync_count (r ∷ rs) = bit (is_sync r) + sync_count rs

module _ {W F : Type 0} where
  -- The tokens of one request and the handle that it leaves.
  pub record IsTokened (h : ScanHandle W F) : Type 0 where
    pub page : (request h).0.page_token ≡ h.next_page_token
    pub exclusive : is_sync (request h).0 ≡ true → (request h).0.page_token ≡ []
    pub fresh : is_sync (request h).0 ≡ true → h.sync_check_done ≡ false
    pub noted : is_sync (request h).0 ≡ true → (request h).1.sync_check_done ≡ true
    pub own : is_sync (request h).0 ≡ true → (request h).0.sync_token ≡ h.next_sync_token
    pub kept : is_sync (request h).0 ≡ false → (request h).1.sync_check_done ≡ h.sync_check_done

  -- A request carries the handle's page token; it carries a sync token only without a page token
  -- and only if no sync check was made, and then the handle notes that one was.
  pub request-IsTokened : (h : ScanHandle W F) → IsTokened h
  unfolding request
  request-IsTokened h = record {
    page = refl;
    exclusive = λ e. ground (arith, is_empty_iff h.next_page_token);
    fresh = λ e. ground arith;
    noted = λ e. ground arith;
    own = λ e. ground arith;
    kept = λ e. ground arith;
  }

  request-bit :
      (h : ScanHandle W F)
      → bit (is_sync (request h).0) + bit h.sync_check_done ≤ bit (request h).1.sync_check_done
  unfolding request
  request-bit h = ground arith

module _ {N F W : Type 0} (serde : Serde N F) where
  -- A round leaves the sync flag as its request set it, also if the request fails.
  round-sync_check_done :
      (h h' : ScanHandle W F) (w w' : W) (rows : Result (List (Row N)))
      → round serde h w ≡ (rows, h', w')
      → h'.sync_check_done ≡ (request h).1.sync_check_done
  unfolding round
  round-sync_check_done h h' w w' rows e = flag (list_rows serde _ _ _ _ w) e
    where
      flag :
          (answer : Result (RowsResponse N) × W)
          → respond serde (request h).1 answer ≡ (rows, h', w')
          → h'.sync_check_done ≡ (request h).1.sync_check_done
      flag (err x, v) e = unfold respond in ap (λ s. s.1.sync_check_done) (sym e)
      flag (ok response, v) e = unfold respond receive in ap (λ s. s.1.sync_check_done) (sym e)

  -- The requests of a handle in their order, each of which may succeed or fail, up to any point.
  pub data Requests : ScanHandle W F → W → List RowsRequest → ScanHandle W F → W → Type 0 where
    no_request : (h : ScanHandle W F) (w : W) → Requests h w [] h w
    one_request :
        (h h₁ h₂ : ScanHandle W F) (w w₁ w₂ : W) (rows : Result (List (Row N)))
        (later : List RowsRequest)
        → h.finished ≡ false
        → round serde h w ≡ (rows, h₁, w₁)
        → Requests h₁ w₁ later h₂ w₂
        → Requests h w ((request h).0 ∷ later) h₂ w₂

  -- Requests up to the handle and the world that a call returns.
  returned :
      {h h₁ h' : ScanHandle W F} {w w₁ w' : W} {b batch : Result (ScanBatch N)}
      {requests : List RowsRequest}
      → ◌≡◌ {A = Option (Scanned (ScanBatch N) W F)} (some (b, h₁, w₁)) (some (batch, h', w'))
      → Requests h w requests h₁ w₁
      → (requests : List RowsRequest) × Requests h w requests h' w'
  returned {h₁} {h'} {w₁} {w'} {requests} e run =
      let handle : h₁ ≡ h' = cc in
      let world : w₁ ≡ w' = cc in (requests, rw (← handle, ← world) run)

  -- A call of `next_batch`, whatever it returns, makes such requests.
  next_batch-Requests :
      (fuel : ℕ) (h h' : ScanHandle W F) (w w' : W) (batch : Result (ScanBatch N))
      → next_batch serde fuel h w ≡ some (batch, h', w')
      → (requests : List RowsRequest) × Requests h w requests h' w'
  unfolding next_batch
  next_batch-Requests zero h h' w w' batch e = absurd (ground arith)
  next_batch-Requests (suc fuel) h h' w w' batch e = elim (if-eq h.finished _ _ e) [
    | inl (_, e') ↦ returned e' (no_request h w)
    | inr (unfinished, e') ↦
        onward unfinished (λ h₁ w₁. next_batch-Requests fuel h₁ h' w₁ w' batch) (round serde h w)
          refl e'
  ]
    where
      onward :
          h.finished ≡ false
          → ((h₁ : ScanHandle W F) (w₁ : W)
              → next_batch serde fuel h₁ w₁ ≡ some (batch, h', w')
              → (requests : List RowsRequest) × Requests h₁ w₁ requests h' w')
          → (r : Scanned (List (Row N)) W F) → round serde h w ≡ r
          → settle serde r (next_batch serde fuel) ≡ some (batch, h', w')
          → (requests : List RowsRequest) × Requests h w requests h' w'
      onward unfinished next (err x, h₁, w₁) r e =
          returned e (one_request h h₁ h₁ w w₁ w₁ (err x) [] unfinished r (no_request h₁ w₁))
      onward unfinished next (ok rows, h₁, w₁) r e =
          elim (if-eq (not (is_empty rows) || h₁.finished) _ _ e) [
            | inl (_, e') ↦
                returned e'
                  (one_request h h₁ h₁ w w₁ w₁ (ok rows) [] unfinished r (no_request h₁ w₁))
            | inr (_, e') ↦
                let (later, run) = next h₁ w₁ e' in
                (
                  (request h).0 ∷ later,
                  one_request h h₁ h' w w₁ w' (ok rows) later unfinished r run,
                )
          ]

  sync_count-bit :
      {h h' : ScanHandle W F} {w w' : W} {requests : List RowsRequest}
      → Requests h w requests h' w'
      → sync_count requests + bit h.sync_check_done ≤ 1
  sync_count-bit (no_request h w) = ground arith
  sync_count-bit (one_request h h₁ h₂ w w₁ w₂ rows later open' e run) =
      let flag = ap bit (round-sync_check_done h h₁ w w₁ rows e) in
      omega (arith, sync_count-bit run, request-bit h, flag)

  -- Whatever requests are made with one handle, in as many rounds and calls as there are, whether
  -- they succeed or fail and wherever they stop, at most one of them asks for the changes since the
  -- scan began.
  pub sync_requests-le_one :
      {h h' : ScanHandle W F} {w w' : W} {requests : List RowsRequest}
      → Requests h w requests h' w'
      → sync_count requests ≤ 1
  sync_requests-le_one run = omega (arith, sync_count-bit run)

-- A scan that is opened has asked for nothing yet, and its page size is the requested limit, capped
-- at 500, or 500 where none is requested: never 0.
pub record IsOpened {W F : Type 0} (config : ClientConfig) (table : Table) (asked : ScanRequest)
    (h : ScanHandle W F) : Type 0 where
  pub positive : 1 ≤ h.limit
  pub capped : h.limit ≤ 500
  pub exact : 1 ≤ asked.limit → asked.limit ≤ 500 → h.limit ≡ asked.limit
  pub first : (request h).0.page_token ≡ []
  pub plain : is_sync (request h).0 ≡ false
  pub document : h.doc_id ≡ config.resource
  pub target : h.table_id ≡ table.id
  pub unfinished : h.finished ≡ false

-- A scan that is opened asks for between 1 and 500 rows a page, for as many as DuckDB asked if that
-- is such a number; its first request is for the first page, is no sync check, and it is not
-- finished; it reads the table and the document of its configuration.
pub scan_new-IsOpened :
    {W F : Type 0} (network : Network W F) (config : ClientConfig) (table : Table)
    (asked : ScanRequest) (h : ScanHandle W F)
    → scan_new network config table asked ≡ ok h
    → IsOpened config table asked h
unfolding scan_new request
scan_new-IsOpened network config table asked h e =
    let (sdk, made, e') = and_then-eq-ok (sdk_client_new network config) _ e in
    rw (← ok-injective e') (record {
      positive = ground arith;
      capped = ground arith;
      exact = λ a b. ground arith;
      first = refl;
      plain = refl;
      document = refl;
      target = refl;
      unfinished = refl;
    })
