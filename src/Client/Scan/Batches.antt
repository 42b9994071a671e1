-- ===== src/Client/Scan/Batches.antt =====
-- What every batch of a scan is like.
use duckdb_superhuman_docs.Base.{
  ℕ, zero, suc, ◌≡◌, refl, sym, ◌∙◌, List, [], ◌∷◌, Bool, true, false, Option, some, Result, ok,
  err, Bool-cases, if-true, if-false, inl, inr, is_empty, not, ◌||◌, arith, All, keep,
}
use duckdb_superhuman_docs.Json.{Serde}
use duckdb_superhuman_docs.Model.{Row, RowsResponse}
use duckdb_superhuman_docs.Client.Scan.{
  ScanHandle, ScanBatch, Scanned, next_batch, round, respond, settle, visible, request,
}

-- No deleted row, the handle's flag, and no empty batch but the last.
pub record IsBatch {N W F : Type 0} (batch : ScanBatch N) (h : ScanHandle W F) : Type 0 where
  pub alive : All (λ row. row.deleted ≡ false) batch.rows
  pub flagged : batch.finished ≡ h.finished
  pub progress : is_empty batch.rows ≡ true → batch.finished ≡ true

visible-alive : {N : Type 0} (rows : List (Row N)) → All (λ row. row.deleted ≡ false) (visible rows)
unfolding visible
visible-alive [] = tt
visible-alive (row ∷ rows) = split row.deleted refl (visible-alive rows)
  where
    split :
        (b : Bool)
        → row.deleted ≡ b
        → All (λ r. r.deleted ≡ false) (visible rows)
        → All (λ r. r.deleted ≡ false) (keep (λ r. not r.deleted) (row ∷ rows))
    split true e ih = rw e ih
    split false e ih = rw e (refl, ih)

module _ {N F W : Type 0} (serde : Serde N F) where
  respond-alive :
      (h : ScanHandle W F) (answer : Result (RowsResponse N) × W) (rows : List (Row N))
      (h' : ScanHandle W F) (w' : W)
      → respond serde h answer ≡ (ok rows, h', w')
      → All (λ row. row.deleted ≡ false) rows
  unfolding respond
  respond-alive h (err x, w) rows h' w' e = cc
  respond-alive h (ok response, w) rows h' w' e =
      let same : rows ≡ visible response.rows = cc in rw same (visible-alive response.rows)

  settle-IsBatch :
      (turn : Scanned (List (Row N)) W F)
      (next : ScanHandle W F → W → Option (Scanned (ScanBatch N) W F)) (batch : ScanBatch N)
      (h' : ScanHandle W F) (w' : W)
      → ((rows : List (Row N)) (h : ScanHandle W F) (w : W)
          → turn ≡ (ok rows, h, w)
          → All (λ row. row.deleted ≡ false) rows)
      → ((h : ScanHandle W F) (w : W)
          → next h w ≡ some (ok batch, h', w')
          → IsBatch {W = W} batch h')
      → settle serde turn next ≡ some (ok batch, h', w')
      → IsBatch {W = W} batch h'
  settle-IsBatch (err x, h, w) next batch h' w' alive ih e = cc
  settle-IsBatch (ok rows, h, w) next batch h' w' alive ih e =
      elim (Bool-cases (not (is_empty rows) || h.finished)) [
        | inl full ↦
            let whole = sym (if-true _ _ full) ∙ e in
            let same_batch : record { rows = rows; finished = h.finished } ≡ batch = cc in
            let same_handle : h ≡ h' = cc in
            rw (← same_batch, ← same_handle)
              (record {
                alive = alive rows h w refl;
                flagged = refl;
                progress = λ none_left. ground arith;
              })
        | inr more ↦ ih h w (sym (if-false _ _ more) ∙ e)
      ]

  -- A batch that a scan returns holds no deleted row, is marked as the last exactly if the scan is
  -- finished, and is empty only if it is the last.
  pub next_batch-IsBatch :
      (fuel : ℕ) (h : ScanHandle W F) (w : W) (batch : ScanBatch N) (h' : ScanHandle W F) (w' : W)
      → next_batch serde fuel h w ≡ some (ok batch, h', w')
      → IsBatch {W = W} batch h'
  unfolding next_batch
  next_batch-IsBatch zero h w batch h' w' e = cc
  next_batch-IsBatch (suc fuel) h w batch h' w' e = elim (Bool-cases h.finished) [
    | inl done ↦
        let whole = sym (if-true _ _ done) ∙ e in
        let same_batch : record { rows = []; finished = true } ≡ batch = cc in
        let same_handle : h ≡ h' = cc in
        rw (← same_batch, ← same_handle)
          (record { alive = tt; flagged = sym done; progress = λ _. refl })
    | inr open' ↦
        settle-IsBatch (round serde h w) (next_batch serde fuel) batch h' w'
          (λ rows h₁ w₁ step. unfold round in respond-alive (request h).1 _ rows h₁ w₁ step)
          (λ h₁ w₁ rest. next_batch-IsBatch fuel h₁ w₁ batch h' w' rest)
          (sym (if-false _ _ open') ∙ e)
  ]
