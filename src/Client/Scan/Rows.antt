-- ===== src/Client/Scan/Rows.antt =====
-- What a scan delivers. `Rounds n h w rows h' w'` is a run of `n` successful requests from the
-- handle `h`, whose visible rows are `rows`, up to a finished handle `h'`.
use duckdb_superhuman_docs.Base.{
  ℕ, zero, suc, ◌≤◌, ◌<◌, ◌≡◌, refl, sym, ap, ◌∙◌, List, [], ◌∷◌, ◌++◌, Bool, true, false, Option,
  some, ok, Bool-cases, if-true, if-false, inl, inr, is_empty, not, ◌||◌, arith, ◌⊎◌,
}
use duckdb_superhuman_docs.Json.{Serde}
use duckdb_superhuman_docs.Model.{Row}
use duckdb_superhuman_docs.Client.Scan.{ScanHandle, ScanBatch, Scanned, round, settle, next_batch}

no_rows :
    {N : Type 0} (rows : List (Row N)) (b : Bool) → (not (is_empty rows) || b) ≡ false → rows ≡ []
no_rows [] b e = refl
no_rows (row ∷ rows) b e = cc

module _ {N F W : Type 0} (serde : Serde N F) where
  pub data Rounds : ℕ → ScanHandle W F → W → List (Row N) → ScanHandle W F → W → Type 0 where
    over : (h : ScanHandle W F) (w : W) → h.finished ≡ true → Rounds zero h w [] h w
    more :
        (n : ℕ) (h h₁ h₂ : ScanHandle W F) (w w₁ w₂ : W) (rows rest : List (Row N))
        → h.finished ≡ false
        → round serde h w ≡ (ok rows, h₁, w₁)
        → Rounds n h₁ w₁ rest h₂ w₂
        → Rounds (suc n) h w (rows ++ rest) h₂ w₂

  -- What one call of `next_batch` takes off a run: its batch, and a run for the rest.
  pub record Delivered (n m : ℕ) (h : ScanHandle W F) (w : W) (rows : List (Row N))
      (h' : ScanHandle W F) (w' : W) : Type 0 where
    pub batch : ScanBatch N
    pub handle : ScanHandle W F
    pub world : W
    pub left : ℕ
    pub rest : List (Row N)
    pub fewer : (batch.finished ≡ true) ⊎ (left < n)
    pub returned : next_batch serde (suc m) h w ≡ some (ok batch, handle, world)
    pub split : rows ≡ batch.rows ++ rest
    pub flagged : batch.finished ≡ handle.finished
    pub onward : Rounds left handle world rest h' w'

  next_batch-over :
      (fuel : ℕ) (h : ScanHandle W F) (w : W)
      → h.finished ≡ true
      → next_batch serde (suc fuel) h w ≡ some (ok (record { rows = []; finished = true }), h, w)
  unfolding next_batch
  next_batch-over fuel h w done = if-true _ _ done

  next_batch-open :
      (fuel : ℕ) (h : ScanHandle W F) (w : W)
      → h.finished ≡ false
      → next_batch serde (suc fuel) h w ≡ settle serde (round serde h w) (next_batch serde fuel)
  unfolding next_batch
  next_batch-open fuel h w open' = if-false _ _ open'

  settle-next :
      (rows : List (Row N)) (h : ScanHandle W F) (w : W)
      (next : ScanHandle W F → W → Option (Scanned (ScanBatch N) W F))
      → (not (is_empty rows) || h.finished) ≡ false
      → settle serde (ok rows, h, w) next ≡ next h w
  settle-next rows h w next e = rw e

  -- A round that returns a batch.
  settle-batch :
      (rows : List (Row N)) (h : ScanHandle W F) (w : W)
      (next : ScanHandle W F → W → Option (Scanned (ScanBatch N) W F))
      → (not (is_empty rows) || h.finished) ≡ true
      → settle serde (ok rows, h, w) next
        ≡ some (ok (record { rows = rows; finished = h.finished }), h, w)
  settle-batch rows h w next e = rw e

  pub next_batch-Delivered :
      {n : ℕ} {h h' : ScanHandle W F} {w w' : W} {rows : List (Row N)} (m : ℕ)
      → n ≤ m
      → Rounds n h w rows h' w'
      → Delivered n m h w rows h' w'
  next_batch-Delivered m le (over h w done) = record {
    batch = record { rows = []; finished = true };
    handle = h;
    world = w;
    left = 0;
    rest = [];
    fewer = inl refl;
    returned = next_batch-over m h w done;
    split = refl;
    flagged = sym done;
    onward = over h w done;
  }
  next_batch-Delivered zero le (more n h h₁ h₂ w w₁ w₂ rows rest open' step run) =
      absurd (omega arith)
  next_batch-Delivered (suc m) le (more n h h₁ h₂ w w₁ w₂ rows rest open' step run) =
      let first =
        next_batch-open (suc m) h w open'
        ∙ ap (λ s. settle serde s (next_batch serde (suc m))) step in
      elim (Bool-cases (not (is_empty rows) || h₁.finished)) [
        | inl full ↦ record {
          batch = record { rows = rows; finished = h₁.finished };
          handle = h₁;
          world = w₁;
          left = n;
          rest = rest;
          fewer = inr (omega arith);
          returned = first ∙ settle-batch rows h₁ w₁ (next_batch serde (suc m)) full;
          split = refl;
          flagged = refl;
          onward = run;
        }
        | inr empty ↦
            let d = next_batch-Delivered m (omega arith) run in
            record {
              batch = d.batch;
              handle = d.handle;
              world = d.world;
              left = d.left;
              rest = d.rest;
              fewer = later n d.batch.finished d.left d.fewer;
              returned =
                  first ∙ settle-next rows h₁ w₁ (next_batch serde (suc m)) empty ∙ d.returned;
              split = ap (λ r. r ++ rest) (no_rows rows h₁.finished empty) ∙ d.split;
              flagged = d.flagged;
              onward = d.onward;
            }
      ]
    where
      later : (n : ℕ) (b : Bool) (left : ℕ) → (b ≡ true) ⊎ (left < n) → (b ≡ true) ⊎ (left < suc n)
      later n b left (inl e) = inl e
      later n b left (inr lt) = inr (omega arith)
