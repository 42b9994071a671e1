-- ===== src/Client/Scan/Drain.antt =====
-- A client that reads a scan to its end gets the visible rows of all the responses, in order.
use mathlib.Core.List.{append-nil}
use duckdb_superhuman_docs.Base.{
  ℕ, zero, suc, ◌≤◌, ◌<◌, ◌≡◌, refl, sym, ap, ◌∙◌, List, [], ◌++◌, Bool, true, false, Option, none,
  some, ok, err, Bool-cases, if-true, if-false, if-eq, inl, inr, if◌then◌else◌, arith, ◌⊎◌,
}
use duckdb_superhuman_docs.Json.{Serde}
use duckdb_superhuman_docs.Model.{Row}
use duckdb_superhuman_docs.Client.Scan.{ScanHandle, ScanBatch, Scanned, next_batch}
use duckdb_superhuman_docs.Client.Scan.Rows.{Rounds, over, more, Delivered, next_batch-Delivered}

module _ {N W F : Type 0} where
  prepend : List (Row N) → Option (Scanned (List (Row N)) W F) → Option (Scanned (List (Row N)) W F)
  prepend rows none = none
  prepend rows (some (err e, h, w)) = some (err e, h, w)
  prepend rows (some (ok rest, h, w)) = some (ok (rows ++ rest), h, w)

  -- The rows of one batch, and of the batches behind it unless it is the last.
  gather :
      Option (Scanned (ScanBatch N) W F)
      → (ScanHandle W F → W → Option (Scanned (List (Row N)) W F))
      → Option (Scanned (List (Row N)) W F)
  gather none next = none
  gather (some (err e, h, w)) next = some (err e, h, w)
  gather (some (ok batch, h, w)) next =
      if batch.finished then some (ok batch.rows, h, w) else prepend batch.rows (next h w)

module _ {N F W : Type 0} (serde : Serde N F) where
  -- DuckDB's loop over `rust_ext_scan_next`: calls of `next_batch` up to the batch that is marked
  -- as the last, with the fuel of each call.
  pub drain : ℕ → ℕ → ScanHandle W F → W → Option (Scanned (List (Row N)) W F)
  drain zero fuel h w = none
  drain (suc calls) fuel h w = gather (next_batch serde fuel h w) (drain calls fuel)

  -- What a client has that read a scan to its end: a first batch, which is the last, or the rest.
  pub record Drained (calls fuel : ℕ) (h h' : ScanHandle W F) (w w' : W) (rows : List (Row N))
      : Type 0 where
    pub batch : ScanBatch N
    pub handle : ScanHandle W F
    pub world : W
    pub returned : next_batch serde fuel h w ≡ some (ok batch, handle, world)
    pub rest :
        ((batch.finished ≡ true) × (batch.rows ≡ rows) × (world ≡ w'))
        ⊎ ((batch.finished ≡ false)
            × ((later : List (Row N)) × (rows ≡ batch.rows ++ later)
                × (drain calls fuel handle world ≡ some (ok later, h', w'))))

  prepend-eq-ok :
      (rows whole : List (Row N)) (r : Option (Scanned (List (Row N)) W F)) (h' : ScanHandle W F)
      (w' : W)
      → prepend rows r ≡ some (ok whole, h', w')
      → (later : List (Row N)) × (whole ≡ rows ++ later) × (r ≡ some (ok later, h', w'))
  unfolding prepend
  prepend-eq-ok rows whole none h' w' e = cc
  prepend-eq-ok rows whole (some (err x, h, w)) h' w' e = cc
  prepend-eq-ok rows whole (some (ok later, h, w)) h' w' e = (later, cc, cc)

  -- Without a call nothing is read.
  pub drain-ne_some :
      (fuel : ℕ) (h : ScanHandle W F) (w : W) {r : Scanned (List (Row N)) W F}
      → drain 0 fuel h w ≡ some r
      → ⊥
  unfolding drain
  drain-ne_some fuel h w e = cc

  pub drain-Drained :
      (calls fuel : ℕ) (h h' : ScanHandle W F) (w w' : W) (rows : List (Row N))
      → drain (suc calls) fuel h w ≡ some (ok rows, h', w')
      → Drained calls fuel h h' w w' rows
  unfolding drain gather
  drain-Drained calls fuel h h' w w' rows e = from (next_batch serde fuel h w) refl e
    where
      from :
          (r : Option (Scanned (ScanBatch N) W F))
          → next_batch serde fuel h w ≡ r
          → gather r (drain calls fuel) ≡ some (ok rows, h', w')
          → Drained calls fuel h h' w w' rows
      from none same e = absurd cc
      from (some (err x, handle, world)) same e = absurd cc
      from (some (ok batch, handle, world)) same e = elim (if-eq batch.finished _ _ e) [
        | inl (last, e') ↦ record {
          batch = batch;
          handle = handle;
          world = world;
          returned = same;
          rest = inl (last, cc, cc);
        }
        | inr (not_last, e') ↦
            let (later, split, e'') =
              prepend-eq-ok batch.rows rows (drain calls fuel handle world) h' w' e' in
            record {
              batch = batch;
              handle = handle;
              world = world;
              returned = same;
              rest = inr (not_last, (later, split, e''));
            }
      ]

  -- Behind a finished handle nothing is left of a run.
  Rounds-finished :
      {n : ℕ} {h h' : ScanHandle W F} {w w' : W} {rows : List (Row N)}
      → Rounds serde n h w rows h' w'
      → h.finished ≡ true
      → (rows ≡ []) × (h ≡ h') × (w ≡ w')
  Rounds-finished (over h w done) e = (refl, refl, refl)
  Rounds-finished (more n h h₁ h₂ w w₁ w₂ rows rest open' step run) e =
      absurd (both h.finished open' e)
    where
      both : (b : Bool) → b ≡ false → b ≡ true → ⊥
      both b p q = cc

  module _ {n m : ℕ} {h h' : ScanHandle W F} {w w' : W} {rows : List (Row N)}
      (d : Delivered serde n m h w rows h' w')
      (next : ScanHandle W F → W → Option (Scanned (List (Row N)) W F)) where
    -- The batch is the last.
    gather-last :
        d.batch.finished ≡ true
        → gather (some (ok d.batch, d.handle, d.world)) next ≡ some (ok rows, h', w')
    unfolding gather
    gather-last e =
        let (no_rest, same_h, same_w) = Rounds-finished d.onward (sym d.flagged ∙ e) in
        let whole : d.batch.rows ≡ rows =
          sym (append-nil d.batch.rows) ∙ ap (λ r. d.batch.rows ++ r) (sym no_rest) ∙ sym d.split in
        if-true _ _ e ∙ λ i. some (ok (whole i), same_h i, same_w i)

    -- There are more batches.
    gather-more :
        d.batch.finished ≡ false
        → next d.handle d.world ≡ some (ok d.rest, h', w')
        → gather (some (ok d.batch, d.handle, d.world)) next ≡ some (ok rows, h', w')
    unfolding gather prepend
    gather-more e rest =
        if-false _ _ e ∙ ap (prepend d.batch.rows) rest ∙ λ i. some (ok (sym d.split i), h', w')

  -- A run of requests that succeeds and ends with a finished handle is read to its end by as many
  -- calls as it has requests, and one more: the rows are those of its responses that are not
  -- deleted, each once and in their order, and the handle and the world are those of its end.
  pub drain-Rounds :
      (n calls m : ℕ) (h h' : ScanHandle W F) (w w' : W) (rows : List (Row N))
      → n ≤ calls
      → n ≤ m
      → Rounds serde n h w rows h' w'
      → drain (suc calls) (suc m) h w ≡ some (ok rows, h', w')
  unfolding drain
  drain-Rounds n zero m h h' w w' rows le_calls le_m run =
      let d = next_batch-Delivered serde m le_m run in
      ap (λ b. gather b (drain 0 (suc m))) d.returned
      ∙ gather-last d _ (last d.batch.finished d.left d.fewer)
    where
      last : (b : Bool) (left : ℕ) → (b ≡ true) ⊎ (left < n) → b ≡ true
      last b left (inl e) = e
      last b left (inr lt) = absurd (omega arith)
  drain-Rounds n (suc calls) m h h' w w' rows le_calls le_m run =
      let d = next_batch-Delivered serde m le_m run in
      ap (λ b. gather b (drain (suc calls) (suc m))) d.returned
      ∙ elim (Bool-cases d.batch.finished) [
        | inl e ↦ gather-last d _ e
        | inr e ↦
            let lt : d.left < n = smaller d.batch.finished d.left e d.fewer in
            gather-more d _ e (
              drain-Rounds d.left calls m d.handle h' d.world w' d.rest (omega arith) (omega arith)
                d.onward)
      ]
    where
      smaller : (b : Bool) (left : ℕ) → b ≡ false → (b ≡ true) ⊎ (left < n) → left < n
      smaller b left e (inl e') = absurd (both b e e')
        where
          both : (c : Bool) → c ≡ false → c ≡ true → ⊥
          both c p q = cc
      smaller b left e (inr lt) = lt
