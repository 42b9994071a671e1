-- ===== src/Client/Catalog/Listing.antt =====
-- The pages that `load_columns` reads, and that it reads them all.
use mathlib.Core.List.{append_assoc}
use duckdb_superhuman_docs.Base.{
  ℕ, zero, suc, ◌≤◌, ◌≡◌, ◌∙◌, sym, ap, ◌↔◌, inl, inr, Text, List, [], ◌++◌, true, false, some, ok,
  is_empty, if-eq, if-true, if-false, arith,
}
use mathlib.Core.Path.{subst}
use duckdb_superhuman_docs.Json.{Serde}
use duckdb_superhuman_docs.Model.{Column, Page}
use duckdb_superhuman_docs.Sdk.Calls.{SdkClient}
use duckdb_superhuman_docs.Mutation.Rows.{after}
use duckdb_superhuman_docs.Client.Catalog.{column_page, columns_from}
use duckdb_superhuman_docs.Client.Catalog.Entries.{after-eq-ok}

module _ {N F W : Type 0} (serde : Serde N F) (sdk : SdkClient W F) (doc_id table_id : Text) where
  -- A run of `n` requests that succeed, each with the token that the one before it gave, up to a page
  -- without a token: the columns of its pages, in order.
  pub data Pages : ℕ → Text → W → List Column → W → Type 0 where
    last :
        (token : Text) (w w' : W) (page : Page Column)
        → column_page serde sdk doc_id table_id token w ≡ some (ok page, w')
        → is_empty page.next_page_token ≡ true
        → Pages 1 token w page.items w'
    next :
        (n : ℕ) (token : Text) (w w₁ w' : W) (page : Page Column) (rest : List Column)
        → column_page serde sdk doc_id table_id token w ≡ some (ok page, w₁)
        → is_empty page.next_page_token ≡ false
        → Pages n page.next_page_token w₁ rest w'
        → Pages (suc n) token w (page.items ++ rest) w'

  -- The loop goes through a run of requests with the fuel of one for each.
  columns_from-Pages :
      (fuel : ℕ) {n : ℕ} {token : Text} {w w' : W} {rest : List Column} (all : List Column)
      → n ≤ fuel
      → Pages n token w rest w'
      → columns_from serde sdk doc_id fuel table_id all token w ≡ some (ok (all ++ rest), w')
  unfolding columns_from
  columns_from-Pages zero all le (last token w w' page e done) = absurd (omega arith)
  columns_from-Pages zero all le (next n token w w₁ w' page rest e more run) = absurd (omega arith)
  columns_from-Pages (suc fuel) all le (last token w w' page e done) =
      rw (e, after) (if-true _ _ done)
  columns_from-Pages (suc fuel) all le (next n token w w₁ w' page rest e more run) =
      rw (e, after)
        (if-false _ _ more
          ∙ columns_from-Pages fuel (all ++ page.items) (omega arith) run
          ∙ ap (λ l. some (ok l, w')) (append_assoc all page.items rest))

  -- What the loop returned, a run of requests gave.
  Pages-columns_from :
      (fuel : ℕ) (all cs : List Column) (token : Text) (w w' : W)
      → columns_from serde sdk doc_id fuel table_id all token w ≡ some (ok cs, w')
      → (n : ℕ) × (rest : List Column) × (n ≤ fuel) × (cs ≡ all ++ rest) × Pages n token w rest w'
  unfolding columns_from
  Pages-columns_from zero all cs token w w' h = cc
  Pages-columns_from (suc fuel) all cs token w w' h =
      let (page, w₁, e, h₁) = after-eq-ok (column_page serde sdk doc_id table_id token w) _ h in
      elim (if-eq (is_empty page.next_page_token) _ _ h₁) [
        | inl (done, r) ↦
            let same : cs ≡ all ++ page.items = cc in
            let stays : w₁ ≡ w' = cc in
            (
              1,
              page.items,
              omega arith,
              same,
              last token w w' page (e ∙ ap (λ v. some (ok page, v)) stays) done,
            )
        | inr (more, r) ↦
            let (n, rest, le, same, run) =
              Pages-columns_from fuel (all ++ page.items) cs page.next_page_token w₁ w' r in
            (
              suc n,
              page.items ++ rest,
              omega arith,
              same ∙ append_assoc all page.items rest,
              next n token w w₁ w' page rest e more run,
            )
      ]

  -- The loop over the columns returns columns exactly if a run of requests, no more than the fuel,
  -- gives them: all the pages are read, from the first to the one without a token, and no column is
  -- dropped, repeated or moved.
  pub columns_from-Pages_iff :
      (fuel : ℕ) (cs : List Column) (w w' : W)
      → (columns_from serde sdk doc_id fuel table_id [] [] w ≡ some (ok cs, w'))
        ↔ ((n : ℕ) × (n ≤ fuel) × Pages n [] w cs w')
  columns_from-Pages_iff fuel cs w w' = (
    λ h.
        let (n, rest, le, same, run) = Pages-columns_from fuel [] cs [] w w' h in
        (n, le, subst (λ l. Pages n [] w l w') (sym same) run),
    λ (n, le, run). columns_from-Pages fuel [] le run,
  )
