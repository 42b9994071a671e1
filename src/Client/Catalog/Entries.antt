-- ===== src/Client/Catalog/Entries.antt =====
-- What the tables and columns of a loaded catalog are.
use duckdb_superhuman_docs.Base.{
  ℕ, zero, suc, ◌≡◌, ◌∙◌, refl, sym, ap, inl, inr, Text, List, [], ◌∷◌, ◌++◌, Bool, none, some,
  Result, ok, err, is_empty, if◌then◌else◌, if-eq, All, All-append,
}
use duckdb_superhuman_docs.Json.{Serde}
use duckdb_superhuman_docs.Json.Catalog.Tables.{table_list_from_json, column_list_from_json}
use duckdb_superhuman_docs.Json.Catalog.Tables.Capabilities.{
  HasTableRights, HasColumnRights, table_list_from_json-HasTableRights,
  column_list_from_json-HasColumnRights,
}
use duckdb_superhuman_docs.Json.Catalog.Types.{append_row_metadata}
use duckdb_superhuman_docs.Json.Catalog.Naming.Unique.{Distinct, prepare_columns-IsPrepared}
use duckdb_superhuman_docs.Model.{ClientConfig, Table, Column}
use duckdb_superhuman_docs.Sdk.{sdk_client_new}
use duckdb_superhuman_docs.Sdk.Calls.{SdkClient, Network}
use duckdb_superhuman_docs.Mutation.Rows.{Waits, after, given}
use duckdb_superhuman_docs.Client.Catalog.Columns.{IsCatalogColumn, All-renamed, with_metadata}
use duckdb_superhuman_docs.Client.Catalog.{
  column_page, columns_from, columns_call, tables_call, prepared, finish, load_columns, table_page,
  tables_of_page, tables_from, load_catalog,
}

-- What a chain of waits returned, each of them returned.
module _ {W A B : Type 0} where
  pub after-eq-ok :
      (m : Waits W A) (f : A → W → Waits W B) {b : B} {w' : W}
      → after m f ≡ some (ok b, w')
      → (a : A) × (w₁ : W) × (m ≡ some (ok a, w₁)) × (f a w₁ ≡ some (ok b, w'))
  after-eq-ok none f h = cc
  after-eq-ok (some (err e, w)) f h = cc
  after-eq-ok (some (ok a, w)) f h = (a, w, refl, h)

  given-eq-ok :
      (r : Result A) (w : W) (f : A → Waits W B) {b : B} {w' : W}
      → given r w f ≡ some (ok b, w')
      → (a : A) × (f a ≡ some (ok b, w'))
  given-eq-ok (err e) w f h = cc
  given-eq-ok (ok a) w f h = (a, h)

abbrev returning : {W A : Type 0} → A → W → Waits W A
returning a w = some (ok a, w)

some_ok-injective : {W A : Type 0} {a b : A} {w w' : W} → returning a w ≡ returning b w' → a ≡ b
some_ok-injective h = cc

-- What a table of the catalog has: its rights, and columns that differ in their names without
-- regard to ASCII case.
pub record IsEntry (include : Bool) (entry : Table × List Column) : Type 0 where
  pub table_rights : HasTableRights entry.0
  pub column_rights : All (IsCatalogColumn include) entry.1
  pub distinct : Distinct entry.1

module _ {N F W : Type 0} (serde : Serde N F) where
  module _ (sdk : SdkClient W F) (doc_id : Text) where
    columns_from-rights :
        (fuel : ℕ) (table_id token : Text) (all cs : List Column) (w w' : W)
        → All HasColumnRights all
        → columns_from serde sdk doc_id fuel table_id all token w ≡ some (ok cs, w')
        → All HasColumnRights cs
    unfolding columns_from column_page
    columns_from-rights zero table_id token all cs w w' a h = cc
    columns_from-rights (suc fuel) table_id token all cs w w' a h =
        let (page, w₁, e, h₁) = after-eq-ok (column_page serde sdk doc_id table_id token w) _ h in
        let (body, w₂, _, e₁) =
          after-eq-ok (some (sdk.execute (columns_call doc_id table_id token) w)) _ e in
        let read : column_list_from_json serde body ≡ ok page = cc in
        let whole =
          All-append HasColumnRights all page.items a
            (column_list_from_json-HasColumnRights serde body page read) in
        elim (if-eq (is_empty page.next_page_token) _ _ h₁) [
          | inl (_, r) ↦ let same : all ++ page.items ≡ cs = cc in rw (sym same) whole
          | inr (_, r) ↦
              columns_from-rights fuel table_id page.next_page_token (all ++ page.items) cs w₁ w'
                whole r
        ]

    load_columns-rights :
        (fuel : ℕ) (table_id : Text) (include : Bool) (cs : List Column) (w w' : W)
        → load_columns serde sdk doc_id fuel table_id include w ≡ some (ok cs, w')
        → All (IsCatalogColumn include) cs × Distinct cs
    unfolding load_columns prepared finish
    load_columns-rights fuel table_id include cs w w' h =
        let (all, w₁, e, h₁) =
          after-eq-ok (columns_from serde sdk doc_id fuel table_id [] [] w) _ h in
        let shown = if include then append_row_metadata all else all in
        let (ds, done, is) = prepare_columns-IsPrepared shown in
        let result : finish serde sdk doc_id (some ds) w₁ ≡ some (ok cs, w') =
          ap (λ o. finish serde sdk doc_id o w₁) (sym done) ∙ h₁ in
        let same : ds ≡ cs = some_ok-injective result in
        rw (sym same) (
          All-renamed include shown ds is.same
              (with_metadata include all (columns_from-rights fuel table_id [] [] all w w₁ tt e)),
          is.distinct,
        )

    tables_of_page-IsEntry :
        (fuel : ℕ) (include : Bool) (all all' : List (Table × List Column)) (tables : List Table)
        (w w' : W)
        → All (IsEntry include) all
        → All HasTableRights tables
        → tables_of_page serde sdk doc_id fuel include all tables w ≡ some (ok all', w')
        → All (IsEntry include) all'
    unfolding tables_of_page
    tables_of_page-IsEntry fuel include all all' [] w w' a t h =
        let same : all ≡ all' = cc in rw (sym same) a
    tables_of_page-IsEntry fuel include all all' (table ∷ tables) w w' a (p, t) h =
        let (cs, w₁, e, h₁) =
          after-eq-ok (load_columns serde sdk doc_id fuel table.id include w) _ h in
        let (r, d) = load_columns-rights fuel table.id include cs w w₁ e in
        tables_of_page-IsEntry fuel include (all ++ (table, cs) ∷ []) all' tables w₁ w'
          (All-append (IsEntry include) all ((table, cs) ∷ []) a
            (record { table_rights = p; column_rights = r; distinct = d }, tt))
          t h₁

    tables_from-IsEntry :
        (pages fuel : ℕ) (include : Bool) (all all' : List (Table × List Column)) (token : Text)
        (w w' : W)
        → All (IsEntry include) all
        → tables_from serde sdk doc_id pages fuel include all token w ≡ some (ok all', w')
        → All (IsEntry include) all'
    unfolding tables_from table_page
    tables_from-IsEntry zero fuel include all all' token w w' a h = cc
    tables_from-IsEntry (suc pages) fuel include all all' token w w' a h =
        let (page, w₁, e, h₁) = after-eq-ok (table_page serde sdk doc_id token w) _ h in
        let (body, w₂, _, e₁) = after-eq-ok (some (sdk.execute (tables_call doc_id token) w)) _ e in
        let read : table_list_from_json serde body ≡ ok page = cc in
        let (more, w₃, e₂, h₂) =
          after-eq-ok (tables_of_page serde sdk doc_id fuel include all page.items w₁) _ h₁ in
        let whole =
          tables_of_page-IsEntry fuel include all more page.items w₁ w₃ a
            (table_list_from_json-HasTableRights serde body page read) e₂ in
        elim (if-eq (is_empty page.next_page_token) _ _ h₂) [
          | inl (_, r) ↦ let same : more ≡ all' = cc in rw (sym same) whole
          | inr (_, r) ↦
              tables_from-IsEntry pages fuel include more all' page.next_page_token w₃ w' whole r
        ]

  -- A catalog that is loaded, from any number of pages: each table has the rights of a table or of a
  -- view; the names of its columns differ pairwise without regard to ASCII case; and each column has
  -- the rights and the type of its format or, only if they were asked for, is one of the two with
  -- the times of a row, which are computed and cannot be written.
  pub load_catalog-IsEntry :
      (network : Network W F) (pages fuel : ℕ) (config : ClientConfig)
      (catalog : List (Table × List Column)) (w w' : W)
      → load_catalog serde network pages fuel config w ≡ some (ok catalog, w')
      → All (IsEntry config.include_system_columns) catalog
  unfolding load_catalog
  load_catalog-IsEntry network pages fuel config catalog w w' h =
      let (sdk, h₁) = given-eq-ok (sdk_client_new network config) w _ h in
      tables_from-IsEntry sdk config.resource pages fuel config.include_system_columns [] catalog []
        w w' tt h₁
