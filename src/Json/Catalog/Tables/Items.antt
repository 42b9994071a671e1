-- ===== src/Json/Catalog/Tables/Items.antt =====
-- What the tables and columns of a page are, for the items of the service's answer.
use duckdb_superhuman_docs.Base.{
  ℕ, ◌+◌, Text, List, [], ◌≡◌, refl, Bool, true, false, Result, ok, Option, none, some,
  and_then-eq-ok, ok_or, ok_or-eq-ok, Paired, Paired-collect, collect, ok-injective, not,
  missing_items, if◌then◌else◌, codes,
}
use duckdb_superhuman_docs.Base.Ascii.{eq_ignore_ascii_case}
use duckdb_superhuman_docs.Json.{Value, Serde}
use duckdb_superhuman_docs.Json.Values.{Fields, object}
use duckdb_superhuman_docs.Json.Access.{get_array, get_str, get_bool, get_object, unwrap_or}
use duckdb_superhuman_docs.Json.Catalog.Tables.{
  table_of, column_of, table_from_item, column_from_item, table_capabilities, column_capabilities,
  page_from_json, table_list_from_json, column_list_from_json, inner,
}
use duckdb_superhuman_docs.Json.Catalog.Types.{logical_type, logical_type_alias}
use duckdb_superhuman_docs.Model.{Table, Column, Page}

-- What is read of a field that may be missing.
abbrev pub Reads : {A : Type 0} → Option A → A → A → Type 0
Reads none default a = a ≡ default
Reads (some given) default a = a ≡ given

-- The rights of a table by the service's type of it: insert (2), update (4), delete (8) and row ids
-- (16) without a type or with the type `table`; those of a view (1) with row ids (16) else.
abbrev pub TableRights : Option Text → ℕ → Type 0
TableRights none rights = rights ≡ 2 + 4 + 8 + 16
TableRights (some type) rights =
    rights ≡ (if eq_ignore_ascii_case type (codes "table") then 2 + 4 + 8 + 16 else 1 + 16)

module _ {N : Type 0} where
  -- The table that an item describes.
  pub record IsTable (item : Value N) (t : Table) : Type 0 where
    pub id : get_str "id" item ≡ some t.id
    pub name : get_str "name" item ≡ some t.name
    pub rights : TableRights (get_str "tableType" item) t.capabilities

  -- What is read of the format of a column that may have none.
  abbrev pub ReadsFormat : {A : Type 0} → (Value N → Option A) → Option (Fields N) → A → A → Type 0
  ReadsFormat read none default a = a ≡ default
  ReadsFormat read (some format) default a = Reads (read (object format)) default a

  -- The column that an item describes: generated (1) if the service calculates it and editable (4)
  -- if not, and fit for filters (8) unless it holds arrays.
  pub record IsColumn (item : Value N) (c : Column) : Type 0 where
    pub id : get_str "id" item ≡ some c.id
    pub name : get_str "name" item ≡ some c.name
    pub format :
        ReadsFormat (get_str "type") (get_object "format" item) (codes "text") c.format_type
    pub arrays : ReadsFormat (get_bool "isArray") (get_object "format" item) false c.is_array
    pub calculated : Bool
    pub flag : Reads (get_bool "calculated" item) false calculated
    pub rights : c.capabilities ≡ (if calculated then 1 else 4) + (if c.is_array then 0 else 8)
    pub typed : c.duckdb_type ≡ logical_type c.format_type c.is_array
    pub aliased : c.duckdb_type_alias ≡ logical_type_alias c.format_type

table_of-lem :
    (is_view : Bool) (id name : Option Text) (t : Table)
    → table_of is_view id name ≡ ok t
    → (id ≡ some t.id) × (name ≡ some t.name) × (t.capabilities ≡ table_capabilities is_view)
unfolding table_of
table_of-lem is_view none name t h = cc
table_of-lem is_view (some id) none t h = cc
table_of-lem is_view (some id) (some name) t h = rw (← ok-injective h) (refl, refl, refl)

table_capabilities-lem : (b : Bool) → table_capabilities (not b) ≡ (if b then 30 else 17)
unfolding table_capabilities
table_capabilities-lem true = refl
table_capabilities-lem false = refl

table_capabilities-TableRights :
    (type : Option Text)
    → TableRights type (
        table_capabilities
          (not (eq_ignore_ascii_case (unwrap_or (codes "table") type) (codes "table"))))
unfolding table_capabilities eq_ignore_ascii_case
table_capabilities-TableRights none = refl
table_capabilities-TableRights (some type) =
    table_capabilities-lem (eq_ignore_ascii_case type (codes "table"))

column_capabilities-lem :
    (calculated is_array : Bool)
    → column_capabilities calculated is_array
      ≡ (if calculated then 1 else 4) + (if is_array then 0 else 8)
unfolding column_capabilities
column_capabilities-lem true true = refl
column_capabilities-lem true false = refl
column_capabilities-lem false true = refl
column_capabilities-lem false false = refl

unwrap_or-Reads : {A : Type 0} (o : Option A) (d : A) → Reads o d (unwrap_or d o)
unwrap_or-Reads none d = refl
unwrap_or-Reads (some a) d = refl

module _ {N : Type 0} where
  table_from_item-IsTable :
      (item : Value N) (t : Table) → table_from_item item ≡ ok t → IsTable item t
  unfolding table_from_item
  table_from_item-IsTable item t h =
      let (id, name, rights) = table_of-lem _ (get_str "id" item) (get_str "name" item) t h in
      record {
        id = id;
        name = name;
        rights = rw rights (table_capabilities-TableRights (get_str "tableType" item));
      }

  inner-ReadsFormat :
      {A : Type 0} (read : Value N → Option A) (item : Value N) (d : A)
      → ReadsFormat read (get_object "format" item) d (unwrap_or d (inner read item))
  inner-ReadsFormat read item d = by_format (get_object "format" item)
    where
      by_format :
          (format : Option (Fields N))
          → ReadsFormat read format d
              (unwrap_or d (elim format [ none ↦ none | some f ↦ read (object f) ]))
      by_format none = refl
      by_format (some f) = unwrap_or-Reads (read (object f)) d

  column_from_item-IsColumn :
      (item : Value N) (c : Column) → column_from_item item ≡ ok c → IsColumn item c
  unfolding column_from_item
  column_from_item-IsColumn item c h = column (get_str "id" item) (get_str "name" item) refl refl h
    where
      column :
          (id name : Option Text)
          → get_str "id" item ≡ id
          → get_str "name" item ≡ name
          → column_of
              (unwrap_or (codes "text") (inner (get_str "type") item))
              (unwrap_or false (inner (get_bool "isArray") item))
              (unwrap_or false (get_bool "calculated" item))
              id
              name
            ≡ ok c
          → IsColumn item c
      column none name i n h = unfold column_of in absurd cc
      column (some id) none i n h = unfold column_of in absurd cc
      column (some id) (some name) i n h =
          unfold column_of in
          rw (← ok-injective h) (record {
            id = i;
            name = n;
            format = inner-ReadsFormat (get_str "type") item (codes "text");
            arrays = inner-ReadsFormat (get_bool "isArray") item false;
            calculated = unwrap_or false (get_bool "calculated" item);
            flag = unwrap_or-Reads (get_bool "calculated" item) false;
            rights =
                column_capabilities-lem (unwrap_or false (get_bool "calculated" item))
                  (unwrap_or false (inner (get_bool "isArray") item));
            typed = refl;
            aliased = refl;
          })

  -- The page that the text of an answer describes.
  pub record IsPage {T F : Type 0} (serde : Serde N F) (R : Value N → T → Type 0) (body : Text)
      (page : Page T) : Type 0 where
    pub root : Value N
    pub values : List (Value N)
    pub parsed : serde.from_str body ≡ ok root
    pub listed : get_array "items" root ≡ some values
    pub described : Paired R values page.items
    pub token : Reads (get_str "nextPageToken" root) [] page.next_page_token

module _ {N F : Type 0} (serde : Serde N F) where
  page_from_json-IsPage :
      {T : Type 0} (R : Value N → T → Type 0) (item : Value N → Result T) (body : Text)
      (page : Page T)
      → ((v : Value N) (t : T) → item v ≡ ok t → R v t)
      → page_from_json serde item body ≡ ok page
      → IsPage serde R body page
  unfolding page_from_json
  page_from_json-IsPage R item body page each h =
      let (root, parsed, h₁) = and_then-eq-ok (serde.from_str body) _ h in
      let (values, listed, h₂) =
        and_then-eq-ok (ok_or missing_items (get_array "items" root)) _ h₁ in
      let (read, collected, h₃) = and_then-eq-ok (collect item values) _ h₂ in
      rw (← ok-injective h₃) (record {
        root = root;
        values = values;
        parsed = parsed;
        listed = ok_or-eq-ok missing_items (get_array "items" root) listed;
        described = Paired-collect R item values read each collected;
        token = unwrap_or-Reads (get_str "nextPageToken" root) [];
      })

  -- The tables of a page are those that the items of the answer describe, all of them and in their
  -- order, each with its id and name: it can be inserted into, updated and deleted from if the item
  -- has no `tableType` or that is `table` in whatever case, and is a view, with row ids only, else;
  -- and the page has the answer's token, or none.
  pub table_list_from_json-IsPage :
      (body : Text) (page : Page Table)
      → table_list_from_json serde body ≡ ok page
      → IsPage serde IsTable body page
  unfolding table_list_from_json
  table_list_from_json-IsPage body page h =
      page_from_json-IsPage IsTable table_from_item body page table_from_item-IsTable h

  -- The columns of a page are those that the items of the answer describe, all of them and in their
  -- order, each with its id, its name and its format, `text` if none is given: it is generated if the
  -- item's `calculated` is true and editable if not, can be filtered on unless the format's `isArray`
  -- is true, and has the DuckDB type and alias of its format; and the page has the answer's token, or
  -- none.
  pub column_list_from_json-IsPage :
      (body : Text) (page : Page Column)
      → column_list_from_json serde body ≡ ok page
      → IsPage serde IsColumn body page
  unfolding column_list_from_json
  column_list_from_json-IsPage body page h =
      page_from_json-IsPage IsColumn column_from_item body page column_from_item-IsColumn h
