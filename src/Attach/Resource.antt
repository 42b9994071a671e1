-- ===== src/Attach/Resource.antt =====
-- src/attach/resource.rs: which document an ATTACH names.
pub mod Links
mod Prefixes
mod Tests
use duckdb_superhuman_docs.Base.{
  ℕ, ◌+◌, Text, String, List, [], ◌∷◌, Bool, Option, none, some, Result, ok, err, and_then, map_err,
  ok_or, codes, length, is_empty, drop, strip_prefix, starts_with, find, rfind, split_first, ◌||◌,
  ◌==◌, if◌then◌else◌, invalid_link_response, missing_resource, missing_type, missing_doc_id,
  missing_href, not_in_document, empty_link_doc_id,
}
use duckdb_superhuman_docs.Base.Ascii.{eq_ignore_ascii_case}
use duckdb_superhuman_docs.Json.{Value, Serde}
use duckdb_superhuman_docs.Json.{object}
use duckdb_superhuman_docs.Json.Access.{get_str, get_object, non_empty}

abbrev pub attach_resource_prefixes : List String
attach_resource_prefixes = "coda:" ∷ "superhuman:" ∷ "superhuman-docs:" ∷ "superhuman_docs:" ∷ []

unfoldable pub is_browser_url : Text → Bool
unfolding starts_with
is_browser_url value = starts_with (codes "https://") value || starts_with (codes "http://") value

-- `prefixes.find_map(|prefix| value.strip_prefix(prefix)).unwrap_or(value)`
pub strip_first : List String → Text → Text
strip_first [] value = value
strip_first (prefix ∷ prefixes) value = elim (strip_prefix (codes prefix) value) [
  | some rest ↦ rest
  | none ↦ strip_first prefixes value
]

unfoldable pub strip_attach_resource_prefix : Text → Text
unfolding strip_first strip_prefix
strip_attach_resource_prefix value = strip_first attach_resource_prefixes value

-- `['/', '?', '#']`
unfoldable pub is_separator : ℕ → Bool
is_separator c = (c == b'/') || (c == b'?') || (c == b'#')

-- what follows the last `_d` of the document's segment, if anything does
doc_id_of_segment : Text → Option Text
doc_id_of_segment segment = elim (rfind (codes "_d") segment) [
  | none ↦ none
  | some marker ↦ non_empty (some (drop (marker + 2) segment))
]

-- the path of the URL, from its first slash on
doc_id_of_path : Text → Option Text
doc_id_of_path path = elim (strip_prefix (codes "/d/") path) [
  | none ↦ none
  | some rest ↦ doc_id_of_segment (split_first is_separator rest)
]

-- what follows `://`
doc_id_of_location : Text → Option Text
doc_id_of_location location = elim (find (codes "/") location) [
  | none ↦ none
  | some index ↦ doc_id_of_path (drop index location)
]

unfoldable pub doc_id_from_browser_url : Text → Option Text
unfolding doc_id_of_location doc_id_of_path doc_id_of_segment find rfind split_first strip_prefix
doc_id_from_browser_url value = elim (find (codes "://") value) [
  | none ↦ none
  | some index ↦ doc_id_of_location (drop (index + 3) value)
]

-- the document id in an API link, for a resource of the given type
doc_id_of_href : Text → Text → Result Text
doc_id_of_href resource_type href = elim (find (codes "/docs/") href) [
  | none ↦ err (not_in_document resource_type)
  | some index ↦
      let doc_id = split_first is_separator (drop (index + 6) href) in
      if is_empty doc_id then err (empty_link_doc_id resource_type) else ok doc_id
]

module _ {N F : Type 0} (serde : Serde N F) where
  doc_id_of_resource : Value N → Result Text
  doc_id_of_resource resource =
      and_then (ok_or missing_type (get_str "type" resource)) λ resource_type.
        if eq_ignore_ascii_case resource_type (codes "doc")
        then ok_or missing_doc_id (non_empty (get_str "id" resource))
        else (and_then (ok_or missing_href (get_str "href" resource))
            (doc_id_of_href resource_type))

  unfoldable pub doc_id_from_resolved_link : Text → Result Text
  unfolding doc_id_of_resource doc_id_of_href find split_first is_separator
  doc_id_from_resolved_link body =
      and_then (map_err invalid_link_response (serde.from_str body)) λ root.
        and_then (ok_or missing_resource (get_object "resource" root))
          λ resource. doc_id_of_resource (object resource)
