-- ===== src/Attach/Resource/Tests.antt =====
-- The readings of small links, and the theorems about them.
use duckdb_superhuman_docs.Base.{◌≡◌, refl, [], ◌∷◌, Text, none, some, codes, false, is_empty}
use duckdb_superhuman_docs.Attach.Resource.{
  strip_attach_resource_prefix, doc_id_from_browser_url, is_separator,
}
use duckdb_superhuman_docs.Attach.Resource.Links.{IsSegment, doc_id_from_browser_url-IsSegment}
use duckdb_superhuman_docs.Attach.Resource.Prefixes.{
  Stripped, strip_attach_resource_prefix-Stripped,
}

abbrev url : Text
url = codes "https://coda.io/d/My_doc_dAbC/Page_su1?x=/d/"

reading : doc_id_from_browser_url url ≡ some (codes "AbC")
unfolding doc_id_from_browser_url is_separator
reading = refl

no_doc : doc_id_from_browser_url (codes "https://coda.io/docs") ≡ none
unfolding doc_id_from_browser_url
no_doc = refl

doc_id_from_browser_url-IsSegment_example :
    IsSegment (codes "AbC") × (is_empty (codes "AbC") ≡ false)
doc_id_from_browser_url-IsSegment_example =
    doc_id_from_browser_url-IsSegment url (codes "AbC") reading

strip_attach_resource_prefix-Stripped_example :
    Stripped
      ("coda:" ∷ "superhuman:" ∷ "superhuman-docs:" ∷ "superhuman_docs:" ∷ [])
      (codes "coda:AbC")
      (strip_attach_resource_prefix (codes "coda:AbC"))
strip_attach_resource_prefix-Stripped_example =
    strip_attach_resource_prefix-Stripped (codes "coda:AbC")

prefix_test : strip_attach_resource_prefix (codes "superhuman-docs:AbC") ≡ codes "AbC"
unfolding strip_attach_resource_prefix
prefix_test = refl
