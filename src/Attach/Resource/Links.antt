-- ===== src/Attach/Resource/Links.antt =====
-- The document ids that src/attach/resource.rs finds.
use duckdb_superhuman_docs.Base.{
  ◌≡◌, ◌≢◌, refl, sym, inl, inr, arith, ℕ, zero, suc, Text, Bool, true, false, Option, none, some,
  ◌∷◌, [], ok, err, is_empty, codes, if◌then◌else◌, find, split_first, drop, and_then-eq-ok, ok_or,
  ok_or-eq-ok, elim-eq-some, All, strip_prefix, rfind, map_err, missing_doc_id, missing_href,
  missing_type, ◌+◌, Error, if-eq, ok-injective, not_in_document, empty_link_doc_id,
}
use duckdb_superhuman_docs.Base.Ascii.{eq_ignore_ascii_case}
use duckdb_superhuman_docs.Json.{Value, Serde, object}
use duckdb_superhuman_docs.Json.Access.{get_str, get_object, non_empty}
use duckdb_superhuman_docs.Attach.Resource.{
  doc_id_from_browser_url, doc_id_of_location, doc_id_of_path, doc_id_of_segment,
  doc_id_from_resolved_link, doc_id_of_resource, doc_id_of_href, is_separator,
}

non_empty-is_empty : (o : Option Text) (t : Text) → non_empty o ≡ some t → is_empty t ≡ false
non_empty-is_empty none t h = cc
non_empty-is_empty (some []) t h = cc
non_empty-is_empty (some (c ∷ s)) t h = let e : c ∷ s ≡ t = cc in rw (sym e) refl

non_empty-eq : (t u : Text) → non_empty (some t) ≡ some u → t ≡ u
non_empty-eq [] u h = cc
non_empty-eq (c ∷ t) u h = cc

full-eq-ok :
    (e : Error) (t : Text) {u : Text}
    → (if is_empty t then err e else ok t) ≡ ok u
    → is_empty u ≡ false
full-eq-ok e [] h = cc
full-eq-ok e (c ∷ t) h = rw (sym (ok-injective h)) refl

doc_id_of_href-is_empty :
    (type href id : Text) → doc_id_of_href type href ≡ ok id → is_empty id ≡ false
unfolding doc_id_of_href
doc_id_of_href-is_empty type href id h = found (find (codes "/docs/") href) h
  where
    found :
        (o : Option ℕ)
        → elim o [
          | none ↦ err (not_in_document type)
          | some index ↦
              let doc_id = split_first is_separator (drop (index + 6) href) in
              if is_empty doc_id then err (empty_link_doc_id type) else ok doc_id
        ]
          ≡ ok id
        → is_empty id ≡ false
    found none h = cc
    found (some index) h = full-eq-ok _ (split_first is_separator (drop (index + 6) href)) h

module _ {N F : Type 0} (serde : Serde N F) where
  doc_id_of_resource-is_empty :
      (resource : Value N) (id : Text)
      → doc_id_of_resource serde resource ≡ ok id
      → is_empty id ≡ false
  unfolding doc_id_of_resource
  doc_id_of_resource-is_empty resource id h =
      let (type, _, h') = and_then-eq-ok (ok_or missing_type (get_str "type" resource)) _ h in
      elim (if-eq (eq_ignore_ascii_case type (codes "doc")) _ _ h') [
        | inl (_, e) ↦
            non_empty-is_empty (get_str "id" resource) id
              (ok_or-eq-ok missing_doc_id (non_empty (get_str "id" resource)) e)
        | inr (_, e) ↦
            let (href, _, e') =
              and_then-eq-ok (ok_or missing_href (get_str "href" resource)) (doc_id_of_href type)
                e in
            doc_id_of_href-is_empty type href id e'
      ]

  -- Whatever the service answers, a document id that is accepted is not empty.
  pub doc_id_from_resolved_link-is_empty :
      (body id : Text) → doc_id_from_resolved_link serde body ≡ ok id → is_empty id ≡ false
  unfolding doc_id_from_resolved_link
  doc_id_from_resolved_link-is_empty body id h =
      let (root, _, h1) = and_then-eq-ok (map_err _ (serde.from_str body)) _ h in
      let (resource, _, h2) = and_then-eq-ok (ok_or _ (get_object "resource" root)) _ h1 in
      doc_id_of_resource-is_empty (object resource) id h2

All-drop : (P : ℕ → Type 0) (n : ℕ) (t : Text) → All P t → All P (drop n t)
All-drop P zero t h = h
All-drop P (suc n) [] h = h
All-drop P (suc n) (c ∷ t) (_, h) = All-drop P n t h

-- Text without a slash (47), a question mark (63) and a number sign (35).
pub IsSegment : Text → Type 0
IsSegment t = All (λ c. (c ≢ 47) × (c ≢ 63) × (c ≢ 35)) t

is_separator-ne : (c : ℕ) → is_separator c ≡ false → (c ≢ 47) × (c ≢ 63) × (c ≢ 35)
unfolding is_separator
is_separator-ne c h = ground arith

part-IsSegment : (c : ℕ) (t : Text) → IsSegment t → IsSegment (if is_separator c then [] else c ∷ t)
unfolding IsSegment
part-IsSegment c t h = part (is_separator c) refl
  where
    part : (b : Bool) → b ≡ is_separator c → IsSegment (if b then [] else c ∷ t)
    part true e = tt
    part false e = (is_separator-ne c (sym e), h)

split_first-IsSegment : (t : Text) → IsSegment (split_first is_separator t)
unfolding split_first
split_first-IsSegment [] = unfold IsSegment in tt
split_first-IsSegment (c ∷ t) = part-IsSegment c _ (split_first-IsSegment t)

-- A document id that is read in a segment is a part of it, and not empty.
doc_id_of_segment-IsSegment :
    (segment id : Text)
    → IsSegment segment
    → doc_id_of_segment segment ≡ some id
    → IsSegment id × (is_empty id ≡ false)
unfolding doc_id_of_segment IsSegment
doc_id_of_segment-IsSegment segment id clean h =
    let (marker, _, e) = elim-eq-some (rfind (codes "_d") segment) _ h in
    let same = non_empty-eq (drop (marker + 2) segment) id e in
    (
      rw (sym same) (All-drop _ (marker + 2) segment clean),
      non_empty-is_empty (some (drop (marker + 2) segment)) id e,
    )

doc_id_of_path-IsSegment :
    (path id : Text) → doc_id_of_path path ≡ some id → IsSegment id × (is_empty id ≡ false)
unfolding doc_id_of_path
doc_id_of_path-IsSegment path id h =
    let (rest, _, e) = elim-eq-some (strip_prefix (codes "/d/") path) _ h in
    doc_id_of_segment-IsSegment (split_first is_separator rest) id (split_first-IsSegment rest) e

-- A document id that a browser URL names is not empty and has no slash, question mark or number
-- sign.
pub doc_id_from_browser_url-IsSegment :
    (url id : Text) → doc_id_from_browser_url url ≡ some id → IsSegment id × (is_empty id ≡ false)
unfolding doc_id_from_browser_url doc_id_of_location
doc_id_from_browser_url-IsSegment url id h =
    let (scheme, _, e) = elim-eq-some (find (codes "://") url) _ h in
    let (slash, _, e') = elim-eq-some (find (codes "/") (drop (scheme + 3) url)) _ e in
    doc_id_of_path-IsSegment (drop slash (drop (scheme + 3) url)) id e'
