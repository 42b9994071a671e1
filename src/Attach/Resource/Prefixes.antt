-- ===== src/Attach/Resource/Prefixes.antt =====
-- The prefixes that src/attach/resource.rs takes off the resource of an ATTACH.
use duckdb_superhuman_docs.Base.{
  ◌≡◌, ◌≢◌, refl, ◌⊎◌, inl, inr, Text, String, List, [], ◌∷◌, ◌++◌, Option, none, some, codes, All,
  Any, strip_prefix, strip_prefix-eq, strip_prefix-append,
}
use duckdb_superhuman_docs.Attach.Resource.{
  attach_resource_prefixes, strip_first, strip_attach_resource_prefix,
}

-- What taking one of some prefixes off a value leaves: what follows one of them, or the whole value
-- if it begins with none of them.
abbrev pub Stripped : List String → Text → Text → Type 0
Stripped prefixes value id =
    Any (λ prefix. value ≡ codes prefix ++ id) prefixes
    ⊎ ((id ≡ value) × All (λ prefix. (rest : Text) → value ≢ codes prefix ++ rest) prefixes)

strip_prefix-Stripped :
    (prefix : String) (prefixes : List String) (value id : Text)
    → Stripped prefixes value id
    → ((rest : Text) → value ≢ codes prefix ++ rest)
    → Stripped (prefix ∷ prefixes) value id
strip_prefix-Stripped prefix prefixes value id (inl found) absent = inl (inr found)
strip_prefix-Stripped prefix prefixes value id (inr (same, all)) absent = inr (same, (absent, all))

strip_first-Stripped :
    (prefixes : List String) (value : Text) → Stripped prefixes value (strip_first prefixes value)
unfolding strip_first
strip_first-Stripped [] value = inr (refl, tt)
strip_first-Stripped (prefix ∷ prefixes) value =
    by_prefix (strip_first-Stripped prefixes value) (strip_prefix (codes prefix) value) refl
  where
    by_prefix :
        Stripped prefixes value (strip_first prefixes value)
        → (o : Option Text) → strip_prefix (codes prefix) value ≡ o
        → Stripped
            (prefix ∷ prefixes)
            value
            (elim o [ some rest ↦ rest | none ↦ strip_first prefixes value ])
    by_prefix later (some rest) e = inl (inl (strip_prefix-eq (codes prefix) value rest e))
    by_prefix later none e =
        strip_prefix-Stripped prefix prefixes value (strip_first prefixes value) later
          (λ rest same. let found = strip_prefix-append (codes prefix) rest in cc)

-- What is left of the resource of an ATTACH, whatever it is: what follows `coda:`, `superhuman:`,
-- `superhuman-docs:` or `superhuman_docs:`, or the whole resource if it begins with none of them.
pub strip_attach_resource_prefix-Stripped :
    (value : Text)
    → Stripped
        ("coda:" ∷ "superhuman:" ∷ "superhuman-docs:" ∷ "superhuman_docs:" ∷ [])
        value
        (strip_attach_resource_prefix value)
unfolding strip_attach_resource_prefix
strip_attach_resource_prefix-Stripped value = strip_first-Stripped attach_resource_prefixes value
