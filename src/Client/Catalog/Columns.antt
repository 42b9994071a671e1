-- ===== src/Client/Catalog/Columns.antt =====
-- The columns of a loaded catalog: those that the service listed, and those with a row's times.
use duckdb_superhuman_docs.Base.{
  ◌≡◌, refl, ◌⊎◌, inl, inr, List, [], ◌∷◌, Bool, true, false, if◌then◌else◌, All, All-append, map,
  codes,
}
use mathlib.Core.Path.{subst}
use duckdb_superhuman_docs.Json.Catalog.Tables.Capabilities.{HasColumnRights}
use duckdb_superhuman_docs.Json.Catalog.Types.{append_row_metadata}
use duckdb_superhuman_docs.Json.Catalog.Naming.Unique.{anonymous}
use duckdb_superhuman_docs.Model.{Column}
use duckdb_superhuman_docs.Model.Capability.{
  has_capability, column_generated, column_system, column_editable, column_sort_asc,
}

-- One of the columns with the times of a row: the system's, computed, sorted on and not written.
pub record IsMetadata (c : Column) : Type 0 where
  pub system : has_capability c.capabilities column_system ≡ true
  pub generated : has_capability c.capabilities column_generated ≡ true
  pub editable : has_capability c.capabilities column_editable ≡ false
  pub sorted : has_capability c.capabilities column_sort_asc ≡ true
  pub which : (c.id ≡ codes "createdAt") ⊎ (c.id ≡ codes "updatedAt")

-- A column that the service listed, or, if they were asked for, one of the columns with the times.
abbrev pub IsCatalogColumn : Bool → Column → Type 0
IsCatalogColumn include c = HasColumnRights c ⊎ ((include ≡ true) × IsMetadata c)

-- The rights do not depend on the name.
pub renamed :
    (include : Bool) (c d : Column)
    → anonymous c ≡ anonymous d
    → IsCatalogColumn include c
    → IsCatalogColumn include d
renamed include c d e h = back d (subst (IsCatalogColumn include) e (forth c h))
  where
    forth : (c : Column) → IsCatalogColumn include c → IsCatalogColumn include (anonymous c)
    forth c (inl r) = inl (record {
      editable = r.editable;
      system = r.system;
      filter = r.filter;
      typed = r.typed;
      aliased = r.aliased;
    })
    forth c (inr (i, m)) = inr (
      i,
      record {
        system = m.system;
        generated = m.generated;
        editable = m.editable;
        sorted = m.sorted;
        which = m.which;
      },
    )

    back : (c : Column) → IsCatalogColumn include (anonymous c) → IsCatalogColumn include c
    back c (inl r) = inl (record {
      editable = r.editable;
      system = r.system;
      filter = r.filter;
      typed = r.typed;
      aliased = r.aliased;
    })
    back c (inr (i, m)) = inr (
      i,
      record {
        system = m.system;
        generated = m.generated;
        editable = m.editable;
        sorted = m.sorted;
        which = m.which;
      },
    )

pub All-renamed :
    (include : Bool) (cs ds : List Column)
    → map anonymous ds ≡ map anonymous cs
    → All (IsCatalogColumn include) cs
    → All (IsCatalogColumn include) ds
All-renamed include cs [] e h = tt
All-renamed include [] (d ∷ ds) e h = cc
All-renamed include (c ∷ cs) (d ∷ ds) e (p, h) =
    let head : anonymous c ≡ anonymous d = cc in
    let tail : map anonymous ds ≡ map anonymous cs = cc in
    (renamed include c d head p, All-renamed include cs ds tail h)

All-listed :
    (include : Bool) (cs : List Column) → All HasColumnRights cs → All (IsCatalogColumn include) cs
All-listed include [] h = tt
All-listed include (c ∷ cs) (p, h) = (inl p, All-listed include cs h)

pub with_metadata :
    (include : Bool) (cs : List Column)
    → All HasColumnRights cs
    → All (IsCatalogColumn include) (if include then append_row_metadata cs else cs)
unfolding append_row_metadata has_capability
with_metadata false cs h = All-listed false cs h
with_metadata true cs h = All-append (IsCatalogColumn true) cs _ (All-listed true cs h) (
  inr (
    refl,
    record { system = refl; generated = refl; editable = refl; sorted = refl; which = inl refl },
  ),
  (
    inr (
      refl,
      record { system = refl; generated = refl; editable = refl; sorted = refl; which = inr refl },
    ),
    tt,
  ),
)
