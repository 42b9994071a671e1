-- ===== src/Json/Catalog/Naming/Unique.antt =====
-- The names that `prepare_columns` gives: a free name is found, the names differ without regard to
-- case, nothing else changes, and names that differ already are kept.
use mathlib.Core.List.{append-nil, append_assoc, map-append}
use native.Mathlib.Nat.{add-zero, zero-add}
use duckdb_superhuman_docs.Base.{
  ℕ, zero, suc, ◌+◌, ◌<◌, ◌≡◌, ◌≢◌, refl, ap, sym, ◌∙◌, Text, List, [], ◌∷◌, ◌++◌, true, false,
  length, is_empty, none, some, arith, inl, inr, map, All, All-append, length-append, length-map,
  append-cancel_left, Option-cases,
}
use duckdb_superhuman_docs.Base.Ascii.{
  eq_ignore_ascii_case, to_ascii_lowercase, to_ascii_lowercase-append,
}
use duckdb_superhuman_docs.Base.Decimal.{to_string, lower-to_string, to_string-injective}
use duckdb_superhuman_docs.Model.{Column}
use duckdb_superhuman_docs.Json.Catalog.Naming.{
  taken, numbered, search, base_name, free_name, prepare_from, prepare_columns,
}
use duckdb_superhuman_docs.Json.Catalog.Naming.Pigeonhole.{contains, pigeonhole}

abbrev lowered : List Column → List Text
lowered = map (λ column. to_ascii_lowercase column.name)

taken-contains :
    (earlier : List Column) (name : Text)
    → taken earlier name ≡ contains (to_ascii_lowercase name) (lowered earlier)
unfolding taken eq_ignore_ascii_case
taken-contains [] name = refl
taken-contains (c ∷ earlier) name = rw (taken-contains earlier name)

-- The names that the search tries, in order.
candidate : Text → ℕ → Text
candidate base zero = base
candidate base (suc i) = numbered base (suc (suc i))

lower-numbered :
    (base : Text) (k : ℕ)
    → to_ascii_lowercase (numbered base k) ≡ to_ascii_lowercase base ++ (b'_' ∷ to_string k)
unfolding numbered
lower-numbered base k =
    to_ascii_lowercase-append base (b'_' ∷ to_string k)
    ∙ ap (λ t. to_ascii_lowercase base ++ t) (lower_suffix (to_string k) (lower-to_string k))
  where
    lower_suffix : (t : Text) → to_ascii_lowercase t ≡ t → to_ascii_lowercase (b'_' ∷ t) ≡ b'_' ∷ t
    lower_suffix t e = unfold to_ascii_lowercase in ap (λ r. b'_' ∷ r) e

append-ne_self : (s t : Text) (c : ℕ) → s ++ c ∷ t ≢ s
append-ne_self s t c e = absurd (omega (arith, length-append {0} s (c ∷ t), ap length e))

candidate-injective :
    (base : Text) (i j : ℕ)
    → to_ascii_lowercase (candidate base i) ≡ to_ascii_lowercase (candidate base j)
    → i ≡ j
unfolding candidate
candidate-injective base zero zero e = refl
candidate-injective base zero (suc j) e =
    absurd (append-ne_self _ _ _ (sym (e ∙ lower-numbered base (suc (suc j)))))
candidate-injective base (suc i) zero e =
    absurd (append-ne_self _ _ _ (sym (lower-numbered base (suc (suc i))) ∙ e))
candidate-injective base (suc i) (suc j) e =
    let same =
      append-cancel_left (to_ascii_lowercase base) _ _
        (sym (lower-numbered base (suc (suc i))) ∙ e ∙ lower-numbered base (suc (suc j))) in
    omega (
      arith,
      to_string-injective (suc (suc i)) (suc (suc j)) (append-cancel_left (b'_' ∷ []) _ _ same),
    )

search-none_step :
    (fuel : ℕ) (earlier : List Column) (base : Text) (i : ℕ)
    → search (suc fuel) earlier base (suc i) (candidate base i) ≡ none
    → (taken earlier (candidate base i) ≡ true)
      × (search fuel earlier base (suc (suc i)) (candidate base (suc i)) ≡ none)
unfolding search candidate
search-none_step fuel earlier base i h = ground arith

search-none :
    (fuel : ℕ) (earlier : List Column) (base : Text) (i : ℕ)
    → search fuel earlier base (suc i) (candidate base i) ≡ none
    → (j : ℕ) → j < fuel
    → taken earlier (candidate base (i + j)) ≡ true
search-none zero earlier base i h j lt = absurd (omega arith)
search-none (suc fuel) earlier base i h zero lt =
    rw add-zero (search-none_step fuel earlier base i h).0
search-none (suc fuel) earlier base i h (suc j) lt =
    let shift : i + suc j ≡ suc i + j = omega arith in
    rw shift (
      search-none fuel earlier base (suc i) (search-none_step fuel earlier base i h).1 j
        (omega arith))

search-free :
    (fuel : ℕ) (earlier : List Column) (base : Text) (suffix : ℕ) (tried name : Text)
    → search fuel earlier base suffix tried ≡ some name
    → taken earlier name ≡ false
unfolding search
search-free zero earlier base suffix tried name h = cc
search-free (suc fuel) earlier base suffix tried name h =
    ground (arith, search-free fuel earlier base (suc suffix) (numbered base (suc suffix)) name)

-- Among one more candidate than there are earlier columns one is free.
free_name-total :
    (earlier : List Column) (original : Text)
    → (name : Text) × (free_name earlier original ≡ some name)
unfolding free_name
free_name-total earlier original = elim (Option-cases (free_name earlier original)) [
  | inr found ↦ found
  | inl stuck ↦
      let base = base_name original in
      let busy = search-none (suc (length earlier)) earlier base 0 (unfold candidate in stuck) in
      absurd (
        omega (
          arith,
          length-map {0, 0} (λ (c : Column). to_ascii_lowercase c.name) earlier,
          pigeonhole (λ k. to_ascii_lowercase (candidate base k)) (suc (length earlier))
              (lowered earlier) (candidate-injective base)
              (λ k lt. sym (taken-contains earlier (candidate base k)) ∙ zero_plus k (busy k lt)),
        ))
]
  where
    zero_plus :
        (k : ℕ)
        → taken earlier (candidate (base_name original) (0 + k)) ≡ true
        → taken earlier (candidate (base_name original) k) ≡ true
    zero_plus k h = rw zero-add at h

free_name-free :
    (earlier : List Column) (original name : Text)
    → free_name earlier original ≡ some name
    → taken earlier name ≡ false
unfolding free_name
free_name-free earlier original name h =
    search-free (suc (length earlier)) earlier (base_name original) 1 (base_name original) name h

-- No two of the columns have names that agree but for ASCII case.
abbrev pub Distinct : List Column → Type 0
Distinct [] = Unit
Distinct (c ∷ cs) = All (λ d. eq_ignore_ascii_case c.name d.name ≡ false) cs × Distinct cs

Distinct-snoc :
    (earlier : List Column) (c : Column)
    → Distinct earlier
    → taken earlier c.name ≡ false
    → Distinct (earlier ++ c ∷ [])
unfolding taken
Distinct-snoc [] c d h = (tt, tt)
Distinct-snoc (e ∷ earlier) c (apart, d) h = (
  All-append (λ x. eq_ignore_ascii_case e.name x.name ≡ false) earlier (c ∷ []) apart
      (ground arith, tt),
  Distinct-snoc earlier c d (ground arith),
)

-- A column but for its name.
abbrev pub anonymous : Column → Column
anonymous column = record column { name = [] }

-- What a list of prepared columns has in common with the columns it was made of.
pub record IsPrepared (columns prepared : List Column) : Type 0 where
  pub distinct : Distinct prepared
  pub same : map anonymous prepared ≡ map anonymous columns

prepare_from-IsPrepared :
    (earlier columns : List Column)
    → Distinct earlier
    → (prepared : List Column) × (prepare_from earlier columns ≡ some prepared)
      × Distinct prepared
      × (map anonymous prepared ≡ map anonymous (earlier ++ columns))
unfolding prepare_from
prepare_from-IsPrepared earlier [] d =
    (earlier, refl, d, ap (map anonymous) (sym (append-nil earlier)))
prepare_from-IsPrepared earlier (c ∷ columns) d =
    let (name, found) = free_name-total earlier c.name in
    let named : Column = record c { name = name } in
    let (prepared, done, distinct, same) =
      prepare_from-IsPrepared (earlier ++ named ∷ []) columns
        (Distinct-snoc earlier named d (free_name-free earlier c.name name found)) in
    rw (found, prepare_from) (prepared, done, distinct, same ∙ rename name)
  where
    rename :
        (name : Text)
        → map anonymous ((earlier ++ record c { name = name } ∷ []) ++ columns)
          ≡ map anonymous (earlier ++ c ∷ columns)
    rename name = simp (map-append, append_assoc)

-- Column preparation always ends with names that differ pairwise without regard to ASCII case, and
-- changes nothing of the columns but their names, nor their order or number.
pub prepare_columns-IsPrepared :
    (columns : List Column)
    → (prepared : List Column) × (prepare_columns columns ≡ some prepared)
      × IsPrepared columns prepared
unfolding prepare_columns
prepare_columns-IsPrepared columns =
    let (prepared, done, distinct, same) = prepare_from-IsPrepared [] columns tt in
    (prepared, done, record { distinct = distinct; same = same })

-- A column behind distinct ones is not among those before it.
Distinct-append :
    (earlier : List Column) (c : Column) (columns : List Column)
    → Distinct (earlier ++ c ∷ columns)
    → taken earlier c.name ≡ false
unfolding taken
Distinct-append [] c columns d = refl
Distinct-append (e ∷ earlier) c columns (apart, d) =
    let here = middle earlier apart in
    let there = Distinct-append earlier c columns d in rw (here, there)
  where
    middle :
        (l : List Column)
        → All (λ x. eq_ignore_ascii_case e.name x.name ≡ false) (l ++ c ∷ columns)
        → eq_ignore_ascii_case e.name c.name ≡ false
    middle [] (h, _) = h
    middle (x ∷ l) (_, h) = middle l h

abbrev pub IsNamed : Column → Type 0
IsNamed column = is_empty column.name ≡ false

free_name-kept :
    (earlier : List Column) (original : Text)
    → is_empty original ≡ false
    → taken earlier original ≡ false
    → free_name earlier original ≡ some original
unfolding free_name
free_name-kept earlier original named free = rw (named, free)

prepare_from-kept :
    (earlier columns : List Column)
    → Distinct (earlier ++ columns)
    → All IsNamed columns
    → prepare_from earlier columns ≡ some (earlier ++ columns)
unfolding prepare_from
prepare_from-kept earlier [] d n = ap some (sym (append-nil earlier))
prepare_from-kept earlier (c ∷ columns) d (named, n) =
    let shift : (earlier ++ c ∷ []) ++ columns ≡ earlier ++ c ∷ columns =
      append_assoc earlier (c ∷ []) columns in
    rw (free_name-kept earlier c.name named (Distinct-append earlier c columns d), prepare_from)
      (prepare_from-kept (earlier ++ c ∷ []) columns (rw shift d) n ∙ ap some shift)

-- Columns whose names are not empty and differ already, without regard to ASCII case, are kept as
-- they are.
pub prepare_columns-kept :
    (columns : List Column)
    → Distinct columns
    → All IsNamed columns
    → prepare_columns columns ≡ some columns
unfolding prepare_columns
prepare_columns-kept columns d n = prepare_from-kept [] columns d n
