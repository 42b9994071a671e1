-- ===== src/Memory.antt =====
-- src/ffi/runtime.rs: the memory that the extension and DuckDB share. A heap is a set of blocks,
-- each an allocation with an address of its own; `B` is what a block holds. A call that Rust leaves
-- undefined (a dangling pointer, a block of another type, a second free, a wrong capacity) is `none`.
-- A pointer is null, the start of a block, a text inside a block, or a text outside the heap, which is
-- the program's or DuckDB's own.
pub mod Utf8
pub mod Owned
pub mod Build
pub mod Vectors
pub mod Strings
mod Tests
use duckdb_superhuman_docs.Base.{
  ℕ, zero, suc, ◌+◌, ◌≡◌, Text, List, [], ◌∷◌, Bool, true, false, Option, none, some, Result, ok,
  err, Error, String, codes, is_empty, length, ltb, take, ◌==◌, ◌||◌, if◌then◌else◌,
  missing_pointer,
}

-- the strings of the boxes that a text is borrowed from
pub data Part : Type 0 where
  column_name column_type column_alias table_name row_id row_created_at row_updated_at : Part
  config_resource : Part

pub data Ptr : Type 0 where
  null_ptr : Ptr
  block_ptr : ℕ → Ptr
  part_ptr : ℕ → Part → Ptr
  static_ptr : Text → Ptr

pub record Heap (B : Type 0) : Type 0 where
  pub next : ℕ
  pub cell : ℕ → Option B

-- A step that allocates, and one that reads or frees.
abbrev pub Building : Type 0 → Type 0 → Type 0
Building B A = Heap B → A × Heap B

abbrev pub Mem : Type 0 → Type 0 → Type 0
Mem B A = Heap B → Option (A × Heap B)

abbrev pub Reading : Type 0 → Type 0 → Type 0
Reading B A = Heap B → Option A

abbrev pub and_maybe : {A C : Type 0} → Option A → (A → Option C) → Option C
and_maybe none f = none
and_maybe (some a) f = f a

abbrev pub is_null_ptr : Ptr → Bool
is_null_ptr null_ptr = true
is_null_ptr (block_ptr a) = false
is_null_ptr (part_ptr a part) = false
is_null_ptr (static_ptr text) = false

-- What is stored in a block as a box.
pub record Boxed (B C : Type 0) : Type 0 where
  pub wrap : C → B
  pub unwrap : B → Option C
  pub wrapped : (c : C) → unwrap (wrap c) ≡ some c

-- What is stored as the buffer of a vector: `size` is its capacity, and `read` what a slice of a
-- length shows of it, if it is that long.
pub record Buffer (B X : Type 0) : Type 0 where
  pub wrap : List X → B
  pub unwrap : B → Option (List X)
  pub size : List X → ℕ
  pub read : ℕ → List X → Option (List X)
  pub wrapped : (xs : List X) → unwrap (wrap xs) ≡ some xs
  pub read_whole : (xs : List X) → read (size xs) xs ≡ some xs
  pub positive : (x : X) (xs : List X) → (n : ℕ) × (size (x ∷ xs) ≡ suc n)

-- a slice of a vector of values
abbrev pub read_values : {X : Type 0} → ℕ → List X → Option (List X)
read_values n xs = if ltb (length xs) n then none else some (take n xs)

module _ {B : Type 0} where
  abbrev pub set : ℕ → Option B → (ℕ → Option B) → ℕ → Option B
  set a content cell x = if x == a then content else cell x

  unfoldable pub allocate : B → Building B ℕ
  allocate content h =
      (h.next, record { next = suc h.next; cell = set h.next (some content) h.cell })

  unfoldable pub deallocate : ℕ → Heap B → Heap B
  deallocate a h = record h { cell = set a none h.cell }

  -- a pointer to a new block
  abbrev pub placed : ℕ × Heap B → Ptr × Heap B
  placed (a, h) = (block_ptr a, h)

  -- a block that is taken out of the heap
  abbrev pub removed : {C : Type 0} → ℕ → Option C → Mem B C
  removed a none h = none
  removed a (some c) h = some (c, deallocate a h)

  module _ {C : Type 0} (boxed : Boxed B C) where
    -- `Box::into_raw(Box::new(c))`
    unfoldable pub into_raw : C → Building B Ptr
    unfolding allocate
    into_raw c h = placed (allocate (boxed.wrap c) h)

    -- `&*ptr`
    unfoldable pub deref : Ptr → Reading B C
    deref (block_ptr a) h = and_maybe (h.cell a) boxed.unwrap
    deref null_ptr h = none
    deref (part_ptr a part) h = none
    deref (static_ptr text) h = none

    -- `Box::from_raw(ptr)`
    unfoldable pub from_raw : Ptr → Mem B C
    unfolding deref deallocate
    from_raw (block_ptr a) h = removed a (deref (block_ptr a) h) h
    from_raw null_ptr h = none
    from_raw (part_ptr a part) h = none
    from_raw (static_ptr text) h = none

    -- `*ptr = c`, of a box
    unfoldable pub put : Ptr → C → Heap B → Heap B
    put (block_ptr a) c h = record h { cell = set a (some (boxed.wrap c)) h.cell }
    put null_ptr c h = h
    put (part_ptr a part) c h = h
    put (static_ptr text) c h = h

    -- `ref_from_raw(ptr, name)` and `mut_from_raw(ptr, name)`, whose error is for the null pointer alone
    unfoldable pub ref_from_raw : Ptr → String → Reading B (Result C)
    unfolding deref
    ref_from_raw ptr name h =
        if is_null_ptr ptr
        then some (err (missing_pointer (codes name)))
        else and_maybe (deref ptr h) λ c. some (ok c)

  module _ {X : Type 0} (buffer : Buffer B X) where
    unfoldable pub vec_into_raw_parts : List X → Building B (Ptr × ℕ)
    unfolding allocate
    vec_into_raw_parts [] h = ((null_ptr, 0), h)
    vec_into_raw_parts (x ∷ xs) h =
        let (ptr, h') = placed (allocate (buffer.wrap (x ∷ xs)) h) in
        ((ptr, buffer.size (x ∷ xs)), h')

    -- the vector of a block, if it has the capacity
    abbrev pub of_capacity : ℕ → Option (List X) → Option (List X)
    of_capacity len none = none
    of_capacity len (some xs) = if buffer.size xs == len then some xs else none

    unfoldable pub vec_from_raw_parts : Ptr → ℕ → Mem B (List X)
    unfolding deallocate
    vec_from_raw_parts null_ptr len h = some ([], h)
    vec_from_raw_parts (block_ptr a) len h =
        removed a (of_capacity len (and_maybe (h.cell a) buffer.unwrap)) h
    vec_from_raw_parts (part_ptr a part) len h = none
    vec_from_raw_parts (static_ptr text) len h = none

    unfoldable pub slice_from_raw_parts : Ptr → ℕ → Reading B (List X)
    slice_from_raw_parts ptr zero h = some []
    slice_from_raw_parts null_ptr (suc len) h = some []
    slice_from_raw_parts (block_ptr a) (suc len) h =
        and_maybe (and_maybe (h.cell a) buffer.unwrap) (buffer.read (suc len))
    slice_from_raw_parts (part_ptr a part) (suc len) h = none
    slice_from_raw_parts (static_ptr text) (suc len) h = none

  -- a loop over the items of a vector that frees each of them
  unfoldable pub for_each : {X : Type 0} → (X → Mem B (Unit {0})) → List X → Mem B (Unit {0})
  for_each release [] h = some (tt, h)
  for_each release (x ∷ xs) h = and_maybe (release x h) λ done. for_each release xs done.1

  -- `items.into_iter().map(build).collect()`
  unfoldable pub map_each : {X A : Type 0} → (X → Building B A) → List X → Building B (List A)
  map_each build [] h = ([], h)
  map_each build (x ∷ xs) h =
      let (a, h₁) = build x h in let (items, h₂) = map_each build xs h₁ in (a ∷ items, h₂)

  -- what a loop over the items of a vector reads
  unfoldable pub read_each : {X A : Type 0} → (A → Reading B X) → List A → Reading B (List X)
  read_each view [] h = some []
  read_each view (a ∷ items) h =
      and_maybe (view a h) λ x. and_maybe (read_each view items h) λ xs. some (x ∷ xs)

  module _ {A : Type 0} (buffer : Buffer B A) where
    -- the items of a vector, built one after the other
    unfoldable pub build_vec : {X : Type 0} → (X → Building B A) → List X → Building B (Ptr × ℕ)
    unfolding map_each vec_into_raw_parts
    build_vec build xs h =
        let (items, h') = map_each build xs h in vec_into_raw_parts buffer items h'

    -- what is read through a pointer to items and their number
    unfoldable pub read_vec : {X : Type 0} → (A → Reading B X) → Ptr × ℕ → Reading B (List X)
    unfolding slice_from_raw_parts read_each
    read_vec view (ptr, len) h =
        and_maybe (slice_from_raw_parts buffer ptr len h) λ items. read_each view items h

    -- `for item in vec_from_raw_parts(ptr, len)` with a body that frees the item
    unfoldable pub free_vec : (A → Mem B (Unit {0})) → Ptr × ℕ → Mem B (Unit {0})
    unfolding vec_from_raw_parts for_each
    free_vec release (ptr, len) h =
        and_maybe (vec_from_raw_parts buffer ptr len h) λ r. for_each release r.0 r.1
