-- ===== src/Memory/Tests.antt =====
-- Strings in a heap of texts: what is read, and what is undefined.
use duckdb_superhuman_docs.Base.{◌≡◌, refl, Text, [], ◌∷◌, ◌++◌, none, some, codes}
use duckdb_superhuman_docs.Memory.{
  Heap, block_ptr, and_maybe, set, allocate, deallocate, vec_from_raw_parts, slice_from_raw_parts,
}
use duckdb_superhuman_docs.Memory.Utf8.{utf8_length, utf8_prefix, whole_chars}
use duckdb_superhuman_docs.Memory.Strings.{
  Contents, FfiString, alloc_string, as_str, str_from_raw, free, borrow_string, c_static_string,
  ends_in_nul,
}

abbrev texts : Contents Text
texts = record {
  text = record { wrap = λ t. t; unwrap = λ t. some t; wrapped = λ t. refl };
  part = λ part t. none;
}

abbrev empty : Heap Text
empty = record { next = 1; cell = λ x. none }

-- Two bytes and one.
abbrev umlaut : Text
umlaut = 252 ∷ 98 ∷ []

abbrev held : Heap Text
held = record empty { next = 2; cell = set 1 (some umlaut) empty.cell }

abbrev whole : FfiString
whole = record { ptr = block_ptr 1; len = 3 }

computing : Unit {0}
unfolding alloc_string as_str str_from_raw free borrow_string c_static_string ends_in_nul
    utf8_length utf8_prefix whole_chars allocate deallocate vec_from_raw_parts slice_from_raw_parts
computing = tt

allocated : (alloc_string texts umlaut empty).0 ≡ whole
unfolding computing
allocated = refl

read_whole : as_str texts whole held ≡ some umlaut
unfolding computing
read_whole = refl

-- A slice that ends within a character is no UTF-8, and reads as the empty text.
read_cut : as_str texts (record whole { len = 1 }) held ≡ some []
unfolding computing
read_cut = refl

-- A slice that is too long is undefined.
read_beyond : as_str texts (record whole { len = 4 }) held ≡ none
unfolding computing
read_beyond = refl

-- So are a wrong capacity, and a second free.
free_part : free texts (record whole { len = 1 }) held ≡ none
unfolding computing
free_part = refl

free_twice : and_maybe (free texts whole held) (λ r. free texts whole r.1) ≡ none
unfolding computing
free_twice = refl

read_freed : and_maybe (free texts whole held) (λ r. as_str texts whole r.1) ≡ none
unfolding computing
read_freed = refl

read_static : as_str texts (c_static_string (codes "rowid" ++ 0 ∷ [])) empty ≡ some (codes "rowid")
unfolding computing
read_static = refl
