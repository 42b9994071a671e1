-- ===== src/Memory/Strings.antt =====
-- `RustExtString` of src/ffi.rs and its functions in src/ffi/runtime.rs.
use duckdb_superhuman_docs.Base.{
  ℕ, zero, suc, ◌-◌, ◌≡◌, refl, sym, Text, [], ◌∷◌, ◌++◌, Bool, true, false, Option, some, is_empty,
  ◌==◌, if◌then◌else◌, arith,
}
use duckdb_superhuman_docs.Memory.{
  Heap, Mem, Reading, Building, Ptr, null_ptr, block_ptr, part_ptr, static_ptr, Part, Boxed, Buffer,
  and_maybe, allocate, vec_from_raw_parts, slice_from_raw_parts,
}
use duckdb_superhuman_docs.Memory.Utf8.{
  utf8_length, utf8_prefix, utf8_length-positive, utf8_prefix-utf8_length, utf8_prefix-append,
  utf8_length-append,
}
use duckdb_superhuman_docs.Memory.Vectors.{IsHeld-buffer}
use duckdb_superhuman_docs.Memory.Build.{
  Builds, dropping, allocate-Grows, cell-allocate, IsBuilt-none,
}

-- What the blocks hold as texts: a buffer of UTF-8, and the strings of a box.
pub record Contents (B : Type 0) : Type 0 where
  pub text : Boxed B Text
  pub part : Part → B → Option Text

-- the buffer of a text, whose capacity is its length in bytes
abbrev pub bytes : {B : Type 0} → Contents B → Buffer B ℕ
bytes contents = record {
  wrap = contents.text.wrap;
  unwrap = contents.text.unwrap;
  size = utf8_length;
  read = utf8_prefix;
  wrapped = contents.text.wrapped;
  read_whole = utf8_prefix-utf8_length;
  positive = utf8_length-positive;
}

-- `RustExtString`
pub record FfiString : Type 0 where
  pub ptr : Ptr
  pub len : ℕ

-- `RustExtString::default()`
abbrev pub empty_string : FfiString
empty_string = record { ptr = null_ptr; len = 0 }

-- `borrow_string`; the place of the text is the pointer
unfoldable pub borrow_string : Ptr → Text → FfiString
borrow_string place value = record { ptr = place; len = utf8_length value }

unfoldable pub ends_in_nul : Text → Bool
ends_in_nul [] = false
ends_in_nul (c ∷ []) = c == 0
ends_in_nul (c ∷ d ∷ rest) = ends_in_nul (d ∷ rest)

unfoldable pub c_static_string : Text → FfiString
unfolding ends_in_nul
c_static_string value = record {
  ptr = static_ptr value;
  len = utf8_length value - (if ends_in_nul value then 1 else 0);
}

module _ {B : Type 0} (contents : Contents B) where
  unfoldable pub alloc_string : Text → Building B FfiString
  unfolding allocate
  alloc_string value h =
      if is_empty value
      then (empty_string, h)
      else (let (a, h') = allocate (contents.text.wrap value) h in
          (record { ptr = block_ptr a; len = utf8_length value }, h'))

  -- `str_from_raw(ptr, len)`, which `as_str` and `str_from_raw` share
  unfoldable pub str_from_raw : Ptr → ℕ → Reading B Text
  unfolding slice_from_raw_parts
  str_from_raw null_ptr len h = slice_from_raw_parts (bytes contents) null_ptr len h
  str_from_raw (block_ptr a) len h = slice_from_raw_parts (bytes contents) (block_ptr a) len h
  str_from_raw (part_ptr a part) zero h = some []
  str_from_raw (part_ptr a part) (suc len) h =
      and_maybe (and_maybe (h.cell a) (contents.part part)) (utf8_prefix (suc len))
  str_from_raw (static_ptr text) zero h = some []
  str_from_raw (static_ptr text) (suc len) h = utf8_prefix (suc len) text

  unfoldable pub as_str : FfiString → Reading B Text
  unfolding str_from_raw
  as_str s = str_from_raw s.ptr s.len

  -- `RustExtString::free`
  unfoldable pub free : FfiString → Mem B (Unit {0})
  unfolding vec_from_raw_parts
  free s = dropping (vec_from_raw_parts (bytes contents) s.ptr s.len)

  -- A text that is allocated reads as itself, and is freed by `free`.
  pub alloc_string-Builds : Builds as_str free alloc_string (λ t. t)
  unfolding alloc_string as_str free
  alloc_string-Builds [] h = IsBuilt-none _ _ [] h (λ g. refl) (λ g. refl)
  alloc_string-Builds (c ∷ t) h =
      let content = contents.text.wrap (c ∷ t) in
      (
        allocate-Grows content h,
        IsHeld-buffer (bytes contents) h.next c t (allocate content h).1 (cell-allocate content h),
      )

  module _ (a : ℕ) (part : Part) (b : B) (h : Heap B) where
    -- A text that is borrowed from a live box reads as itself.
    pub as_str-borrow_string :
        (t : Text)
        → h.cell a ≡ some b
        → contents.part part b ≡ some t
        → as_str (borrow_string (part_ptr a part) t) h ≡ some t
    unfolding as_str borrow_string utf8_length
    as_str-borrow_string [] e holds = refl
    as_str-borrow_string (c ∷ t) e holds =
        let (n, len) = utf8_length-positive c t in
        let whole : utf8_prefix (suc n) (c ∷ t) ≡ some (c ∷ t) =
          rw (sym len) (utf8_prefix-utf8_length (c ∷ t)) in
        rw (len, e, holds) whole

  str_from_raw-static :
      (n : ℕ) (t s : Text) (h : Heap B)
      → utf8_length t ≡ n
      → str_from_raw (static_ptr (t ++ s)) n h ≡ some t
  unfolding str_from_raw utf8_length
  str_from_raw-static zero [] s h e = refl
  str_from_raw-static (suc n) [] s h e = absurd (omega (arith, e))
  str_from_raw-static zero (c ∷ t) s h e = absurd (omega (arith, e, (utf8_length-positive c t).1))
  str_from_raw-static (suc n) (c ∷ t) s h e = rw (sym e) (utf8_prefix-append (c ∷ t) s)

  ends_in_nul-append : (t : Text) → ends_in_nul (t ++ 0 ∷ []) ≡ true
  unfolding ends_in_nul
  ends_in_nul-append [] = refl
  ends_in_nul-append (c ∷ []) = refl
  ends_in_nul-append (c ∷ d ∷ t) = ends_in_nul-append (d ∷ t)

  -- A text of the program that ends in a NUL is borrowed without it.
  pub as_str-c_static_string :
      (t : Text) (h : Heap B) → as_str (c_static_string (t ++ 0 ∷ [])) h ≡ some t
  unfolding as_str c_static_string utf8_length
  as_str-c_static_string t h =
      let ends = ends_in_nul-append t in
      let len = utf8_length-append t (0 ∷ []) in
      str_from_raw-static _ t (0 ∷ []) h (rw (ends, len) (omega arith))
