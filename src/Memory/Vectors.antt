-- ===== src/Memory/Vectors.antt =====
-- Vectors that are handed out as a pointer and a length.
use duckdb_superhuman_docs.Base.{
  ℕ, suc, ◌≤◌, ◌<◌, ◌≡◌, refl, sym, ◌∙◌, List, [], ◌∷◌, map, true, false, Option, some, ◌==◌,
  Bool-cases, inl, inr, true-ne-false, arith,
}
use duckdb_superhuman_docs.Memory.{
  Heap, Mem, Reading, Building, block_ptr, Buffer, allocate, deallocate, vec_into_raw_parts,
  vec_from_raw_parts, slice_from_raw_parts, for_each, map_each, read_each, build_vec, read_vec,
  free_vec,
}
use duckdb_superhuman_docs.Memory.Owned.{
  Own, within, either, Disjoint, IsHeld, Grows, IsHeld-both, IsHeld-same, IsHeld-later,
  IsHeld-Grows, Grows-refl, Grows-trans, within-either_sym,
}
use duckdb_superhuman_docs.Memory.Build.{
  IsBuilt, Builds, dropping, within-here, deallocate-IsCleared, allocate-Grows, cell-allocate,
  within-none, map_each-Builds,
}

apart : (a : ℕ) (own : Own) → own a ≡ false → Disjoint (within a (suc a)) own
apart a own e x mine = elim (Bool-cases (within a (suc a) x)) [
  | inr other ↦ other
  | inl same ↦ let here : x ≡ a = ground arith in absurd (true-ne-false (sym mine ∙ (rw here e)))
]

pub within-end : (a b : ℕ) → within a b b ≡ false
within-end a b = ground arith

module _ {B A : Type 0} (buffer : Buffer B A) where
  module _ (a : ℕ) (item : A) (items : List A) (h : Heap B)
      (e : h.cell a ≡ some (buffer.wrap (item ∷ items))) where
    slice-block :
        slice_from_raw_parts buffer (block_ptr a) (buffer.size (item ∷ items)) h
        ≡ some (item ∷ items)
    unfolding slice_from_raw_parts
    slice-block =
        let (n, len) = buffer.positive item items in
        let reads : buffer.read (suc n) (item ∷ items) ≡ some (item ∷ items) =
          rw (sym len) (buffer.read_whole (item ∷ items)) in
        rw (len, e, buffer.wrapped (item ∷ items)) reads

    abbrev emptied : Option (List A × Heap B)
    emptied = some (item ∷ items, deallocate a h)

    vec_from_raw_parts-block :
        vec_from_raw_parts buffer (block_ptr a) (buffer.size (item ∷ items)) h ≡ emptied
    unfolding vec_from_raw_parts
    vec_from_raw_parts-block =
        rw (e, buffer.wrapped (item ∷ items), same (buffer.size (item ∷ items))) refl
      where
        same : (n : ℕ) → (n == n) ≡ true
        same n = ground arith

  -- The buffer of a vector that is not empty.
  pub IsHeld-buffer :
      (a : ℕ) (item : A) (items : List A) (h : Heap B)
      → h.cell a ≡ some (buffer.wrap (item ∷ items))
      → IsHeld
          (within a (suc a))
          (slice_from_raw_parts buffer (block_ptr a) (buffer.size (item ∷ items)))
          (dropping (vec_from_raw_parts buffer (block_ptr a) (buffer.size (item ∷ items))))
          (item ∷ items)
          h
  IsHeld-buffer a item items h e g agree =
      let here = agree a (within-here a) ∙ e in
      (
        slice-block a item items g here,
        (
          deallocate a g,
          rw (vec_from_raw_parts-block a item items g here) refl,
          deallocate-IsCleared a g,
        ),
      )

  pub vec_into_raw_parts-Grows :
      (items : List A) (h : Heap B) → Grows h (vec_into_raw_parts buffer items h).1
  unfolding vec_into_raw_parts allocate
  vec_into_raw_parts-Grows [] h = Grows-refl h
  vec_into_raw_parts-Grows (item ∷ items) h = allocate-Grows (buffer.wrap (item ∷ items)) h

  module _ {Y : Type 0} (view : A → Reading B Y) (release : A → Mem B (Unit {0})) where
    -- The buffer and the items, wherever the items are.
    pub IsHeld-vec :
        (a : ℕ) (own : Own) (item : A) (items : List A) (ys : List Y) (h : Heap B)
        → h.cell a ≡ some (buffer.wrap (item ∷ items))
        → own a ≡ false
        → IsHeld own (read_each view (item ∷ items)) (for_each release (item ∷ items)) ys h
        → IsHeld
            (either (within a (suc a)) own)
            (read_vec buffer view (block_ptr a, buffer.size (item ∷ items)))
            (free_vec buffer release (block_ptr a, buffer.size (item ∷ items)))
            ys
            h
    unfolding read_vec free_vec
    IsHeld-vec a own item items ys h e outside held g agree =
        let here = agree a (rw (within-here a) refl) ∙ e in
        let (e₁, e₂, (g', s, c)) =
          IsHeld-both (within a (suc a)) own _ _ _ _ (item ∷ items) ys h g (apart a own outside)
            (IsHeld-buffer a item items h e) held agree in
        (rw e₁ e₂, (g', rw (vec_from_raw_parts-block a item items g here) refl ∙ s, c))

    -- The buffer behind the items, which may stand apart from it.
    IsHeld-vec_into :
        (own : Own) (items : List A) (ys : List Y) (h : Heap B)
        → ((z : ℕ) → own z ≡ true → z < h.next)
        → IsHeld own (read_each view items) (for_each release items) ys h
        → Grows h (vec_into_raw_parts buffer items h).1
          × IsHeld
              (either (within h.next (vec_into_raw_parts buffer items h).1.next) own)
              (read_vec buffer view (vec_into_raw_parts buffer items h).0)
              (free_vec buffer release (vec_into_raw_parts buffer items h).0)
              ys
              (vec_into_raw_parts buffer items h).1
    unfolding vec_into_raw_parts allocate read_vec free_vec slice_from_raw_parts vec_from_raw_parts
    IsHeld-vec_into own [] ys h before held =
        (Grows-refl h, IsHeld-same own _ _ _ ys h (λ z. rw (within-none h.next z) refl) held)
    IsHeld-vec_into own (item ∷ items) ys h before held =
        let content = buffer.wrap (item ∷ items) in
        let h' = (allocate content h).1 in
        let grows = allocate-Grows content h in
        (
          grows,
          IsHeld-vec h.next own item items ys h' (cell-allocate content h)
              (elim (Bool-cases (own h.next)) [
                | inl mine ↦ absurd (omega (arith, before h.next mine))
                | inr other ↦ other
              ])
              (IsHeld-later own _ _ ys h h' grows before held),
        )

    -- Items that are built, a buffer that is put behind other blocks, and later blocks.
    pub IsHeld-apart :
        (items : List A) (ys : List Y) (h₀ h₁ h₂ h₃ : Heap B)
        → IsBuilt (read_each view items) (for_each release items) ys h₀ h₁
        → Grows h₁ h₂
        → Grows (vec_into_raw_parts buffer items h₂).1 h₃
        → IsHeld
            (either
              (within h₂.next (vec_into_raw_parts buffer items h₂).1.next)
              (within h₀.next h₁.next))
            (read_vec buffer view (vec_into_raw_parts buffer items h₂).0)
            (free_vec buffer release (vec_into_raw_parts buffer items h₂).0)
            ys
            h₃
    IsHeld-apart items ys h₀ h₁ h₂ h₃ (grows, held) between later =
        let (_, h') = vec_into_raw_parts buffer items h₂ in
        let at = IsHeld-Grows h₀.next _ _ ys h₁ h₂ between held in
        let (grown, built) =
          IsHeld-vec_into (within h₀.next h₁.next) items ys h₂
            (λ z mine. before h₀.next h₁.next h₂.next z between.0 mine) at in
        IsHeld-later _ _ _ ys h' h₃ later
          (λ z mine. below h₀.next h₁.next h₂.next h'.next z between.0 grown.0 mine) built
      where
        before : (a b c z : ℕ) → b ≤ c → within a b z ≡ true → z < c
        before a b c z le mine = ground arith

        below : (a b c d z : ℕ) → b ≤ c → c ≤ d → either (within c d) (within a b) z ≡ true → z < d
        below a b c d z le le' mine = ground arith

    IsBuilt-vec :
        (items : List A) (ys : List Y) (h h₁ : Heap B)
        → IsBuilt (read_each view items) (for_each release items) ys h h₁
        → IsBuilt
            (read_vec buffer view (vec_into_raw_parts buffer items h₁).0)
            (free_vec buffer release (vec_into_raw_parts buffer items h₁).0)
            ys
            h
            (vec_into_raw_parts buffer items h₁).1
    unfolding vec_into_raw_parts allocate read_vec free_vec slice_from_raw_parts vec_from_raw_parts
    IsBuilt-vec [] ys h h₁ built = built
    IsBuilt-vec (item ∷ items) ys h h₁ (grows, held) =
        let content = buffer.wrap (item ∷ items) in
        let h₂ = (allocate content h₁).1 in
        let grows' = allocate-Grows content h₁ in
        (
          Grows-trans h h₁ h₂ grows grows',
          IsHeld-same _ _ _ _ ys h₂ (within-either_sym h.next h₁.next h₂.next grows.0 grows'.0) (
              IsHeld-vec h₁.next (within h.next h₁.next) item items ys h₂ (cell-allocate content h₁)
                (within-end h.next h₁.next) (IsHeld-Grows h.next _ _ ys h₁ h₂ grows' held)),
        )

    -- A vector of items that are built one after the other reads as what the items mean.
    pub build_vec-Builds :
        {X : Type 0} (build : X → Building B A) (meaning : X → Y)
        → Builds view release build meaning
        → Builds
            (read_vec buffer view)
            (free_vec buffer release)
            (build_vec buffer build)
            (map meaning)
    unfolding build_vec
    build_vec-Builds build meaning each xs h =
        IsBuilt-vec (map_each build xs h).0 (map meaning xs) h (map_each build xs h).1
          (map_each-Builds view release build meaning each xs h)
