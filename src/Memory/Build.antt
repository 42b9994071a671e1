-- ===== src/Memory/Build.antt =====
-- What is built in the heap can be read there and freed: for boxes, for the items of a vector one
-- after the other, and for vectors.
use duckdb_superhuman_docs.Base.{
  ℕ, suc, ◌<◌, ◌≡◌, refl, sym, ◌∙◌, [], ◌∷◌, map, true, false, Option, none, some, ◌==◌,
  if◌then◌else◌, arith,
}
use duckdb_superhuman_docs.Memory.{
  Heap, Mem, Reading, Building, block_ptr, Boxed, and_maybe, set, allocate, deallocate, into_raw,
  deref, from_raw, for_each, map_each, read_each,
}
use duckdb_superhuman_docs.Memory.Owned.{
  Own, within, Agree, IsCleared, done, IsReleased, IsHeld, seq, Grows, Grows-trans, Grows-refl,
  IsHeld-both, IsHeld-Grows, within-Disjoint, within-Disjoint_sym, within-either, within-either_sym,
}

pub within-here : (a : ℕ) → within a (suc a) a ≡ true
within-here a = ground arith

pub within-none : (a : ℕ) (x : ℕ) → within a a x ≡ false
within-none a x = ground arith

module _ {B : Type 0} where
  -- A value was built from one heap to the next: it owns exactly the blocks that were added.
  abbrev pub IsBuilt : {X : Type 0} → Reading B X → Mem B (Unit {0}) → X → Heap B → Heap B → Type 0
  IsBuilt view release x h h' = Grows h h' × IsHeld (within h.next h'.next) view release x h'

  abbrev pub Builds :
      {A X Y : Type 0}
      → (A → Reading B Y)
      → (A → Mem B (Unit {0}))
      → (X → Building B A)
      → (X → Y)
      → Type 0
  Builds view release build meaning =
      (x : _) (h : Heap B)
      → IsBuilt (view (build x h).0) (release (build x h).0) (meaning x) h (build x h).1

  -- a value that is taken out of the heap and dropped
  abbrev pub dropping : {C : Type 0} → Mem B C → Mem B (Unit {0})
  dropping m h = and_maybe (m h) λ r. done r.1

  pub deallocate-IsCleared : (a : ℕ) (g : Heap B) → IsCleared (within a (suc a)) g (deallocate a g)
  unfolding deallocate
  deallocate-IsCleared a g = (refl, λ x. cleared x)
    where
      at : (x : ℕ) → (x == a) ≡ within a (suc a) x
      at x = ground arith

      cleared : (x : ℕ) → set a none g.cell x ≡ (if within a (suc a) x then none else g.cell x)
      cleared x = rw (at x) refl

  pub allocate-Grows : (content : B) (h : Heap B) → Grows h (allocate content h).1
  unfolding allocate
  allocate-Grows content h = (omega arith, λ x lt. rw (other x lt) refl)
    where
      other : (x : ℕ) → x < h.next → (x == h.next) ≡ false
      other x lt = ground arith

  pub cell-allocate : (content : B) (h : Heap B) → (allocate content h).1.cell h.next ≡ some content
  unfolding allocate
  cell-allocate content h = let same : (h.next == h.next) ≡ true = ground arith in rw same refl

  module _ {C : Type 0} (boxed : Boxed B C) where
    pub deref-block :
        (a : ℕ) (c : C) (h : Heap B)
        → h.cell a ≡ some (boxed.wrap c)
        → deref boxed (block_ptr a) h ≡ some c
    unfolding deref
    deref-block a c h e = rw e (boxed.wrapped c)

    abbrev unboxed : ℕ → C → Heap B → Option (C × Heap B)
    unboxed a c h = some (c, deallocate a h)

    pub from_raw-block :
        (a : ℕ) (c : C) (h : Heap B)
        → h.cell a ≡ some (boxed.wrap c)
        → from_raw boxed (block_ptr a) h ≡ unboxed a c h
    unfolding from_raw
    from_raw-block a c h e = rw (deref-block a c h e) refl

    -- The block of a box, until it is dropped.
    pub IsHeld-cell :
        (a : ℕ) (c : C) (h : Heap B)
        → h.cell a ≡ some (boxed.wrap c)
        → IsHeld
            (within a (suc a))
            (λ g. g.cell a)
            (dropping (from_raw boxed (block_ptr a)))
            (boxed.wrap c)
            h
    IsHeld-cell a c h e g agree =
        let here = agree a (within-here a) ∙ e in
        (here, (deallocate a g, rw (from_raw-block a c g here) refl, deallocate-IsCleared a g))

    pub into_raw-IsBuilt :
        (c : C) (h : Heap B)
        → IsBuilt
            (λ g. g.cell h.next)
            (dropping (from_raw boxed (into_raw boxed c h).0))
            (boxed.wrap c)
            h
            (into_raw boxed c h).1
    unfolding into_raw
    into_raw-IsBuilt c h = (
      allocate-Grows (boxed.wrap c) h,
      IsHeld-cell h.next c (allocate (boxed.wrap c) h).1 (cell-allocate (boxed.wrap c) h),
    )

  -- What two values built one after the other read as, and what frees them in order.
  abbrev pub AreBuilt :
      {X Y : Type 0}
      → Reading B X
      → Reading B Y
      → Mem B (Unit {0})
      → X
      → Y
      → Heap B
      → Heap B
      → Type 0
  AreBuilt v₁ v₂ release x y h h' =
      Grows h h'
      × ((g : Heap B)
          → Agree (within h.next h'.next) h' g
          → (v₁ g ≡ some x) × (v₂ g ≡ some y) × IsReleased (within h.next h'.next) release g)

  pub IsReleased-same :
      (p q : Own) (release : Mem B (Unit {0})) (g : Heap B)
      → ((z : ℕ) → p z ≡ q z)
      → IsReleased p release g
      → IsReleased q release g
  IsReleased-same p q release g same (g', s, (n, c)) = (g', s, (n, λ z. c z ∙ rw (same z) refl))

  module _ {X Y : Type 0} (v₁ : Reading B X) (v₂ : Reading B Y) (r₁ r₂ : Mem B (Unit {0})) (x : X)
      (y : Y) (h₀ h₁ h₂ : Heap B) where
    pub IsBuilt-both :
        IsBuilt v₁ r₁ x h₀ h₁ → IsBuilt v₂ r₂ y h₁ h₂ → AreBuilt v₁ v₂ (seq r₁ r₂) x y h₀ h₂
    IsBuilt-both (grows₁, held₁) (grows₂, held₂) =
        let a = h₀.next in
        let b = h₁.next in
        let c = h₂.next in
        let split = within-either a b c grows₁.0 grows₂.0 in
        (
          Grows-trans h₀ h₁ h₂ grows₁ grows₂,
          λ g agree.
              let (e₁, e₂, released) =
                IsHeld-both (within a b) (within b c) v₁ v₂ r₁ r₂ x y h₂ g (within-Disjoint a b c)
                  (IsHeld-Grows a v₁ r₁ x h₁ h₂ grows₂ held₁) held₂
                  (λ z own. agree z (sym (split z) ∙ own)) in
              (e₁, e₂, IsReleased-same _ _ (seq r₁ r₂) g split released),
        )

    -- The same, with the one that was built last freed first.
    pub IsBuilt-both_sym :
        IsBuilt v₁ r₁ x h₀ h₁ → IsBuilt v₂ r₂ y h₁ h₂ → AreBuilt v₁ v₂ (seq r₂ r₁) x y h₀ h₂
    IsBuilt-both_sym (grows₁, held₁) (grows₂, held₂) =
        let a = h₀.next in
        let b = h₁.next in
        let c = h₂.next in
        let split = within-either_sym a b c grows₁.0 grows₂.0 in
        (
          Grows-trans h₀ h₁ h₂ grows₁ grows₂,
          λ g agree.
              let (e₂, e₁, released) =
                IsHeld-both (within b c) (within a b) v₂ v₁ r₂ r₁ y x h₂ g
                  (within-Disjoint_sym a b c) held₂ (IsHeld-Grows a v₁ r₁ x h₁ h₂ grows₂ held₁)
                  (λ z own. agree z (sym (split z) ∙ own)) in
              (e₁, e₂, IsReleased-same _ _ (seq r₂ r₁) g split released),
        )

  -- Nothing is built.
  pub IsBuilt-none :
      {X : Type 0} (view : Reading B X) (release : Mem B (Unit {0})) (x : X) (h : Heap B)
      → ((g : Heap B) → view g ≡ some x)
      → ((g : Heap B) → release g ≡ done g)
      → IsBuilt view release x h h
  IsBuilt-none view release x h read freed =
      (Grows-refl h, λ g agree. (read g, (g, freed g, (refl, λ z. rw (within-none h.next z) refl))))

  module _ {A X Y : Type 0} (view : A → Reading B Y) (release : A → Mem B (Unit {0})) where
    -- Items that are built one after the other are held together.
    pub map_each-Builds :
        (build : X → Building B A) (meaning : X → Y)
        → Builds view release build meaning
        → Builds (read_each view) (for_each release) (map_each build) (map meaning)
    unfolding read_each for_each map_each
    map_each-Builds build meaning each [] h =
        IsBuilt-none (read_each view []) (for_each release []) [] h (λ g. refl) (λ g. refl)
    map_each-Builds build meaning each (x ∷ xs) h =
        let (a, h₁) = build x h in
        let (items, h₂) = map_each build xs h₁ in
        let (grows, held) =
          IsBuilt-both (view a) (read_each view items) (release a) (for_each release items)
            (meaning x) (map meaning xs) h h₁ h₂ (each x h)
            (map_each-Builds build meaning each xs h₁) in
        (grows, λ g agree. let (e₁, e₂, released) = held g agree in (rw (e₁, e₂) refl, released))
