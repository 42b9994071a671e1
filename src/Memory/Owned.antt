-- ===== src/Memory/Owned.antt =====
-- What a set of blocks is for: a value can be read while its blocks are as they were, and freeing it
-- frees these blocks and no other.
use duckdb_superhuman_docs.Base.{
  ℕ, ◌≤◌, ◌<◌, ◌≡◌, refl, sym, ◌∙◌, Bool, true, false, Option, none, some, leb, ltb, ◌&&◌, ◌||◌,
  if◌then◌else◌, Bool-cases, inl, inr, arith,
}
use duckdb_superhuman_docs.Memory.{Heap, Mem, Reading, and_maybe}

abbrev pub Own : Type 0
Own = ℕ → Bool

-- the addresses from one on, before another
abbrev pub within : ℕ → ℕ → Own
within lo hi x = leb lo x && ltb x hi

abbrev pub either : Own → Own → Own
either p q x = p x || q x

abbrev pub Disjoint : Own → Own → Type 0
Disjoint p q = (x : ℕ) → q x ≡ true → p x ≡ false

module _ {B : Type 0} where
  abbrev pub Agree : Own → Heap B → Heap B → Type 0
  Agree own h g = (x : ℕ) → own x ≡ true → g.cell x ≡ h.cell x

  abbrev pub IsCleared : Own → Heap B → Heap B → Type 0
  IsCleared own g g' =
      (g'.next ≡ g.next) × ((x : ℕ) → g'.cell x ≡ (if own x then none else g.cell x))

  abbrev pub done : Heap B → Option (Unit {0} × Heap B)
  done h = some (tt, h)

  abbrev pub IsReleased : Own → Mem B (Unit {0}) → Heap B → Type 0
  IsReleased own release g = (g' : Heap B) × (release g ≡ done g') × IsCleared own g g'

  -- In every heap that has the blocks as they are, the value reads as `x`, and its release frees
  -- exactly the blocks.
  abbrev pub IsHeld : {X : Type 0} → Own → Reading B X → Mem B (Unit {0}) → X → Heap B → Type 0
  IsHeld own view release x h =
      (g : Heap B) → Agree own h g → (view g ≡ some x) × IsReleased own release g

  -- one release, then another
  abbrev pub seq : Mem B (Unit {0}) → Mem B (Unit {0}) → Mem B (Unit {0})
  seq first second h = and_maybe (first h) λ d. second d.1

  abbrev pub keep_heap : Mem B (Unit {0})
  keep_heap h = done h

  pub IsCleared-either :
      (p q : Own) (g g₁ g₂ : Heap B)
      → IsCleared p g g₁
      → IsCleared q g₁ g₂
      → IsCleared (either p q) g g₂
  IsCleared-either p q g g₁ g₂ (n₁, c₁) (n₂, c₂) = (n₂ ∙ n₁, λ x. cleared x)
    where
      cleared : (x : ℕ) → g₂.cell x ≡ (if either p q x then none else g.cell x)
      cleared x = elim (Bool-cases (q x)) [
        | inl b ↦ c₂ x ∙ rw b (elim (Bool-cases (p x)) [ inl a ↦ rw a refl | inr a ↦ rw a refl ])
        | inr b ↦
            c₂ x ∙ rw b (c₁ x ∙ (elim (Bool-cases (p x)) [ inl a ↦ rw a refl | inr a ↦ rw a refl ]))
      ]

  pub IsHeld-both :
      {X Y : Type 0} (p q : Own) (v₁ : Reading B X) (v₂ : Reading B Y) (r₁ r₂ : Mem B (Unit {0}))
      (x : X) (y : Y) (h g : Heap B)
      → Disjoint p q
      → IsHeld p v₁ r₁ x h
      → IsHeld q v₂ r₂ y h
      → Agree (either p q) h g
      → (v₁ g ≡ some x) × (v₂ g ≡ some y) × IsReleased (either p q) (seq r₁ r₂) g
  IsHeld-both p q v₁ v₂ r₁ r₂ x y h g apart held₁ held₂ agree =
      let (e₁, (g₁, s₁, c₁)) = held₁ g (λ z own. agree z (rw own refl)) in
      let e₂ = (held₂ g (λ z own. agree z (second z own))).0 in
      let (_, (g₂, s₂, c₂)) =
        held₂ g₁ (λ z own. c₁.1 z ∙ (rw (apart z own) (agree z (second z own)))) in
      (e₁, e₂, (g₂, rw (s₁, s₂) refl, IsCleared-either p q g g₁ g₂ c₁ c₂))
    where
      second : (z : ℕ) → q z ≡ true → either p q z ≡ true
      second z own = elim (Bool-cases (p z)) [ inl a ↦ rw a refl | inr a ↦ rw (a, own) refl ]

  -- Sets with the same addresses.
  pub IsHeld-same :
      {X : Type 0} (p q : Own) (view : Reading B X) (release : Mem B (Unit {0})) (x : X)
      (h : Heap B)
      → ((z : ℕ) → p z ≡ q z)
      → IsHeld p view release x h
      → IsHeld q view release x h
  IsHeld-same p q view release x h same held g agree =
      let (e, (g', s, (n, c))) = held g (λ z own. agree z (sym (same z) ∙ own)) in
      (e, (g', s, (n, λ z. c z ∙ rw (same z) refl)))

  -- The value that is read another way, and freed by the same steps.
  pub IsHeld-via :
      {X Y : Type 0} (own : Own) (view : Reading B X) (view' : Reading B Y)
      (release release' : Mem B (Unit {0})) (x : X) (y : Y) (h : Heap B)
      → ((g : Heap B) → view g ≡ some x → view' g ≡ some y)
      → ((g : Heap B) → release' g ≡ release g)
      → IsHeld own view release x h
      → IsHeld own view' release' y h
  IsHeld-via own view view' release release' x y h read freed held g agree =
      let (e, (g', s, c)) = held g agree in (read g e, (g', freed g ∙ s, c))

  -- A step that allocates leaves what was there.
  abbrev pub Grows : Heap B → Heap B → Type 0
  Grows h h' = (h.next ≤ h'.next) × ((x : ℕ) → x < h.next → h'.cell x ≡ h.cell x)

  pub Grows-trans : (h₀ h₁ h₂ : Heap B) → Grows h₀ h₁ → Grows h₁ h₂ → Grows h₀ h₂
  Grows-trans h₀ h₁ h₂ (n₁, c₁) (n₂, c₂) =
      (omega (arith, n₁, n₂), λ x lt. c₂ x (omega (arith, lt, n₁)) ∙ c₁ x lt)

  pub Grows-refl : (h : Heap B) → Grows h h
  Grows-refl h = (omega arith, λ x lt. refl)

  pub IsHeld-later :
      {X : Type 0} (own : Own) (view : Reading B X) (release : Mem B (Unit {0})) (x : X)
      (h h' : Heap B)
      → Grows h h'
      → ((z : ℕ) → own z ≡ true → z < h.next)
      → IsHeld own view release x h
      → IsHeld own view release x h'
  IsHeld-later own view release x h h' (_, c) before held g agree =
      held g (λ z mine. agree z mine ∙ c z (before z mine))

  -- Two values, read as a pair.
  abbrev pub pair_view : {X Y : Type 0} → Reading B X → Reading B Y → Reading B (X × Y)
  pair_view v₁ v₂ h = and_maybe (v₁ h) λ x. and_maybe (v₂ h) λ y. some (x, y)

  pub IsHeld-pair :
      {X Y : Type 0} (p q : Own) (v₁ : Reading B X) (v₂ : Reading B Y) (r₁ r₂ : Mem B (Unit {0}))
      (x : X) (y : Y) (h : Heap B)
      → Disjoint p q
      → IsHeld p v₁ r₁ x h
      → IsHeld q v₂ r₂ y h
      → IsHeld (either p q) (pair_view v₁ v₂) (seq r₁ r₂) (x, y) h
  IsHeld-pair p q v₁ v₂ r₁ r₂ x y h apart held₁ held₂ g agree =
      let (e₁, e₂, released) = IsHeld-both p q v₁ v₂ r₁ r₂ x y h g apart held₁ held₂ agree in
      (rw (e₁, e₂) refl, released)

  pub IsHeld-Grows :
      {X : Type 0} (lo : ℕ) (view : Reading B X) (release : Mem B (Unit {0})) (x : X)
      (h h' : Heap B)
      → Grows h h'
      → IsHeld (within lo h.next) view release x h
      → IsHeld (within lo h.next) view release x h'
  IsHeld-Grows lo view release x h h' (_, c) held g agree =
      held g (λ z own. agree z own ∙ c z (before z own))
    where
      before : (z : ℕ) → within lo h.next z ≡ true → z < h.next
      before z own = ground arith

-- Neighbouring ranges.
pub within-Disjoint : (a b c : ℕ) → Disjoint (within a b) (within b c)
within-Disjoint a b c x own = ground arith

pub within-Disjoint_sym : (a b c : ℕ) → Disjoint (within b c) (within a b)
within-Disjoint_sym a b c x own = ground arith

pub within-either :
    (a b c : ℕ) → a ≤ b → b ≤ c → (x : ℕ) → either (within a b) (within b c) x ≡ within a c x
within-either a b c le₁ le₂ x = ground arith

pub within-either_sym :
    (a b c : ℕ) → a ≤ b → b ≤ c → (x : ℕ) → either (within b c) (within a b) x ≡ within a c x
within-either_sym a b c le₁ le₂ x = ground arith
