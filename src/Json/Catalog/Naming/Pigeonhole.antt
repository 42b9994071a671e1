-- ===== src/Json/Catalog/Naming/Pigeonhole.antt =====
-- More different texts than a list has entries are not all in it.
use duckdb_superhuman_docs.Base.{
  ℕ, zero, suc, ◌≤◌, ◌<◌, ◌≡◌, ◌≢◌, Text, List, [], ◌∷◌, Bool, true, any, length, text_eq,
  text_eq-eq, arith, if◌then◌else◌,
}

abbrev pub contains : Text → List Text → Bool
contains x names = any (λ name. text_eq name x) names

-- Without the first occurrence.
without : Text → List Text → List Text
without x [] = []
without x (y ∷ l) = if text_eq y x then l else y ∷ without x l

length-without :
    (x : Text) (l : List Text) → contains x l ≡ true → length l ≡ suc (length (without x l))
unfolding without
length-without x [] h = cc
length-without x (y ∷ l) h = ground (arith, length-without x l)

contains-without :
    (x y : Text) (l : List Text) → x ≢ y → contains y l ≡ true → contains y (without x l) ≡ true
unfolding without
contains-without x y [] d h = cc
contains-without x y (z ∷ l) d h =
    ground (arith, contains-without x y l d, text_eq-eq z x, text_eq-eq z y)

pub pigeonhole :
    (f : ℕ → Text) (k : ℕ) (l : List Text)
    → ((i j : ℕ) → f i ≡ f j → i ≡ j)
    → ((i : ℕ) → i < k → contains (f i) l ≡ true)
    → k ≤ length l
pigeonhole f zero l injective h = omega arith
pigeonhole f (suc k) l injective h =
    let rest = pigeonhole f k (without (f k) l) injective (λ i lt.
      contains-without (f k) (f i) l (λ e. absurd (omega (arith, injective k i e)))
        (h i (omega arith))) in
    omega (arith, length-without (f k) l (h k (omega arith)))
