-- ===== src/Scan/Fences.antt =====
-- Rich text in a fence, `unfence_rich_text` of src/scan.rs.
use duckdb_superhuman_docs.Base.{
  ℕ, ◌≡◌, ◌∙◌, refl, ap, Text, [], ◌∷◌, ◌++◌, false, none, some, length, length-append,
  strip_suffix, text_eq, text_eq_iff, text_eq_self, is_empty, Bool-cases, inl, inr, arith, if-true,
  if-false,
}
use duckdb_superhuman_docs.Scan.{fence, newline, unfence_rich_text}

-- A suffix is not the same as a longer text that ends in it.
longer : (q s : Text) (b : ℕ) → text_eq q (b ∷ s ++ q) ≡ false
longer q s b = elim (Bool-cases (text_eq q (b ∷ s ++ q))) [
  | inl e ↦
      let same : length q ≡ length (b ∷ s ++ q) = ap length ((text_eq_iff q (b ∷ s ++ q)).0 e) in
      absurd (omega (arith, length-append s q))
  | inr e ↦ e
]

suffix_self : (q : Text) → is_empty q ≡ false → strip_suffix q q ≡ some []
unfolding strip_suffix
suffix_self [] e = cc
suffix_self (a ∷ q) e = if-true _ _ (text_eq_self (a ∷ q))

strip_suffix-append : (q s : Text) → is_empty q ≡ false → strip_suffix q (s ++ q) ≡ some s
unfolding strip_suffix
strip_suffix-append q [] e = suffix_self q e
strip_suffix-append q (b ∷ s) e =
    if-false _ _ (longer q s b)
    ∙ ap (λ o. elim o [ none ↦ none | some r ↦ some (b ∷ r) ]) (strip_suffix-append q s e)

-- Text between a fence with a new line and a new line with a fence is scanned as that text, whatever
-- it holds.
pub unfence_rich_text-fence :
    (s : Text) → unfence_rich_text (fence ++ newline ++ s ++ newline ++ fence) ≡ s
unfolding unfence_rich_text
unfence_rich_text-fence s =
    let outer : strip_suffix fence (s ++ newline ++ fence) ≡ some (s ++ newline) =
      strip_suffix-append fence (s ++ newline) refl in
    let inner = strip_suffix-append newline s refl in rw outer (rw inner refl)
