-- ===== src/Memory/Utf8.antt =====
-- The lengths of texts in UTF-8, and the texts of their first bytes.
use duckdb_superhuman_docs.Base.{
  ℕ, zero, suc, ◌+◌, ◌-◌, ◌≡◌, refl, sym, ap, ◌∙◌, Text, [], ◌∷◌, ◌++◌, Option, none, some, ltb,
  if◌then◌else◌, Bool-cases, false, inl, inr, arith,
}

abbrev pub utf8_size : ℕ → ℕ
utf8_size c = if ltb c 128 then 1 else if ltb c 2048 then 2 else if ltb c 65536 then 3 else 4

unfoldable pub utf8_length : Text → ℕ
utf8_length [] = 0
utf8_length (c ∷ t) = utf8_size c + utf8_length t

-- the characters of the first bytes, unless a character is cut
unfoldable pub whole_chars : ℕ → Text → Option Text
whole_chars zero t = some []
whole_chars (suc n) [] = some []
whole_chars (suc n) (c ∷ t) =
    let rest = whole_chars (suc n - utf8_size c) t in
    if ltb (suc n) (utf8_size c) then none else elim rest [ none ↦ none | some s ↦ some (c ∷ s) ]

-- `from_utf8(bytes).unwrap_or("")`
abbrev pub or_empty : Option Text → Text
or_empty none = []
or_empty (some t) = t

-- the text of the first bytes, if there are as many
unfoldable pub utf8_prefix : ℕ → Text → Option Text
unfolding whole_chars
utf8_prefix n t = if ltb (utf8_length t) n then none else some (or_empty (whole_chars n t))

utf8_size-positive : (c : ℕ) → (k : ℕ) × (utf8_size c ≡ suc k)
utf8_size-positive c = elim (Bool-cases (ltb c 128)) [
  | inl a ↦ (0, rw a refl)
  | inr a ↦ elim (Bool-cases (ltb c 2048)) [
    | inl b ↦ (1, rw (a, b) refl)
    | inr b ↦ elim (Bool-cases (ltb c 65536)) [
      | inl d ↦ (2, rw (a, b, d) refl)
      | inr d ↦ (3, rw (a, b, d) refl)
    ]
  ]
]

pub utf8_length-positive : (c : ℕ) (t : Text) → (n : ℕ) × (utf8_length (c ∷ t) ≡ suc n)
unfolding utf8_length
utf8_length-positive c t =
    let (k, e) = utf8_size-positive c in (k + utf8_length t, omega (arith, e))

-- A first character that is whole is kept.
whole_chars-cons :
    (n m c : ℕ) (t s : Text)
    → suc n ≡ utf8_size c + m
    → whole_chars m t ≡ some s
    → whole_chars (suc n) (c ∷ t) ≡ some (c ∷ s)
unfolding whole_chars
whole_chars-cons n m c t s e h =
    let fits : ltb (suc n) (utf8_size c) ≡ false = not_less (suc n) (utf8_size c) m e in
    let left : suc n - utf8_size c ≡ m = less_by (suc n) (utf8_size c) m e in
    rw (fits, left, h) refl
  where
    not_less : (a b m : ℕ) → a ≡ b + m → ltb a b ≡ false
    not_less a b m e = ground arith

    less_by : (a b m : ℕ) → a ≡ b + m → a - b ≡ m
    less_by a b m e = omega arith

whole_chars-append : (t s : Text) → whole_chars (utf8_length t) (t ++ s) ≡ some t
unfolding utf8_length whole_chars
whole_chars-append [] s = refl
whole_chars-append (c ∷ t) s =
    let (n, e) = utf8_length-positive c t in
    rw e (whole_chars-cons n (utf8_length t) c (t ++ s) t (sym e) (whole_chars-append t s))

pub utf8_length-append : (t s : Text) → utf8_length (t ++ s) ≡ utf8_length t + utf8_length s
unfolding utf8_length
utf8_length-append [] s = omega arith
utf8_length-append (c ∷ t) s = omega (arith, utf8_length-append t s)

-- The first bytes, as many as a text has, of what begins with the text.
pub utf8_prefix-append : (t s : Text) → utf8_prefix (utf8_length t) (t ++ s) ≡ some t
unfolding utf8_prefix
utf8_prefix-append t s =
    let fits : ltb (utf8_length t + utf8_length s) (utf8_length t) ≡ false = ground arith in
    rw (utf8_length-append t s, fits, whole_chars-append t s) refl

-- All the bytes of a text are the text.
pub utf8_prefix-utf8_length : (t : Text) → utf8_prefix (utf8_length t) t ≡ some t
utf8_prefix-utf8_length t =
    ap (utf8_prefix (utf8_length t)) (sym (append-nil t)) ∙ utf8_prefix-append t []
  where
    append-nil : (t : Text) → t ++ [] ≡ t
    append-nil [] = refl
    append-nil (c ∷ t) = ap (λ r. c ∷ r) (append-nil t)
