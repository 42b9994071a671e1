-- ===== src/Base/Decimal.antt =====
-- Decimal text: `u64::to_string` and `str::parse::<u64>`, the round trip, and that two numbers
-- with the same text are one.
use Prim.Native.Nat.{ℕ, zero, suc, ◌+◌, ◌-◌, ◌*◌, ◌/◌, ◌%◌, ◌^◌, ◌≤◌, ◌<◌}
use mathlib.Core.Path.{◌≡◌, refl, ap, sym, ◌∙◌}
use mathlib.Core.Bool.{Bool, false, ◌&&◌}
use mathlib.Core.Logic.{inl, inr}
use mathlib.Core.Option.{Option, none, some}
use mathlib.Core.List.{[], ◌∷◌, ◌++◌}
use native.Mathlib.Omega.{arith}
use duckdb_superhuman_docs.Base.Tests.{leb, ltb, ◌==◌, if◌then◌else◌, Bool-cases, ltb→lt}
use duckdb_superhuman_docs.Base.Lists.{is_empty}
use duckdb_superhuman_docs.Base.Strings.{Text}
use duckdb_superhuman_docs.Base.Ascii.{
  lower_char, to_ascii_lowercase, lower-nil, to_ascii_lowercase-append,
}

print : ℕ → ℕ → Text
print zero n = []
print (suc f) n =
    let more = print f (n / 10) in
    if ltb n 10 then (b'0' + n) ∷ [] else more ++ (b'0' + n % 10) ∷ []

-- `n.to_string()`; the fuel is above the number of digits
unfoldable pub to_string : ℕ → Text
unfolding print
to_string n = print (suc n) n

is_digit : ℕ → Bool
is_digit c = leb b'0' c && leb c b'9'

scan : ℕ → Text → ℕ → Option ℕ
scan limit [] acc = some acc
scan limit (c ∷ s) acc =
    let acc' = acc * 10 + (c - b'0') in
    if is_digit c && ltb acc' limit then scan limit s acc' else none

-- the digits after an optional sign; no digit is an error
parse_digits : Text → Option ℕ
parse_digits s = if is_empty s then none else scan (2 ^ 64) s 0

-- `value.parse::<u64>().ok()`
unfoldable pub parse_u64 : Text → Option ℕ
unfolding parse_digits scan is_digit
parse_u64 [] = none
parse_u64 (c ∷ s) = if c == b'+' then parse_digits s else parse_digits (c ∷ s)

-- Reading a text of digits continues with the digit that follows it.
module _ (limit : ℕ) where
  scan-append_digit :
      (s : Text) (acc n d : ℕ)
      → scan limit s acc ≡ some n
      → d < 10
      → n * 10 + d < limit
      → scan limit (s ++ (b'0' + d) ∷ []) acc ≡ some (n * 10 + d)
  unfolding scan is_digit
  scan-append_digit [] acc n d h p q = ground arith
  scan-append_digit (c ∷ s) acc n d h p q =
      ground (arith, scan-append_digit s (acc * 10 + (c - b'0')) n d)

  scan-digit : (n : ℕ) → n < 10 → n < limit → scan limit ((b'0' + n) ∷ []) 0 ≡ some n
  unfolding scan is_digit
  scan-digit n h q = ground arith

  scan-print : (f n : ℕ) → n < f → n < limit → scan limit (print f n) 0 ≡ some n
  unfolding print
  scan-print zero n h q = absurd (omega arith)
  scan-print (suc f) n h q = elim (Bool-cases (ltb n 10)) [
    | inl small ↦ rw small (scan-digit n (ltb→lt n 10 small) q)
    | inr big ↦
        let large : 10 ≤ n = ground arith in
        let split : n / 10 * 10 + n % 10 ≡ n = omega arith in
        let step =
          scan-append_digit (print f (n / 10)) 0 (n / 10) (n % 10)
            (scan-print f (n / 10) (omega arith) (omega arith)) (omega arith) (rw split q) in
        rw big (step ∙ ap some split)
  ]

is_empty-append : (s : Text) (c : ℕ) → is_empty (s ++ c ∷ []) ≡ false
is_empty-append [] c = refl
is_empty-append (x ∷ s) c = refl

is_empty-print : (f n : ℕ) → is_empty (print (suc f) n) ≡ false
unfolding print
is_empty-print f n = elim (Bool-cases (ltb n 10)) [
  | inl small ↦ rw small
  | inr big ↦ rw big (is_empty-append (print f (n / 10)) (b'0' + n % 10))
]

-- A text that reads as a number without a sign is read as that number.
parse_u64-scan :
    (s : Text) (n : ℕ) → is_empty s ≡ false → scan (2 ^ 64) s 0 ≡ some n → parse_u64 s ≡ some n
unfolding parse_u64
parse_u64-scan [] n e h = cc
parse_u64-scan (c ∷ s) n e h = ground arith

pub parse_u64-to_string : (n : ℕ) → n < 2 ^ 64 → parse_u64 (to_string n) ≡ some n
unfolding to_string
parse_u64-to_string n h =
    parse_u64-scan (print (suc n) n) n (is_empty-print n n)
      (scan-print (2 ^ 64) (suc n) n (omega arith) h)

pub is_empty-to_string : (n : ℕ) → is_empty (to_string n) ≡ false
unfolding to_string
is_empty-to_string n = is_empty-print n n

-- Different numbers have different texts.
pub to_string-injective : (m n : ℕ) → to_string m ≡ to_string n → m ≡ n
unfolding to_string
to_string-injective m n e =
    let limit : ℕ = suc (m + n) in
    let p : scan limit (print (suc m) m) 0 ≡ some m =
      scan-print limit (suc m) m (omega arith) (omega arith) in
    let q : scan limit (print (suc n) n) 0 ≡ some n =
      scan-print limit (suc n) n (omega arith) (omega arith) in
    some_inj (sym p ∙ ap (λ t. scan limit t 0) e ∙ q)
  where
    some_inj : {a b : ℕ} → some a ≡ some b → a ≡ b
    some_inj h = cc

lower-digit : (d : ℕ) → d < 10 → lower_char (b'0' + d) ≡ b'0' + d
unfolding lower_char
lower-digit d h = ground arith

lower-print : (f n : ℕ) → to_ascii_lowercase (print f n) ≡ print f n
unfolding print
lower-print zero n = lower-nil
lower-print (suc f) n = elim (Bool-cases (ltb n 10)) [
  | inl small ↦ rw small (lower-one (b'0' + n) (lower-digit n (ltb→lt n 10 small)))
  | inr big ↦
      rw (big, to_ascii_lowercase-append, lower-print f (n / 10))
        (ap (λ t. print f (n / 10) ++ t)
          (lower-one (b'0' + n % 10) (lower-digit (n % 10) (omega arith))))
]
  where
    lower-one : (c : ℕ) → lower_char c ≡ c → to_ascii_lowercase (c ∷ []) ≡ c ∷ []
    lower-one c h = unfold to_ascii_lowercase in ap (λ t. t ∷ []) h

-- Digits have no case.
pub lower-to_string : (n : ℕ) → to_ascii_lowercase (to_string n) ≡ to_string n
unfolding to_string
lower-to_string n = lower-print (suc n) n

to_string_tests : (to_string 0 ≡ b'0' ∷ []) × (to_string 407 ≡ b'4' ∷ b'0' ∷ b'7' ∷ [])
unfolding to_string
to_string_tests = (refl, refl)
