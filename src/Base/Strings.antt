-- ===== src/Base/Strings.antt =====
-- Rust's `str` as the list of its code points, and the functions of `core::str` that the source
-- calls. Every pattern that the source searches for is ASCII, so a position counts code points.
use Prim.Native.Char.{code}
use Prim.Native.String.{String}
use Prim.Native.Nat.{ℕ, suc}
use mathlib.Core.Path.{◌≡◌, refl}
use mathlib.Core.Bool.{Bool, true, false, ◌&&◌, ◌||◌}
use mathlib.Core.Logic.{◌↔◌}
use mathlib.Core.Option.{Option, none, some}
use mathlib.Core.List.{List, [], ◌∷◌, ◌++◌}
use native.Mathlib.Omega.{arith}
use duckdb_superhuman_docs.Base.Tests.{leb, ◌==◌, if◌then◌else◌}
use duckdb_superhuman_docs.Base.Lists.{is_empty, any, all}

abbrev pub Text : Type 0
Text = List ℕ

abbrev pub codes : String → Text
codes String.[] = []
codes (String.◌∷◌ c s) = code c ∷ codes s

-- `a == b`
unfoldable pub text_eq : Text → Text → Bool
text_eq [] [] = true
text_eq (a ∷ s) (b ∷ t) = (a == b) && text_eq s t
text_eq _ _ = false

pub text_eq-eq : (s t : Text) → text_eq s t ≡ true → s ≡ t
unfolding text_eq
text_eq-eq [] [] h = refl
text_eq-eq [] (b ∷ t) h = cc
text_eq-eq (a ∷ s) [] h = cc
text_eq-eq (a ∷ s) (b ∷ t) h = ground (arith, text_eq-eq s t)

pub text_eq_self : (s : Text) → text_eq s s ≡ true
unfolding text_eq
text_eq_self [] = refl
text_eq_self (a ∷ s) = ground (arith, text_eq_self s)

pub text_eq_iff : (s t : Text) → (text_eq s t ≡ true) ↔ (s ≡ t)
text_eq_iff s t = (text_eq-eq s t, λ e. rw e (text_eq_self t))

-- `match value { "a" | "b" => … }`
unfoldable pub one_of : Text → List String → Bool
unfolding text_eq
one_of t names = any (λ name. text_eq t (codes name)) names

-- `value.strip_prefix(prefix)`
unfoldable pub strip_prefix : Text → Text → Option Text
strip_prefix [] s = some s
strip_prefix (a ∷ p) [] = none
strip_prefix (a ∷ p) (b ∷ s) = if a == b then strip_prefix p s else none

pub strip_prefix-append : (p s : Text) → strip_prefix p (p ++ s) ≡ some s
unfolding strip_prefix
strip_prefix-append [] s = refl
strip_prefix-append (a ∷ p) s = ground (arith, strip_prefix-append p s)

pub strip_prefix-eq : (p s r : Text) → strip_prefix p s ≡ some r → s ≡ p ++ r
unfolding strip_prefix
strip_prefix-eq [] s r h = ground arith
strip_prefix-eq (a ∷ p) [] r h = cc
strip_prefix-eq (a ∷ p) (b ∷ s) r h = ground (arith, strip_prefix-eq p s r)

-- `value.strip_suffix(suffix)`
unfoldable pub strip_suffix : Text → Text → Option Text
unfolding text_eq
strip_suffix q [] = if is_empty q then some [] else none
strip_suffix q (b ∷ s) =
    let rest = strip_suffix q s in
    if text_eq q (b ∷ s) then some [] else elim rest [ none ↦ none | some r ↦ some (b ∷ r) ]

-- `value.starts_with(prefix)`
unfoldable pub starts_with : Text → Text → Bool
unfolding strip_prefix
starts_with p s = elim (strip_prefix p s) [ none ↦ false | some _ ↦ true ]

-- `value.find(pattern)`, the position of the first match
unfoldable pub find : Text → Text → Option ℕ
unfolding starts_with
find p [] = if is_empty p then some 0 else none
find p (b ∷ s) =
    let rest = find p s in
    if starts_with p (b ∷ s) then some 0 else elim rest [ none ↦ none | some i ↦ some (suc i) ]

-- `value.rfind(pattern)`, the position of the last match
unfoldable pub rfind : Text → Text → Option ℕ
unfolding starts_with
rfind p [] = if is_empty p then some 0 else none
rfind p (b ∷ s) = elim (rfind p s) [
  | some i ↦ some (suc i)
  | none ↦ if starts_with p (b ∷ s) then some 0 else none
]

-- `value.split(separators).next()`: the text before the first separator
unfoldable pub split_first : (ℕ → Bool) → Text → Text
split_first sep [] = []
split_first sep (c ∷ s) = if sep c then [] else c ∷ split_first sep s

-- `value.trim_end_matches(c)`
unfoldable pub trim_end_matches : ℕ → Text → Text
trim_end_matches c [] = []
trim_end_matches c (x ∷ s) =
    let rest = trim_end_matches c s in if is_empty rest && (x == c) then [] else x ∷ rest

-- `char::is_whitespace`, Unicode's White_Space
unfoldable pub is_whitespace : ℕ → Bool
is_whitespace c =
    (leb 9 c && leb c 13)
    || (c == 32)
    || (c == 0x85)
    || (c == 0xa0)
    || (c == 0x1680)
    || (leb 0x2000 c && leb c 0x200a)
    || (c == 0x2028)
    || (c == 0x2029)
    || (c == 0x202f)
    || (c == 0x205f)
    || (c == 0x3000)

-- `value.trim().is_empty()`
unfoldable pub is_blank : Text → Bool
unfolding is_whitespace
is_blank s = all is_whitespace s
