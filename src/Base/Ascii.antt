-- ===== src/Base/Ascii.antt =====
-- ASCII case: `to_ascii_lowercase` and `eq_ignore_ascii_case`.
use duckdb_superhuman_docs.Base.Tests.{leb, if◌then◌else◌}
use duckdb_superhuman_docs.Base.Strings.{Text, text_eq, text_eq-eq, text_eq_self}
use Prim.Native.Nat.{ℕ, ◌+◌}
use mathlib.Core.Path.{◌≡◌, refl, ap}
use mathlib.Core.Bool.{Bool, true, ◌&&◌}
use mathlib.Core.List.{[], ◌∷◌, ◌++◌, map}
use mathlib.Core.Logic.{◌↔◌}

unfoldable pub lower_char : ℕ → ℕ
lower_char c = if leb b'A' c && leb c b'Z' then c + 32 else c

unfoldable pub to_ascii_lowercase : Text → Text
unfolding lower_char
to_ascii_lowercase s = map lower_char s

unfoldable pub eq_ignore_ascii_case : Text → Text → Bool
unfolding to_ascii_lowercase text_eq
eq_ignore_ascii_case s t = text_eq (to_ascii_lowercase s) (to_ascii_lowercase t)

pub eq_ignore_ascii_case_iff :
    (s t : Text) → (eq_ignore_ascii_case s t ≡ true) ↔ (to_ascii_lowercase s ≡ to_ascii_lowercase t)
unfolding eq_ignore_ascii_case
eq_ignore_ascii_case_iff s t = (text_eq-eq _ _, λ e. rw e (text_eq_self (to_ascii_lowercase t)))

pub eq_ignore_ascii_case_self : (s : Text) → eq_ignore_ascii_case s s ≡ true
eq_ignore_ascii_case_self s = (eq_ignore_ascii_case_iff s s).1 refl

pub to_ascii_lowercase-append :
    (s t : Text) → to_ascii_lowercase (s ++ t) ≡ to_ascii_lowercase s ++ to_ascii_lowercase t
unfolding to_ascii_lowercase
to_ascii_lowercase-append [] t = refl
to_ascii_lowercase-append (c ∷ s) t = ap (λ r. lower_char c ∷ r) (to_ascii_lowercase-append s t)

pub lower-nil : to_ascii_lowercase [] ≡ []
unfolding to_ascii_lowercase
lower-nil = refl
