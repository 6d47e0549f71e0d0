-- ===== src/Prelude/Text.antt =====
-- Texts: concatenation, case labels, and Go's `switch` over strings.
use Prim.Native.String.{String}
use Prim.Native.String
use mathlib.Core.Bool.{Bool, false, ◌||◌}
use mathlib.Core.List.{List, [], ◌∷◌}
use text.Mathlib.Text.{◌==◌}
use rds_dbaas_operator.Prelude.Tests.{if◌then◌else◌}

-- Go's `+` on strings.
infixr 65 ◌<>◌
abbrev pub ◌<>◌ : String → String → String
s <> t = String.◌++◌ s t

-- `case a, b, …:` holds of `s`.
unfoldable pub one_of : String → List String → Bool
one_of s [] = false
one_of s (t ∷ ts) = s == t || one_of s ts

-- `switch s { case …: return a; …; default: return d }`
unfoldable pub switch {ℓ} : {A : Type ℓ} → String → List (List String × A) → A → A
unfolding one_of
switch s [] d = d
switch s ((labels, a) ∷ cases) d = if one_of s labels then a else switch s cases d
