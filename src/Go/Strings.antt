-- ===== src/Go/Strings.antt =====
-- strings: SplitN at two parts, Split, ToLower, and the test `TrimSpace(s) == ""`.
use rds_dbaas_operator.Prelude.{
  ℕ, String, code, Bool, true, ◌&&◌, ◌||◌, Option, none, some, List, [], ◌∷◌, eqb, leb,
  if◌then◌else◌, ◌≡◌, refl, ◌+◌, Char,
}
use native.Mathlib.Decide.{dec_lt}
use rds_dbaas_operator.RdsUtils.Bytes.{char_of}

-- The part before the first `c` and the part behind it.
unfoldable pub cut : ℕ → String → Option (String × String)
cut c String.[] = none
cut c (String.◌∷◌ d s) =
    if eqb (code d) c
    then some ("", s)
    else elim (cut c s) [ none ↦ none | some (a, b) ↦ some (String.◌∷◌ d a, b) ]

-- `strings.SplitN(s, "/", 2)`
unfoldable pub split_n2 : ℕ → String → List String
unfolding cut
split_n2 c s = elim (cut c s) [ none ↦ s ∷ [] | some (a, b) ↦ a ∷ b ∷ [] ]

-- `strings.Split(s, c)` for a separator of one character.
unfoldable pub split : ℕ → String → List String
split c String.[] = "" ∷ []
split c (String.◌∷◌ d s) =
    let rest = split c s in
    if eqb (code d) c then "" ∷ rest else elim rest [ [] ↦ [] | t ∷ ts ↦ String.◌∷◌ d t ∷ ts ]

-- unicode.IsSpace
unfoldable pub is_space : ℕ → Bool
is_space c =
    (leb 9 c && leb c 13)
    || eqb c 32
    || eqb c 0x85
    || eqb c 0xa0
    || eqb c 0x1680
    || (leb 0x2000 c && leb c 0x200a)
    || eqb c 0x2028
    || eqb c 0x2029
    || eqb c 0x202f
    || eqb c 0x205f
    || eqb c 0x3000

-- `strings.TrimSpace(s) == ""`
unfoldable pub is_blank : String → Bool
unfolding is_space
is_blank String.[] = true
is_blank (String.◌∷◌ c s) = is_space (code c) && is_blank s

-- `strings.ToLower(s)`, where the capitals of `s` are ASCII.
unfoldable pub lower : Char → Char
lower c = if leb b'A' (code c) && leb (code c) b'Z' then char_of (code c + 32) else c

unfoldable pub to_lower : String → String
unfolding lower
to_lower String.[] = ""
to_lower (String.◌∷◌ c s) = String.◌∷◌ (lower c) (to_lower s)

split_examples :
    (split b',' "a,b,," ≡ "a" ∷ "b" ∷ "" ∷ "" ∷ []) × (split_n2 b'/' "ns/a/b" ≡ "ns" ∷ "a/b" ∷ [])
unfolding split split_n2
split_examples = (refl, refl)

to_lower_example : to_lower "My-DB1z" ≡ "my-db1z"
unfolding to_lower char_of dec_lt
to_lower_example = refl
