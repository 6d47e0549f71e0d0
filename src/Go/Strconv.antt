-- ===== src/Go/Strconv.antt =====
-- strconv: FormatInt and ParseInt at base 10 and 64 bits, FormatBool and ParseBool.
use rds_dbaas_operator.Prelude.{
  ℕ, zero, suc, ◌+◌, ◌-◌, ◌*◌, ◌/◌, ◌%◌, ◌^◌, String, code, Bool, true, false, ◌&&◌, ◌==◌, Option,
  none, some, [], ◌∷◌, eqb, ltb, leb, ◌≡◌, refl, ◌<>◌, switch, one_of, if◌then◌else◌, get_elem?,
}

-- `negsuc n` is -(n + 1).
pub data ℤ : Type 0 where
  pos : ℕ → ℤ
  negsuc : ℕ → ℤ

-- The character of a digit.
digit : ℕ → String
digit d =
    elim (get_elem? {A = String} ("0" ∷ "1" ∷ "2" ∷ "3" ∷ "4" ∷ "5" ∷ "6" ∷ "7" ∷ "8" ∷ "9" ∷ [])
      d) [ none ↦ "" | some s ↦ s ]

-- `n + 1` divisions by ten are enough for `n`.
decimal : ℕ → ℕ → String
decimal zero n = ""
decimal (suc fuel) n =
    let rest = decimal fuel (n / 10) <> digit (n % 10) in if ltb n 10 then digit n else rest

unfoldable pub format_ℕ : ℕ → String
unfolding decimal digit
format_ℕ n = decimal (suc n) n

unfoldable pub format_int : ℤ → String
unfolding format_ℕ
format_int (pos n) = format_ℕ n
format_int (negsuc n) = "-" <> format_ℕ (suc n)

unfoldable pub format_bool : Bool → String
format_bool true = "true"
format_bool false = "false"

-- The number that decimal digits stand for; `none` at any other character.
parse_digits : ℕ → String → Option ℕ
parse_digits n String.[] = some n
parse_digits n (String.◌∷◌ c s) =
    let rest = parse_digits (n * 10 + (code c - 48)) s in
    if leb 48 (code c) && leb (code c) 57 then rest else none

unsigned : String → Option ℕ
unfolding parse_digits
unsigned s = if s == "" then none else parse_digits 0 s

-- In the range of int64; a value out of range is an error.
in_range : Bool → Option ℕ → Option ℤ
in_range negative none = none
in_range false (some n) = if ltb n (2 ^ 63) then some (pos n) else none
in_range true (some zero) = some (pos 0)
in_range true (some (suc n)) = if ltb n (2 ^ 63) then some (negsuc n) else none

-- `strconv.ParseInt(s, 10, 64)`: `none` is an error.
unfoldable pub parse_int : String → Option ℤ
unfolding unsigned in_range
parse_int String.[] = none
parse_int (String.◌∷◌ c s) =
    if eqb (code c) b'-'
    then in_range true (unsigned s)
    else if eqb (code c) b'+'
    then in_range false (unsigned s)
    else in_range false (unsigned (String.◌∷◌ c s))

-- `strconv.ParseBool`: `none` is an error.
unfoldable pub parse_bool : String → Option Bool
unfolding switch one_of
parse_bool s =
    switch s
      (("1" ∷ "t" ∷ "T" ∷ "true" ∷ "TRUE" ∷ "True" ∷ [], some true)
        ∷ ("0" ∷ "f" ∷ "F" ∷ "false" ∷ "FALSE" ∷ "False" ∷ [], some false)
        ∷ [])
      none

format_int_examples :
    (parse_int (format_int (negsuc 119)) ≡ some (negsuc 119)) × (format_int (pos 5432) ≡ "5432")
unfolding format_int parse_int
format_int_examples = (refl, refl)

parse_int_errors : (parse_int "9223372036854775808" ≡ none) × (parse_int "1_0" ≡ none)
unfolding parse_int
parse_int_errors = (refl, refl)
