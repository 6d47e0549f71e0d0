-- ===== src/Instance/Patterns.antt =====
-- controllers/rdsinstance_controller.go: the two regular expressions, as automata over the
-- characters' numbers.
use Prim.Native.String
use rds_dbaas_operator.Prelude.{
  ℕ, String, code, Bool, true, false, not, ◌&&◌, ◌||◌, eqb, leb, if◌then◌else◌, ◌≡◌, refl,
}

unfoldable pub is_letter : ℕ → Bool
is_letter c = (leb b'a' c && leb c b'z') || (leb b'A' c && leb c b'Z')

unfoldable pub is_alnum : ℕ → Bool
unfolding is_letter
is_alnum c = is_letter c || (leb b'0' c && leb c b'9')

-- Behind the first letter, `(-?[a-zA-Z0-9]+)*$`; `dash` tells whether a dash was read last.
unfoldable pub identifier_tail : Bool → String → Bool
unfolding is_alnum
identifier_tail dash String.[] = not dash
identifier_tail dash (String.◌∷◌ c s) =
    let rest = identifier_tail (eqb (code c) b'-') s in
    if is_alnum (code c) then rest else if eqb (code c) b'-' && not dash then rest else false

-- `^[a-zA-Z](-?[a-zA-Z0-9]+)*$`
unfoldable pub is_identifier : String → Bool
unfolding identifier_tail
is_identifier String.[] = false
is_identifier (String.◌∷◌ c s) = is_letter (code c) && identifier_tail false s

-- `len(instanceID) <= 63 && regex.MatchString(instanceID)`
unfoldable pub valid_identifier : String → Bool
unfolding is_identifier
valid_identifier s = leb (String.len s) 63 && is_identifier s

-- Behind the first letter, `([A-Za-z0-9_,:]*[A-Za-z0-9_])?$`; `done` tells whether the last
-- character may end the text.
unfoldable pub reason_tail : Bool → String → Bool
unfolding is_alnum
reason_tail done String.[] = done
reason_tail done (String.◌∷◌ c s) =
    let ends = is_alnum (code c) || eqb (code c) b'_' in
    let rest = reason_tail ends s in
    if ends || eqb (code c) b',' || eqb (code c) b':' then rest else false

-- `^[A-Za-z]([A-Za-z0-9_,:]*[A-Za-z0-9_])?$`
unfoldable pub is_reason : String → Bool
unfolding reason_tail
is_reason String.[] = false
is_reason (String.◌∷◌ c s) = is_letter (code c) && reason_tail true s

identifier_examples :
    (valid_identifier "rds-db-1" ≡ true)
    × (valid_identifier "rds--db" ≡ false)
    × (valid_identifier "rds-" ≡ false)
    × (valid_identifier "1db" ≡ false)
    × (is_reason "A_b:c" ≡ true)
    × (is_reason "A:" ≡ false)
unfolding valid_identifier is_reason
identifier_examples = (refl, refl, refl, refl, refl, refl)
