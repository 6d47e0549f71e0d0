-- ===== src/RdsUtils/Names.antt =====
-- controllers/rds_utils.go: parseNamespacedName, the inverse of the text "namespace/name" that
-- operator-lib writes into an object's owner annotation.
use rds_dbaas_operator.Prelude.{
  ℕ, String, code, ◌≡◌, refl, ap, ◌∙◌, false, none, some, List, [], ◌∷◌, eqb, ◌<>◌, arith,
}
use text.Mathlib.TextLemmas.{cons-append, nil-append}
use rds_dbaas_operator.Go.Strings.{cut, split_n2}
use rds_dbaas_operator.K8s.{NamespacedName}

abbrev pub name_of_parts : List String → NamespacedName
name_of_parts [] = record { namespace = ""; name = "" }
name_of_parts (a ∷ []) = record { namespace = ""; name = a }
name_of_parts (a ∷ b ∷ _) = record { namespace = a; name = b }

unfoldable pub parse_namespaced_name : String → NamespacedName
unfolding split_n2
parse_namespaced_name s = name_of_parts (split_n2 b'/' s)

-- No character of the text has the number `c`.
abbrev pub IsFree : ℕ → String → Type 0
IsFree c String.[] = Unit
IsFree c (String.◌∷◌ d s) = (eqb (code d) c ≡ false) × IsFree c s

pub slash-append : (s : String) → "/" <> s ≡ String.◌∷◌ (Prim.Native.Char.char 47 tt) s
slash-append s =
    cons-append (Prim.Native.Char.char 47 tt) "" s
    ∙ ap (String.◌∷◌ (Prim.Native.Char.char 47 tt)) (nil-append s)

cut-append : (a b : String) → IsFree b'/' a → cut b'/' (a <> ("/" <> b)) ≡ some (a, b)
unfolding cut
cut-append String.[] b free = rw (nil-append ("/" <> b), slash-append b) refl
cut-append (String.◌∷◌ c a) b free =
    rw (cons-append c a ("/" <> b)) (ground (arith, cut-append a b free.1))

-- A namespace with no slash and any name are read back from the text "namespace/name".
pub parse_namespaced_name-append :
    (namespace name : String)
    → IsFree b'/' namespace
    → parse_namespaced_name (namespace <> ("/" <> name))
      ≡ record { namespace = namespace; name = name }
unfolding parse_namespaced_name
parse_namespaced_name-append namespace name free = ground (arith, cut-append namespace name free)

cut-free : (s : String) → IsFree b'/' s → cut b'/' s ≡ none
unfolding cut
cut-free String.[] free = refl
cut-free (String.◌∷◌ c s) free = ground (arith, cut-free s free.1)

-- A text with no slash is a name in the empty namespace.
pub parse_namespaced_name-free :
    (s : String) → IsFree b'/' s → parse_namespaced_name s ≡ record { namespace = ""; name = s }
unfolding parse_namespaced_name
parse_namespaced_name-free s free = ground (arith, cut-free s free)
