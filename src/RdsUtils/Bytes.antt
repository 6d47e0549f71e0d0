-- ===== src/RdsUtils/Bytes.antt =====
-- A text from its bytes, `string(buf)`, where the bytes are ASCII.
use Prim.Native.Char.{char, nul, IsScalar}
use mathlib.Core.Logic.{dite}
use native.Mathlib.Decide.{dec_lt}
use rds_dbaas_operator.Prelude.{ℕ, ◌<◌, Char, String, List, [], ◌∷◌, arith}

pub scalar : (n : ℕ) → n < 55296 → IsScalar n
scalar n h = ground arith

unfoldable pub char_of : ℕ → Char
char_of n = dite (dec_lt n 55296) (λ h. char n (scalar n h)) (λ _. nul)

unfoldable pub text_of : List ℕ → String
unfolding char_of dec_lt scalar
text_of [] = ""
text_of (n ∷ ns) = String.◌∷◌ (char_of n) (text_of ns)
