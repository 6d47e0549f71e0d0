-- ===== src/DbUtils/Password.antt =====
-- controllers/db_utils.go: generatePassword and getRandInt. A password is the list of its bytes,
-- and a panic, at an index out of range or at a nil number, is `none`. The two sources of
-- randomness are parameters: crypto/rand's `Int`, which has no number when its reader fails, and
-- the `int31n` that math/rand's `Shuffle` draws from.
pub mod Counts
pub mod Strength
use rds_dbaas_operator.Prelude.{
  ℕ, zero, suc, ◌<◌, String, Char, code, ◌≡◌, Option, none, some, List, [], ◌∷◌, ◌++◌, length,
  get_elem?, set,
}

pub record Random (R : Type 0) : Type 0 where
  pub crypto_int : ℕ → R → Option ℕ × R
  pub int31n : ℕ → R → ℕ × R

-- The numbers that both return are below their argument, if that is positive.
pub record RandomLaws {R : Type 0} (random : Random R) : Type 0 where
  pub crypto_int-lt : (n : ℕ) (r : R) {i : ℕ} → 0 < n → (random.crypto_int n r).0 ≡ some i → i < n
  pub int31n-lt : (n : ℕ) (r : R) → 0 < n → (random.int31n n r).0 < n

-- The bytes of an ASCII text.
abbrev pub codes : String → List ℕ
codes String.[] = []
codes (String.◌∷◌ first rest) = code first ∷ codes rest

abbrev pub digits : List ℕ
digits = codes "0123456789"

abbrev pub specials : List ℕ
specials = codes "~=+%^*()[]{}!#$?|"

abbrev pub letter : List ℕ
letter = codes "ABCDEFGHIJKLMNOPQRSTUVWXYZabcdefghijklmnopqrstuvwxyz"

abbrev pub all : List ℕ
all = letter ++ (digits ++ specials)

abbrev pub Draw : Type 0 → Type 0 → Type 0
Draw R A = R → Option A × R

abbrev pub and_then : {R A B : Type 0} → Option A × R → (A → Draw R B) → Option B × R
and_then (none, r) f = (none, r)
and_then (some a, r) f = f a r

infixl 5 ◌>>=◌
abbrev pub ◌>>=◌ : {R A B : Type 0} → Draw R A → (A → Draw R B) → Draw R B
◌>>=◌ m f r = and_then (m r) f

abbrev pub pure : {R A : Type 0} → A → Draw R A
pure a r = (some a, r)

-- `buf[i], buf[j] = buf[j], buf[i]`
pub swap : List ℕ → ℕ → ℕ → Option (List ℕ)
swap buf i j = elim (get_elem? buf i) [
  | none ↦ none
  | some a ↦ elim (get_elem? buf j) [ none ↦ none | some b ↦ some (set (set buf i b) j a) ]
]

module _ {R : Type 0} (random : Random R) where
  -- `result, _ := cryptorand.Int(…)`, of which the error is dropped and the number dereferenced
  pub get_rand_int : ℕ → Draw R ℕ
  get_rand_int s = random.crypto_int s

  -- `chars[i]`
  pub byte_at : List ℕ → ℕ → Draw R ℕ
  byte_at chars i r = (get_elem? chars i, r)

  -- `chars[getRandInt(len(chars))]`
  pub pick : List ℕ → Draw R ℕ
  unfolding get_rand_int byte_at
  pick chars = do i ← get_rand_int (length chars); byte_at chars i

  -- The rounds `buf[i] = all[getRandInt(len(all))]` that are left.
  pub fill : ℕ → Draw R (List ℕ)
  fill zero = pure []
  fill (suc n) = do c ← pick all; rest ← fill n; pure (c ∷ rest)

  -- rand.Shuffle from index `i` down to 1.
  pub shuffle : ℕ → List ℕ → Draw R (List ℕ)
  shuffle zero buf r = (some buf, r)
  shuffle (suc i) buf r =
      let (j, r') = random.int31n (suc (suc i)) r in
      elim (swap buf (suc i) j) [ none ↦ (none, r') | some buf' ↦ shuffle i buf' r' ]

  unfoldable pub generate_password : Draw R (List ℕ)
  generate_password = do
    d ← pick digits
    s ← pick specials
    l ← pick letter
    rest ← fill 9
    shuffle 11 (d ∷ s ∷ l ∷ rest)
