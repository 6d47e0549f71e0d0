-- ===== src/DbUtils/Password/Counts.antt =====
-- How many bytes of a list pass a test, under writes.
use rds_dbaas_operator.Prelude.{
  ℕ, zero, suc, ◌+◌, ◌<◌, ◌≡◌, refl, Bool, true, false, ◌||◌, some, List, [], ◌∷◌, ◌++◌, eqb,
  length, get_elem?, set, if◌then◌else◌, arith,
}

abbrev pub to_ℕ : Bool → ℕ
to_ℕ true = 1
to_ℕ false = 0

abbrev pub count_if : (ℕ → Bool) → List ℕ → ℕ
count_if p [] = 0
count_if p (x ∷ xs) = to_ℕ (p x) + count_if p xs

-- `c` is one of the bytes.
abbrev pub has : List ℕ → ℕ → Bool
has [] c = false
has (x ∷ xs) c = eqb c x || has xs c

pub get_elem?-lt : (xs : List ℕ) (i : ℕ) → i < length xs → (x : ℕ) × (get_elem? xs i ≡ some x)
get_elem?-lt [] i h = absurd (omega arith)
get_elem?-lt (x ∷ xs) zero h = (x, refl)
get_elem?-lt (x ∷ xs) (suc i) h = get_elem?-lt xs i (omega arith)

pub has-get_elem? : (xs : List ℕ) (i : ℕ) {x : ℕ} → get_elem? xs i ≡ some x → has xs x ≡ true
has-get_elem? [] i h = cc
has-get_elem? (x ∷ xs) zero h = ground arith
has-get_elem? (x ∷ xs) (suc i) h = ground (arith, has-get_elem? xs i h)

pub has-append : (xs ys : List ℕ) (c : ℕ) → has (xs ++ ys) c ≡ (has xs c || has ys c)
has-append [] ys c = refl
has-append (x ∷ xs) ys c = ground (arith, has-append xs ys c)

pub get_elem?-set :
    (xs : List ℕ) (i j v : ℕ) {x : ℕ}
    → get_elem? xs j ≡ some x
    → get_elem? (set xs i v) j ≡ (if eqb i j then some v else some x)
get_elem?-set [] i j v h = cc
get_elem?-set (x ∷ xs) zero zero v h = refl
get_elem?-set (x ∷ xs) zero (suc j) v h = ground arith
get_elem?-set (x ∷ xs) (suc i) zero v h = ground arith
get_elem?-set (x ∷ xs) (suc i) (suc j) v h = ground (arith, get_elem?-set xs i j v h)

pub count_if-set :
    (p : ℕ → Bool) (xs : List ℕ) (i v : ℕ) {x : ℕ}
    → get_elem? xs i ≡ some x
    → count_if p (set xs i v) + to_ℕ (p x) ≡ count_if p xs + to_ℕ (p v)
count_if-set p [] i v h = cc
count_if-set p (y ∷ xs) zero v h = ground arith
count_if-set p (y ∷ xs) (suc i) v h = omega (arith, count_if-set p xs i v h)

pub length-set : (xs : List ℕ) (i v : ℕ) → length (set xs i v) ≡ length xs
length-set [] i v = refl
length-set (x ∷ xs) zero v = refl
length-set (x ∷ xs) (suc i) v = omega (arith, length-set xs i v)
