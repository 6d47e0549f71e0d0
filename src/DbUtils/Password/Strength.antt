-- ===== src/DbUtils/Password/Strength.antt =====
-- Every generated password is strong, whatever the two sources of randomness draw.
use mathlib.Core.Path.{subst}
use rds_dbaas_operator.Prelude.{
  ℕ, zero, suc, ◌+◌, ◌≤◌, ◌<◌, ◌≡◌, refl, sym, ap, ◌∙◌, Bool, true, false, ◌||◌, Option, none, some,
  List, [], ◌∷◌, ◌++◌, eqb, length, get_elem?, set, if◌then◌else◌, arith, ◌⊎◌, inl, inr,
  Option-cases,
}
use rds_dbaas_operator.Prelude
use rds_dbaas_operator.DbUtils.Password
use rds_dbaas_operator.DbUtils.Password.{
  Random, RandomLaws, digits, specials, all, Draw, pick, fill, swap, shuffle, generate_password,
  get_rand_int, byte_at, and_then,
}
use rds_dbaas_operator.DbUtils.Password.Counts.{
  count_if, has, get_elem?-lt, has-get_elem?, has-append, get_elem?-set, count_if-set, length-set,
}

-- The same length, and as many bytes that pass each test.
record SameBytes (xs ys : List ℕ) : Type 0 where
  len : length xs ≡ length ys
  counts : (p : ℕ → Bool) → count_if p xs ≡ count_if p ys

same_value : (t : Bool) (b : ℕ) → (if t then some b else some b) ≡ some b
same_value true b = refl
same_value false b = refl

swap_lem :
    (buf : List ℕ) (i j : ℕ)
    → i < length buf
    → j < length buf
    → (buf' : List ℕ) × (swap buf i j ≡ some buf') × SameBytes buf' buf
unfolding swap
swap_lem buf i j hi hj =
    let (a, ea) = get_elem?-lt buf i hi in
    let (b, eb) = get_elem?-lt buf j hj in
    (
      set (set buf i b) j a,
      ground arith,
      record {
        len = length-set (set buf i b) j a ∙ length-set buf i b;
        counts = λ p. omega (
          arith,
          count_if-set p (set buf i b) j a (get_elem?-set buf i j b eb ∙ same_value (eqb i j) b),
          count_if-set p buf i b ea,
        );
      },
    )

-- Twelve bytes, all of them letters, digits or the listed specials, with at least one of each kind.
pub record IsStrong (password : List ℕ) : Type 0 where
  pub length : Prelude.length password ≡ 12
  pub allowed : count_if (has all) password ≡ 12
  pub digit : 1 ≤ count_if (has digits) password
  pub special : 1 ≤ count_if (has specials) password
  pub letter : 1 ≤ count_if (has Password.letter) password

all-digits : (c : ℕ) → has digits c ≡ true → has all c ≡ true
all-digits c h = simp has-append (ground (arith, h))

all-specials : (c : ℕ) → has specials c ≡ true → has all c ≡ true
all-specials c h = simp has-append (ground (arith, h))

all-letter : (c : ℕ) → has Password.letter c ≡ true → has all c ≡ true
all-letter c h = simp has-append (ground (arith, h))

-- The buffer before it is shuffled.
buffer-IsStrong :
    (d s l : ℕ) (rest : List ℕ)
    → has digits d ≡ true
    → has specials s ≡ true
    → has Password.letter l ≡ true
    → Prelude.length rest ≡ 9
    → count_if (has all) rest ≡ 9
    → IsStrong (d ∷ s ∷ l ∷ rest)
buffer-IsStrong d s l rest h₁ h₂ h₃ h₄ k₄ = record {
  length = omega (arith, h₄);
  allowed = rw (all-digits d h₁, all-specials s h₂, all-letter l h₃) (omega arith);
  digit = rw h₁ (omega arith);
  special = rw h₂ (omega arith);
  letter = rw h₃ (omega arith);
}

SameBytes-IsStrong : {xs ys : List ℕ} → SameBytes xs ys → IsStrong ys → IsStrong xs
SameBytes-IsStrong same h = record {
  length = same.len ∙ h.length;
  allowed = same.counts (has all) ∙ h.allowed;
  digit = rw (same.counts (has digits)) h.digit;
  special = rw (same.counts (has specials)) h.special;
  letter = rw (same.counts (has Password.letter)) h.letter;
}

SameBytes-trans : {xs ys zs : List ℕ} → SameBytes xs ys → SameBytes ys zs → SameBytes xs zs
SameBytes-trans a b = record { len = a.len ∙ b.len; counts = λ p. a.counts p ∙ b.counts p }

module _ {R : Type 0} (random : Random R) where
  -- The reader of crypto/rand fails at a draw below a positive bound.
  abbrev pub ReaderFails : Type 0
  ReaderFails = (n : ℕ) × (r : R) × (0 < n) × ((random.crypto_int n r).0 ≡ none)

  -- A draw has a value with the property, or it panics for a failing reader.
  abbrev pub Drawn : {A : Type 0} → (A → Type 0) → Option A → Type 0
  Drawn {A = A} Q o = ((a : A) × (o ≡ some a) × Q a) ⊎ ((o ≡ none) × ReaderFails)

  some-injective : {A : Type 0} {a b : A} → some a ≡ some b → a ≡ b
  some-injective e = ground arith

  draw_chain :
      {A B : Type 0} (P : A → Type 0) (Q : B → Type 0) (x : Option A × R) (f : A → Draw R B)
      → Drawn P x.0
      → ((a : A) (r : R) → P a → Drawn Q (f a r).0)
      → Drawn Q (and_then x f).0
  draw_chain P Q (none, r) f (inl (a, e, p)) h = ground arith
  draw_chain P Q (none, r) f (inr (e, fails)) h = inr (refl, fails)
  draw_chain P Q (some a, r) f (inl (a', e, p)) h = h a r (subst P (some-injective (sym e)) p)
  draw_chain P Q (some a, r) f (inr (e, fails)) h = ground arith

  module _ (laws : RandomLaws random) where
    abbrev Of : List ℕ → ℕ → Type 0
    Of chars c = has chars c ≡ true

    draws_below : (n : ℕ) (r : R) → 0 < n → Drawn (λ i. i < n) (get_rand_int random n r).0
    unfolding get_rand_int
    draws_below n r h = elim (Option-cases (random.crypto_int n r).0) [
      | inl e ↦ inr (e, (n, r, h, e))
      | inr (i, e) ↦ inl (i, e, laws.crypto_int-lt n r h e)
    ]

    pick_lem :
        (chars : List ℕ) (r : R) → 0 < length chars → Drawn (Of chars) (pick random chars r).0
    unfolding pick byte_at
    pick_lem chars r h =
        draw_chain (λ i. i < length chars) (Of chars) (get_rand_int random (length chars) r)
          (λ i r. (get_elem? chars i, r)) (draws_below (length chars) r h)
          (λ i r below.
            let (c, e) = get_elem?-lt chars i below in inl (c, e, has-get_elem? chars i e))

    abbrev Filled : ℕ → List ℕ → Type 0
    Filled n cs = (length cs ≡ n) × (count_if (has all) cs ≡ n)

    fill_lem : (n : ℕ) (r : R) → Drawn (Filled n) (fill random n r).0
    unfolding fill
    fill_lem zero r = inl ([], refl, (refl, refl))
    fill_lem (suc n) r =
        draw_chain (Of all) (Filled (suc n)) (pick random all r) _ (pick_lem all r (omega arith))
          (λ c r h.
            draw_chain (Filled n) (Filled (suc n)) (fill random n r) _ (fill_lem n r)
              (λ cs r (l, k). inl (c ∷ cs, refl, (omega (arith, l), ground arith))))

    j_below :
        (i : ℕ) (buf : List ℕ) (r : R)
        → suc i < length buf
        → (random.int31n (suc (suc i)) r).0 < length buf
    j_below i buf r h = omega (arith, laws.int31n-lt (suc (suc i)) r (omega arith))

    shuffle_lem :
        (i : ℕ) (buf : List ℕ) (r : R)
        → i < length buf
        → (buf' : List ℕ) × ((shuffle random i buf r).0 ≡ some buf') × SameBytes buf' buf
    unfolding shuffle
    shuffle_lem zero buf r h = (buf, refl, record { len = refl; counts = λ p. refl })
    shuffle_lem (suc i) buf r h =
        let j : ℕ = (random.int31n (suc (suc i)) r).0 in
        let r' : R = (random.int31n (suc (suc i)) r).1 in
        let (buf', e, same) = swap_lem buf (suc i) j h (j_below i buf r h) in
        let (buf'', e', same') = shuffle_lem i buf' r' (omega (arith, same.len)) in
        (buf'', ground arith, SameBytes-trans same' same)

    -- The master password of a database, where the numbers of the two sources of randomness respect
    -- their bounds: it has twelve bytes, all of them letters, digits or the listed specials, with
    -- at least one of each kind; or generation panics, and then the reader of crypto/rand has
    -- failed.
    pub generate_password-IsStrong : (r : R) → Drawn IsStrong (generate_password random r).0
    unfolding generate_password
    generate_password-IsStrong r =
        draw_chain (Of digits) IsStrong (pick random digits r) _ (pick_lem digits r (omega arith))
          (λ d r h₁.
            draw_chain (Of specials) IsStrong (pick random specials r) _
              (pick_lem specials r (omega arith))
              (λ s r h₂.
                draw_chain (Of Password.letter) IsStrong (pick random Password.letter r) _
                  (pick_lem Password.letter r (omega arith))
                  (λ l r h₃.
                    draw_chain (Filled 9) IsStrong (fill random 9 r) _ (fill_lem 9 r)
                      (λ rest r (h₄, k₄).
                        let (password, e, same) =
                          shuffle_lem 11 (d ∷ s ∷ l ∷ rest) r (omega (arith, h₄)) in
                        inl (
                          password,
                          e,
                          SameBytes-IsStrong same (buffer-IsStrong d s l rest h₁ h₂ h₃ h₄ k₄),
                        )))))
