-- ===== src/DbUtils/Engine/Cases.antt =====
-- A proof about every engine's name: the known names one by one, and the default branch of the
-- switches for all others.
use rds_dbaas_operator.Prelude.{
  String, ◌≡◌, refl, Bool, true, false, ◌&&◌, ◌==◌, eq_iff, List, [], ◌∷◌, inl, inr, All, one_of,
  switch, Bool-cases, arith, sym,
}
use mathlib.Core.Path.{subst}

-- A name that is in the list has what each name of the list has.
pub All-one_of {ℓ} :
    (P : String → Type ℓ) (s : String) (ts : List String) → All P ts → one_of s ts ≡ true → P s
unfolding one_of
All-one_of P s [] all h = cc
All-one_of P s (t ∷ ts) all h = elim (Bool-cases (s == t)) [
  | inl same ↦ subst P (sym ((eq_iff s t).0 same)) all.0
  | inr other ↦ All-one_of P s ts all.1 (rw other at h)
]

-- Every label is in `ts`.
abbrev pub labels_in : List String → List String → Bool
labels_in ts [] = true
labels_in ts (l ∷ ls) = one_of l ts && labels_in ts ls

abbrev pub cases_in {ℓ} : {A : Type ℓ} → List String → List (List String × A) → Bool
cases_in ts [] = true
cases_in ts ((ls, a) ∷ cases) = labels_in ts ls && cases_in ts cases

one_of-other :
    (s : String) (ts ls : List String)
    → labels_in ts ls ≡ true
    → one_of s ts ≡ false
    → one_of s ls ≡ false
unfolding one_of
one_of-other s ts [] inside h = refl
one_of-other s ts (l ∷ ls) inside h = ground (arith, eq_iff s l, one_of-other s ts ls)

-- A name outside `ts` takes the default of a switch whose labels are in `ts`.
pub switch-default {ℓ} :
    {A : Type ℓ} (s : String) (ts : List String) (cases : List (List String × A)) (d : A)
    → cases_in ts cases ≡ true
    → one_of s ts ≡ false
    → switch s cases d ≡ d
unfolding switch
switch-default s ts [] d inside h = refl
switch-default s ts ((ls, a) ∷ cases) d inside h =
    ground (arith, one_of-other s ts ls, switch-default s ts cases d)

-- What holds of the value of every case and of the default holds of a switch's value.
pub switch-All {ℓ κ} :
    {A : Type ℓ} (P : A → Type κ) (s : String) (cases : List (List String × A)) (d : A)
    → All (λ (c : List String × A). P c.1) cases
    → P d
    → P (switch s cases d)
unfolding switch
switch-All P s [] d all h = h
switch-All P s ((ls, a) ∷ cases) d all h = elim (Bool-cases (one_of s ls)) [
  | inl hit ↦ subst P (ground arith) all.0
  | inr miss ↦ subst P (ground arith) (switch-All P s cases d all.1 h)
]
