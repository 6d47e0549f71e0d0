-- ===== src/K8s/Results.antt =====
-- Chains of steps that may return an error.
use rds_dbaas_operator.Prelude.{◌≡◌, refl, arith}
use rds_dbaas_operator.K8s.{Result, ok, err}

infixl 5 ◌>>=◌
abbrev pub ◌>>=◌ {ℓ κ} : {A : Type ℓ} {B : Type κ} → Result A → (A → Result B) → Result B
ok a >>= f = f a
err e >>= f = err e

-- The two parts of a chain that ended without an error.
pub record Chained {ℓ κ} {A : Type ℓ} {B : Type κ} (first : Result A) (next : A → Result B)
    (end : B) : Type (ℓ ⊔ κ) where
  pub between : A
  pub first_ok : first ≡ ok between
  pub next_ok : next between ≡ ok end

pub split_chain {ℓ κ} :
    {A : Type ℓ} {B : Type κ} {end : B} (first : Result A) (next : A → Result B)
    → (first >>= next) ≡ ok end
    → Chained first next end
split_chain (err _) next ended = ground arith
split_chain (ok between) next ended = record { between = between; first_ok = refl; next_ok = ended }
