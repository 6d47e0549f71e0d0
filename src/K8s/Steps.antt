-- ===== src/K8s/Steps.antt =====
-- Handlers one behind the other: how a chain ended tells how its parts ended.
use rds_dbaas_operator.Prelude.{◌≡◌, refl, ◌⊎◌, inl, inr, arith}
use rds_dbaas_operator.K8s.{Step, stop, crash, go, Exec, continue}

-- A chain that went on is one whose first part went on.
pub continue-go :
    {S R A B : Type 0} (x : Step R A × S) (f : A → Exec S R B) {b : B} {s : S}
    → continue x f ≡ (go b, s)
    → (a : A) × (t : S) × (x ≡ (go a, t)) × (f a t ≡ (go b, s))
continue-go (stop v, t) f h = ground arith
continue-go (crash v, t) f h = ground arith
continue-go (go a, t) f h = (a, t, refl, h)

-- A chain that stopped is one whose first part stopped, or whose second.
pub continue-stop :
    {S R A B : Type 0} (x : Step R A × S) (f : A → Exec S R B) {v : R} {s : S}
    → continue x f ≡ (stop v, s)
    → (x ≡ (stop v, s)) ⊎ ((a : A) × (t : S) × (x ≡ (go a, t)) × (f a t ≡ (stop v, s)))
continue-stop (stop v, t) f h = inl (ground arith)
continue-stop (crash v, t) f h = ground arith
continue-stop (go a, t) f h = inr (a, t, refl, h)

-- What holds of the variables with which a handler stops, and of the value with which it goes on.
abbrev pub Ends : {R A : Type 0} → (R → Type 0) → (A → Type 0) → Step R A → Type 0
Ends P Q (stop v) = P v
Ends P Q (crash v) = Unit
Ends P Q (go a) = Q a

pub continue-Ends :
    {S R A B : Type 0} (P : R → Type 0) (Q : A → Type 0) (T : B → Type 0) (x : Step R A × S)
    (f : A → Exec S R B)
    → Ends P Q x.0
    → ((a : A) (t : S) → Q a → Ends P T (f a t).0)
    → Ends P T (continue x f).0
continue-Ends P Q T (stop v, t) f h k = h
continue-Ends P Q T (crash v, t) f h k = tt
continue-Ends P Q T (go a, t) f h k = k a t h

-- What holds of the value with which a handler goes on may be shown of that case alone.
pub Ends-go :
    {S R A : Type 0} (P : R → Type 0) (Q : A → Type 0) (x : Step R A × S)
    → Ends P (λ _. Unit) x.0
    → ((a : A) (t : S) → x ≡ (go a, t) → Q a)
    → Ends P Q x.0
Ends-go P Q (stop v, t) h k = h
Ends-go P Q (crash v, t) h k = tt
Ends-go P Q (go a, t) h k = k a t refl

pub go_parts :
    {S R A : Type 0} (a : A) (s : S) {b : A} {t : S}
    → ◌≡◌ {A = Step R A × S} (go a, s) (go b, t)
    → (a ≡ b) × (s ≡ t)
go_parts a s h = (ground arith, ground arith)
