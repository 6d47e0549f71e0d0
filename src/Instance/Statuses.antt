-- ===== src/Instance/Statuses.antt =====
-- The phases that a database's status gives.
use mathlib.Core.Path.{subst}
use rds_dbaas_operator.Prelude.{
  String, ◌≡◌, refl, sym, ◌↔◌, Bool, true, false, ◌==◌, eq_iff, one_of, switch, Bool-cases, inl,
  inr, [], ◌∷◌, arith,
}
use rds_dbaas_operator.Crd.{Phase}
use rds_dbaas_operator.DbUtils.Engine.Cases.{switch-All}
use rds_dbaas_operator.Instance.Phase.{phase_for, other_cases}

abbrev pub is_ready : Phase → Bool
is_ready Phase.ready = true
is_ready _ = false

-- The phases of a database that exists.
abbrev pub is_observed : Phase → Bool
is_observed Phase.unset = false
is_observed Phase.pending = false
is_observed Phase.deleted = false
is_observed _ = true

other-not_ready : (s : String) → is_ready (switch s other_cases Phase.unknown) ≡ false
other-not_ready s =
    switch-All (λ p. is_ready p ≡ false) s other_cases Phase.unknown
      (refl, (refl, (refl, (refl, (refl, (refl, tt)))))) refl

phase_for-available : (s : String) → s ≡ "available" → phase_for s ≡ Phase.ready
unfolding phase_for
phase_for-available s e = subst (λ t. phase_for t ≡ Phase.ready) (sym e) refl

phase_for-else :
    (s : String) → (s == "available") ≡ false → phase_for s ≡ switch s other_cases Phase.unknown
unfolding phase_for switch one_of
phase_for-else s h = ground arith

-- The phase that is set from a database's status is Ready exactly where the status is "available",
-- and it is never empty, Pending or Deleted.
pub phase_for-IsReady :
    (s : String)
    → ((phase_for s ≡ Phase.ready) ↔ (s ≡ "available")) × (is_observed (phase_for s) ≡ true)
unfolding phase_for
phase_for-IsReady s = (
  (
    λ e. elim (Bool-cases (s == "available")) [
      | inl same ↦ (eq_iff s "available").0 same
      | inr other ↦ ground (arith, phase_for-else s other, other-not_ready s)
    ],
    phase_for-available s,
  ),
  switch-All (λ p. is_observed p ≡ true) s (("available" ∷ [], Phase.ready) ∷ other_cases)
      Phase.unknown (refl, (refl, (refl, (refl, (refl, (refl, (refl, tt))))))) refl,
)
