-- ===== src/Inventory/Waits.antt =====
-- How long stopRDSController waits for the deployment of the RDS controller.
use mathlib.Core.Path.{subst}
use rds_dbaas_operator.Prelude.{
  ℕ, zero, suc, ◌≤◌, ◌<◌, String, ◌≡◌, refl, ap, ◌⊎◌, inl, inr, Bool, true, false, Bool-cases,
  arith, if◌then◌else◌,
}
use rds_dbaas_operator.K8s.{Result, ok, err, is_not_found}
use rds_dbaas_operator.Inventory.Controller.{
  Deployment, DeploymentClient, deployment_key, stop_found, await_deployment, stop_rds_controller,
}

module _ {S : Type 0} (client : DeploymentClient S) (namespace : String) where
  abbrev read : S → Result Deployment × S
  read s = client.get_deployment (deployment_key client namespace) s

  -- The state behind `k` reads, each with a pause behind it.
  abbrev pub after : ℕ → S → S
  after zero s = s
  after (suc k) s =
      after k (client.sleep (client.get_deployment (deployment_key client namespace) s).1)

  abbrev pub is_missing : Result Deployment → Bool
  is_missing (ok d) = false
  is_missing (err e) = is_not_found e

  -- The answer that counts is that of the read behind `k` pauses.
  pub record Waits (retries : ℕ) (s : S) (x : Result Deployment × S) : Type 0 where
    pub k : ℕ
    pub bounded : k ≤ retries
    pub counts : x ≡ client.get_deployment (deployment_key client namespace) (after k s)
    pub missing :
        (j : ℕ)
        → j < k
        → is_missing (client.get_deployment (deployment_key client namespace) (after j s)).0 ≡ true
    pub ends :
        (k ≡ retries)
        ⊎ (is_missing (client.get_deployment (deployment_key client namespace) (after k s)).0
            ≡ false)

  at_once :
      (n : ℕ) (s : S) (x : Result Deployment × S)
      → x ≡ read s
      → (0 ≡ n) ⊎ (is_missing (read s).0 ≡ false)
      → Waits n s x
  at_once n s x e h = record {
    k = 0;
    bounded = omega arith;
    counts = e;
    missing = λ j below. absurd (omega arith);
    ends = h;
  }

  later :
      (n : ℕ) (s : S) (x : Result Deployment × S)
      → is_missing (read s).0 ≡ true
      → Waits n (client.sleep (read s).1) x
      → Waits (suc n) s x
  later n s x gone w = record {
    k = suc w.k;
    bounded = omega (arith, w.bounded);
    counts = w.counts;
    missing = earlier;
    ends = elim w.ends [ inl e ↦ inl (ap suc e) | inr found ↦ inr found ];
  }
    where
      earlier : (j : ℕ) → j < suc w.k → is_missing (read (after j s)).0 ≡ true
      earlier zero below = gone
      earlier (suc j) below = w.missing j (omega arith)

  await-Waits_of :
      (n : ℕ) (r : Result Deployment) (s : S)
      → (read s).0 ≡ r
      → Waits n s (await_deployment client namespace n s)
  unfolding await_deployment
  await-Waits_of zero r s e = at_once zero s _ refl (inl refl)
  await-Waits_of (suc n) (ok d) s e = at_once (suc n) s _ (ground arith) (inr (ground arith))
  await-Waits_of (suc n) (err x) s e = elim (Bool-cases (is_not_found x)) [
    | inl gone ↦ subst (Waits (suc n) s) (ground arith) (
        later n s (await_deployment client namespace n (client.sleep (read s).1)) (ground arith)
          (await-Waits_of n _ (client.sleep (read s).1) refl))
    | inr other ↦ at_once (suc n) s _ (ground arith) (inr (ground arith))
  ]

  -- stopRDSController decides by a read of the deployment behind at most WaitForRDSControllerRetries
  -- pauses, and behind none unless it waits. Each of the reads in front of that one has not found
  -- the deployment; that one is the last that is allowed, or it has another answer.
  pub stop_rds_controller-Waits :
      (wait : Bool) (retries : ℕ) (s : S)
      → (x : Result Deployment × S) × Waits (if wait then retries else 0) s x
        × (stop_rds_controller client namespace wait retries s ≡ stop_found client namespace x)
  unfolding stop_rds_controller
  stop_rds_controller-Waits wait retries s =
      (_, await-Waits_of (if wait then retries else 0) _ s refl, refl)
