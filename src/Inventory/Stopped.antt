-- ===== src/Inventory/Stopped.antt =====
-- What stopRDSController and startRDSController have done when they return no error.
use rds_dbaas_operator.Go.Strconv.{ℤ, pos, negsuc}
use rds_dbaas_operator.Prelude.{
  Option, some, ℕ, zero, suc, String, ◌≡◌, ◌⊎◌, inl, inr, refl, Bool, true, false, none, Bool-cases,
  arith, if◌then◌else◌,
}
use rds_dbaas_operator.K8s.{Result, ok, err, is_not_found}
use rds_dbaas_operator.Inventory.Controller.{
  Deployment, DeploymentClient, may_run, with_replicas, deployment_key, scale, stop_found,
  await_deployment, stop_rds_controller,
}

-- A number of replicas that is given, and is zero or negative.
abbrev pub NoneRun : Option ℤ → Type 0
NoneRun replicas = (replicas ≡ some (pos 0)) ⊎ ((n : ℕ) × (replicas ≡ some (negsuc n)))

-- A number of replicas that is not given, for which Kubernetes takes one, or is positive.
abbrev pub SomeRun : Option ℤ → Type 0
SomeRun replicas = (replicas ≡ none) ⊎ ((n : ℕ) × (replicas ≡ some (pos (suc n))))

may_run-NoneRun : (o : Option ℤ) → may_run o ≡ false → NoneRun o
unfolding may_run
may_run-NoneRun none h = ground arith
may_run-NoneRun (some (pos zero)) h = inl refl
may_run-NoneRun (some (pos (suc n))) h = ground arith
may_run-NoneRun (some (negsuc n)) h = inr (n, refl)

may_run-SomeRun : (o : Option ℤ) → may_run o ≡ true → SomeRun o
unfolding may_run
may_run-SomeRun none h = inl refl
may_run-SomeRun (some (pos zero)) h = ground arith
may_run-SomeRun (some (pos (suc n))) h = inr (n, refl)
may_run-SomeRun (some (negsuc n)) h = ground arith

module _ {S : Type 0} (client : DeploymentClient S) (namespace : String) where
  -- The deployment was read, and runs nothing by its number of replicas or was written with none.
  pub record Scaled (d : Deployment) (u t : S) : Type 0 where
    pub v : S
    pub got : client.get_deployment (deployment_key client namespace) v ≡ (ok d, u)
    pub wrote :
        (NoneRun d.replicas × (u ≡ t))
        ⊎ (SomeRun d.replicas
            × (d' : Deployment) × (client.update_deployment (with_replicas 0 d) u ≡ (ok d', t)))

  scale-none_of :
      (r : Result Deployment) (n : ℕ) (d : Deployment) (s : S) {t : S}
      → (client.update_deployment (with_replicas n d) s).0 ≡ r
      → scale client namespace n d s ≡ (none, t)
      → (d' : Deployment) × (client.update_deployment (with_replicas n d) s ≡ (ok d', t))
  unfolding scale
  scale-none_of (ok d') n d s e h = (d', ground arith)
  scale-none_of (err x) n d s e h = ground arith

  written :
      (b : Bool) (n : ℕ) (d : Deployment) (s : S) {t : S}
      → (if b then scale client namespace n d s else (none, s)) ≡ (none, t)
      → ((b ≡ false) × (s ≡ t))
        ⊎ ((b ≡ true)
            × (d' : Deployment) × (client.update_deployment (with_replicas n d) s ≡ (ok d', t)))
  written true n d s h = let (d', e) = scale-none_of _ n d s refl h in inr (refl, d', e)
  written false n d s h = inl (refl, ground arith)

  -- A deployment that is awaited is one that a read has found.
  await-found_of :
      (n : ℕ) (r : Result Deployment) (s : S) {d : Deployment} {u : S}
      → (client.get_deployment (deployment_key client namespace) s).0 ≡ r
      → await_deployment client namespace n s ≡ (ok d, u)
      → (v : S) × (client.get_deployment (deployment_key client namespace) v ≡ (ok d, u))
  unfolding await_deployment
  await-found_of zero r s e h = (s, h)
  await-found_of (suc n) (ok d') s e h = (s, ground arith)
  await-found_of (suc n) (err x) s {d = d} {u = u} e h =
      let next = client.sleep (client.get_deployment (deployment_key client namespace) s).1 in
      elim (Bool-cases (is_not_found x)) [
        | inl gone ↦ await-found_of n _ next {d = d} {u = u} refl (ground arith)
        | inr other ↦ ground arith
      ]

  stop_found-Scaled :
      (x : Result Deployment × S) {t : S}
      → stop_found client namespace x ≡ (none, t)
      → (d : Deployment) × (u : S) × (x ≡ (ok d, u))
        × (((may_run d.replicas ≡ false) × (u ≡ t))
            ⊎ ((may_run d.replicas ≡ true)
                × (d' : Deployment) × (client.update_deployment (with_replicas 0 d) u
                    ≡ (ok d', t))))
  unfolding stop_found
  stop_found-Scaled (err e, u) h = ground arith
  stop_found-Scaled (ok d, u) h = (d, u, refl, written (may_run d.replicas) 0 d u h)

  -- stopRDSController returns no error, with or without waiting, only if it has read the deployment
  -- of the RDS controller, and either the deployment's number of replicas is given and is not
  -- positive, and nothing was written, or the number is not given or is positive, and the
  -- deployment was written with no replicas, without an error.
  pub stop_rds_controller-Scaled :
      (wait : Bool) (retries : ℕ) (s : S) {t : S}
      → stop_rds_controller client namespace wait retries s ≡ (none, t)
      → (d : Deployment) × (u : S) × Scaled d u t
  unfolding stop_rds_controller
  stop_rds_controller-Scaled wait retries s h =
      let (d, u, e, wrote) = stop_found-Scaled _ h in
      let (v, got) = await-found_of (if wait then retries else 0) _ s refl e in
      (
        d,
        u,
        record {
          v = v;
          got = got;
          wrote = elim wrote [
            | inl (idle, same) ↦ inl (may_run-NoneRun d.replicas idle, same)
            | inr (runs, d', write) ↦ inr (may_run-SomeRun d.replicas runs, d', write)
          ];
        },
      )
