-- ===== src/Inventory/Controller.antt =====
-- controllers/rdsinventory_controller.go: the deployment of the RDS controller of ACK, how it is
-- started, awaited and stopped.
use rds_dbaas_operator.Prelude.{
  ℕ, zero, suc, String, Bool, true, false, Option, none, some, if◌then◌else◌, eqb, not,
}
use rds_dbaas_operator.Go.Strconv.{ℤ, pos, negsuc}
use rds_dbaas_operator.K8s.{Error, Result, ok, err, is_not_found, ObjectMeta, NamespacedName}

-- The fields of an appsv1.Deployment that the code reads or writes.
pub record Deployment : Type 0 where
  pub meta : ObjectMeta
  pub kind : String
  pub replicas : Option ℤ
  pub ready_replicas : ℤ

-- The API server on deployments, and time.Sleep of the interval.
pub record DeploymentClient (S : Type 0) : Type 0 where
  pub get_deployment : NamespacedName → S → Result Deployment × S
  pub update_deployment : Deployment → S → Result Deployment × S
  pub sleep : S → S

-- `n > 0`
abbrev pub is_positive : ℤ → Bool
is_positive (pos zero) = false
is_positive (pos (suc n)) = true
is_positive (negsuc n) = false

-- `Replicas == nil || *Replicas > 0`
unfoldable pub may_run : Option ℤ → Bool
may_run none = true
may_run (some n) = is_positive n

-- `Replicas == nil || *Replicas != 1`
unfoldable pub not_one : Option ℤ → Bool
not_one none = true
not_one (some (pos n)) = not (eqb n 1)
not_one (some (negsuc n)) = true

abbrev pub with_replicas : ℕ → Deployment → Deployment
with_replicas n d = record d { replicas = some (pos n) }

module _ {S : Type 0} (client : DeploymentClient S) (namespace : String) where
  abbrev pub deployment_key : NamespacedName
  deployment_key = record { namespace = namespace; name = "ack-rds-controller" }

  -- `Update`, of which the error alone counts.
  unfoldable pub scale : ℕ → Deployment → S → Option Error × S
  scale n d s =
      let (r, s') = client.update_deployment (with_replicas n d) s in
      elim r [ ok _ ↦ (none, s') | err e ↦ (some e, s') ]

  -- Behind the loop of stopRDSController.
  unfoldable pub stop_found : Result Deployment × S → Option Error × S
  stop_found (err e, s) = (some e, s)
  stop_found (ok d, s) = if may_run d.replicas then scale 0 d s else (none, s)

  -- One round of the loop of stopRDSController: a deployment that is not found is waited for, as
  -- often as retries are left.
  unfoldable pub await_deployment : ℕ → S → Result Deployment × S
  await_deployment zero s = client.get_deployment deployment_key s
  await_deployment (suc n) s =
      let (r, s') = client.get_deployment deployment_key s in
      let later = await_deployment n (client.sleep s') in
      elim r [ ok d ↦ (ok d, s') | err e ↦ if is_not_found e then later else (err e, s') ]

  -- `retries` is WaitForRDSControllerRetries.
  unfoldable pub stop_rds_controller : Bool → ℕ → S → Option Error × S
  stop_rds_controller wait retries s = stop_found (await_deployment (if wait then retries else 0) s)

  unfoldable pub start_found : Result Deployment × S → Option Error × S
  start_found (err e, s) = (some e, s)
  start_found (ok d, s) = if not_one d.replicas then scale 1 d s else (none, s)

  unfoldable pub start_rds_controller : S → Option Error × S
  start_rds_controller s = start_found (client.get_deployment deployment_key s)

  unfoldable pub wait_for_rds_controller : S → Result Bool × S
  wait_for_rds_controller s =
      let (r, s') = client.get_deployment deployment_key s in
      elim r [ err e ↦ (err e, s') | ok d ↦ (ok (is_positive d.ready_replicas), s') ]
