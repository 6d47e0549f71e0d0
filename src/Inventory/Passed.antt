-- ===== src/Inventory/Passed.antt =====
-- What holds when the handlers of an inventory's reconciliation go on.
use rds_dbaas_operator.Prelude.{
  String, ◌≡◌, refl, Bool, true, false, Option, none, some, List, ◌||◌, arith,
}
use rds_dbaas_operator.K8s.{Result, ok, err, Secret, Step, stop, crash, go}
use rds_dbaas_operator.K8s.Steps.{continue-go}
use rds_dbaas_operator.Crd.{RdsInventory}
use rds_dbaas_operator.Inventory.Run.{Credentials, Run}
use rds_dbaas_operator.Inventory.Controller.{
  Deployment, is_positive, deployment_key, wait_for_rds_controller,
}
use rds_dbaas_operator.Inventory.Server.{Server, AdoptedResource}
use rds_dbaas_operator.Inventory.Install.{
  attempt, await_ready, create_or_update_secret, create_or_update_config_map,
  install_rds_controller,
}
use rds_dbaas_operator.Inventory.Finalizer.{
  added, finalizer_updated, write_finalizer, release, deleted_or_release, delete_resources,
  finalize_by, finalize, check_finalizer,
}
use rds_dbaas_operator.Inventory.Finalizer.Released.{has_finalizer}
use rds_dbaas_operator.Inventory.Reconcile.{
  adopt_db_instances, both_stopped, both_done, adopt_instances_behind,
}

module _ {S : Type 0} (server : Server S) where
  -- The deployment of the RDS controller was read last, and has a replica that is ready.
  pub record Running (t : S) : Type 0 where
    pub deployment : Deployment
    pub u : S
    pub found :
        server.deployments.get_deployment (deployment_key server.deployments server.namespace) u
        ≡ (ok deployment, t)
    pub is_ready : is_positive deployment.ready_replicas ≡ true

  wait-Running_of :
      (r : Result Deployment) (s : S) {t : S}
      → (server.deployments.get_deployment (deployment_key server.deployments server.namespace) s).0
        ≡ r
      → wait_for_rds_controller server.deployments server.namespace s ≡ (ok true, t)
      → Running t
  unfolding wait_for_rds_controller
  wait-Running_of (err e) s er h = ground arith
  wait-Running_of (ok d) s er h = record {
    deployment = d;
    u = s;
    found = ground arith;
    is_ready = ground arith;
  }

  await-go :
      (run : Run) (x : Result Bool × S) {u : Unit {0}} {t : S}
      → await_ready server run x ≡ (go u, t)
      → x ≡ (ok true, t)
  unfolding await_ready
  await-go run (err e, s) h = ground arith
  await-go run (ok false, s) h = ground arith
  await-go run (ok true, s) h = ground arith

  pub install-Running :
      (ref : Secret) (run : Run) (s : S) {u : Unit {0}} {t : S}
      → install_rds_controller server ref run s ≡ (go u, t)
      → Running t
  unfolding install_rds_controller
  install-Running ref run s h =
      let (_, u, e, h) =
        continue-go (attempt server _ run (create_or_update_secret server (some ref) s)) _ h in
      let (_, v, e, h) =
        continue-go (attempt server _ run (create_or_update_config_map server (some ref) u)) _ h in
      let (_, w, e, h) = continue-go (attempt server _ run _) _ h in
      wait-Running_of _ w refl (await-go run _ h)

  -- An inventory that is not being deleted and has the finalizer.
  abbrev pub IsKept : RdsInventory → Type 0
  IsKept i = (i.meta.deletion_timestamp ≡ none) × (has_finalizer server i ≡ true)

  finalizer_updated-go :
      (run : Run) (x : Result RdsInventory × S) {u : Unit {0}} {t : S}
      → finalizer_updated server run x ≡ (go u, t)
      → ⊥
  unfolding finalizer_updated
  finalizer_updated-go run (ok i, s) h = ground arith
  finalizer_updated-go run (err e, s) h = ground arith

  deleted-go :
      (run : Run) (b : Bool) (s : S) {u : Unit {0}} {t : S}
      → deleted_or_release server run b s ≡ (go u, t)
      → ⊥
  unfolding deleted_or_release release write_finalizer
  deleted-go run true s h = ground arith
  deleted-go run false s h =
      let (_, u, e, h) =
        continue-go (attempt server _ run (create_or_update_secret server none s)) _ h in
      let (_, v, e, h) =
        continue-go (attempt server _ run (create_or_update_config_map server none u)) _ h in
      let (_, w, e, h) = continue-go (attempt server _ run _) _ h in finalizer_updated-go _ _ h

  finalize_by-go :
      (run : Run) (x : Result (List AdoptedResource) × S) {u : Unit {0}} {t : S}
      → finalize_by server run x ≡ (go u, t)
      → ⊥
  unfolding finalize_by
  finalize_by-go run (err e, s) h = ground arith
  finalize_by-go run (ok rs, s) h =
      let (b, u, e, h) = continue-go (delete_resources server rs false run s) _ h in
      deleted-go run b u h

  check-Kept_of :
      (d : Option String) (b : Bool) (run : Run) (s : S) {u : Unit {0}} {t : S}
      → run.inventory.meta.deletion_timestamp ≡ d
      → has_finalizer server run.inventory ≡ b
      → check_finalizer server run s ≡ (go u, t)
      → IsKept run.inventory × (s ≡ t)
  unfolding check_finalizer finalize write_finalizer
  check-Kept_of none true run s ed eb h = ((ed, eb), ground arith)
  check-Kept_of none false run s {u = u} {t = t} ed eb h = absurd (
      finalizer_updated-go (record run { inventory = added server run.inventory })
        (server.update_inventory (added server run.inventory) s) {u = u} {t = t} (ground arith))
  check-Kept_of (some _) true run s {u = u} {t = t} ed eb h = absurd (
      finalize_by-go run (server.list_adopted_resources run.inventory.meta.namespace s) {u = u}
        {t = t} (ground arith))
  check-Kept_of (some _) false run s ed eb h = ground arith

  pub check-Kept :
      (run : Run) (s : S) {u : Unit {0}} {t : S}
      → check_finalizer server run s ≡ (go u, t)
      → IsKept run.inventory × (s ≡ t)
  check-Kept run s h = check-Kept_of _ _ run s refl refl h

  both_done-go :
      (b : Bool) (x : Step Run Bool × S) {b' : Bool} {t : S}
      → both_done server b x ≡ (go b', t)
      → (r : Bool) × (x ≡ (go r, t)) × (b' ≡ (r || b))
  unfolding both_done
  both_done-go b (stop run, s) h = ground arith
  both_done-go b (crash run, s) h = ground arith
  both_done-go b (go r, s) h = (r, ground arith, ground arith)

  both_stopped-go :
      (run : Run) (x : Step Run Bool × S) {b : Bool} {t : S}
      → both_stopped server run x ≡ (go b, t)
      → ⊥
  unfolding both_stopped
  both_stopped-go run (stop run', s) h = ground arith
  both_stopped-go run (crash run', s) h = ground arith
  both_stopped-go run (go r, s) h = ground arith

  pub behind-go :
      (c : Credentials) (run : Run) (x : Step Run Bool × S) {b : Bool} {t : S}
      → adopt_instances_behind server c run x ≡ (go b, t)
      → (rqc : Bool) × (rqi : Bool) × (u : S) × (x ≡ (go rqc, u))
        × (adopt_db_instances server c run u ≡ (go rqi, t))
        × (b ≡ (rqi || rqc))
  unfolding adopt_instances_behind
  behind-go c run (stop run', s) h = absurd (both_stopped-go run' _ h)
  behind-go c run (crash run', s) h = ground arith
  behind-go c run (go rqc, s) h =
      let (rqi, e, e') = both_done-go rqc _ h in (rqc, rqi, s, refl, e, e')
