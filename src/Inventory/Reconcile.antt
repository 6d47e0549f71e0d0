-- ===== src/Inventory/Reconcile.antt =====
-- controllers/rdsinventory_controller.go: Reconcile.
use rds_dbaas_operator.Prelude.{false, Bool, ◌||◌, Option, none, some, List, ◌++◌, if◌then◌else◌}
use rds_dbaas_operator.K8s.{
  Result, ok, err, is_not_found, is_conflict, NamespacedName, Secret, Reply, Step, stop, crash, go,
  Exec, ◌>>=◌,
}
use rds_dbaas_operator.Crd.{DatabaseService, RdsInventory}
use rds_dbaas_operator.Inventory.Run.{
  Credentials, Run, start, return_error, return_requeue_sync_reset, return_ready,
  return_ready_requeue,
}
use rds_dbaas_operator.Inventory.Validate.{validate_aws_parameter}
use rds_dbaas_operator.Inventory.Condition.{update_inventory_ready_condition}
use rds_dbaas_operator.Inventory.Server.{Server}
use rds_dbaas_operator.Inventory.Install.{install_rds_controller}
use rds_dbaas_operator.Inventory.Finalizer.{check_finalizer}
use rds_dbaas_operator.Inventory.Database.{instance_database, cluster_database}
use rds_dbaas_operator.Inventory.Reset.{adopt_all}
use rds_dbaas_operator.Inventory.Services.{sync_status}

module _ {S : Type 0} (server : Server S) where
  unfoldable pub adopt_db_instances : Credentials → Run → Exec S Run Bool
  adopt_db_instances = adopt_all server instance_database server.instances

  unfoldable pub adopt_db_clusters : Credentials → Run → Exec S Run Bool
  adopt_db_clusters = adopt_all server cluster_database server.clusters

  unfoldable pub sync_db_instances_status : Credentials → Run → Exec S Run (List DatabaseService)
  sync_db_instances_status = sync_status instance_database server server.instances

  unfoldable pub sync_db_clusters_status : Credentials → Run → Exec S Run (List DatabaseService)
  sync_db_clusters_status = sync_status cluster_database server server.clusters

  -- `if rtc || rti { return }`, where the clusters have stopped: the instances go on from the
  -- variables that the clusters have set.
  unfoldable pub both_stopped : Run → Step Run Bool × S → Step Run Bool × S
  both_stopped run (stop run', s) = (stop run', s)
  both_stopped run (crash run', s) = (crash run', s)
  both_stopped run (go _, s) = (stop run, s)

  -- `rqi || rqc`, where the clusters have not stopped
  unfoldable pub both_done : Bool → Step Run Bool × S → Step Run Bool × S
  both_done rqc (stop run, s) = (stop run, s)
  both_done rqc (crash run, s) = (crash run, s)
  both_done rqc (go rqi, s) = (go (rqi || rqc), s)

  -- The instances are adopted whatever became of the clusters.
  unfoldable pub adopt_instances_behind : Credentials → Run → Step Run Bool × S → Step Run Bool × S
  adopt_instances_behind c run (stop run', s) = both_stopped run' (adopt_db_instances c run' s)
  adopt_instances_behind c run (crash run', s) = (crash run', s)
  adopt_instances_behind c run (go rqc, s) = both_done rqc (adopt_db_instances c run s)

  unfoldable pub adopt_both : Credentials → Run → Exec S Run Bool
  adopt_both c run s = adopt_instances_behind c run (adopt_db_clusters c run s)

  -- Behind `r.Status().Update(ctx, &inventory)`
  unfoldable pub stored : Bool → Run → Result RdsInventory × S → Step Run Run × S
  stored requeue run (err e, s) =
      if is_conflict e
      then (stop (return_requeue_sync_reset run), s)
      else (stop (return_error e "BackendError" "Failed to update Inventory" run), s)
  stored requeue run (ok i, s) =
      let run' = record run { inventory = i } in
      (go (if requeue then return_ready_requeue run' else return_ready run'), s)

  -- `inventory.Status.DatabaseServices = services`
  abbrev pub with_services : List DatabaseService → Run → Run
  with_services services run = record run {
    inventory = record run.inventory { database_services = services };
  }

  unfoldable pub store_services : Bool → List DatabaseService → Run → Exec S Run Run
  store_services requeue services run s =
      stored requeue (with_services services run)
        (server.client.update_status (with_services services run).inventory s)

  unfoldable pub sync : Credentials → Bool → Run → Exec S Run Run
  sync c requeue run = do
    clusters ← sync_db_clusters_status c run
    instances ← sync_db_instances_status c run
    store_services requeue (clusters ++ instances) run

  -- Behind the credentials.
  unfoldable pub adopt_and_sync : Run → Secret × Credentials → Exec S Run Run
  adopt_and_sync run (ref, c) = do
    _ ← install_rds_controller server ref run
    requeue ← adopt_both c run
    sync c requeue run

  -- The handlers of a reconciliation, in their order.
  unfoldable pub handlers : Run → Exec S Run Run
  handlers run = do
    _ ← check_finalizer server run
    validated ← validate_aws_parameter server.client run
    adopt_and_sync run validated

  -- The reply of a reconciliation; none is a panic, behind which the deferred call still runs.
  unfoldable pub finish : Step Run Run × S → Option Reply × S
  unfolding update_inventory_ready_condition
  finish (stop run, s) =
      let (reply, s') = update_inventory_ready_condition server.client run s in (some reply, s')
  finish (go run, s) =
      let (reply, s') = update_inventory_ready_condition server.client run s in (some reply, s')
  finish (crash run, s) =
      let (reply, s') = update_inventory_ready_condition server.client run s in (none, s')

  -- `get` reads an inventory.
  unfoldable pub reconcile :
      (NamespacedName → S → Result RdsInventory × S) → NamespacedName → S → Option Reply × S
  reconcile get request s =
      let (r, s') = get request s in
      elim r [
        | err e ↦
            (some (record { requeue = false; error = if is_not_found e then none else some e }), s')
        | ok inventory ↦ finish (handlers (start inventory) s')
      ]
