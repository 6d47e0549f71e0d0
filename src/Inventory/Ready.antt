-- ===== src/Inventory/Ready.antt =====
-- What stands behind an inventory that Reconcile makes ready.
use mathlib.Core.Path.{subst}
use rds_dbaas_operator.Prelude.{◌≡◌, sym, ap, ◌∙◌, Bool, true, false, none, List, ◌++◌, ◌||◌, arith}
use rds_dbaas_operator.K8s.{Result, ok, err, Secret, condition_true, go}
use rds_dbaas_operator.K8s.Steps.{continue-go}
use rds_dbaas_operator.Crd.{RdsInventory, DatabaseService}
use rds_dbaas_operator.Inventory.Run.{Credentials, Run, return_ready, return_ready_requeue}
use rds_dbaas_operator.Inventory.Validate.{validate_aws_parameter}
use rds_dbaas_operator.Inventory.Validated.{Accepted, validate_aws_parameter-Accepted}
use rds_dbaas_operator.Inventory.Server.{Server}
use rds_dbaas_operator.Inventory.Install.{install_rds_controller}
use rds_dbaas_operator.Inventory.Finalizer.{check_finalizer}
use rds_dbaas_operator.Inventory.Database.{instance_database, cluster_database}
use rds_dbaas_operator.Inventory.Services.Listed.{Listed, sync_status-Listed}
use rds_dbaas_operator.Inventory.Reconcile.{
  adopt_db_instances, adopt_db_clusters, sync_db_instances_status, sync_db_clusters_status,
  adopt_both, stored, with_services, store_services, sync, adopt_and_sync, handlers,
}
use rds_dbaas_operator.Inventory.Passed.{Running, install-Running, IsKept, check-Kept, behind-go}

module _ {S : Type 0} (server : Server S) where
  -- Behind the write of the services.
  record Stored (b : Bool) (run run' : Run) (i : RdsInventory) : Type 0 where
    pub inventory : run'.inventory ≡ i
    pub status : run'.sync_status ≡ condition_true
    pub requeue : run'.requeue ≡ b
    pub error : run'.error ≡ none

  stored-go :
      (b : Bool) (run : Run) (x : Result RdsInventory × S) {run' : Run} {t : S}
      → stored server b run x ≡ (go run', t)
      → (i : RdsInventory) × (x ≡ (ok i, t)) × Stored b run run' i
  unfolding stored return_ready return_ready_requeue
  stored-go b run (err e, s) h = ground arith
  stored-go true run (ok i, s) h = (
    i,
    ground arith,
    record {
      inventory = ground arith;
      status = ground arith;
      requeue = ground arith;
      error = ground arith;
    },
  )
  stored-go false run (ok i, s) h = (
    i,
    ground arith,
    record {
      inventory = ground arith;
      status = ground arith;
      requeue = ground arith;
      error = ground arith;
    },
  )

  -- The services of the clusters and the instances that AWS lists are stored, and the condition
  -- becomes true.
  pub record Synced (c : Credentials) (b : Bool) (run run' : Run) (s t : S) : Type 0 where
    pub clusters : List DatabaseService
    pub instances : List DatabaseService
    pub u : S
    pub v : S
    pub clusters_listed : Listed cluster_database server server.clusters c run clusters s u
    pub instances_listed : Listed instance_database server server.instances c run instances u v
    pub written :
        server.client.update_status
          (record run.inventory { database_services = clusters ++ instances })
          v
        ≡ (ok run'.inventory, t)
    pub status : run'.sync_status ≡ condition_true
    pub error : run'.error ≡ none
    pub requeue : run'.requeue ≡ b

  store-Synced :
      (c : Credentials) (b : Bool) (run : Run) (s u v : S)
      (clusters instances : List DatabaseService) {run' : Run} {t : S}
      → Listed cluster_database server server.clusters c run clusters s u
      → Listed instance_database server server.instances c run instances u v
      → store_services server b (clusters ++ instances) run v ≡ (go run', t)
      → Synced c b run run' s t
  unfolding store_services
  store-Synced c b run s u v clusters instances {run' = run'} {t = t} cs is h =
      let (i, e, o) = stored-go b (with_services server (clusters ++ instances) run) _ h in
      record {
        clusters = clusters;
        instances = instances;
        u = u;
        v = v;
        clusters_listed = cs;
        instances_listed = is;
        written = e ∙ ap (λ i. (ok i, t)) (sym o.inventory);
        status = o.status;
        error = o.error;
        requeue = o.requeue;
      }

  sync-Synced :
      (c : Credentials) (b : Bool) (run : Run) (s : S) {run' : Run} {t : S}
      → sync server c b run s ≡ (go run', t)
      → Synced c b run run' s t
  unfolding sync sync_db_clusters_status sync_db_instances_status
  sync-Synced c b run s h =
      let (clusters, u, e, h) = continue-go (sync_db_clusters_status server c run s) _ h in
      let (instances, v, e', h) = continue-go (sync_db_instances_status server c run u) _ h in
      store-Synced c b run s u v clusters instances
        (sync_status-Listed cluster_database server server.clusters c run s e)
        (sync_status-Listed instance_database server server.instances c run u e') h

  -- The RDS controller runs, and the clusters and then the instances of AWS are adopted, before
  -- the services are stored. A new reconciliation is asked for where one of them is waited for.
  pub record Adopted (c : Credentials) (run run' : Run) (t : S) : Type 0 where
    pub u : S
    pub v : S
    pub w : S
    pub clusters_wait : Bool
    pub instances_wait : Bool
    pub running : Running server u
    pub clusters_adopted : adopt_db_clusters server c run u ≡ (go clusters_wait, v)
    pub instances_adopted : adopt_db_instances server c run v ≡ (go instances_wait, w)
    pub synced : Synced c (instances_wait || clusters_wait) run run' w t

  adopt_and_sync-Adopted :
      (run : Run) (secret : Secret) (c : Credentials) (s : S) {run' : Run} {t : S}
      → adopt_and_sync server run (secret, c) s ≡ (go run', t)
      → Adopted c run run' t
  unfolding adopt_and_sync adopt_both
  adopt_and_sync-Adopted run secret c s {run' = run'} {t = t} h =
      let (_, u, e, h) = continue-go (install_rds_controller server secret run s) _ h in
      let (b, w, e', h) = continue-go (adopt_both server c run u) _ h in
      let (rqc, rqi, v, e₁, e₂, eb) = behind-go server c run _ e' in
      record {
        u = u;
        v = v;
        w = w;
        clusters_wait = rqc;
        instances_wait = rqi;
        running = install-Running server secret run s e;
        clusters_adopted = e₁;
        instances_adopted = e₂;
        synced = subst (λ b. Synced c b run run' w t) eb (sync-Synced c b run w h);
      }

  -- What a reconciliation that makes the inventory ready has done, from `s` to `t`.
  pub record Ready (run run' : Run) (s t : S) : Type 0 where
    pub kept : IsKept server run.inventory
    pub secret : Secret
    pub credentials : Credentials
    pub u : S
    pub accepted : Accepted server.client run secret credentials s u
    pub adopted : Adopted credentials run run' t

  -- A reconciliation whose handlers all go on makes the inventory's condition true without an
  -- error. The inventory is not being deleted and has the finalizer; AWS has accepted the
  -- credentials of its secret; the deployment of the RDS controller was read with a ready replica;
  -- clusters and then instances were adopted with nothing to stop for; and the stored services are
  -- those of the clusters and then those of the instances that AWS lists. A new reconciliation is
  -- asked for exactly where the adopted clusters or instances have to be waited for.
  pub handlers-Ready :
      (run : Run) (s : S) {run' : Run} {t : S}
      → handlers server run s ≡ (go run', t)
      → Ready run run' s t
  unfolding handlers
  handlers-Ready run s h =
      let (_, s', e, h) = continue-go (check_finalizer server run s) _ h in
      let (kept, same) = check-Kept server run s e in
      let (validated, u, e', h) = continue-go (validate_aws_parameter server.client run s') _ h in
      record {
        kept = kept;
        secret = validated.0;
        credentials = validated.1;
        u = u;
        accepted =
            validate_aws_parameter-Accepted server.client run s
              (ap (validate_aws_parameter server.client run) same ∙ e');
        adopted = adopt_and_sync-Adopted run validated.0 validated.1 u h;
      }
