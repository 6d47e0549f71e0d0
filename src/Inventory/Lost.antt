-- ===== src/Inventory/Lost.antt =====
-- What is left of the error of adoptDBClusters where adoptDBInstances stops as well.
use mathlib.Core.Path.{subst}
use rds_dbaas_operator.Prelude.{
  ◌≡◌, refl, sym, ap, ◌∙◌, true, false, none, some, is_some, distinct_bools, arith,
}
use rds_dbaas_operator.K8s.{ok, Secret, Step, stop, go}
use rds_dbaas_operator.Crd.{RdsInventory}
use rds_dbaas_operator.Inventory.Run.{Credentials, Run, return_error, return_requeue_sync_reset}
use rds_dbaas_operator.Inventory.Condition.{with_condition, update_inventory_ready_condition}
use rds_dbaas_operator.Inventory.Server.{Server}
use rds_dbaas_operator.Inventory.Database.{instance_database, cluster_database}
use rds_dbaas_operator.Inventory.Install.{install_rds_controller}
use rds_dbaas_operator.Inventory.Halts.{IsHalt, errored, requeued, Halts}
use rds_dbaas_operator.Inventory.Outcome.Databases.{adopt_all-Halts}
use rds_dbaas_operator.Inventory.Reconcile.{
  adopt_db_instances, adopt_db_clusters, both_stopped, adopt_instances_behind, adopt_both,
  adopt_and_sync, finish,
}

stopped_so :
    {S A : Type 0} {run run' : Run} {x : Step Run A × S} {s : S}
    → Halts run x.0
    → x ≡ (stop run', s)
    → IsHalt run run'
stopped_so {A = A} {run = run} h e = subst (λ x. Halts {A = A} run x.0) e h

-- A closure that stops with an error leaves the reset as it was.
reset_kept :
    {run run' : Run}
    → IsHalt run run'
    → is_some run'.error ≡ true
    → run'.sync_reset ≡ run.sync_reset
unfolding return_error return_requeue_sync_reset
reset_kept (errored e reason message) h = refl
reset_kept requeued h = ground arith

-- A closure that stops with the reset clears the error.
error_cleared :
    {run run' : Run}
    → IsHalt run run'
    → run.sync_reset ≡ false
    → run'.sync_reset ≡ true
    → (run'.requeue ≡ true) × (run'.error ≡ none)
unfolding return_error return_requeue_sync_reset
error_cleared (errored e reason message) h k = absurd (distinct_bools (sym k ∙ h))
error_cleared requeued h k = (refl, refl)

module _ {S : Type 0} (server : Server S) where
  both_ends :
      (run : Run) (secret : Secret) (c : Credentials) (s : S) {run' run'' : Run} {u v w : S}
      → install_rds_controller server secret run s ≡ (go tt, u)
      → adopt_db_clusters server c run u ≡ (stop run', v)
      → adopt_db_instances server c run' v ≡ (stop run'', w)
      → adopt_and_sync server run (secret, c) s ≡ (stop run'', w)
  unfolding adopt_and_sync adopt_both adopt_instances_behind both_stopped
  both_ends run secret c s e e' e'' = ground (arith, e, e', e'')

  reply_of :
      (run : Run) (s t : S) {i : RdsInventory}
      → run.requeue ≡ true
      → run.error ≡ none
      → server.client.update_status (with_condition server.client run) s ≡ (ok i, t)
      → finish server (stop run, s) ≡ (some (record { requeue = true; error = none }), t)
  unfolding finish update_inventory_ready_condition
  reply_of run s t e e' h = ground (arith, e, e', h)

  -- Where the RDS controller is installed, no reset was asked for, adoptDBClusters stops with an
  -- error, adoptDBInstances stops with a reset, and the status is written: the reply asks for a new
  -- reconciliation and has no error.
  pub adopt_and_sync-error :
      (run : Run) (secret : Secret) (c : Credentials) (s : S) {run' run'' : Run} {u v w t : S}
      {i : RdsInventory}
      → run.sync_reset ≡ false
      → install_rds_controller server secret run s ≡ (go tt, u)
      → adopt_db_clusters server c run u ≡ (stop run', v)
      → is_some run'.error ≡ true
      → adopt_db_instances server c run' v ≡ (stop run'', w)
      → run''.sync_reset ≡ true
      → server.client.update_status (with_condition server.client run'') w ≡ (ok i, t)
      → finish server (adopt_and_sync server run (secret, c) s)
        ≡ (some (record { requeue = true; error = none }), t)
  unfolding adopt_db_clusters adopt_db_instances
  adopt_and_sync-error run secret c s {run' = run'} {run'' = run''} {u = u} {v = v} {w = w} {t = t}
        no_reset e e' failed e'' reset written =
      let kept =
        reset_kept (stopped_so (adopt_all-Halts server cluster_database _ c run u) e') failed in
      let (requeue, error) =
        error_cleared (stopped_so (adopt_all-Halts server instance_database _ c run' v) e'')
          (kept ∙ no_reset) reset in
      ap (finish server) (both_ends run secret c s e e' e'')
      ∙ reply_of run'' w t requeue error written
