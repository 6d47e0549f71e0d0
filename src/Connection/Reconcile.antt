-- ===== src/Connection/Reconcile.antt =====
-- controllers/rdsconnection_controller.go: Reconcile, with its deferred call.
use rds_dbaas_operator.Prelude.{Bool, true, false, ◌==◌, Option, none, some, if◌then◌else◌}
use rds_dbaas_operator.K8s.{
  is_not_found, is_conflict, ok, err, NamespacedName, Condition, condition_true, Reply, Step, stop,
  crash, go, Exec, ◌>>=◌,
}
use rds_dbaas_operator.Crd.{RdsInventory, RdsConnection}
use rds_dbaas_operator.Connection.Run.{
  connection_condition_ready, inventory_condition_ready, Client, Run, start, return_error,
  return_requeue, return_ready,
}
use rds_dbaas_operator.Connection.Service.{check_db_service_status}
use rds_dbaas_operator.Connection.Access.{check_db_connection_status}
use rds_dbaas_operator.Connection.Sync.{sync_connection_status}

module _ {S : Type 0} (client : Client S) where
  -- `condition == nil || condition.Status != metav1.ConditionTrue`, negated
  unfoldable pub inventory_ready : RdsInventory → Bool
  inventory_ready inventory =
      elim (client.meta.find_status_condition inventory.conditions inventory_condition_ready) [
        | none ↦ false
        | some c ↦ c.status == condition_true
      ]

  -- The inventory of the connection, if it is ready.
  unfoldable pub get_ready_inventory : Run → Exec S Run RdsInventory
  unfolding return_error return_requeue inventory_ready
  get_ready_inventory run s =
      let (r, s') = client.get_inventory run.connection.inventory_ref s in
      elim r [
        | err e ↦ (
          stop (
              if is_not_found e
              then return_error e "NotFound" "Inventory not found" run
              else return_error e "BackendError" "Failed to get Inventory" run),
          s',
        )
        | ok inventory ↦
            if inventory_ready inventory
            then (go inventory, s')
            else (stop (return_requeue "Unreachable" "Inventory not ready" run), s')
      ]

  -- Reconcile behind the read of the connection, up to its deferred call.
  unfoldable pub handlers : Run → Exec S Run Run
  handlers run = do
    inventory ← get_ready_inventory run
    service ← check_db_service_status client inventory run
    found ← check_db_connection_status client service run
    run' ← sync_connection_status client found.0 found.1 run
    λ s. (go (return_ready run'), s)

  unfoldable pub ready_condition : Run → Condition
  ready_condition run = record {
    type = connection_condition_ready;
    status = run.binding_status;
    reason = run.binding_status_reason;
    message = run.binding_status_message;
    last_transition_time = none;
  }

  -- The connection with its condition set, as the deferred call writes it.
  unfoldable pub with_condition : Run → RdsConnection
  unfolding ready_condition
  with_condition run = record run.connection {
    conditions = client.meta.set_status_condition run.connection.conditions (ready_condition run);
  }

  -- The deferred call: the condition is written, and an error of the write changes the reply.
  unfoldable pub update_connection_ready_condition : Run → S → Reply × S
  unfolding with_condition
  update_connection_ready_condition run s =
      let (r, s') = client.update_status (with_condition run) s in
      elim r [
        | ok _ ↦ (record { requeue = run.requeue; error = run.error }, s')
        | err e ↦ if is_conflict e then (record { requeue = true; error = run.error }, s') else (
          record {
            requeue = run.requeue;
            error = elim run.error [ none ↦ some e | some e' ↦ some e' ];
          },
          s',
        )
      ]

  -- The reply of a reconciliation; none is a panic, behind which the deferred call still runs.
  unfoldable pub finish : Step Run Run × S → Option Reply × S
  unfolding update_connection_ready_condition
  finish (stop run, s) =
      let (reply, s') = update_connection_ready_condition run s in (some reply, s')
  finish (go run, s) = let (reply, s') = update_connection_ready_condition run s in (some reply, s')
  finish (crash run, s) = let (reply, s') = update_connection_ready_condition run s in (none, s')

  unfoldable pub reconcile : NamespacedName → S → Option Reply × S
  reconcile request s =
      let (r, s') = client.get_connection request s in
      elim r [
        | err e ↦
            (some (record { requeue = false; error = if is_not_found e then none else some e }), s')
        | ok connection ↦ finish (handlers (start connection) s')
      ]
