-- ===== src/Instance/Reconcile.antt =====
-- controllers/rdsinstance_controller.go: Reconcile, with its deferred call.
use rds_dbaas_operator.Prelude.{String, Bool, true, false, ◌==◌, Option, none, some, if◌then◌else◌}
use rds_dbaas_operator.K8s.{
  is_not_found, is_conflict, ok, err, NamespacedName, Condition, condition_true, Reply, Step, stop,
  crash, go, Exec, ◌>>=◌,
}
use rds_dbaas_operator.Crd.{RdsInventory, RdsInstance, Phase}
use rds_dbaas_operator.Instance.Run.{
  instance_condition_ready, Client, Run, start, return_updating, return_error, return_not_ready,
  return_requeue, return_ready,
}
use rds_dbaas_operator.Instance.Finalizer.{check_finalizer}
use rds_dbaas_operator.Instance.Provision.{create_or_update_db_instance}
use rds_dbaas_operator.Instance.Sync.{sync_db_instance_status}

-- inventoryConditionReady
abbrev inventory_condition_ready : String
inventory_condition_ready = "SpecSynced"

module _ {S : Type 0} (client : Client S) where
  unfoldable pub inventory_ready : RdsInventory → Bool
  inventory_ready inventory =
      elim (client.meta.find_status_condition inventory.conditions inventory_condition_ready) [
        | none ↦ false
        | some c ↦ c.status == condition_true
      ]

  -- The inventory of the instance, if it is ready.
  unfoldable pub get_ready_inventory : Run → Exec S Run RdsInventory
  unfolding return_error return_requeue inventory_ready
  get_ready_inventory run s =
      let (r, s') = client.get_inventory run.instance_.inventory_ref s in
      elim r [
        | err e ↦ (
          stop (
              if is_not_found e
              then return_error e "NotFound" "Inventory not found" run
              else return_error e "BackendError" "Failed to get Inventory" run),
          s',
        )
        | ok inventory ↦
            if inventory_ready inventory
            then (go inventory, s')
            else (stop (return_requeue "Unreachable" "Inventory not ready" run), s')
      ]

  -- The switch on the phase; an empty one, which the code's `default` is for, changes nothing.
  unfoldable pub report_phase : Phase → Run → Run
  unfolding return_ready return_not_ready return_updating return_requeue
  report_phase Phase.ready run = return_ready run
  report_phase Phase.failed run = return_not_ready "Terminated" (client.phase_name Phase.failed) run
  report_phase Phase.deleted run =
      return_not_ready "Terminated" (client.phase_name Phase.deleted) run
  report_phase Phase.pending run = return_updating run
  report_phase Phase.creating run = return_updating run
  report_phase Phase.updating run = return_updating run
  report_phase Phase.deleting run = return_updating run
  report_phase Phase.error run = return_requeue "BackendError" "Instance with error" run
  report_phase Phase.unknown run = return_requeue "BackendError" "Instance with error" run
  report_phase Phase.unset run = run

  -- Reconcile behind the read of the instance, up to its deferred call.
  unfoldable pub handlers : Run → Exec S Run Run
  handlers run = do
    run₁ ← check_finalizer client run
    inventory ← get_ready_inventory run₁
    run₂ ← create_or_update_db_instance client inventory run₁
    run₃ ← sync_db_instance_status client inventory run₂
    λ s. (go (report_phase run₃.instance_.phase run₃), s)

  unfoldable pub ready_condition : Run → Condition
  ready_condition run = record {
    type = instance_condition_ready;
    status = run.provision_status;
    reason = run.provision_status_reason;
    message = run.provision_status_message;
    last_transition_time = none;
  }

  -- The phase that the deferred call writes: a reconciliation's own goes before the one that is
  -- there.
  unfoldable pub final_phase : Phase → Phase → Phase
  final_phase Phase.unset Phase.unset = Phase.unknown
  final_phase Phase.unset old = old
  final_phase set old = set

  -- The instance as the deferred call writes it.
  unfoldable pub with_condition : Run → RdsInstance
  unfolding ready_condition final_phase
  with_condition run = record run.instance_ {
    conditions = client.meta.set_status_condition run.instance_.conditions (ready_condition run);
    phase = final_phase run.phase run.instance_.phase;
  }

  -- The deferred call: the condition is written, and an error of the write changes the reply.
  unfoldable pub update_instance_ready_condition : Run → S → Reply × S
  unfolding with_condition
  update_instance_ready_condition run s =
      let (r, s') = client.update_status (with_condition run) s in
      elim r [
        | ok _ ↦ (record { requeue = run.requeue; error = run.error }, s')
        | err e ↦ if is_conflict e then (record { requeue = true; error = run.error }, s') else (
          record {
            requeue = run.requeue;
            error = elim run.error [ none ↦ some e | some e' ↦ some e' ];
          },
          s',
        )
      ]

  -- The reply of a reconciliation; none is a panic, behind which the deferred call still runs.
  unfoldable pub finish : Step Run Run × S → Option Reply × S
  unfolding update_instance_ready_condition
  finish (stop run, s) = let (reply, s') = update_instance_ready_condition run s in (some reply, s')
  finish (go run, s) = let (reply, s') = update_instance_ready_condition run s in (some reply, s')
  finish (crash run, s) = let (reply, s') = update_instance_ready_condition run s in (none, s')

  unfoldable pub reconcile : NamespacedName → S → Option Reply × S
  reconcile request s =
      let (r, s') = client.get_instance request s in
      elim r [
        | err e ↦
            (some (record { requeue = false; error = if is_not_found e then none else some e }), s')
        | ok instance_ ↦ finish (handlers (start instance_) s')
      ]
