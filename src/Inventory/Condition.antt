-- ===== src/Inventory/Condition.antt =====
-- controllers/rdsinventory_controller.go: updateInventoryReadyCondition, the deferred call.
use rds_dbaas_operator.Prelude.{true, none, some, if◌then◌else◌}
use rds_dbaas_operator.K8s.{is_conflict, ok, err, Condition, Reply}
use rds_dbaas_operator.Crd.{RdsInventory}
use rds_dbaas_operator.Inventory.Run.{inventory_condition_ready, Client, Run}

module _ {S : Type 0} (client : Client S) where
  unfoldable pub ready_condition : Run → Condition
  ready_condition run = record {
    type = inventory_condition_ready;
    status = run.sync_status;
    reason = run.sync_status_reason;
    message = run.sync_status_message;
    last_transition_time = none;
  }

  -- The inventory as the deferred call writes it: a reset removes the condition.
  unfoldable pub with_condition : Run → RdsInventory
  unfolding ready_condition
  with_condition run = record run.inventory {
    conditions =
        if run.sync_reset
        then client.meta.remove_status_condition run.inventory.conditions inventory_condition_ready
        else client.meta.set_status_condition run.inventory.conditions (ready_condition run);
  }

  unfoldable pub update_inventory_ready_condition : Run → S → Reply × S
  unfolding with_condition
  update_inventory_ready_condition run s =
      let (r, s') = client.update_status (with_condition run) s in
      elim r [
        | ok _ ↦ (record { requeue = run.requeue; error = run.error }, s')
        | err e ↦ if is_conflict e then (record { requeue = true; error = run.error }, s') else (
          record {
            requeue = run.requeue;
            error = elim run.error [ none ↦ some e | some e' ↦ some e' ];
          },
          s',
        )
      ]
