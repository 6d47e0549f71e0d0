-- ===== src/Instance/Provision.antt =====
-- controllers/rdsinstance_controller.go: createOrUpdateDBInstance, the database of an instance.
use rds_dbaas_operator.Prelude.{Option, none, some}
use rds_dbaas_operator.K8s.{
  Result, ok, err, Step, stop, crash, go, Exec, OperationResult, unchanged, created, updated,
  new_meta,
}
use rds_dbaas_operator.Ack.Instance.{DbInstance, empty_db_instance}
use rds_dbaas_operator.Crd.{RdsInventory, Phase}
use rds_dbaas_operator.Instance.Run.{Client, Run, return_error, return_requeue}
use rds_dbaas_operator.Instance.Spec.{set_db_instance_spec}
use rds_dbaas_operator.Instance.Finalizer.{with_phase}

module _ {S : Type 0} (client : Client S) (inventory : RdsInventory) where
  -- Behind setDBInstanceSpec, which may panic.
  unfoldable pub specified :
      Run → Option (Result DbInstance) × S → Option (Result DbInstance) × Run × S
  unfolding return_error
  specified run (none, s) = (none, run, s)
  specified run (some (err e), s) = (some (err e), return_error e "InputError" e.message run, s)
  specified run (some (ok db), s) = (some (ok db), run, s)

  -- The inventory's credentials, and the spec by them.
  unfoldable pub write_spec : DbInstance → Run → S → Option (Result DbInstance) × Run × S
  unfolding return_error specified
  write_spec db run s =
      let (r, s') =
        client.secrets.get_secret
          (record { namespace = inventory.meta.namespace; name = inventory.credentials_ref }) s in
      elim r [
        | err e ↦ (some (err e), return_error e "InputError" e.message run, s')
        | ok secret ↦ specified run (set_db_instance_spec client db run.instance_ secret s')
      ]

  -- The callback of CreateOrUpdate.
  unfoldable pub mutate_db_instance : DbInstance → Run → S → Option (Result DbInstance) × Run × S
  unfolding return_error
  mutate_db_instance db run s = elim (client.set_owner_annotations run.instance_ db) [
    | err e ↦ (some (err e), return_error e "BackendError" e.message run, s)
    | ok db' ↦ write_spec db' run s
  ]

  -- What CreateOrUpdate's answer means for the reconciliation.
  unfoldable pub provisioned :
      Option (Result (OperationResult × DbInstance)) × Run × S → Step Run Run × S
  unfolding return_error return_requeue
  provisioned (none, run, s) = (crash run, s)
  provisioned (some (err e), run, s) =
      (stop (return_error e "" "Failed to create or update DB Instance" run), s)
  provisioned (some (ok (created, _)), run, s) =
      (stop (return_requeue "Creating" "Creating Instance" (with_phase Phase.creating run)), s)
  provisioned (some (ok (updated, _)), run, s) = (go (with_phase Phase.updating run), s)
  provisioned (some (ok (unchanged, _)), run, s) = (go run, s)

  unfoldable pub create_or_update_db_instance : Run → Exec S Run Run
  unfolding provisioned
  create_or_update_db_instance run s = provisioned (
      client.create_or_update_db_instance
        (empty_db_instance (new_meta run.instance_.meta.name inventory.meta.namespace))
        mutate_db_instance run s)
