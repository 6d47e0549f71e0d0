-- ===== src/Instance/Sync.antt =====
-- controllers/rdsinstance_controller.go: setDBInstanceStatus and syncDBInstanceStatus, which copies
-- the database's state into the instance's status.
use rds_dbaas_operator.Prelude.{String, none, some, if◌then◌else◌}
use rds_dbaas_operator.K8s.{ok, err, is_not_found, is_conflict, stop, crash, go, Exec}
use rds_dbaas_operator.Ack.Instance.{DbInstance}
use rds_dbaas_operator.Crd.{RdsInventory, RdsInstance}
use rds_dbaas_operator.RdsUtils.InstanceStatus.{parse_db_instance_status}
use rds_dbaas_operator.Instance.Run.{Client, Run, return_updating, return_error}
use rds_dbaas_operator.Instance.Phase.{set_db_instance_phase}
use rds_dbaas_operator.Instance.Conditions.{copy_conditions}

unfoldable pub set_db_instance_status : DbInstance → RdsInstance → RdsInstance
set_db_instance_status db i = record i { instance_info = parse_db_instance_status db }

abbrev pub with_instance : RdsInstance → Run → Run
with_instance i run = record run { instance_ = i }

module _ {S : Type 0} (client : Client S) where
  -- The instance with the status of the database whose identifier is given.
  unfoldable pub synced : DbInstance → String → RdsInstance → RdsInstance
  unfolding set_db_instance_status set_db_instance_phase
  synced db identifier i =
      let i' =
        set_db_instance_status db
          (set_db_instance_phase db (record i { instance_id = identifier })) in
      record i' { conditions = copy_conditions client.meta db.status.conditions i'.conditions }

  unfoldable pub write_status : Run → Exec S Run Run
  unfolding return_updating return_error
  write_status run s =
      let (r, s') = client.update_status run.instance_ s in
      elim r [
        | ok i ↦ (go (with_instance i run), s')
        | err e ↦
            if is_conflict e
            then (stop (return_updating run), s')
            else (stop (return_error e "BackendError" "Failed to update Instance" run), s')
      ]

  unfoldable pub sync_db_instance_status : RdsInventory → Run → Exec S Run Run
  unfolding return_error
  sync_db_instance_status inventory run s =
      let (r, s') =
        client.get_db_instance
          (record { namespace = inventory.meta.namespace; name = run.instance_.meta.name }) s in
      elim r [
        | err e ↦ (
          stop (
              return_error e (if is_not_found e then "NotFound" else "BackendError")
                "Failed to get DB Instance" run),
          s',
        )
        | ok db ↦ elim db.spec.db_instance_identifier [
          | none ↦ (crash run, s')
          | some identifier ↦
              write_status (with_instance (synced db identifier run.instance_) run) s'
        ]
      ]
