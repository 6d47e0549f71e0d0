-- ===== src/Instance/Phase.antt =====
-- controllers/rdsinstance_controller.go: setDBInstancePhase, the phase of an instance by the status
-- of its database.
use rds_dbaas_operator.Prelude.{String, List, none, some, [], ◌∷◌, switch}
use rds_dbaas_operator.Ack.Instance.{DbInstance}
use rds_dbaas_operator.Crd.{RdsInstance, Phase}

-- `*dbInstance.Status.DBInstanceStatus`, or the empty text.
abbrev pub status_of : DbInstance → String
status_of db = elim db.status.db_instance_status [ none ↦ "" | some s ↦ s ]

-- The cases behind "available".
abbrev pub other_cases : List (List String × Phase)
other_cases =
    ("creating" ∷ [], Phase.creating)
    ∷ ("deleting" ∷ [], Phase.deleting)
    ∷ ("failed" ∷ [], Phase.failed)
    ∷ (
      "inaccessible-encryption-credentials-recoverable" ∷ "incompatible-parameters"
          ∷ "restore-error" ∷ [],
      Phase.error,
    )
    ∷ (
      "backing-up" ∷ "configuring-enhanced-monitoring" ∷ "configuring-iam-database-auth"
          ∷ "configuring-log-exports" ∷ "converting-to-vpc" ∷ "maintenance" ∷ "modifying"
          ∷ "moving-to-vpc" ∷ "rebooting" ∷ "resetting-master-credentials" ∷ "renaming" ∷ "starting"
          ∷ "stopping" ∷ "storage-optimization" ∷ "upgrading" ∷ [],
      Phase.updating,
    )
    ∷ (
      "inaccessible-encryption-credentials" ∷ "incompatible-network" ∷ "incompatible-option-group"
          ∷ "incompatible-restore" ∷ "insufficient-capacity" ∷ "stopped" ∷ "storage-full" ∷ [],
      Phase.unknown,
    )
    ∷ []

unfoldable pub phase_for : String → Phase
unfolding switch
phase_for status = switch status (("available" ∷ [], Phase.ready) ∷ other_cases) Phase.unknown

unfoldable pub set_db_instance_phase : DbInstance → RdsInstance → RdsInstance
set_db_instance_phase db i = record i { phase = phase_for (status_of db) }
