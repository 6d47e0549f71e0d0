-- ===== src/Connection/Sync.antt =====
-- controllers/rdsconnection_controller.go: syncConnectionStatus.
use rds_dbaas_operator.Prelude.{String, none, some, if◌then◌else◌}
use rds_dbaas_operator.K8s.{is_conflict, ok, err, Secret, ConfigMap, stop, crash, go, Exec, ◌>>=◌}
use rds_dbaas_operator.Connection.Run.{Client, Run, return_error, return_requeue}
use rds_dbaas_operator.Connection.Access.{Access}
use rds_dbaas_operator.Connection.Objects.{create_or_update_secret, create_or_update_config_map}

module _ {S : Type 0} (client : Client S) where
  -- The secret and the configmap are written, and the status refers to them.
  unfoldable pub write_objects : Access → String → Run → Exec S Run (Secret × ConfigMap)
  unfolding return_error
  write_objects access password run s =
      let (r, s₁) =
        create_or_update_secret client.objects run.connection access.username password s in
      elim r [
        | none ↦ (crash run, s₁)
        | some r' ↦ elim r' [
          | err e ↦
              (stop (return_error e "BackendError" "Failed to create or update secret" run), s₁)
          | ok user_secret ↦
              let (q, s₂) =
                create_or_update_config_map client.objects run.connection access.engine
                  access.db_name access.host access.port s₁ in
              elim q [
                | none ↦ (crash run, s₂)
                | some q' ↦ elim q' [
                  | err e ↦ (
                    stop (return_error e "BackendError" "Failed to create or update configmap" run),
                    s₂,
                  )
                  | ok cm ↦ (go (user_secret, cm), s₂)
                ]
              ]
        ]
      ]

  unfoldable pub update_refs : Secret × ConfigMap → Run → Exec S Run Run
  unfolding return_error return_requeue
  update_refs (user_secret, cm) run s =
      let connection = record run.connection {
        credentials_ref = some user_secret.meta.name;
        connection_info_ref = some cm.meta.name;
      } in
      let run' = record run { connection = connection } in
      let (r, s') = client.update_status connection s in
      elim r [
        | ok connection' ↦ (go (record run' { connection = connection' }), s')
        | err e ↦
            if is_conflict e
            then (stop (return_requeue "Updating" "Updating Connection" run'), s')
            else (stop (return_error e "BackendError" "Failed to update Connection" run'), s')
      ]

  unfoldable pub sync_connection_status : Access → String → Run → Exec S Run Run
  sync_connection_status access password run = do
    objects ← write_objects access password run
    update_refs objects run
