-- ===== src/Inventory/Install.antt =====
-- controllers/rdsinventory_controller.go: the secret and the configmap of the RDS controller of
-- ACK, and its installation.
pub mod Settings
use rds_dbaas_operator.Prelude.{
  String, ◌==◌, Bool, true, false, Option, none, some, [], ◌∷◌, Dict, insert, if◌then◌else◌,
}
use rds_dbaas_operator.K8s.{
  Error, Result, ok, err, ObjectMeta, lookup_nil, new_meta, Secret, ConfigMap, Step, stop, go, Exec,
  ◌>>=◌,
}
use rds_dbaas_operator.Inventory.Run.{Run, return_error, return_requeue_sync_reset}
use rds_dbaas_operator.Inventory.Controller.{
  Deployment, deployment_key, start_rds_controller, wait_for_rds_controller,
}
use rds_dbaas_operator.Inventory.Server.{Server, Mutate}

-- A copy of the annotations with the four of the operator.
unfoldable pub build_dbaas_annotations : String → ObjectMeta → Dict String
build_dbaas_annotations namespace obj = insert "owner.namespace" namespace (
    insert "owner.kind" "Deployment" (
      insert "owner" "ack-rds-controller" (
        insert "managed-by" "rds-dbaas-operator"
          (elim obj.annotations [ none ↦ [] | some m ↦ m ]))))

-- `string(credentialsRef.Data[key])`, which is empty where the key is missing.
abbrev pub value_of : String → Secret → String
value_of key ref = elim (lookup_nil key ref.entries) [ none ↦ "" | some v ↦ v ]

-- `secret.Data`
unfoldable pub controller_keys : Option Secret → Dict String
controller_keys none = ("AWS_ACCESS_KEY_ID", "dummy") ∷ ("AWS_SECRET_ACCESS_KEY", "dummy") ∷ []
controller_keys (some ref) =
    ("AWS_ACCESS_KEY_ID", value_of "AWS_ACCESS_KEY_ID" ref)
    ∷ ("AWS_SECRET_ACCESS_KEY", value_of "AWS_SECRET_ACCESS_KEY" ref)
    ∷ []

abbrev pub default_settings : Dict String
default_settings =
    ("AWS_ENDPOINT_URL", "")
    ∷ ("ACK_ENABLE_DEVELOPMENT_LOGGING", "false")
    ∷ ("ACK_WATCH_NAMESPACE", "")
    ∷ ("ACK_LOG_LEVEL", "info")
    ∷ ("ACK_RESOURCE_TAGS", "rhoda")
    ∷ []

-- `if v, ok := credentialsRef.Data[key]; ok { cm.Data[key] = string(v) }`
unfoldable pub override : String → Secret → Dict String → Dict String
override key ref m = elim (lookup_nil key ref.entries) [ none ↦ m | some v ↦ insert key v m ]

-- `cm.Data`
unfoldable pub controller_settings : Option Secret → Dict String
unfolding override
controller_settings none = insert "AWS_REGION" "dummy" default_settings
controller_settings (some ref) = override "ACK_RESOURCE_TAGS" ref (
    override "ACK_LOG_LEVEL" ref (insert "AWS_REGION" (value_of "AWS_REGION" ref) default_settings))

module _ {S : Type 0} (server : Server S) where
  unfoldable pub build_dbaas_labels : Dict String
  build_dbaas_labels = (server.type_label_key, server.type_label_value) ∷ []

  -- The metadata that both callbacks write. The owner is set where the deployment has a kind.
  unfoldable pub controller_meta : Deployment → ObjectMeta → Result ObjectMeta
  unfolding build_dbaas_labels
  controller_meta d obj =
      let labelled = record obj {
        labels = some build_dbaas_labels;
        annotations = some (build_dbaas_annotations server.namespace obj);
      } in
      if d.kind == "" then ok labelled else server.set_owner_annotations d.kind d.meta labelled

  unfoldable pub mutate_secret : Deployment → Option Secret → Mutate Secret
  mutate_secret d ref secret = elim (controller_meta d secret.meta) [
    | err e ↦ err e
    | ok meta ↦ ok (record { meta = meta; entries = some (controller_keys ref) })
  ]

  unfoldable pub mutate_config_map : Deployment → Option Secret → Mutate ConfigMap
  mutate_config_map d ref cm = elim (controller_meta d cm.meta) [
    | err e ↦ err e
    | ok meta ↦ ok (record { meta = meta; entries = some (controller_settings ref) })
  ]

  -- Behind the read of the deployment; of the answer to the write, the error alone counts.
  unfoldable pub write_secret : Option Secret → Result Deployment × S → Option Error × S
  write_secret ref (err e, s) = (some e, s)
  write_secret ref (ok d, s) =
      let (r, s') =
        server.create_or_update_secret
          (record { meta = new_meta "ack-rds-user-secrets" server.namespace; entries = none })
          (mutate_secret d ref) s in
      elim r [ ok _ ↦ (none, s') | err e ↦ (some e, s') ]

  unfoldable pub create_or_update_secret : Option Secret → S → Option Error × S
  create_or_update_secret ref s =
      write_secret ref
        (server.deployments.get_deployment (deployment_key server.deployments server.namespace) s)

  unfoldable pub write_config_map : Option Secret → Result Deployment × S → Option Error × S
  write_config_map ref (err e, s) = (some e, s)
  write_config_map ref (ok d, s) =
      let (r, s') =
        server.create_or_update_config_map
          (record { meta = new_meta "ack-rds-user-config" server.namespace; entries = none })
          (mutate_config_map d ref) s in
      elim r [ ok _ ↦ (none, s') | err e ↦ (some e, s') ]

  unfoldable pub create_or_update_config_map : Option Secret → S → Option Error × S
  create_or_update_config_map ref s =
      write_config_map ref
        (server.deployments.get_deployment (deployment_key server.deployments server.namespace) s)

  -- `if e := …; e != nil { returnError(e, BackendError, message); return true }`
  unfoldable pub attempt : String → Run → Option Error × S → Step Run (Unit {0}) × S
  attempt message run (some e, s) = (stop (return_error e "BackendError" message run), s)
  attempt message run (none, s) = (go tt, s)

  -- The controller is awaited: one that is not ready is looked at again later.
  unfoldable pub await_ready : Run → Result Bool × S → Step Run (Unit {0}) × S
  await_ready run (err e, s) = (
    stop (
        return_error e "BackendError"
          "Failed to verify Operator Deployment ready for RDS controller" run),
    s,
  )
  await_ready run (ok false, s) = (stop (return_requeue_sync_reset run), s)
  await_ready run (ok true, s) = (go tt, s)

  unfoldable pub install_rds_controller : Secret → Run → Exec S Run (Unit {0})
  install_rds_controller ref run = do
    _ ← λ s. attempt "Failed to create or update Secret" run (create_or_update_secret (some ref) s)
    _ ← λ s.
        attempt "Failed to create or update ConfigMap" run
          (create_or_update_config_map (some ref) s)
    _ ← λ s.
        attempt "Failed to install Operator Deployment for RDS controller" run
          (start_rds_controller server.deployments server.namespace s)
    λ s. await_ready run (wait_for_rds_controller server.deployments server.namespace s)
