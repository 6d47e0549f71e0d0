-- ===== src/Connection/Service.antt =====
-- controllers/rdsconnection_controller.go: checkDBServiceStatus.
use rds_dbaas_operator.Prelude.{
  String, Bool, true, false, ◌&&◌, ◌==◌, Option, none, some, List, [], ◌∷◌, ◌<>◌, if◌then◌else◌,
}
use rds_dbaas_operator.K8s.{Error, errorf, Result, ok, err, NamespacedName, Step, stop, go, Exec}
use rds_dbaas_operator.Crd.{DatabaseService, RdsInventory, RdsConnection}
use rds_dbaas_operator.Connection.Run.{
  instance_type, cluster_type, DbService, cluster, instance_, Client, Run, return_error,
}

-- The type of a service, where none is an instance.
abbrev pub type_or_instance : Option String → String
type_or_instance none = instance_type
type_or_instance (some t) = t

-- The loop over `inventory.Status.DatabaseServices`: the name of the first service that fits.
unfoldable pub find_service : String → String → List DatabaseService → Option String
find_service service_id c_type [] = none
find_service service_id c_type (ds ∷ rest) =
    if ds.service_id == service_id && c_type == type_or_instance ds.service_type
    then some ds.service_name
    else find_service service_id c_type rest

unfoldable pub service_not_found : RdsConnection → Error
service_not_found connection = elim connection.database_service_type [
  | some t ↦
      errorf (
        "database service "
        <> (connection.database_service_id <> (" type " <> (t <> " not found"))))
  | none ↦ errorf ("database service " <> (connection.database_service_id <> " not found"))
]

-- `connection.Spec.DatabaseServiceType` is set and a cluster.
abbrev pub wants_cluster : Option String → Bool
wants_cluster none = false
wants_cluster (some t) = t == cluster_type

-- `status != nil && *status == "available"`
abbrev pub is_available : Option String → Bool
is_available none = false
is_available (some status) = status == "available"

module _ {S : Type 0} (client : Client S) where
  -- The type switch on `dbService`: an error if the service is not available.
  unfoldable pub check_available : DbService → Run → Exec S Run DbService
  unfolding return_error
  check_available (cluster c) run s =
      if is_available c.status.status then (go (cluster c), s) else (
        stop (
            return_error
              (errorf ("cluster " <> (run.connection.database_service_id <> " not ready")))
              "Unreachable" "Database service not ready" run),
        s,
      )
  check_available (instance_ i) run s =
      if is_available i.status.db_instance_status then (go (instance_ i), s) else (
        stop (
            return_error
              (errorf ("instance " <> (run.connection.database_service_id <> " not ready")))
              "Unreachable" "Database service not ready" run),
        s,
      )

  -- `r.Get` into a DBCluster or a DBInstance
  unfoldable pub get_db_service : Bool → NamespacedName → S → Result DbService × S
  get_db_service true key s =
      let (r, s') = client.get_db_cluster key s in
      elim r [ err e ↦ (err e, s') | ok c ↦ (ok (cluster c), s') ]
  get_db_service false key s =
      let (r, s') = client.get_db_instance key s in
      elim r [ err e ↦ (err e, s') | ok i ↦ (ok (instance_ i), s') ]

  -- What was fetched has to be there and available.
  unfoldable pub opened : Result DbService × S → Run → Step Run DbService × S
  unfolding return_error
  opened (err e, s) run =
      (stop (return_error e "BackendError" "Failed to get Database service" run), s)
  opened (ok service, s) run = check_available service run s

  -- The service is fetched by its name.
  unfoldable pub open_service : String → Run → Exec S Run DbService
  open_service service_name run s =
      opened
        (get_db_service (wants_cluster run.connection.database_service_type)
          (record { namespace = run.connection.inventory_ref.namespace; name = service_name }) s)
        run

  unfoldable pub check_db_service_status : RdsInventory → Run → Exec S Run DbService
  unfolding return_error
  check_db_service_status inventory run s =
      let connection = run.connection in
      elim (find_service connection.database_service_id
        (type_or_instance connection.database_service_type) inventory.database_services) [
          | none ↦ (
            stop (
                return_error (service_not_found connection) "NotFound" "Database service not found"
                  run),
            s,
          )
          | some service_name ↦ open_service service_name run s
        ]
