-- ===== src/Inventory/Services.antt =====
-- controllers/rdsinventory_controller.go: syncDBInstancesStatus and syncDBClustersStatus, the
-- services that an inventory lists.
pub mod Listed
use rds_dbaas_operator.Prelude.{
  String, Option, none, some, List, [], ◌∷◌, Dict, lookup, index, is_some, if◌then◌else◌,
}
use rds_dbaas_operator.K8s.{Exec, go, ◌>>=◌}
use rds_dbaas_operator.Crd.{DatabaseService}
use rds_dbaas_operator.Inventory.Run.{Credentials, Run}
use rds_dbaas_operator.Inventory.Server.{Server, DatabaseClient, AwsDatabase}
use rds_dbaas_operator.Inventory.Database.{Database, arn_entry, read_pages}
use rds_dbaas_operator.Inventory.Adopt.{or_get_error}

-- The ARN and the identifier of a database of AWS that has both.
unfoldable pub aws_identifier : AwsDatabase → Option (String × String)
aws_identifier a = elim a.identifier [
  | none ↦ none
  | some i ↦ elim a.arn [ none ↦ none | some arn ↦ some (arn, i) ]
]

-- `services = append(services, service)`, where there is one.
abbrev pub cons_some : {A : Type 0} → Option A → List A → List A
cons_some none xs = xs
cons_some (some x) xs = x ∷ xs

module _ {D : Type 0} (database : Database D) where
  unfoldable pub service_of : String → D → DatabaseService
  service_of identifier d = record {
    service_id = identifier;
    service_name = (database.meta d).name;
    service_type = some database.service_type;
    service_info = database.info d;
  }

  -- The body of the loop over the databases of the namespace.
  unfoldable pub known_service : Dict String → D → Option DatabaseService
  known_service known d = elim (arn_entry database d) [
    | none ↦ none
    | some (arn, identifier) ↦
        if is_some (lookup arn known) then some (service_of identifier d) else none
  ]

  unfoldable pub services_of : Dict String → List D → List DatabaseService
  services_of known [] = []
  services_of known (d ∷ ds) = cons_some (known_service known d) (services_of known ds)

  module _ {S : Type 0} (server : Server S) (client : DatabaseClient S D) where
    unfoldable pub sync_status : Credentials → Run → Exec S Run (List DatabaseService)
    sync_status c run = do
      listed ← λ s. or_get_error server database run (read_pages (client.pages c) s)
      ds ← λ s. or_get_error server database run (client.list run.inventory.meta.namespace s)
      λ s. (go (services_of (index aws_identifier listed []) ds), s)
