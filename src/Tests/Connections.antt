-- ===== src/Tests/Connections.antt =====
-- The theorems on connections at a server with one inventory and one database that is available.
use rds_dbaas_operator.Prelude.{
  one_of, switch, insert, String, ◌≡◌, ◌↔◌, refl, false, none, some, List, [], ◌∷◌, Dict, lookup,
}
use rds_dbaas_operator.Go.Strconv.{pos, format_int}
use rds_dbaas_operator.K8s.{
  Result, ok, err, NamespacedName, ObjectMeta, Condition, Secret, ConfigMap, Reply, go, new_meta,
}
use rds_dbaas_operator.Ack.Instance.{DbInstance, empty_db_instance, empty_spec, empty_status}
use rds_dbaas_operator.Crd.{RdsInventory, RdsConnection}
use rds_dbaas_operator.DbUtils.Engine.{
  generate_binding_type, get_default_db_name, get_default_db_port,
}
use rds_dbaas_operator.Connection.Objects.{
  database_provider, ObjectClient, create_or_update_secret, create_or_update_config_map,
  mutate_secret, mutate_config_map, connection_meta, set_secret, set_config_map, insert_some,
  database_entry, port_entry, build_connection_annotations, build_connection_labels,
}
use mathlib.Core.List.{Memᴰ}
use rds_dbaas_operator.DbUtils.Engine.Families.{port_of, database_of}
use rds_dbaas_operator.Connection.Objects.Entries.{
  or_else, default_port_text, set_config_map-entries,
}
use rds_dbaas_operator.Connection.Requests.{get_instance_connection_requests}
use rds_dbaas_operator.Connection.Requested.{Fitting, get_instance_connection_requests-exact}
use rds_dbaas_operator.Connection.Run.{
  Client, Run, start, return_ready, return_requeue, return_error,
}
use rds_dbaas_operator.Connection.Service.{
  check_db_service_status, find_service, open_service, opened, check_available, get_db_service,
}
use rds_dbaas_operator.Connection.Access.{
  Access, access_of, check_db_connection_status, check_secret, read_password, password_at,
  check_access,
}
use rds_dbaas_operator.Connection.Sync.{sync_connection_status, write_objects, update_refs}
use rds_dbaas_operator.Connection.Reconcile.{
  reconcile, finish, update_connection_ready_condition, with_condition, ready_condition, handlers,
  get_ready_inventory, inventory_ready,
}
use rds_dbaas_operator.Connection.Outcome.{Reports, reconcile-Reports}
use rds_dbaas_operator.Connection.Ready.{Reads, handlers-Reads}
use rds_dbaas_operator.Connection.Written.{ObjectLaws, Describes, write_objects-Describes}
use rds_dbaas_operator.Tests.Server.{
  find_condition, remove_condition, test_meta, test_meta-laws, missing_object,
}

abbrev pub ready : Condition
ready = record {
  type = "SpecSynced";
  status = "True";
  reason = "SyncOK";
  message = "";
  last_transition_time = none;
}

abbrev pub test_inventory : RdsInventory
test_inventory = record {
  meta = new_meta "inventory" "apps";
  kind = "RDSInventory";
  credentials_ref = "aws";
  conditions = ready ∷ [];
  database_services =
      record {
        service_id = "db-1";
        service_name = "orders";
        service_type = some "instance";
        service_info = [];
      }
      ∷ [];
}

abbrev pub test_database : DbInstance
test_database = record (empty_db_instance (new_meta "orders" "apps")) {
  spec = record empty_spec {
    engine = some "postgres";
    db_instance_identifier = some "db-1";
    master_username = some "postgres";
    master_user_password =
        some (record { name = "orders-credentials"; namespace = "apps"; key = "password" });
  };
  status = record empty_status {
    db_instance_status = some "available";
    endpoint =
        some
          (record { address = some "db-1.example"; hosted_zone_id = none; port = some (pos 5432) });
  };
}

abbrev pub test_secret : Secret
test_secret = record {
  meta = new_meta "orders-credentials" "apps";
  entries = some (("password", "s3cret") ∷ []);
}

abbrev test_connection : RdsConnection
test_connection = record {
  meta = new_meta "binding" "apps";
  kind = "RDSConnection";
  inventory_ref = record { namespace = "apps"; name = "inventory" };
  database_service_id = "db-1";
  database_service_type = some "instance";
  conditions = [];
  credentials_ref = none;
  connection_info_ref = none;
}

abbrev test_objects : ObjectClient (Unit {0})
test_objects = record {
  create_or_update_secret = λ secret mutate s. (mutate secret, s);
  create_or_update_config_map = λ cm mutate s. (mutate cm, s);
  set_controller_reference = λ c meta. ok meta;
  type_label_key = "type";
  type_label_value = "credentials";
}

abbrev test_client : Client (Unit {0})
test_client = record {
  objects = test_objects;
  meta = test_meta;
  get_connection = λ key s. (ok test_connection, s);
  get_inventory = λ key s. (ok test_inventory, s);
  get_db_cluster = λ key s. (err missing_object, s);
  get_db_instance = λ key s. (ok test_database, s);
  get_secret = λ key s. (ok test_secret, s);
  update_status = λ c s. (ok c, s);
}

-- Opens the reconciler's code.
connection_code : Unit {0}
unfolding reconcile finish update_connection_ready_condition with_condition ready_condition handlers
    get_ready_inventory inventory_ready check_db_service_status find_service open_service opened
    check_available get_db_service access_of check_db_connection_status check_secret read_password
    password_at check_access sync_connection_status write_objects update_refs
    create_or_update_secret create_or_update_config_map mutate_secret mutate_config_map
    connection_meta set_secret set_config_map insert_some database_entry port_entry return_ready
    return_requeue return_error generate_binding_type switch one_of lookup insert find_condition
    remove_condition build_connection_annotations build_connection_labels get_default_db_name
    get_default_db_port format_int
connection_code = tt

abbrev done : Reply
done = record { requeue = false; error = none }

abbrev bound : RdsConnection
bound = record test_connection {
  credentials_ref = some "binding-credentials";
  connection_info_ref = some "binding-configs";
}

abbrev bound_run : Run
bound_run = record {
  connection = bound;
  requeue = false;
  error = none;
  binding_status = "True";
  binding_status_reason = "Ready";
  binding_status_message = "";
}

abbrev test_key : NamespacedName
test_key = record { namespace = "apps"; name = "binding" }

reconciled : reconcile test_client test_key tt ≡ (some done, tt)
unfolding connection_code
reconciled = refl

bound_by_handlers : handlers test_client (start test_connection) tt ≡ (go bound_run, tt)
unfolding connection_code
bound_by_handlers = refl

reconcile-Reports_example : Reports test_client test_meta-laws done tt
reconcile-Reports_example = reconcile-Reports test_client test_meta-laws test_key tt refl reconciled

handlers-Reads_example :
    (t : Unit {0}) × Reads test_client test_connection tt t
    × ((password : String) × (access : Access) × (run'' : Run) × (sync_connection_status test_client
            access password
            (start test_connection)
            t
          ≡ (go run'', tt))
        × (bound_run ≡ return_ready run''))
handlers-Reads_example = handlers-Reads test_client (start test_connection) tt bound_by_handlers

test_objects-laws : ObjectLaws test_objects
test_objects-laws = record {
  secret-mutated = λ secret mutate s e. (secret, e);
  config_map-mutated = λ cm mutate s e. (cm, e);
}

abbrev test_access : Access
test_access = record {
  engine = some "postgres";
  password_secret = none;
  username = some "postgres";
  host = some "db-1.example";
  port = none;
  db_name = none;
}

abbrev meta_of : String → ObjectMeta
meta_of name = record (new_meta name "apps") {
  labels = some (("type", "credentials") ∷ []);
  annotations = some (
      ("managed-by", "rds-dbaas-operator")
      ∷ ("owner", "binding")
      ∷ ("owner.kind", "RDSConnection")
      ∷ ("owner.namespace", "apps")
      ∷ []);
}

abbrev written : Secret × ConfigMap
written = (
  record {
    meta = meta_of "binding-credentials";
    entries = some (("username", "postgres") ∷ ("password", "s3cret") ∷ []);
  },
  record {
    meta = meta_of "binding-configs";
    entries = some (
        ("type", "postgresql")
        ∷ ("provider", "Red Hat DBaaS / Amazon Relational Database Service (RDS)")
        ∷ ("host", "db-1.example")
        ∷ ("database", "postgres")
        ∷ ("port", "5432")
        ∷ []);
  },
)

objects_written :
    write_objects test_client test_access "s3cret" (start test_connection) tt ≡ (go written, tt)
unfolding connection_code
objects_written = refl

write_objects-Describes_example :
    (username : String) × (test_access.username ≡ some username)
    × (written.0.entries ≡ some (("username", username) ∷ ("password", "s3cret") ∷ []))
    × Describes written.1 test_access
write_objects-Describes_example =
    write_objects-Describes test_client test_objects-laws test_access "s3cret"
      (start test_connection) tt objects_written

abbrev no_entries : ConfigMap
no_entries = record { meta = meta_of "binding-configs"; entries = none }

set_config_map-entries_example :
    (m : Dict String) × (set_config_map (some "mysql") none (some "db-1.example") none (no_entries)
      ≡ some (record no_entries { entries = some m }))
    × (lookup "type" m ≡ some (generate_binding_type "mysql"))
    × (lookup "provider" m ≡ some database_provider)
    × (lookup "host" m ≡ some "db-1.example")
    × (lookup "port" m ≡ or_else none (default_port_text (port_of (generate_binding_type "mysql"))))
    × (lookup "database" m ≡ or_else none (database_of (generate_binding_type "mysql")))
set_config_map-entries_example = set_config_map-entries "mysql" "db-1.example" none none no_entries

abbrev listed : String → Unit {0} → Result (List RdsConnection) × Unit {0}
listed identifier s = (ok (test_connection ∷ []), s)

get_instance_connection_requests-exact_example :
    (keys : List NamespacedName) × (get_instance_connection_requests listed (some "db-1") "apps" tt
      ≡ (some keys, tt))
    × ((k : NamespacedName) → Memᴰ k keys ↔ Fitting "apps" (test_connection ∷ []) k)
get_instance_connection_requests-exact_example =
    get_instance_connection_requests-exact listed "db-1" "apps" tt refl
