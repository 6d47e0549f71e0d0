-- ===== src/Tests/Instances.antt =====
-- The theorems on instances and credentials at a server with one inventory and one database.
use rds_dbaas_operator.Prelude.{
  String, ◌≡◌, refl, true, false, Option, none, some, is_some, [], ◌∷◌, arith, lookup, insert,
  one_of, switch,
}
use rds_dbaas_operator.Go.Strconv.{pos}
use rds_dbaas_operator.K8s.{
  Result, OperationResult, ok, err, NamespacedName, Reply, go, stop, new_meta, unchanged,
}
use rds_dbaas_operator.Ack.Instance.{DbInstance, empty_db_instance, empty_spec}
use rds_dbaas_operator.Crd.{RdsInstance, Phase}
use rds_dbaas_operator.RdsUtils.Credentials.{
  SecretClient, set_credentials, get_or_create, ensure_password,
}
use rds_dbaas_operator.RdsUtils.Passwords.{
  SecretLaws, PasswordLaws, HasPassword, set_credentials-Password,
}
use rds_dbaas_operator.Instance.Run.{
  Client, ProvisioningKeys, Run, start, instance_finalizer, return_ready, return_updating,
  return_not_ready, return_error, return_requeue,
}
use rds_dbaas_operator.Instance.Laws.{ClientLaws, PhaseLaws}
use rds_dbaas_operator.DbUtils.Engine.{
  generate_username, generate_db_name, get_default_engine_version,
}
use rds_dbaas_operator.RdsUtils.InstanceStatus.{parse_db_instance_status}
use rds_dbaas_operator.Instance.Spec.{
  set_db_instance_spec, set_behind, named, set_front, set_identifier, set_rest, set_access,
  set_availability_zone, set_engine, set_engine_version, set_storage, set_network, int_param,
  zone_for, public_access, default_license, set_master_user,
}
use rds_dbaas_operator.Instance.Patterns.{valid_identifier}
use rds_dbaas_operator.Instance.Phase.{phase_for, set_db_instance_phase}
use rds_dbaas_operator.Instance.Conditions.{copy_conditions}
use rds_dbaas_operator.Instance.Finalizer.{
  check_finalizer, ensure_finalizer, finalize, finalize_by, update_finalizer, delete_database,
}
use rds_dbaas_operator.Instance.Provision.{
  create_or_update_db_instance, provisioned, mutate_db_instance, write_spec, specified,
}
use rds_dbaas_operator.Instance.Sync.{
  sync_db_instance_status, write_status, synced, set_db_instance_status,
}
use rds_dbaas_operator.Instance.Reconcile.{
  reconcile, finish, update_instance_ready_condition, with_condition, ready_condition, final_phase,
  handlers, get_ready_inventory, inventory_ready, report_phase,
}
use rds_dbaas_operator.Instance.Reports.{Reports, reconcile-IsReported}
use rds_dbaas_operator.Instance.Reached.{Reached, handlers-Reached}
use rds_dbaas_operator.Instance.Deletion.{Removed, check_finalizer-Deleted}
use rds_dbaas_operator.Instance.Specified.{Specified, set_db_instance_spec-Specified}
use rds_dbaas_operator.Tests.Server.{
  test_meta, test_meta-laws, zero_random, missing_object, zero_random-laws, find_condition,
  remove_condition, remove_text,
}
use rds_dbaas_operator.Tests.Connections.{test_inventory, test_database, test_secret}

abbrev pub test_secrets : SecretClient (Unit {0})
test_secrets = record {
  get_secret = λ key s. (ok test_secret, s);
  create_secret = λ secret s. (ok secret, s);
  update_secret = λ secret s. (ok secret, s);
  set_controller_reference = λ owner secret. ok secret;
  random = zero_random;
  type_label_key = "type";
  type_label_value = "credentials";
}

abbrev test_keys : ProvisioningKeys
test_keys = record {
  availability_zones = "availabilityZones";
  database_type = "databaseType";
  name = "name";
  machine_type = "machineType";
  storage_gib = "storageGib";
}

abbrev test_instance : RdsInstance
test_instance = record {
  meta = record (new_meta "orders" "apps") { finalizers = instance_finalizer ∷ [] };
  kind = "RDSInstance";
  inventory_ref = record { namespace = "apps"; name = "inventory" };
  provisioning_parameters =
      ("name", "orders-1")
      ∷ ("databaseType", "postgres")
      ∷ ("availabilityZones", "us-east-1a")
      ∷ [];
  conditions = [];
  instance_id = "";
  instance_info = [];
  phase = Phase.pending;
}

-- CreateOrUpdate where the callback changes nothing.
abbrev unchanged_answer :
    Option (Result DbInstance) → Option (Result (OperationResult × DbInstance))
unchanged_answer none = none
unchanged_answer (some (err e)) = some (err e)
unchanged_answer (some (ok db)) = some (ok (unchanged, db))

-- The database exists, and stays as the callback leaves it.
abbrev test_client : Client (Unit {0})
test_client = record {
  meta = test_meta;
  secrets = test_secrets;
  keys = test_keys;
  get_instance = λ key s. (ok test_instance, s);
  get_inventory = λ key s. (ok test_inventory, s);
  get_db_instance = λ key s. (ok test_database, s);
  delete_db_instance = λ db s. (none, s);
  update_instance = λ i s. (ok i, s);
  update_status = λ i s. (ok i, s);
  create_or_update_db_instance = λ db mutate run s.
      let (r, run', s') = mutate test_database run s in (unchanged_answer r, run', s');
  set_owner_annotations = λ i db. ok db;
  phase_name = λ p. "Failed";
  new_uuid = λ s. ("0", s);
}

test_client-laws : ClientLaws test_client
test_client-laws = record {
  meta_laws = test_meta-laws;
  update_status-phase = λ i s h. ground (arith, h);
  create_or_update-instance = λ db f run s keep. keep test_database run s;
}

test_client-phases : PhaseLaws test_client
test_client-phases = record { create_or_update-phase = λ db f run s keep. keep test_database run s }

pub test_secrets-laws : SecretLaws test_secrets
test_secrets-laws = record { update_secret-entries = λ secret s h. ground (arith, h) }

test_passwords-laws : PasswordLaws test_secrets
test_passwords-laws = record {
  secret_laws = test_secrets-laws;
  create_secret-entries = λ secret s h. ground (arith, h);
  random_laws = zero_random-laws;
}

-- Opens the reconciler's code.
instance_code : Unit {0}
unfolding reconcile finish update_instance_ready_condition with_condition ready_condition
    final_phase handlers get_ready_inventory inventory_ready report_phase check_finalizer
    ensure_finalizer finalize finalize_by update_finalizer delete_database
    create_or_update_db_instance provisioned mutate_db_instance write_spec specified named
    set_db_instance_spec set_behind set_front set_identifier set_rest set_access
    set_availability_zone set_engine set_engine_version set_storage set_network int_param zone_for
    public_access default_license set_master_user set_credentials get_or_create ensure_password
    sync_db_instance_status write_status synced set_db_instance_phase set_db_instance_status
    phase_for copy_conditions return_ready return_updating return_not_ready return_error
    return_requeue lookup insert find_condition remove_condition remove_text one_of switch
    generate_username generate_db_name get_default_engine_version valid_identifier
instance_code = tt

abbrev done : Reply
done = record { requeue = false; error = none }

abbrev test_key : NamespacedName
test_key = record { namespace = "apps"; name = "orders" }

instance_reconciled : reconcile test_client test_key tt ≡ (some done, tt)
unfolding instance_code
instance_reconciled = refl

abbrev ready_instance : RdsInstance
ready_instance = record test_instance {
  instance_id = "db-1";
  instance_info = parse_db_instance_status test_database;
  phase = Phase.ready;
}

abbrev ready_run : Run
ready_run = record {
  instance_ = ready_instance;
  requeue = false;
  error = none;
  provision_status = "True";
  provision_status_reason = "Ready";
  provision_status_message = "";
  phase = Phase.unset;
}

handled : handlers test_client (start test_instance) tt ≡ (go ready_run, tt)
unfolding instance_code
handled = refl

reconcile-IsReported_example : Reports test_client test_client-laws done tt
reconcile-IsReported_example =
    reconcile-IsReported test_client test_client-laws test_key tt refl instance_reconciled

handlers-Reached_example : Reached test_client (start test_instance) ready_run tt tt
handlers-Reached_example =
    handlers-Reached test_client test_client-laws test_client-phases (start test_instance) tt refl
      handled

abbrev gone_client : Client (Unit {0})
gone_client = record test_client { get_db_instance = λ key s. (err missing_object, s) }

abbrev dying : RdsInstance
dying = record test_instance {
  meta = record test_instance.meta { deletion_timestamp = some "2022-10-01T00:00:00Z" };
}

abbrev deleted_run : Run
deleted_run = record {
  instance_ = record dying { meta = record dying.meta { finalizers = [] } };
  requeue = false;
  error = none;
  provision_status = "False";
  provision_status_reason = "Updating";
  provision_status_message = "Updating Instance";
  phase = Phase.deleted;
}

finalizer_removed : check_finalizer gone_client (start dying) tt ≡ (stop deleted_run, tt)
unfolding instance_code
finalizer_removed = refl

check_finalizer-Deleted_example :
    (is_some dying.meta.deletion_timestamp ≡ true)
    × (gone_client.meta.contains_finalizer dying.meta instance_finalizer ≡ true)
    × Removed gone_client (start dying) tt tt
check_finalizer-Deleted_example =
    check_finalizer-Deleted gone_client (start dying) tt refl finalizer_removed refl

abbrev fresh : DbInstance
fresh = empty_db_instance (new_meta "orders" "apps")

abbrev spec_written : DbInstance
spec_written = record fresh {
  spec = record empty_spec {
    engine = some "postgres";
    engine_version = some "13.7";
    availability_zone = some "us-east-1a";
    db_instance_identifier = some "orders-1";
    db_instance_class = some "db.t3.micro";
    allocated_storage = some (pos 20);
    publicly_accessible = some true;
    master_username = some "postgres";
    master_user_password =
        some (record { name = "orders-credentials"; namespace = "apps"; key = "password" });
    db_name = some "postgres";
  };
}

spec_is_written :
    set_db_instance_spec test_client fresh test_instance test_secret tt
    ≡ (some (ok spec_written), tt)
unfolding instance_code
spec_is_written = refl

set_db_instance_spec-Specified_example : Specified test_client fresh test_instance spec_written.spec
set_db_instance_spec-Specified_example =
    set_db_instance_spec-Specified test_client fresh test_instance test_secret tt spec_is_written

abbrev with_name : String → Option String → Option String
with_name name old = some name

credentials_kept :
    set_credentials test_secrets "orders" "apps" none "RDSInstance" with_name none tt
    ≡ (some (ok (test_secret, some "orders-credentials")), tt)
unfolding instance_code
credentials_kept = refl

set_credentials-Password_example :
    (◌≡◌ {A = Option String} (some "orders-credentials") (some "orders-credentials"))
    × HasPassword test_secrets test_passwords-laws "orders" "apps" test_secret tt tt
set_credentials-Password_example =
    set_credentials-Password test_secrets test_passwords-laws "orders" "apps" none "RDSInstance"
      with_name none tt credentials_kept
