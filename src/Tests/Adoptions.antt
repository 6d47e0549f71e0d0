-- ===== src/Tests/Adoptions.antt =====
-- The theorems on the databases that an inventory adopts and lists, and on its finalizer, at a
-- server where AWS has one database.
use rds_dbaas_operator.Prelude.{
  true, false, ◌≡◌, refl, ◌⊎◌, none, some, List, [], ◌∷◌, one_of, lookup, insert, index,
}
use rds_dbaas_operator.K8s.{ok, go, stop, new_meta}
use rds_dbaas_operator.Ack.Shared.{AckCondition}
use rds_dbaas_operator.Ack.Instance.{DbInstance}
use rds_dbaas_operator.Crd.{RdsInventory}
use rds_dbaas_operator.Inventory.Run.{Run, start, return_sync_reset, return_requeue_sync_reset}
use rds_dbaas_operator.Inventory.Controller.{
  stop_rds_controller, stop_found, await_deployment, scale, may_run,
}
use rds_dbaas_operator.Inventory.Server.{
  Server, DatabaseClient, AwsDatabase, AdoptedResource, more, last, page,
}
use rds_dbaas_operator.Inventory.Install.{
  attempt, create_or_update_secret, create_or_update_config_map, write_secret, write_config_map,
  mutate_secret, mutate_config_map, controller_meta,
}
use rds_dbaas_operator.Inventory.Finalizer.{
  inventory_finalizer, check_finalizer, finalize, finalize_by, delete_resources, deleted_or_release,
  release, write_finalizer, finalizer_updated, belongs, named,
}
use rds_dbaas_operator.Inventory.Finalizer.Released.{Released, check_finalizer-Released}
use rds_dbaas_operator.Inventory.Database.{
  instance_database, arn_of, arn_entry, read_pages, read_page,
}
use rds_dbaas_operator.Inventory.Adopt.{
  adopt_databases, adopt_each, verdict, verdict_of, is_left_out, create_adoption, create_owned,
  create_adopted_resource, requeue_adopting, or_get_error, resource_entry, is_adopted, has_adopted,
}
use rds_dbaas_operator.Inventory.Adopt.Adopting.{
  Made, Settled, adopt_databases-Made, adopt_databases-Settled,
}
use rds_dbaas_operator.Inventory.Services.{
  aws_identifier, service_of, known_service, services_of, sync_status,
}
use rds_dbaas_operator.Inventory.Services.Listed.{Listed, sync_status-Listed}
use rds_dbaas_operator.Tests.Server.{remove_text}
use rds_dbaas_operator.Tests.Connections.{test_inventory, test_database}
use rds_dbaas_operator.Tests.Instances.{test_secrets}
use rds_dbaas_operator.Tests.Inventories.{test_client, test_deployments, aws_credentials}

abbrev pub aws_orders : AwsDatabase
aws_orders = record {
  arn = some "arn:orders";
  identifier = some "DB-1";
  engine = some "postgres";
  in_cluster = none;
  status = some "available";
  master_username = some "admin";
  db_name = none;
}

abbrev pub orders : DbInstance
orders = record test_database {
  status = record test_database.status {
    ack_resource_metadata =
        some (record { arn = some "arn:orders"; owner_account_id = none; region = none });
  };
}

abbrev adopted : AckCondition
adopted = record {
  type = "ACK.Adopted";
  status = "True";
  last_transition_time = none;
  reason = none;
  message = none;
}

-- An adopted resource of another inventory for the database of AWS.
abbrev pub resource : AdoptedResource
resource = record {
  meta = new_meta "rhoda-adopted-orders" "apps";
  kubernetes = none;
  aws = some (record { name_or_id = "DB-1"; arn = some "arn:orders" });
  conditions = some (none ∷ some adopted ∷ []);
}

abbrev instances : List DbInstance → DatabaseClient (Unit {0}) DbInstance
instances ds = record {
  pages = λ c. more (λ s. page (some (aws_orders ∷ [])) (more (λ s. page none last s)) s);
  modify = λ c i p s. (none, s);
  list = λ n s. (ok ds, s);
  list_labelled = λ n l s. (ok ds, s);
  update = λ d s. (ok d, s);
}

abbrev pub test_server : List DbInstance → List AdoptedResource → Server (Unit {0})
test_server ds rs = record {
  client = test_client;
  deployments = test_deployments;
  secrets = test_secrets;
  instances = instances ds;
  clusters = record {
    pages = λ c. last;
    modify = λ c i p s. (none, s);
    list = λ n s. (ok [], s);
    list_labelled = λ n l s. (ok [], s);
    update = λ d s. (ok d, s);
  };
  update_inventory = λ i s. (ok i, s);
  list_adopted_resources = λ n s. (ok rs, s);
  create_adopted_resource = λ r s. (none, s);
  delete_adopted_resource = λ r s. (none, s);
  new_uuid = λ s. ("0", s);
  create_or_update_secret = λ o mutate s. (mutate o, s);
  create_or_update_config_map = λ o mutate s. (mutate o, s);
  set_owner_annotations = λ kind owner o. ok o;
  type_annotation = "type";
  namespaced_name_annotation = "name";
  type_label_key = "type";
  type_label_value = "rds";
  rds_group = "rds.services.k8s.aws";
  condition_type_adopted = "ACK.Adopted";
  namespace = "operators";
  retries = 2;
}

abbrev leaving : RdsInventory
leaving = record test_inventory {
  meta = record test_inventory.meta {
    finalizers = inventory_finalizer ∷ [];
    deletion_timestamp = some "now";
  };
}

abbrev left : Run
left = return_sync_reset (start (record leaving { meta = record leaving.meta { finalizers = [] } }))

finalizer_there : one_of inventory_finalizer (inventory_finalizer ∷ []) ≡ true
unfolding one_of
finalizer_there = refl

finalizer_gone : one_of inventory_finalizer left.inventory.meta.finalizers ≡ false
unfolding one_of return_sync_reset
finalizer_gone = refl

is_released : check_finalizer (test_server [] (resource ∷ [])) (start leaving) tt ≡ (stop left, tt)
unfolding check_finalizer one_of finalize finalize_by delete_resources deleted_or_release release
    write_finalizer finalizer_updated belongs named attempt create_or_update_secret
    create_or_update_config_map write_secret write_config_map mutate_secret mutate_config_map
    controller_meta stop_rds_controller stop_found await_deployment scale may_run remove_text lookup
is_released = refl

check_finalizer-Released_example : Released (test_server [] (resource ∷ [])) (start leaving) tt tt
check_finalizer-Released_example =
    check_finalizer-Released (test_server [] (resource ∷ [])) (start leaving) tt finalizer_there
      is_released finalizer_gone

-- Opens the loops over the databases of AWS.
adopting_code : Unit {0}
unfolding adopt_databases adopt_each verdict verdict_of is_left_out create_adoption create_owned
    create_adopted_resource requeue_adopting or_get_error resource_entry is_adopted has_adopted
    attempt arn_of arn_entry index insert lookup one_of
adopting_code = tt

waits :
    adopt_databases
      (test_server [] [])
      instance_database
      (test_server [] []).instances
      (aws_orders ∷ [])
      (start test_inventory)
      tt
    ≡ (stop (return_requeue_sync_reset (start test_inventory)), tt)
unfolding adopting_code
waits = refl

reset_after : (return_requeue_sync_reset (start test_inventory)).sync_reset ≡ true
unfolding return_requeue_sync_reset
reset_after = refl

adopt_databases-Made_example :
    Made
      (test_server [] [])
      instance_database
      (start test_inventory)
      (test_server [] []).instances
      (aws_orders ∷ [])
      tt
      tt
adopt_databases-Made_example =
    adopt_databases-Made (test_server [] []) instance_database (start test_inventory)
      (test_server [] []).instances (aws_orders ∷ []) tt waits refl reset_after

settled :
    adopt_databases
      (test_server [] (resource ∷ []))
      instance_database
      (test_server [] []).instances
      (aws_orders ∷ [])
      (start test_inventory)
      tt
    ≡ (go tt, tt)
unfolding adopting_code
settled = refl

adopt_databases-Settled_example :
    ((◌≡◌ {A = List AwsDatabase} (aws_orders ∷ []) []) × (◌≡◌ {A = Unit {0}} tt tt))
    ⊎ Settled
        (test_server [] (resource ∷ []))
        instance_database
        (start test_inventory)
        (test_server [] []).instances
        (aws_orders ∷ [])
        tt
        tt
adopt_databases-Settled_example =
    adopt_databases-Settled (test_server [] (resource ∷ [])) instance_database
      (start test_inventory) (test_server [] []).instances (aws_orders ∷ []) tt settled

synced :
    sync_status instance_database
      (test_server (orders ∷ test_database ∷ []) [])
      (test_server (orders ∷ test_database ∷ []) []).instances
      aws_credentials
      (start test_inventory)
      tt
    ≡ (go (service_of instance_database "db-1" orders ∷ []), tt)
unfolding adopting_code sync_status read_pages read_page services_of known_service aws_identifier
synced = refl

sync_status-Listed_example :
    Listed instance_database
      (test_server (orders ∷ test_database ∷ []) [])
      (test_server (orders ∷ test_database ∷ []) []).instances
      aws_credentials
      (start test_inventory)
      (service_of instance_database "db-1" orders ∷ [])
      tt
      tt
sync_status-Listed_example =
    sync_status-Listed instance_database (test_server (orders ∷ test_database ∷ []) [])
      (test_server (orders ∷ test_database ∷ []) []).instances aws_credentials
      (start test_inventory) tt synced
