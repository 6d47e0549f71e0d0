-- ===== src/Tests/Reconciled.antt =====
-- The theorems on the reconciliation of an inventory, at a server where AWS has one database, which
-- the namespace has as well.
use rds_dbaas_operator.Prelude.{
  false, ◌≡◌, refl, none, some, [], ◌∷◌, lookup, insert, index, one_of,
}
use rds_dbaas_operator.K8s.{ok, go}
use rds_dbaas_operator.Crd.{RdsInventory}
use rds_dbaas_operator.Inventory.Run.{Run, start, return_ready}
use rds_dbaas_operator.Inventory.Validate.{
  required, read_credentials, try_clusters, try_credentials, validate_secret,
  validate_aws_parameter,
}
use rds_dbaas_operator.Inventory.Condition.{
  ready_condition, with_condition, update_inventory_ready_condition,
}
use rds_dbaas_operator.Inventory.Controller.{
  start_rds_controller, start_found, not_one, wait_for_rds_controller,
}
use rds_dbaas_operator.Inventory.Server.{Server}
use rds_dbaas_operator.Inventory.Install.{
  attempt, create_or_update_secret, create_or_update_config_map, write_secret, write_config_map,
  mutate_secret, mutate_config_map, controller_meta, await_ready, install_rds_controller,
}
use rds_dbaas_operator.Inventory.Finalizer.{inventory_finalizer, check_finalizer}
use rds_dbaas_operator.Inventory.Database.{
  instance_database, arn_of, arn_entry, read_pages, read_page,
}
use rds_dbaas_operator.Inventory.Adopt.{
  adopt_databases, adopt_each, verdict, verdict_of, is_left_out, requeue_adopting, or_get_error,
  resource_entry,
}
use rds_dbaas_operator.Inventory.Reset.{
  aws_entry, candidate, is_incomplete, updated, complete, ensure_credentials, reset_one, reset_each,
  reset_databases, adopt_all,
}
use rds_dbaas_operator.Inventory.Services.{
  aws_identifier, service_of, known_service, services_of, sync_status,
}
use rds_dbaas_operator.Inventory.Reconcile.{
  adopt_db_instances, adopt_db_clusters, sync_db_instances_status, sync_db_clusters_status,
  both_done, adopt_instances_behind, adopt_both, stored, store_services, sync, adopt_and_sync,
  handlers, finish, reconcile,
}
use rds_dbaas_operator.Inventory.Ready.{Ready, handlers-Ready}
use rds_dbaas_operator.Inventory.Reports.{Reports, reconcile-Stored}
use rds_dbaas_operator.Tests.Server.{test_meta-laws, remove_condition}
use rds_dbaas_operator.Tests.Connections.{test_inventory}
use rds_dbaas_operator.Tests.Adoptions.{test_server, orders}

abbrev kept : RdsInventory
kept = record test_inventory {
  meta = record test_inventory.meta { finalizers = inventory_finalizer ∷ [] };
}

abbrev server : Server (Unit {0})
server = test_server (orders ∷ []) []

-- Opens the reconciler's code.
inventory_code : Unit {0}
unfolding reconcile finish handlers adopt_and_sync sync store_services stored adopt_both
    adopt_instances_behind both_done adopt_db_instances adopt_db_clusters sync_db_instances_status
    sync_db_clusters_status sync_status services_of known_service aws_identifier adopt_all
    reset_databases reset_each reset_one ensure_credentials complete updated is_incomplete candidate
    aws_entry adopt_databases adopt_each verdict verdict_of is_left_out requeue_adopting
    or_get_error resource_entry arn_of arn_entry read_pages read_page check_finalizer
    install_rds_controller await_ready attempt create_or_update_secret create_or_update_config_map
    write_secret write_config_map mutate_secret mutate_config_map controller_meta
    start_rds_controller start_found not_one wait_for_rds_controller validate_aws_parameter
    validate_secret read_credentials required try_credentials try_clusters return_ready
    ready_condition with_condition update_inventory_ready_condition remove_condition lookup insert
    index one_of
inventory_code = tt

abbrev ready : Run
ready =
    return_ready
      (start (record kept { database_services = service_of instance_database "db-1" orders ∷ [] }))

is_ready : handlers server (start kept) tt ≡ (go ready, tt)
unfolding inventory_code
is_ready = refl

handlers-Ready_example : Ready server (start kept) ready tt tt
handlers-Ready_example = handlers-Ready server (start kept) tt is_ready

replied :
    reconcile server (λ key s. (ok kept, s)) (record { namespace = "apps"; name = "inventory" }) tt
    ≡ (some (record { requeue = false; error = none }), tt)
unfolding inventory_code
replied = refl

reconcile-Stored_example : Reports server (record { requeue = false; error = none }) tt
reconcile-Stored_example =
    reconcile-Stored server (λ key s. (ok kept, s))
      (record { namespace = "apps"; name = "inventory" }) tt test_meta-laws refl replied
