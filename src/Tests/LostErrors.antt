-- ===== src/Tests/LostErrors.antt =====
-- The theorem on the error of the clusters that is lost, at a server where AWS lists no clusters
-- for an error and has a database that is not in the namespace.
use rds_dbaas_operator.Prelude.{
  true, ◌≡◌, refl, none, some, is_some, [], lookup, insert, index, one_of,
}
use rds_dbaas_operator.K8s.{go, stop}
use rds_dbaas_operator.Inventory.Run.{Run, start, return_error, return_requeue_sync_reset}
use rds_dbaas_operator.Inventory.Controller.{
  start_rds_controller, start_found, not_one, wait_for_rds_controller,
}
use rds_dbaas_operator.Inventory.Server.{Server, more, failed}
use rds_dbaas_operator.Inventory.Install.{
  attempt, create_or_update_secret, create_or_update_config_map, write_secret, write_config_map,
  mutate_secret, mutate_config_map, controller_meta, await_ready, install_rds_controller,
}
use rds_dbaas_operator.Inventory.Database.{
  cluster_database, arn_of, arn_entry, read_pages, read_page,
}
use rds_dbaas_operator.Inventory.Adopt.{
  adopt_databases, adopt_each, verdict, verdict_of, is_left_out, create_adoption, create_owned,
  create_adopted_resource, requeue_adopting, or_get_error, resource_entry, is_adopted, has_adopted,
}
use rds_dbaas_operator.Inventory.Reset.{adopt_all}
use rds_dbaas_operator.Inventory.Reconcile.{
  adopt_db_instances, adopt_db_clusters, adopt_and_sync, finish,
}
use rds_dbaas_operator.Inventory.Lost.{adopt_and_sync-error}
use rds_dbaas_operator.Tests.Server.{missing_object}
use rds_dbaas_operator.Tests.Connections.{test_inventory}
use rds_dbaas_operator.Tests.Inventories.{aws_secret, aws_credentials}
use rds_dbaas_operator.Tests.Adoptions.{test_server}

abbrev server : Server (Unit {0})
server = record (test_server [] []) {
  clusters = record (test_server [] []).clusters {
    pages = λ c. more (λ s. failed missing_object s);
  };
}

abbrev failed_run : Run
failed_run =
    return_error missing_object "BackendError" cluster_database.get_error (start test_inventory)

installed : install_rds_controller server aws_secret (start test_inventory) tt ≡ (go tt, tt)
unfolding install_rds_controller await_ready attempt create_or_update_secret
    create_or_update_config_map write_secret write_config_map mutate_secret mutate_config_map
    controller_meta start_rds_controller start_found not_one wait_for_rds_controller lookup insert
installed = refl

clusters_failed :
    adopt_db_clusters server aws_credentials (start test_inventory) tt ≡ (stop failed_run, tt)
unfolding adopt_db_clusters adopt_all or_get_error read_pages read_page
clusters_failed = refl

instances_waited :
    adopt_db_instances server aws_credentials failed_run tt
    ≡ (stop (return_requeue_sync_reset failed_run), tt)
unfolding adopt_db_instances adopt_all read_pages read_page adopt_databases adopt_each verdict
    verdict_of is_left_out create_adoption create_owned create_adopted_resource requeue_adopting
    or_get_error resource_entry is_adopted has_adopted attempt arn_of arn_entry index insert lookup
    one_of return_error
instances_waited = refl

has_error : is_some failed_run.error ≡ true
unfolding return_error
has_error = refl

is_reset : (return_requeue_sync_reset failed_run).sync_reset ≡ true
unfolding return_requeue_sync_reset
is_reset = refl

adopt_and_sync-error_example :
    finish server (adopt_and_sync server (start test_inventory) (aws_secret, aws_credentials) tt)
    ≡ (some (record { requeue = true; error = none }), tt)
adopt_and_sync-error_example =
    adopt_and_sync-error server (start test_inventory) aws_secret aws_credentials tt refl installed
      clusters_failed has_error instances_waited is_reset refl
