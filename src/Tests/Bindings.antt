-- ===== src/Tests/Bindings.antt =====
-- The theorems on the admission of inventories and on the services that connections look up, at a
-- server where AWS has one database, and at a cluster with one inventory.
use rds_dbaas_operator.Prelude.{arith, ◌≤◌, ◌≡◌, refl, [], ◌∷◌, length, index, insert, lookup}
use rds_dbaas_operator.K8s.{ok, go}
use rds_dbaas_operator.Inventory.Run.{start}
use rds_dbaas_operator.Inventory.Server.{Server}
use rds_dbaas_operator.Inventory.Database.{
  instance_database, arn_of, arn_entry, read_pages, read_page,
}
use rds_dbaas_operator.Inventory.Adopt.{or_get_error}
use rds_dbaas_operator.Inventory.Services.{
  aws_identifier, service_of, known_service, services_of, sync_status,
}
use rds_dbaas_operator.Inventory.Reconcile.{sync_db_clusters_status, sync_db_instances_status}
use rds_dbaas_operator.Inventory.Bindable.{Bindable, sync-Bindable}
use rds_dbaas_operator.Inventory.Webhook.{validate_create, verify_inventory_created}
use rds_dbaas_operator.Inventory.Webhook.Single.{
  Listing, IsCurrent, Reachable, step, created, Reachable-le,
}
use rds_dbaas_operator.Tests.Connections.{test_inventory, test_database}
use rds_dbaas_operator.Tests.Inventories.{aws_credentials}
use rds_dbaas_operator.Tests.Adoptions.{test_server, orders}

abbrev server : Server (Unit {0})
server = test_server (orders ∷ test_database ∷ []) []

clusters_synced :
    sync_db_clusters_status server aws_credentials (start test_inventory) tt ≡ (go [], tt)
unfolding sync_db_clusters_status sync_status read_pages read_page services_of known_service
    aws_identifier arn_of arn_entry index insert lookup or_get_error
clusters_synced = refl

instances_synced :
    sync_db_instances_status server aws_credentials (start test_inventory) tt
    ≡ (go (service_of instance_database "db-1" orders ∷ []), tt)
unfolding sync_db_instances_status sync_status read_pages read_page services_of known_service
    aws_identifier arn_of arn_entry index insert lookup or_get_error
instances_synced = refl

sync-Bindable_example :
    Bindable server aws_credentials
      (start test_inventory)
      []
      (service_of instance_database "db-1" orders ∷ [])
      tt
      tt
      tt
sync-Bindable_example =
    sync-Bindable server aws_credentials (start test_inventory) tt clusters_synced instances_synced

-- A list that is current.
abbrev listing : Listing
listing is = (ok is, is)

listing-IsCurrent : IsCurrent listing
listing-IsCurrent is js ks h = ground arith

one_created : Reachable listing (test_inventory ∷ [])
unfolding validate_create verify_inventory_created
one_created = step Reachable.start (created test_inventory refl)

Reachable-le_example : length (test_inventory ∷ []) ≤ 1
Reachable-le_example = Reachable-le listing listing-IsCurrent (test_inventory ∷ []) one_created
