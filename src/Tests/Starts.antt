-- ===== src/Tests/Starts.antt =====
-- The theorem on the start of the operator, where every call succeeds.
use rds_dbaas_operator.Prelude.{String, ◌≡◌, refl, false, Option, none, some, ◌==◌, if◌then◌else◌}
use rds_dbaas_operator.Inventory.Controller.{
  stop_found, stop_rds_controller, await_deployment, scale, may_run,
}
use rds_dbaas_operator.Inventory.Install.{
  controller_meta, mutate_secret, mutate_config_map, create_or_update_secret,
  create_or_update_config_map, write_secret, write_config_map,
}
use rds_dbaas_operator.Inventory.Startup.{
  decode, read_crd_file, set_spec, write_crd, install_crd, set_up,
}
use rds_dbaas_operator.Provider.{setup}
use rds_dbaas_operator.Main.{
  Flags, Manager, get_install_namespace, install_namespace, set_up_inventory, set_up_provider,
  set_up_webhooks, main,
}
use rds_dbaas_operator.Main.Serving.{Serving, main-Serving}
use rds_dbaas_operator.Tests.Rounds.{server, crds}

abbrev flags : Flags
flags = record {
  metrics_addr = ":8080";
  probe_addr = ":8081";
  enable_leader_election = false;
  sync_period = "3h0m0s";
  rds_controller_retries = 15;
}

abbrev manager : Manager (Unit {0})
manager = record {
  new_manager = λ f s. (none, s);
  new_client_set = λ s. (none, s);
  complete_inventory = λ s. (none, s);
  complete_connection = λ s. (none, s);
  complete_instance = λ s. (none, s);
  complete_provider = λ env s. (none, s);
  set_up_webhook = λ s. (none, s);
  add_healthz_check = λ s. (none, s);
  add_readyz_check = λ s. (none, s);
  start = λ s. (none, s);
}

abbrev environment : String → Option String
environment name =
    if name == "INSTALL_NAMESPACE"
    then some "operators"
    else if name == "OPERATOR_CONDITION_NAME"
    then some "rds-dbaas-operator.v0.4.0"
    else none

ends : main manager crds server environment flags tt ≡ (none, tt)
unfolding main set_up_inventory set_up_provider set_up_webhooks get_install_namespace
    install_namespace setup set_up install_crd write_crd read_crd_file decode set_spec
    stop_rds_controller stop_found await_deployment scale may_run create_or_update_secret
    create_or_update_config_map write_secret write_config_map mutate_secret mutate_config_map
    controller_meta
ends = refl

main-Serving_example : Serving manager crds server environment flags tt tt
main-Serving_example = main-Serving manager crds server environment flags tt ends
