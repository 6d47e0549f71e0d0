-- ===== src/Tests/Rounds.antt =====
-- The theorems on the reset of credentials, the progress of an adoption, the settings of the RDS
-- controller and the start of the controller of inventories.
use rds_dbaas_operator.Prelude.{String, ◌≡◌, refl, true, none, some, [], ◌∷◌}
use rds_dbaas_operator.K8s.{Result, ok, new_meta, ConfigMap, Secret}
use rds_dbaas_operator.Ack.Instance.{DbInstance}
use rds_dbaas_operator.Inventory.Controller.{
  Deployment, stop_found, stop_rds_controller, await_deployment, scale, may_run,
}
use rds_dbaas_operator.Inventory.Waits.{Waits, stop_rds_controller-Waits}
use rds_dbaas_operator.Inventory.Server.{Server}
use rds_dbaas_operator.Inventory.Install.{
  build_dbaas_labels, build_dbaas_annotations, controller_meta, mutate_secret, mutate_config_map,
  controller_keys, controller_settings, create_or_update_secret, create_or_update_config_map,
  write_secret, write_config_map,
}
use rds_dbaas_operator.Inventory.Install.Settings.{SetFor, KeysFor, mutate-Settings}
use rds_dbaas_operator.Inventory.Reset.Rounds.{Rounds}
use rds_dbaas_operator.Inventory.Startup.{
  CrdClient, decode, read_crd_file, set_spec, write_crd, install_crd, set_up,
}
use rds_dbaas_operator.Inventory.Startup.Started.{Started, set_up-Started}
use rds_dbaas_operator.Tests.Inventories.{aws_secret, running, test_deployments}
use rds_dbaas_operator.Tests.Adoptions.{test_server, orders, resource}

-- The adopted database before it has credentials.
abbrev fresh : DbInstance
fresh = record orders {
  spec = record orders.spec { master_username = none; master_user_password = none };
}

abbrev pub server : Server (Unit {0})
server = test_server (fresh ∷ []) (resource ∷ [])

abbrev secret_made : Secret
secret_made = record {
  meta = record (new_meta "ack-rds-user-secrets" "operators") {
    labels = some (build_dbaas_labels server);
    annotations =
        some (build_dbaas_annotations "operators" (new_meta "ack-rds-user-secrets" "operators"));
  };
  entries = some (controller_keys (some aws_secret));
}

abbrev settings_made : ConfigMap
settings_made = record {
  meta = record (new_meta "ack-rds-user-config" "operators") {
    labels = some (build_dbaas_labels server);
    annotations =
        some (build_dbaas_annotations "operators" (new_meta "ack-rds-user-config" "operators"));
  };
  entries = some (controller_settings (some aws_secret));
}

abbrev no_secret : Secret
no_secret = record { meta = new_meta "ack-rds-user-secrets" "operators"; entries = none }

abbrev no_settings : ConfigMap
no_settings = record { meta = new_meta "ack-rds-user-config" "operators"; entries = none }

makes_secret : mutate_secret server running (some aws_secret) no_secret ≡ ok secret_made
unfolding mutate_secret controller_meta
makes_secret = refl

makes_settings : mutate_config_map server running (some aws_secret) no_settings ≡ ok settings_made
unfolding mutate_config_map controller_meta
makes_settings = refl

mutate-Settings_example :
    KeysFor (some aws_secret) secret_made.entries × SetFor (some aws_secret) settings_made.entries
mutate-Settings_example =
    mutate-Settings server running (some aws_secret) no_secret no_settings makes_secret
      makes_settings

stop_rds_controller-Waits_example :
    (x : Result Deployment × Unit {0}) × Waits test_deployments "operators" 2 tt x
    × (stop_rds_controller test_deployments "operators" true 2 tt
        ≡ stop_found test_deployments "operators" x)
stop_rds_controller-Waits_example = stop_rds_controller-Waits test_deployments "operators" true 2 tt

-- The spec of a definition is a text, which its file has.
abbrev pub crds : CrdClient (Unit {0}) String
crds = record {
  connect = λ s. (none, s);
  create_or_update_crd = λ c mutate s. (mutate c, s);
  path = λ file. file;
  read_file = λ file s. (ok file, s);
  to_json = λ text. ok text;
  unmarshal = λ text. ok (record { name = text; spec = text });
  empty = "";
}

is_set_up : set_up crds server tt ≡ (none, tt)
unfolding set_up install_crd write_crd read_crd_file decode set_spec stop_rds_controller stop_found
    await_deployment scale may_run create_or_update_secret create_or_update_config_map write_secret
    write_config_map mutate_secret mutate_config_map controller_meta
is_set_up = refl

set_up-Started_example : Started crds server tt tt
set_up-Started_example = set_up-Started crds server tt is_set_up
