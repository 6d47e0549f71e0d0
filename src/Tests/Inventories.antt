-- ===== src/Tests/Inventories.antt =====
-- The theorems on inventories at a server with one inventory, and with its credentials or without,
-- on the deployment of the RDS controller, and on the owner of a database.
use rds_dbaas_operator.Prelude.{true, ◌<>◌, ◌≡◌, refl, false, none, some, [], ◌∷◌, lookup}
use rds_dbaas_operator.K8s.{ObjectMeta, lookup_nil, ok, err, go, stop, Secret, new_meta}
use rds_dbaas_operator.Crd.{RdsInventory}
use rds_dbaas_operator.Inventory.Run.{Client, Credentials, Run, start, return_error}
use rds_dbaas_operator.Inventory.Validate.{
  required, read_credentials, credentials_error, try_clusters, try_credentials, validate_secret,
  validate_aws_parameter,
}
use rds_dbaas_operator.Inventory.Condition.{update_inventory_ready_condition}
use rds_dbaas_operator.Inventory.Validated.{Accepted, validate_aws_parameter-Accepted}
use rds_dbaas_operator.Inventory.Refused.{Refused, validate_aws_parameter-Refused}
use rds_dbaas_operator.Inventory.Stored.{Stores, Replies, update_inventory_ready_condition-Stores}
use rds_dbaas_operator.Go.Strconv.{pos}
use rds_dbaas_operator.Inventory.Controller.{
  Deployment, DeploymentClient, may_run, scale, stop_found, await_deployment, stop_rds_controller,
}
use rds_dbaas_operator.Inventory.Stopped.{Scaled, stop_rds_controller-Scaled}
use rds_dbaas_operator.Instance.Requests.{rds_instance_type, get_owner_instance_requests}
use rds_dbaas_operator.Instance.Owners.{get_owner_instance_requests-owner}
use rds_dbaas_operator.Tests.Server.{test_meta, test_meta-laws, missing_object}
use rds_dbaas_operator.Tests.Connections.{test_inventory}

abbrev pub aws_secret : Secret
aws_secret = record {
  meta = new_meta "aws" "apps";
  entries = some (
      ("AWS_ACCESS_KEY_ID", "key")
      ∷ ("AWS_SECRET_ACCESS_KEY", "hidden")
      ∷ ("AWS_REGION", "us-east-1")
      ∷ []);
}

abbrev pub test_client : Client (Unit {0})
test_client = record {
  meta = test_meta;
  get_secret = λ key s. (ok aws_secret, s);
  describe_db_instances = λ c s. (none, s);
  describe_db_clusters = λ c s. (none, s);
  update_status = λ i s. (ok i, s);
}

abbrev empty_client : Client (Unit {0})
empty_client = record test_client { get_secret = λ key s. (err missing_object, s) }

abbrev pub aws_credentials : Credentials
aws_credentials = record { access_key = "key"; secret_key = "hidden"; region = "us-east-1" }

credentials_accepted :
    validate_aws_parameter test_client (start test_inventory) tt
    ≡ (go (aws_secret, aws_credentials), tt)
unfolding validate_aws_parameter validate_secret read_credentials required try_credentials
    try_clusters lookup
credentials_accepted = refl

validate_aws_parameter-Accepted_example :
    Accepted test_client (start test_inventory) aws_secret aws_credentials tt tt
validate_aws_parameter-Accepted_example =
    validate_aws_parameter-Accepted test_client (start test_inventory) tt credentials_accepted

abbrev refused_run : Run
refused_run = record (start test_inventory) {
  error = some missing_object;
  sync_status = "False";
  sync_status_reason = "BackendError";
  sync_status_message = "Failed to get Credential";
}

credentials_missing :
    validate_aws_parameter empty_client (start test_inventory) tt ≡ (stop refused_run, tt)
unfolding validate_aws_parameter validate_secret credentials_error return_error
credentials_missing = refl

validate_aws_parameter-Refused_example : Refused empty_client (err missing_object) refused_run
validate_aws_parameter-Refused_example =
    validate_aws_parameter-Refused empty_client (start test_inventory) tt credentials_missing

update_inventory_ready_condition-Stores_example :
    (w : RdsInventory) × Stores test_client false refused_run w
    × ((update_inventory_ready_condition test_client refused_run tt).1
        ≡ (test_client.update_status w tt).1)
    × Replies test_client
        (test_client.update_status w tt).0
        refused_run
        (update_inventory_ready_condition test_client refused_run tt).0
update_inventory_ready_condition-Stores_example =
    update_inventory_ready_condition-Stores test_client refused_run tt test_meta-laws

abbrev pub running : Deployment
running = record {
  meta = new_meta "ack-rds-controller" "operators";
  kind = "Deployment";
  replicas = some (pos 1);
  ready_replicas = pos 1;
}

abbrev pub test_deployments : DeploymentClient (Unit {0})
test_deployments = record {
  get_deployment = λ key s. (ok running, s);
  update_deployment = λ d s. (ok d, s);
  sleep = λ s. s;
}

stopped : stop_rds_controller test_deployments "operators" true 2 tt ≡ (none, tt)
unfolding stop_rds_controller stop_found await_deployment scale may_run
stopped = refl

stop_rds_controller-Scaled_example :
    (d : Deployment) × (u : Unit {0}) × Scaled test_deployments "operators" d u tt
stop_rds_controller-Scaled_example =
    stop_rds_controller-Scaled test_deployments "operators" true 2 tt stopped

abbrev owned : ObjectMeta
owned = record (new_meta "orders" "apps") {
  annotations = some (("type", rds_instance_type) ∷ ("name", "apps/orders") ∷ []);
}

owner_type : lookup_nil "type" owned.annotations ≡ some rds_instance_type
unfolding lookup
owner_type = refl

owner_name : lookup_nil "name" owned.annotations ≡ some ("apps" <> ("/" <> "orders"))
unfolding lookup
owner_name = refl

get_owner_instance_requests-owner_example :
    get_owner_instance_requests "type" "name" owned
    ≡ record { namespace = "apps"; name = "orders" } ∷ []
get_owner_instance_requests-owner_example =
    get_owner_instance_requests-owner "type" "name" owned "apps" "orders" owner_type owner_name
      (refl, (refl, (refl, (refl, tt))))
