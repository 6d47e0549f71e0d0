-- ===== src/Inventory/Run.antt =====
-- controllers/rdsinventory_controller.go: the variables that Reconcile's closures share, the
-- closures that set them, and the calls of the client.
use rds_dbaas_operator.Prelude.{String, Bool, true, false, Option, none, some}
use rds_dbaas_operator.K8s.{Error, Result, NamespacedName, Secret, condition_true, condition_false}
use rds_dbaas_operator.K8s.Meta.{Meta}
use rds_dbaas_operator.Crd.{RdsInventory}

abbrev pub inventory_condition_ready : String
inventory_condition_ready = "SpecSynced"

-- `accessKey, secretKey, region`
pub record Credentials : Type 0 where
  pub access_key : String
  pub secret_key : String
  pub region : String

-- The API server, and DescribeDBInstances and DescribeDBClusters of the AWS SDK with credentials.
pub record Client (S : Type 0) : Type 0 where
  pub meta : Meta
  pub get_secret : NamespacedName → S → Result Secret × S
  pub describe_db_instances : Credentials → S → Option Error × S
  pub describe_db_clusters : Credentials → S → Option Error × S
  pub update_status : RdsInventory → S → Result RdsInventory × S

-- The variables of Reconcile: the inventory, `result`, `err`, the parts of the condition and
-- `syncReset`.
pub record Run : Type 0 where
  pub inventory : RdsInventory
  pub requeue : Bool
  pub error : Option Error
  pub sync_status : String
  pub sync_status_reason : String
  pub sync_status_message : String
  pub sync_reset : Bool

abbrev pub start : RdsInventory → Run
start inventory = record {
  inventory = inventory;
  requeue = false;
  error = none;
  sync_status = "";
  sync_status_reason = "";
  sync_status_message = "";
  sync_reset = false;
}

unfoldable pub return_requeue_sync_reset : Run → Run
return_requeue_sync_reset run = record run { requeue = true; error = none; sync_reset = true }

unfoldable pub return_error : Error → String → String → Run → Run
return_error e reason message run = record run {
  requeue = false;
  error = some e;
  sync_status = condition_false;
  sync_status_reason = reason;
  sync_status_message = message;
}

unfoldable pub return_sync_reset : Run → Run
return_sync_reset run = record run { requeue = false; error = none; sync_reset = true }

unfoldable pub return_ready : Run → Run
return_ready run = record run {
  requeue = false;
  error = none;
  sync_status = condition_true;
  sync_status_reason = "SyncOK";
}

unfoldable pub return_ready_requeue : Run → Run
return_ready_requeue run = record run {
  requeue = true;
  error = none;
  sync_status = condition_true;
  sync_status_reason = "SyncOK";
}
