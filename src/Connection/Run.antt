-- ===== src/Connection/Run.antt =====
-- controllers/rdsconnection_controller.go: the variables that Reconcile's closures
-- share, the closures that set them, and the calls of the client.
use rds_dbaas_operator.Prelude.{String, Bool, true, false, Option, none, some}
use rds_dbaas_operator.K8s.{Error, Result, NamespacedName, condition_true, condition_false, Secret}
use rds_dbaas_operator.K8s.Meta.{Meta}
use rds_dbaas_operator.Ack.Instance.{DbInstance}
use rds_dbaas_operator.Ack.Cluster.{DbCluster}
use rds_dbaas_operator.Crd.{RdsInventory, RdsConnection}
use rds_dbaas_operator.Connection.Objects.{ObjectClient}

abbrev pub connection_condition_ready : String
connection_condition_ready = "ReadyForBinding"

abbrev pub inventory_condition_ready : String
inventory_condition_ready = "SpecSynced"

abbrev pub instance_type : String
instance_type = "instance"

abbrev pub cluster_type : String
cluster_type = "cluster"

-- `dbService`, which is an instance or a cluster.
pub data DbService : Type 0 where
  cluster : DbCluster → DbService
  instance_ : DbInstance → DbService

pub record Client (S : Type 0) : Type 0 where
  pub objects : ObjectClient S
  pub meta : Meta
  pub get_connection : NamespacedName → S → Result RdsConnection × S
  pub get_inventory : NamespacedName → S → Result RdsInventory × S
  pub get_db_cluster : NamespacedName → S → Result DbCluster × S
  pub get_db_instance : NamespacedName → S → Result DbInstance × S
  pub get_secret : NamespacedName → S → Result Secret × S
  -- `Status().Update`, which writes the server's object back
  pub update_status : RdsConnection → S → Result RdsConnection × S

-- The variables of Reconcile: the connection, `result`, `err` and the parts of the condition.
pub record Run : Type 0 where
  pub connection : RdsConnection
  pub requeue : Bool
  pub error : Option Error
  pub binding_status : String
  pub binding_status_reason : String
  pub binding_status_message : String

abbrev pub start : RdsConnection → Run
start connection = record {
  connection = connection;
  requeue = false;
  error = none;
  binding_status = "";
  binding_status_reason = "";
  binding_status_message = "";
}

unfoldable pub return_error : Error → String → String → Run → Run
return_error e reason message run = record run {
  requeue = false;
  error = some e;
  binding_status = condition_false;
  binding_status_reason = reason;
  binding_status_message = message;
}

unfoldable pub return_requeue : String → String → Run → Run
return_requeue reason message run = record run {
  requeue = true;
  error = none;
  binding_status = condition_false;
  binding_status_reason = reason;
  binding_status_message = message;
}

unfoldable pub return_ready : Run → Run
return_ready run = record run {
  requeue = false;
  error = none;
  binding_status = condition_true;
  binding_status_reason = "Ready";
}
