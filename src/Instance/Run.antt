-- ===== src/Instance/Run.antt =====
-- controllers/rdsinstance_controller.go: the variables that Reconcile's closures share, the
-- closures that set them, and the calls of the client.
use rds_dbaas_operator.Prelude.{
  String, Bool, true, false, ◌==◌, Option, none, some, ◌<>◌, if◌then◌else◌,
}
use rds_dbaas_operator.K8s.{
  Error, Result, NamespacedName, OperationResult, condition_true, condition_false,
  condition_unknown,
}
use rds_dbaas_operator.K8s.Meta.{Meta}
use rds_dbaas_operator.Ack.Instance.{DbInstance}
use rds_dbaas_operator.Crd.{RdsInventory, RdsInstance, Phase}
use rds_dbaas_operator.RdsUtils.Credentials.{SecretClient}

abbrev pub instance_finalizer : String
instance_finalizer = "rds.dbaas.redhat.com/instance"

abbrev pub instance_condition_ready : String
instance_condition_ready = "ProvisionReady"

-- The variables of Reconcile: the instance, `result`, `err`, the parts of the condition and
-- `phase`.
pub record Run : Type 0 where
  pub instance_ : RdsInstance
  pub requeue : Bool
  pub error : Option Error
  pub provision_status : String
  pub provision_status_reason : String
  pub provision_status_message : String
  pub phase : Phase

-- The keys of the provisioning parameters that dbaasv1beta1 defines.
pub record ProvisioningKeys : Type 0 where
  pub availability_zones : String
  pub database_type : String
  pub name : String
  pub machine_type : String
  pub storage_gib : String

-- `CreateOrUpdate` threads the state through its callback, and the variables that this one sets; it
-- has no result where the callback panics.
pub record Client (S : Type 0) : Type 0 where
  pub meta : Meta
  pub secrets : SecretClient S
  pub keys : ProvisioningKeys
  pub get_instance : NamespacedName → S → Result RdsInstance × S
  pub get_inventory : NamespacedName → S → Result RdsInventory × S
  pub get_db_instance : NamespacedName → S → Result DbInstance × S
  pub delete_db_instance : DbInstance → S → Option Error × S
  pub update_instance : RdsInstance → S → Result RdsInstance × S
  pub update_status : RdsInstance → S → Result RdsInstance × S
  pub create_or_update_db_instance :
      DbInstance
      → (DbInstance → Run → S → Option (Result DbInstance) × Run × S)
      → Run
      → S
      → Option (Result (OperationResult × DbInstance)) × Run × S
  -- ophandler.SetOwnerAnnotations
  pub set_owner_annotations : RdsInstance → DbInstance → Result DbInstance
  -- the text of a dbaasv1beta1.DBaasInstancePhase
  pub phase_name : Phase → String
  -- uuid.NewUUID
  pub new_uuid : S → String × S

abbrev pub start : RdsInstance → Run
start i = record {
  instance_ = i;
  requeue = false;
  error = none;
  provision_status = "";
  provision_status_reason = "";
  provision_status_message = "";
  phase = Phase.unset;
}

unfoldable pub return_updating : Run → Run
return_updating run = record run {
  requeue = true;
  error = none;
  provision_status = condition_unknown;
  provision_status_reason = "Updating";
  provision_status_message = "Updating Instance";
}

-- An empty reason keeps the reason, and a message is put before the one that is there.
unfoldable pub return_error : Error → String → String → Run → Run
return_error e reason message run = record run {
  requeue = false;
  error = some e;
  provision_status = condition_false;
  provision_status_reason = if reason == "" then run.provision_status_reason else reason;
  provision_status_message =
      if run.provision_status_message == ""
      then message
      else message <> (": " <> run.provision_status_message);
}

unfoldable pub return_not_ready : String → String → Run → Run
return_not_ready reason message run = record run {
  requeue = false;
  error = none;
  provision_status = condition_false;
  provision_status_reason = reason;
  provision_status_message = message;
}

unfoldable pub return_requeue : String → String → Run → Run
return_requeue reason message run = record run {
  requeue = true;
  error = none;
  provision_status = condition_false;
  provision_status_reason = reason;
  provision_status_message = message;
}

unfoldable pub return_ready : Run → Run
return_ready run = record run {
  requeue = false;
  error = none;
  provision_status = condition_true;
  provision_status_reason = "Ready";
}
