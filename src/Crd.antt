-- ===== src/Crd.antt =====
-- api/v1alpha1: the custom resources of this operator. Their specs and statuses are types of the
-- dbaas-operator, of which the fields that the code reads or writes stand here.
use rds_dbaas_operator.Prelude.{String, Option, List, Dict}
use rds_dbaas_operator.K8s.{ObjectMeta, Condition, NamespacedName}

-- dbaasv1beta1.DatabaseService
pub record DatabaseService : Type 0 where
  pub service_id : String
  pub service_name : String
  pub service_type : Option String
  pub service_info : Dict String

-- api/v1alpha1/rdsinventory_types.go
pub record RdsInventory : Type 0 where
  pub meta : ObjectMeta
  pub kind : String
  -- spec.credentialsRef.name
  pub credentials_ref : String
  -- status
  pub conditions : List Condition
  pub database_services : List DatabaseService

-- api/v1alpha1/rdsconnection_types.go
pub record RdsConnection : Type 0 where
  pub meta : ObjectMeta
  pub kind : String
  -- spec
  pub inventory_ref : NamespacedName
  pub database_service_id : String
  pub database_service_type : Option String
  -- status
  pub conditions : List Condition
  pub credentials_ref : Option String
  pub connection_info_ref : Option String

-- dbaasv1beta1.DBaasInstancePhase
pub data Phase : Type 0 where
  unset unknown pending creating updating deleting deleted ready error failed : Phase

-- api/v1alpha1/rdsinstance_types.go
pub record RdsInstance : Type 0 where
  pub meta : ObjectMeta
  pub kind : String
  -- spec
  pub inventory_ref : NamespacedName
  pub provisioning_parameters : Dict String
  -- status
  pub conditions : List Condition
  pub instance_id : String
  pub instance_info : Dict String
  pub phase : Phase
