-- ===== src/Inventory/Server.antt =====
-- controllers/rdsinventory_controller.go: what the reconciler of inventories calls besides the
-- client of Run: the calls on the objects that it writes, the paginators of AWS, and the constants
-- of the libraries.
use rds_dbaas_operator.Prelude.{ℕ, String, Option, List, Dict}
use rds_dbaas_operator.K8s.{Error, Result, ObjectMeta, Secret, ConfigMap}
use rds_dbaas_operator.Ack.Shared.{AckCondition}
use rds_dbaas_operator.Ack.Instance.{DbInstance}
use rds_dbaas_operator.Ack.Cluster.{DbCluster}
use rds_dbaas_operator.Crd.{RdsInventory}
use rds_dbaas_operator.RdsUtils.Credentials.{SecretClient}
use rds_dbaas_operator.Inventory.Run.{Client, Credentials}
use rds_dbaas_operator.Inventory.Controller.{DeploymentClient}

-- The fields of rdstypesv2.DBInstance and rdstypesv2.DBCluster that the code reads; a cluster has
-- no cluster identifier to read.
pub record AwsDatabase : Type 0 where
  pub arn : Option String
  pub identifier : Option String
  pub engine : Option String
  pub in_cluster : Option String
  pub status : Option String
  pub master_username : Option String
  pub db_name : Option String

-- A paginator: either it has no more pages, or NextPage asks the server. Its answer is an error, or
-- an output, which may be nil, with the rest of the pages. There are finitely many pages, whatever
-- the server answers.
mutual
  pub data Pages (S : Type 0) : Type 0 where
    last : Pages S
    more : (S → Page S) → Pages S

  pub data Page (S : Type 0) : Type 0 where
    failed : Error → S → Page S
    page : Option (List AwsDatabase) → Pages S → S → Page S

-- ackv1alpha1.AWSIdentifiers
pub record AwsIdentifiers : Type 0 where
  pub name_or_id : String
  pub arn : Option String

-- ackv1alpha1.ResourceWithMetadata, with the fields of its metadata
pub record KubernetesResource : Type 0 where
  pub group : String
  pub kind : String
  pub namespace : String
  pub labels : Option (Dict String)

-- ackv1alpha1.AdoptedResource; absent conditions are nil.
pub record AdoptedResource : Type 0 where
  pub meta : ObjectMeta
  pub kubernetes : Option KubernetesResource
  pub aws : Option AwsIdentifiers
  pub conditions : Option (List (Option AckCondition))

-- The API server on database instances or clusters, in a namespace and with labels, and AWS's
-- DescribeDB… and ModifyDB… on them; `modify` takes the identifier and the new password.
pub record DatabaseClient (S D : Type 0) : Type 0 where
  pub pages : Credentials → Pages S
  pub modify : Credentials → Option String → String → S → Option Error × S
  pub list : String → S → Result (List D) × S
  pub list_labelled : String → Dict String → S → Result (List D) × S
  pub update : D → S → Result D × S

abbrev pub Mutate : Type 0 → Type 0
Mutate A = A → Result A

pub record Server (S : Type 0) : Type 0 where
  pub client : Client S
  pub deployments : DeploymentClient S
  pub secrets : SecretClient S
  pub instances : DatabaseClient S DbInstance
  pub clusters : DatabaseClient S DbCluster
  pub update_inventory : RdsInventory → S → Result RdsInventory × S
  pub list_adopted_resources : String → S → Result (List AdoptedResource) × S
  pub create_adopted_resource : AdoptedResource → S → Option Error × S
  pub delete_adopted_resource : AdoptedResource → S → Option Error × S
  pub new_uuid : S → String × S
  -- controllerutil.CreateOrUpdate
  pub create_or_update_secret : Secret → Mutate Secret → S → Result Secret × S
  pub create_or_update_config_map : ConfigMap → Mutate ConfigMap → S → Result ConfigMap × S
  -- ophandler.SetOwnerAnnotations, with the kind and the metadata of the owner
  pub set_owner_annotations : String → ObjectMeta → ObjectMeta → Result ObjectMeta
  -- ophandler.TypeAnnotation and NamespacedNameAnnotation
  pub type_annotation : String
  pub namespaced_name_annotation : String
  -- dbaasv1beta1.TypeLabelKey and TypeLabelValue
  pub type_label_key : String
  pub type_label_value : String
  -- rdsv1alpha1.GroupVersion.Group and ackv1alpha1.ConditionTypeAdopted
  pub rds_group : String
  pub condition_type_adopted : String
  -- the reconciler's ACKInstallNamespace and WaitForRDSControllerRetries
  pub namespace : String
  pub retries : ℕ
