-- ===== src/Inventory/Database.antt =====
-- controllers/rdsinventory_controller.go: the databases that an inventory adopts and lists. The
-- code for instances and the code for clusters are copies of each other; what tells the copies
-- apart is the record Database, of which there are two.
use rds_dbaas_operator.Prelude.{
  String, Bool, false, Option, none, some, List, [], ◌∷◌, ◌++◌, Dict, is_some,
}
use rds_dbaas_operator.K8s.{Result, ok, err, ObjectMeta, SecretKeyReference}
use rds_dbaas_operator.Ack.Shared.{AckResourceMetadata}
use rds_dbaas_operator.Ack.Instance.{DbInstance}
use rds_dbaas_operator.Ack.Cluster.{DbCluster}
use rds_dbaas_operator.RdsUtils.InstanceStatus.{parse_db_instance_status}
use rds_dbaas_operator.RdsUtils.ClusterStatus.{parse_db_cluster_status}
use rds_dbaas_operator.DbUtils.Names.{
  mariadb, aurora, aurora_mysql, aurora_postgresql, oracle_se2, oracle_se2_cdb, oracle_ee,
  oracle_ee_cdb, custom_oracle_ee, sqlserver_ee, sqlserver_se, sqlserver_ex, sqlserver_web,
  custom_sqlserver_ee, custom_sqlserver_se, custom_sqlserver_web,
}
use rds_dbaas_operator.Inventory.Server.{AwsDatabase, Pages, last, more, Page, failed, page}

abbrev pub outputs : Option (List AwsDatabase) → List AwsDatabase
outputs none = []
outputs (some xs) = xs

abbrev pub in_front :
    {S : Type 0} → List AwsDatabase → Result (List AwsDatabase) × S → Result (List AwsDatabase) × S
in_front xs (err e, s) = (err e, s)
in_front xs (ok ys, s) = (ok (xs ++ ys), s)

-- `for paginator.HasMorePages() { … NextPage(ctx) … }`: the databases of all the pages, or the first
-- error.
unfoldable mutual
  pub read_pages : {S : Type 0} → Pages S → S → Result (List AwsDatabase) × S
  read_pages last s = (ok [], s)
  read_pages (more next) s = read_page (next s)

  pub read_page : {S : Type 0} → Page S → Result (List AwsDatabase) × S
  read_page (failed e s) = (err e, s)
  read_page (page out rest s) = in_front (outputs out) (read_pages rest s)

-- A custom resource of a database: its fields, the writes of them, and what the code for its kind
-- tests, prints and reports.
pub record Database (D : Type 0) : Type 0 where
  pub meta : D → ObjectMeta
  pub kind : D → String
  pub identifier : D → Option String
  pub ack_resource_metadata : D → Option AckResourceMetadata
  pub engine : D → Option String
  pub status : D → Option String
  -- the database belongs to a cluster, by the custom resource and by AWS
  pub in_cluster : D → Bool
  pub aws_in_cluster : AwsDatabase → Bool
  pub master_username : D → Option String
  pub db_name : D → Option String
  pub master_user_password : D → Option SecretKeyReference
  pub set_master_username : String → D → D
  pub set_db_name : String → D → D
  pub set_master_user_password : SecretKeyReference → D → D
  -- parseDBInstanceStatus or parseDBClusterStatus
  pub info : D → Dict String
  pub service_type : String
  pub resource_kind : String
  -- the engines that are left out
  pub skipped : List String
  pub get_error : String
  pub adopt_error : String
  pub update_error : String

abbrev pub instance_database : Database DbInstance
instance_database = record {
  meta = λ d. d.meta;
  kind = λ d. d.kind;
  identifier = λ d. d.spec.db_instance_identifier;
  ack_resource_metadata = λ d. d.status.ack_resource_metadata;
  engine = λ d. d.spec.engine;
  status = λ d. d.status.db_instance_status;
  in_cluster = λ d. is_some d.spec.db_cluster_identifier;
  aws_in_cluster = λ a. is_some a.in_cluster;
  master_username = λ d. d.spec.master_username;
  db_name = λ d. d.spec.db_name;
  master_user_password = λ d. d.spec.master_user_password;
  set_master_username = λ u d. record d { spec = record d.spec { master_username = some u } };
  set_db_name = λ n d. record d { spec = record d.spec { db_name = some n } };
  set_master_user_password =
      λ r d. record d { spec = record d.spec { master_user_password = some r } };
  info = parse_db_instance_status;
  service_type = "instance";
  resource_kind = "DBInstance";
  skipped =
      aurora ∷ aurora_mysql ∷ aurora_postgresql ∷ custom_oracle_ee ∷ custom_sqlserver_ee
      ∷ custom_sqlserver_se ∷ custom_sqlserver_web ∷ [];
  get_error = "Failed to get Instances";
  adopt_error = "Failed to adopt DB Instance";
  update_error = "Failed to update DB Instance";
}

abbrev pub cluster_database : Database DbCluster
cluster_database = record {
  meta = λ d. d.meta;
  kind = λ d. d.kind;
  identifier = λ d. d.spec.db_cluster_identifier;
  ack_resource_metadata = λ d. d.status.ack_resource_metadata;
  engine = λ d. d.spec.engine;
  status = λ d. d.status.status;
  in_cluster = λ d. false;
  aws_in_cluster = λ a. false;
  master_username = λ d. d.spec.master_username;
  db_name = λ d. d.spec.database_name;
  master_user_password = λ d. d.spec.master_user_password;
  set_master_username = λ u d. record d { spec = record d.spec { master_username = some u } };
  set_db_name = λ n d. record d { spec = record d.spec { database_name = some n } };
  set_master_user_password =
      λ r d. record d { spec = record d.spec { master_user_password = some r } };
  info = parse_db_cluster_status;
  service_type = "cluster";
  resource_kind = "DBCluster";
  skipped =
      mariadb ∷ oracle_se2 ∷ oracle_se2_cdb ∷ oracle_ee ∷ oracle_ee_cdb ∷ custom_oracle_ee
      ∷ sqlserver_ee ∷ sqlserver_se ∷ sqlserver_ex ∷ sqlserver_web ∷ custom_sqlserver_ee
      ∷ custom_sqlserver_se ∷ custom_sqlserver_web ∷ [];
  get_error = "Failed to get clusters";
  adopt_error = "Failed to adopt DB Cluster";
  update_error = "Failed to update DB Cluster";
}

module _ {D : Type 0} (k : Database D) where
  -- `*d.Status.ACKResourceMetadata.ARN`, where both pointers are set.
  unfoldable pub arn_of : D → Option String
  arn_of d = elim (k.ack_resource_metadata d) [ none ↦ none | some m ↦ m.arn ]

  -- The ARN and the identifier of a database that has both.
  unfoldable pub arn_entry : D → Option (String × String)
  unfolding arn_of
  arn_entry d = elim (k.identifier d) [
    | none ↦ none
    | some i ↦ elim (arn_of d) [ none ↦ none | some a ↦ some (a, i) ]
  ]
