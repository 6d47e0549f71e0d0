-- ===== src/Ack/Cluster.antt =====
-- The custom resources of the AWS controllers for Kubernetes: database clusters,
-- with the fields that the operator reads or writes.
use rds_dbaas_operator.Prelude.{String, Bool, Option, List}
use rds_dbaas_operator.Go.Strconv.{ℤ}
use rds_dbaas_operator.K8s.{ObjectMeta, SecretKeyReference}
use rds_dbaas_operator.Ack.Shared.{
  AckResourceMetadata, AssociatedRole, DomainMembership, PendingCloudwatchLogsExports,
  VpcSecurityGroup, Time,
}

pub record DbClusterSpec : Type 0 where
  pub engine : Option String
  pub engine_version : Option String
  pub db_cluster_identifier : Option String
  pub port : Option ℤ
  pub master_username : Option String
  pub master_user_password : Option SecretKeyReference
  pub database_name : Option String

pub record DbClusterMember : Type 0 where
  pub db_cluster_parameter_group_status : Option String
  pub db_instance_identifier : Option String
  pub is_cluster_writer : Option Bool
  pub promotion_tier : Option ℤ

pub record DbClusterOptionGroupMembership : Type 0 where
  pub db_cluster_option_group_name : Option String
  pub status : Option String

pub record PendingModifiedValues : Type 0 where
  pub db_cluster_identifier : Option String
  pub engine_version : Option String
  pub iam_database_authentication_enabled : Option Bool
  pub master_user_password : Option String
  pub pending_cloudwatch_logs_exports : Option PendingCloudwatchLogsExports

pub record TagList : Type 0 where
  pub key : Option String
  pub value : Option String

pub record DbClusterStatus : Type 0 where
  pub ack_resource_metadata : Option AckResourceMetadata
  pub activity_stream_kinesis_stream_name : Option String
  pub activity_stream_kms_key_id : Option String
  pub activity_stream_mode : Option String
  pub activity_stream_status : Option String
  pub associated_roles : List (Option AssociatedRole)
  pub automatic_restart_time : Option Time
  pub backtrack_consumed_change_records : Option ℤ
  pub capacity : Option ℤ
  pub clone_group_id : Option String
  pub cluster_create_time : Option Time
  pub cross_account_clone : Option Bool
  pub custom_endpoints : List (Option String)
  pub db_cluster_members : List (Option DbClusterMember)
  pub db_cluster_option_group_memberships : List (Option DbClusterOptionGroupMembership)
  pub db_cluster_parameter_group : Option String
  pub db_subnet_group : Option String
  pub db_cluster_resource_id : Option String
  pub domain_memberships : List (Option DomainMembership)
  pub earliest_backtrack_time : Option Time
  pub earliest_restorable_time : Option Time
  pub enabled_cloudwatch_logs_exports : List (Option String)
  pub endpoint : Option String
  pub global_write_forwarding_requested : Option Bool
  pub global_write_forwarding_status : Option String
  pub hosted_zone_id : Option String
  pub http_endpoint_enabled : Option Bool
  pub iam_database_authentication_enabled : Option Bool
  pub latest_restorable_time : Option Time
  pub multi_az : Option Bool
  pub pending_modified_values : Option PendingModifiedValues
  pub percent_progress : Option String
  pub performance_insights_enabled : Option Bool
  pub read_replica_identifiers : List (Option String)
  pub reader_endpoint : Option String
  pub status : Option String
  pub tag_list : List (Option TagList)
  pub vpc_security_groups : List (Option VpcSecurityGroup)

-- DBCluster, the custom resource of a database cluster.
pub record DbCluster : Type 0 where
  pub meta : ObjectMeta
  pub kind : String
  pub spec : DbClusterSpec
  pub status : DbClusterStatus
