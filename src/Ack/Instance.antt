-- ===== src/Ack/Instance.antt =====
-- The custom resources of the AWS controllers for Kubernetes: database instances,
-- with the fields that the operator reads or writes.
use rds_dbaas_operator.Prelude.{String, Bool, Option, List, none, []}
use rds_dbaas_operator.Go.Strconv.{ℤ}
use rds_dbaas_operator.K8s.{ObjectMeta, SecretKeyReference}
use rds_dbaas_operator.Ack.Shared.{
  AckResourceMetadata, AssociatedRole, DomainMembership, PendingCloudwatchLogsExports,
  VpcSecurityGroup, Time, AckCondition,
}

pub record DbInstanceSpec : Type 0 where
  pub engine : Option String
  pub engine_version : Option String
  pub availability_zone : Option String
  pub db_instance_identifier : Option String
  pub db_cluster_identifier : Option String
  pub db_instance_class : Option String
  pub storage_type : Option String
  pub allocated_storage : Option ℤ
  pub iops : Option ℤ
  pub max_allocated_storage : Option ℤ
  pub db_subnet_group_name : Option String
  pub publicly_accessible : Option Bool
  pub vpc_security_group_ids : List String
  pub license_model : Option String
  pub master_username : Option String
  pub master_user_password : Option SecretKeyReference
  pub db_name : Option String

pub record DbInstanceAutomatedBackupsReplication : Type 0 where
  pub db_instance_automated_backups_arn : Option String

pub record DbParameterGroup : Type 0 where
  pub db_parameter_group_name : Option String
  pub parameter_apply_status : Option String

pub record SubnetAvailabilityZone : Type 0 where
  pub name : Option String

pub record SubnetOutpost : Type 0 where
  pub arn : Option String

pub record Subnet : Type 0 where
  pub subnet_availability_zone : Option SubnetAvailabilityZone
  pub subnet_identifier : Option String
  pub subnet_outpost : Option SubnetOutpost
  pub subnet_status : Option String

pub record DbSubnetGroup : Type 0 where
  pub db_subnet_group_arn : Option String
  pub db_subnet_group_description : Option String
  pub db_subnet_group_name : Option String
  pub subnet_group_status : Option String
  pub subnets : List (Option Subnet)
  pub vpc_id : Option String

pub record Endpoint : Type 0 where
  pub address : Option String
  pub hosted_zone_id : Option String
  pub port : Option ℤ

pub record ListenerEndpoint : Type 0 where
  pub address : Option String
  pub hosted_zone_id : Option String
  pub port : Option ℤ

pub record OptionGroupMembership : Type 0 where
  pub option_group_name : Option String
  pub status : Option String

pub record ProcessorFeature : Type 0 where
  pub name : Option String
  pub value : Option String

pub record PendingModifiedValues : Type 0 where
  pub allocated_storage : Option ℤ
  pub automation_mode : Option String
  pub backup_retention_period : Option ℤ
  pub ca_certificate_identifier : Option String
  pub db_instance_class : Option String
  pub db_instance_identifier : Option String
  pub db_subnet_group_name : Option String
  pub engine_version : Option String
  pub iam_database_authentication_enabled : Option Bool
  pub iops : Option ℤ
  pub license_model : Option String
  pub master_user_password : Option String
  pub multi_az : Option Bool
  pub pending_cloudwatch_logs_exports : Option PendingCloudwatchLogsExports
  pub port : Option ℤ
  pub processor_features : List (Option ProcessorFeature)
  pub resume_full_automation_mode_time : Option Time
  pub storage_type : Option String

pub record StatusInfo : Type 0 where
  pub message : Option String
  pub normal : Option Bool
  pub status : Option String
  pub status_type : Option String

pub record DbInstanceStatus : Type 0 where
  pub ack_resource_metadata : Option AckResourceMetadata
  pub activity_stream_engine_native_audit_fields_included : Option Bool
  pub activity_stream_kinesis_stream_name : Option String
  pub activity_stream_kms_key_id : Option String
  pub activity_stream_mode : Option String
  pub activity_stream_policy_status : Option String
  pub activity_stream_status : Option String
  pub associated_roles : List (Option AssociatedRole)
  pub automatic_restart_time : Option Time
  pub automation_mode : Option String
  pub aws_backup_recovery_point_arn : Option String
  pub ca_certificate_identifier : Option String
  pub customer_owned_ip_enabled : Option Bool
  pub db_instance_automated_backups_replications :
      List (Option DbInstanceAutomatedBackupsReplication)
  pub db_instance_status : Option String
  pub db_parameter_groups : List (Option DbParameterGroup)
  pub db_subnet_group : Option DbSubnetGroup
  pub db_instance_port : Option ℤ
  pub dbi_resource_id : Option String
  pub domain_memberships : List (Option DomainMembership)
  pub enabled_cloudwatch_logs_exports : List (Option String)
  pub endpoint : Option Endpoint
  pub enhanced_monitoring_resource_arn : Option String
  pub iam_database_authentication_enabled : Option Bool
  pub instance_create_time : Option Time
  pub latest_restorable_time : Option Time
  pub listener_endpoint : Option ListenerEndpoint
  pub option_group_memberships : List (Option OptionGroupMembership)
  pub pending_modified_values : Option PendingModifiedValues
  pub read_replica_db_cluster_identifiers : List (Option String)
  pub read_replica_db_instance_identifiers : List (Option String)
  pub read_replica_source_db_instance_identifier : Option String
  pub resume_full_automation_mode_time : Option Time
  pub secondary_availability_zone : Option String
  pub status_infos : List (Option StatusInfo)
  pub vpc_security_groups : List (Option VpcSecurityGroup)
  pub conditions : List AckCondition

-- DBInstance, the custom resource of a database instance.
pub record DbInstance : Type 0 where
  pub meta : ObjectMeta
  pub kind : String
  pub spec : DbInstanceSpec
  pub status : DbInstanceStatus

-- `&rdsv1alpha1.DBInstance{ObjectMeta: meta}`
abbrev pub empty_spec : DbInstanceSpec
empty_spec = record {
  engine = none;
  engine_version = none;
  availability_zone = none;
  db_instance_identifier = none;
  db_cluster_identifier = none;
  db_instance_class = none;
  storage_type = none;
  allocated_storage = none;
  iops = none;
  max_allocated_storage = none;
  db_subnet_group_name = none;
  publicly_accessible = none;
  vpc_security_group_ids = [];
  license_model = none;
  master_username = none;
  master_user_password = none;
  db_name = none;
}

abbrev pub empty_status : DbInstanceStatus
empty_status = record {
  ack_resource_metadata = none;
  activity_stream_engine_native_audit_fields_included = none;
  activity_stream_kinesis_stream_name = none;
  activity_stream_kms_key_id = none;
  activity_stream_mode = none;
  activity_stream_policy_status = none;
  activity_stream_status = none;
  associated_roles = [];
  automatic_restart_time = none;
  automation_mode = none;
  aws_backup_recovery_point_arn = none;
  ca_certificate_identifier = none;
  customer_owned_ip_enabled = none;
  db_instance_automated_backups_replications = [];
  db_instance_status = none;
  db_parameter_groups = [];
  db_subnet_group = none;
  db_instance_port = none;
  dbi_resource_id = none;
  domain_memberships = [];
  enabled_cloudwatch_logs_exports = [];
  endpoint = none;
  enhanced_monitoring_resource_arn = none;
  iam_database_authentication_enabled = none;
  instance_create_time = none;
  latest_restorable_time = none;
  listener_endpoint = none;
  option_group_memberships = [];
  pending_modified_values = none;
  read_replica_db_cluster_identifiers = [];
  read_replica_db_instance_identifiers = [];
  read_replica_source_db_instance_identifier = none;
  resume_full_automation_mode_time = none;
  secondary_availability_zone = none;
  status_infos = [];
  vpc_security_groups = [];
  conditions = [];
}

abbrev pub empty_db_instance : ObjectMeta → DbInstance
empty_db_instance meta = record { meta = meta; kind = ""; spec = empty_spec; status = empty_status }
