-- ===== src/RdsUtils/InstanceStatus.antt =====
-- controllers/rds_utils.go: parseDBInstanceStatus.
use mathlib.Core.Option
use rds_dbaas_operator.Prelude.{ℕ, String, [], ◌∷◌, Dict, ◌<>◌}
use rds_dbaas_operator.Go.Strconv.{format_ℕ, format_int, format_bool}
use rds_dbaas_operator.Ack.Instance.{
  DbInstance, DbInstanceAutomatedBackupsReplication, DbParameterGroup, DbSubnetGroup, Endpoint,
  ListenerEndpoint, OptionGroupMembership, PendingModifiedValues, ProcessorFeature, StatusInfo,
  Subnet, SubnetAvailabilityZone, SubnetOutpost,
}
use rds_dbaas_operator.RdsUtils.Entries.{
  Entries, ◌+++◌, text, if_set, each, assign, ack_resource_metadata_entries,
  associated_role_entries, domain_membership_entries, pending_cloudwatch_logs_exports_entries,
  vpc_security_group_entries,
}

unfoldable pub db_instance_automated_backups_replication_entries :
    ℕ → DbInstanceAutomatedBackupsReplication → Entries
db_instance_automated_backups_replication_entries i r =
    text
      ("dbInstanceAutomatedBackupsReplications["
        <> (format_ℕ i <> "].dbInstanceAutomatedBackupsARN"))
      r.db_instance_automated_backups_arn

unfoldable pub db_parameter_group_entries : ℕ → DbParameterGroup → Entries
db_parameter_group_entries i r =
    text ("dbParameterGroups[" <> (format_ℕ i <> "].dbParameterGroupName"))
      r.db_parameter_group_name
    +++ text ("dbParameterGroups[" <> (format_ℕ i <> "].parameterApplyStatus"))
        r.parameter_apply_status

unfoldable pub subnet_availability_zone_entries : ℕ → SubnetAvailabilityZone → Entries
subnet_availability_zone_entries i r =
    text ("dbSubnetGroup.subnets[" <> (format_ℕ i <> "].subnetAvailabilityZone.name")) r.name

unfoldable pub subnet_outpost_entries : ℕ → SubnetOutpost → Entries
subnet_outpost_entries i r =
    text ("dbSubnetGroup.subnets[" <> (format_ℕ i <> "].subnetOutpost.arn")) r.arn

unfoldable pub subnet_entries : ℕ → Subnet → Entries
subnet_entries i r =
    if_set r.subnet_availability_zone (subnet_availability_zone_entries i)
    +++ text ("dbSubnetGroup.subnets[" <> (format_ℕ i <> "].subnetIdentifier")) r.subnet_identifier
    +++ if_set r.subnet_outpost (subnet_outpost_entries i)
    +++ text ("dbSubnetGroup.subnets[" <> (format_ℕ i <> "].subnetStatus")) r.subnet_status

unfoldable pub db_subnet_group_entries : DbSubnetGroup → Entries
db_subnet_group_entries r =
    text "dbSubnetGroup.dbSubnetGroupARN" r.db_subnet_group_arn
    +++ text "dbSubnetGroup.dbSubnetGroupDescription" r.db_subnet_group_description
    +++ text "dbSubnetGroup.dbSubnetGroupName" r.db_subnet_group_name
    +++ text "dbSubnetGroup.subnetGroupStatus" r.subnet_group_status
    +++ each r.subnets subnet_entries
    +++ text "dbSubnetGroup.vpcID" r.vpc_id

unfoldable pub endpoint_entries : Endpoint → Entries
endpoint_entries r =
    text "endpoint.address" r.address
    +++ text "endpoint.hostedZoneID" r.hosted_zone_id
    +++ text "endpoint.port" (Option.map format_int r.port)

unfoldable pub listener_endpoint_entries : ListenerEndpoint → Entries
listener_endpoint_entries r =
    text "listenerEndpoint.address" r.address
    +++ text "listenerEndpoint.hostedZoneID" r.hosted_zone_id
    +++ text "listenerEndpoint.port" (Option.map format_int r.port)

unfoldable pub option_group_membership_entries : ℕ → OptionGroupMembership → Entries
option_group_membership_entries i r =
    text ("optionGroupMemberships[" <> (format_ℕ i <> "].optionGroupName")) r.option_group_name
    +++ text ("optionGroupMemberships[" <> (format_ℕ i <> "].status")) r.status

unfoldable pub processor_feature_entries : ℕ → ProcessorFeature → Entries
processor_feature_entries i r =
    text ("pendingModifiedValues.ProcessorFeature[" <> (format_ℕ i <> "].name")) r.name
    +++ text ("pendingModifiedValues.ProcessorFeature[" <> (format_ℕ i <> "].value")) r.value

unfoldable pub pending_modified_values_entries : PendingModifiedValues → Entries
pending_modified_values_entries r =
    text "pendingModifiedValues.allocatedStorage" (Option.map format_int r.allocated_storage)
    +++ text "pendingModifiedValues.automationMode" r.automation_mode
    +++ text "pendingModifiedValues.backupRetentionPeriod"
        (Option.map format_int r.backup_retention_period)
    +++ text "pendingModifiedValues.caCertificateIdentifier" r.ca_certificate_identifier
    +++ text "pendingModifiedValues.dbInstanceClass" r.db_instance_class
    +++ text "pendingModifiedValues.dbInstanceIdentifier" r.db_instance_identifier
    +++ text "pendingModifiedValues.dbSubnetGroupName" r.db_subnet_group_name
    +++ text "pendingModifiedValues.engineVersion" r.engine_version
    +++ text "pendingModifiedValues.iamDatabaseAuthenticationEnabled"
        (Option.map format_bool r.iam_database_authentication_enabled)
    +++ text "pendingModifiedValues.iops" (Option.map format_int r.iops)
    +++ text "pendingModifiedValues.licenseModel" r.license_model
    +++ text "pendingModifiedValues.masterUserPassword" r.master_user_password
    +++ text "pendingModifiedValues.multiAZ" (Option.map format_bool r.multi_az)
    +++ if_set r.pending_cloudwatch_logs_exports pending_cloudwatch_logs_exports_entries
    +++ text "pendingModifiedValues.port" (Option.map format_int r.port)
    +++ each r.processor_features processor_feature_entries
    +++ text "pendingModifiedValues.resumeFullAutomationModeTime" r.resume_full_automation_mode_time
    +++ text "pendingModifiedValues.storageType" r.storage_type

unfoldable pub status_info_entries : ℕ → StatusInfo → Entries
status_info_entries i r =
    text ("statusInfos[" <> (format_ℕ i <> "].message")) r.message
    +++ text ("statusInfos[" <> (format_ℕ i <> "].normal")) (Option.map format_bool r.normal)
    +++ text ("statusInfos[" <> (format_ℕ i <> "].status")) r.status
    +++ text ("statusInfos[" <> (format_ℕ i <> "].statusType")) r.status_type

-- The assignments of parseDBInstanceStatus.
unfoldable pub db_instance_entries : DbInstance → Entries
db_instance_entries d =
    text "engine" d.spec.engine
    +++ text "engineVersion" d.spec.engine_version
    +++ if_set d.status.ack_resource_metadata ack_resource_metadata_entries
    +++ text "activityStreamEngineNativeAuditFieldsIncluded"
        (Option.map format_bool d.status.activity_stream_engine_native_audit_fields_included)
    +++ text "activityStreamKinesisStreamName" d.status.activity_stream_kinesis_stream_name
    +++ text "activityStreamKMSKeyID" d.status.activity_stream_kms_key_id
    +++ text "activityStreamMode" d.status.activity_stream_mode
    +++ text "activityStreamPolicyStatus" d.status.activity_stream_policy_status
    +++ text "activityStreamStatus" d.status.activity_stream_status
    +++ each d.status.associated_roles associated_role_entries
    +++ text "automaticRestartTime" d.status.automatic_restart_time
    +++ text "automationMode" d.status.automation_mode
    +++ text "awsBackupRecoveryPointARN" d.status.aws_backup_recovery_point_arn
    +++ text "caCertificateIdentifier" d.status.ca_certificate_identifier
    +++ text "customerOwnedIPEnabled" (Option.map format_bool d.status.customer_owned_ip_enabled)
    +++ each d.status.db_instance_automated_backups_replications
        db_instance_automated_backups_replication_entries
    +++ text "dbInstanceStatus" d.status.db_instance_status
    +++ each d.status.db_parameter_groups db_parameter_group_entries
    +++ if_set d.status.db_subnet_group db_subnet_group_entries
    +++ text "dbInstancePort" (Option.map format_int d.status.db_instance_port)
    +++ text "dbiResourceID" d.status.dbi_resource_id
    +++ each d.status.domain_memberships domain_membership_entries
    +++ each d.status.enabled_cloudwatch_logs_exports
        (λ i e. ("enabledCloudwatchLogsExports[" <> (format_ℕ i <> "]"), e) ∷ [])
    +++ if_set d.status.endpoint endpoint_entries
    +++ text "enhancedMonitoringResourceARN" d.status.enhanced_monitoring_resource_arn
    +++ text "iamDatabaseAuthenticationEnabled"
        (Option.map format_bool d.status.iam_database_authentication_enabled)
    +++ text "instanceCreateTime" d.status.instance_create_time
    +++ text "latestRestorableTime" d.status.latest_restorable_time
    +++ if_set d.status.listener_endpoint listener_endpoint_entries
    +++ each d.status.option_group_memberships option_group_membership_entries
    +++ if_set d.status.pending_modified_values pending_modified_values_entries
    +++ each d.status.read_replica_db_cluster_identifiers
        (λ i e. ("readReplicaDBClusterIdentifiers[" <> (format_ℕ i <> "]"), e) ∷ [])
    +++ each d.status.read_replica_db_instance_identifiers
        (λ i e. ("readReplicaDBInstanceIdentifiers[" <> (format_ℕ i <> "]"), e) ∷ [])
    +++ text "readReplicaSourceDBInstanceIdentifier"
        d.status.read_replica_source_db_instance_identifier
    +++ text "resumeFullAutomationModeTime" d.status.resume_full_automation_mode_time
    +++ text "secondaryAvailabilityZone" d.status.secondary_availability_zone
    +++ each d.status.status_infos status_info_entries
    +++ each d.status.vpc_security_groups vpc_security_group_entries

unfoldable pub parse_db_instance_status : DbInstance → Dict String
unfolding assign
parse_db_instance_status d = assign (db_instance_entries d) []
