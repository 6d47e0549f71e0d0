-- ===== src/RdsUtils/ClusterStatus.antt =====
-- controllers/rds_utils.go: parseDBClusterStatus.
use mathlib.Core.Option
use rds_dbaas_operator.Prelude.{ℕ, String, [], ◌∷◌, Dict, ◌<>◌}
use rds_dbaas_operator.Go.Strconv.{format_ℕ, format_int, format_bool}
use rds_dbaas_operator.Ack.Cluster.{
  DbCluster, DbClusterMember, DbClusterOptionGroupMembership, PendingModifiedValues, TagList,
}
use rds_dbaas_operator.RdsUtils.Entries.{
  Entries, ◌+++◌, text, if_set, each, assign, ack_resource_metadata_entries,
  associated_role_entries, domain_membership_entries, pending_cloudwatch_logs_exports_entries,
  vpc_security_group_entries,
}

unfoldable pub db_cluster_member_entries : ℕ → DbClusterMember → Entries
db_cluster_member_entries i r =
    text ("dbClusterMembers[" <> (format_ℕ i <> "].dbClusterParameterGroupStatus"))
      r.db_cluster_parameter_group_status
    +++ text ("dbClusterMembers[" <> (format_ℕ i <> "].dbInstanceIdentifier"))
        r.db_instance_identifier
    +++ text ("dbClusterMembers[" <> (format_ℕ i <> "].isClusterWriter"))
        (Option.map format_bool r.is_cluster_writer)
    +++ text ("dbClusterMembers[" <> (format_ℕ i <> "].promotionTier"))
        (Option.map format_int r.promotion_tier)

unfoldable pub db_cluster_option_group_membership_entries :
    ℕ → DbClusterOptionGroupMembership → Entries
db_cluster_option_group_membership_entries i r =
    text ("dbClusterOptionGroupMemberships[" <> (format_ℕ i <> "].dbClusterOptionGroupName"))
      r.db_cluster_option_group_name
    +++ text ("dbClusterOptionGroupMemberships[" <> (format_ℕ i <> "].status")) r.status

unfoldable pub pending_modified_values_entries : PendingModifiedValues → Entries
pending_modified_values_entries r =
    text "pendingModifiedValues.dbClusterIdentifier" r.db_cluster_identifier
    +++ text "pendingModifiedValues.engineVersion" r.engine_version
    +++ text "pendingModifiedValues.iamDatabaseAuthenticationEnabled"
        (Option.map format_bool r.iam_database_authentication_enabled)
    +++ text "pendingModifiedValues.masterUserPassword" r.master_user_password
    +++ if_set r.pending_cloudwatch_logs_exports pending_cloudwatch_logs_exports_entries

unfoldable pub tag_list_entries : ℕ → TagList → Entries
tag_list_entries i r =
    text ("tagList[" <> (format_ℕ i <> "].key")) r.key
    +++ text ("tagList[" <> (format_ℕ i <> "].value")) r.value

-- The assignments of parseDBClusterStatus.
unfoldable pub db_cluster_entries : DbCluster → Entries
db_cluster_entries d =
    text "engine" d.spec.engine
    +++ text "engineVersion" d.spec.engine_version
    +++ if_set d.status.ack_resource_metadata ack_resource_metadata_entries
    +++ text "activityStreamKinesisStreamName" d.status.activity_stream_kinesis_stream_name
    +++ text "activityStreamKMSKeyID" d.status.activity_stream_kms_key_id
    +++ text "activityStreamMode" d.status.activity_stream_mode
    +++ text "activityStreamStatus" d.status.activity_stream_status
    +++ each d.status.associated_roles associated_role_entries
    +++ text "automaticRestartTime" d.status.automatic_restart_time
    +++ text "backtrackConsumedChangeRecords"
        (Option.map format_int d.status.backtrack_consumed_change_records)
    +++ text "capacity" (Option.map format_int d.status.capacity)
    +++ text "cloneGroupID" d.status.clone_group_id
    +++ text "clusterCreateTime" d.status.cluster_create_time
    +++ text "crossAccountClone" (Option.map format_bool d.status.cross_account_clone)
    +++ each d.status.custom_endpoints (λ i e. ("customEndpoints[" <> (format_ℕ i <> "]"), e) ∷ [])
    +++ each d.status.db_cluster_members db_cluster_member_entries
    +++ each d.status.db_cluster_option_group_memberships db_cluster_option_group_membership_entries
    +++ text "dbClusterParameterGroup" d.status.db_cluster_parameter_group
    +++ text "dbSubnetGroup" d.status.db_subnet_group
    +++ text "dbClusterResourceID" d.status.db_cluster_resource_id
    +++ each d.status.domain_memberships domain_membership_entries
    +++ text "earliestBacktrackTime" d.status.earliest_backtrack_time
    +++ text "earliestRestorableTime" d.status.earliest_restorable_time
    +++ each d.status.enabled_cloudwatch_logs_exports
        (λ i e. ("enabledCloudwatchLogsExports[" <> (format_ℕ i <> "]"), e) ∷ [])
    +++ text "endpoint" d.status.endpoint
    +++ text "globalWriteForwardingRequested"
        (Option.map format_bool d.status.global_write_forwarding_requested)
    +++ text "globalWriteForwardingStatus" d.status.global_write_forwarding_status
    +++ text "hostedZoneID" d.status.hosted_zone_id
    +++ text "httpEndpointEnabled" (Option.map format_bool d.status.http_endpoint_enabled)
    +++ text "iamDatabaseAuthenticationEnabled"
        (Option.map format_bool d.status.iam_database_authentication_enabled)
    +++ text "latestRestorableTime" d.status.latest_restorable_time
    +++ text "multiAZ" (Option.map format_bool d.status.multi_az)
    +++ if_set d.status.pending_modified_values pending_modified_values_entries
    +++ text "percentProgress" d.status.percent_progress
    +++ text "performanceInsightsEnabled"
        (Option.map format_bool d.status.performance_insights_enabled)
    +++ each d.status.read_replica_identifiers
        (λ i e. ("readReplicaIdentifiers[" <> (format_ℕ i <> "]"), e) ∷ [])
    +++ text "readerEndpoint" d.status.reader_endpoint
    +++ text "status" d.status.status
    +++ each d.status.tag_list tag_list_entries
    +++ each d.status.vpc_security_groups vpc_security_group_entries

unfoldable pub parse_db_cluster_status : DbCluster → Dict String
unfolding assign
parse_db_cluster_status d = assign (db_cluster_entries d) []
