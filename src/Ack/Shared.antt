-- ===== src/Ack/Shared.antt =====
-- The custom resources of the AWS controllers for Kubernetes: the parts that database
-- instances and clusters share, with the fields that the operator reads.
use rds_dbaas_operator.Prelude.{String, Option, List}

-- metav1.Time, as its String method prints it.
abbrev pub Time : Type 0
Time = String

pub record AckResourceMetadata : Type 0 where
  pub arn : Option String
  pub owner_account_id : Option String
  pub region : Option String

pub record AssociatedRole : Type 0 where
  pub feature_name : Option String
  pub role_arn : Option String
  pub status : Option String

pub record DomainMembership : Type 0 where
  pub domain : Option String
  pub fqdn : Option String
  pub iam_role_name : Option String
  pub status : Option String

pub record PendingCloudwatchLogsExports : Type 0 where
  pub log_types_to_disable : List (Option String)
  pub log_types_to_enable : List (Option String)

pub record VpcSecurityGroup : Type 0 where
  pub status : Option String
  pub vpc_security_group_id : Option String

-- ackv1alpha1.Condition
pub record AckCondition : Type 0 where
  pub type : String
  pub status : String
  pub last_transition_time : Option Time
  pub reason : Option String
  pub message : Option String
