-- ===== src/RdsUtils/Entries.antt =====
-- controllers/rds_utils.go: the entries of a service's information, as a list of the assignments
-- `m[key] = value` in the order in which the code makes them.
use rds_dbaas_operator.Prelude.{
  ℕ, suc, String, Option, none, some, List, [], ◌∷◌, ◌++◌, Dict, insert, ◌<>◌,
}
use rds_dbaas_operator.Go.Strconv.{format_ℕ}
use rds_dbaas_operator.Ack.Shared.{
  AckResourceMetadata, AssociatedRole, DomainMembership, PendingCloudwatchLogsExports,
  VpcSecurityGroup,
}

abbrev pub Entries : Type 0
Entries = List (String × String)

-- One after the other.
infixr 60 ◌+++◌
abbrev pub ◌+++◌ : Entries → Entries → Entries
a +++ b = a ++ b

-- `if v != nil { m[key] = *v }`
unfoldable pub text : String → Option String → Entries
text key none = []
text key (some v) = (key, v) ∷ []

-- `if v != nil { … }`
unfoldable pub if_set {ℓ} : {A : Type ℓ} → Option A → (A → Entries) → Entries
if_set none f = []
if_set (some a) f = f a

-- `for i, v := range vs { if v != nil { … } }`, from the index `i`
each_from {ℓ} : {A : Type ℓ} → ℕ → List (Option A) → (ℕ → A → Entries) → Entries
each_from i [] f = []
each_from i (none ∷ vs) f = each_from (suc i) vs f
each_from i (some v ∷ vs) f = f i v ++ each_from (suc i) vs f

unfoldable pub each {ℓ} : {A : Type ℓ} → List (Option A) → (ℕ → A → Entries) → Entries
unfolding each_from
each vs f = each_from 0 vs f

-- The map after the assignments.
unfoldable pub assign : Entries → Dict String → Dict String
assign [] m = m
assign ((k, v) ∷ es) m = assign es (insert k v m)

unfoldable pub ack_resource_metadata_entries : AckResourceMetadata → Entries
ack_resource_metadata_entries r =
    text "ackResourceMetadata.arn" r.arn
    +++ text "ackResourceMetadata.ownerAccountID" r.owner_account_id
    +++ text "ackResourceMetadata.region" r.region

unfoldable pub associated_role_entries : ℕ → AssociatedRole → Entries
associated_role_entries i r =
    text ("associatedRoles[" <> (format_ℕ i <> "].featureName")) r.feature_name
    +++ text ("associatedRoles[" <> (format_ℕ i <> "].roleARN")) r.role_arn
    +++ text ("associatedRoles[" <> (format_ℕ i <> "].status")) r.status

unfoldable pub domain_membership_entries : ℕ → DomainMembership → Entries
domain_membership_entries i r =
    text ("domainMemberships[" <> (format_ℕ i <> "].domain")) r.domain
    +++ text ("domainMemberships[" <> (format_ℕ i <> "].fQDN")) r.fqdn
    +++ text ("domainMemberships[" <> (format_ℕ i <> "].iamRoleName")) r.iam_role_name
    +++ text ("domainMemberships[" <> (format_ℕ i <> "].status")) r.status

unfoldable pub pending_cloudwatch_logs_exports_entries : PendingCloudwatchLogsExports → Entries
pending_cloudwatch_logs_exports_entries r =
    each r.log_types_to_disable (λ i e.
      (
        "pendingModifiedValues.pendingCloudwatchLogsExports.logTypesToDisable["
            <> (format_ℕ i <> "]"),
        e,
      )
      ∷ [])
    +++ each r.log_types_to_enable (λ i e.
      (
        "pendingModifiedValues.pendingCloudwatchLogsExports.logTypesToEnable["
            <> (format_ℕ i <> "]"),
        e,
      )
      ∷ [])

unfoldable pub vpc_security_group_entries : ℕ → VpcSecurityGroup → Entries
vpc_security_group_entries i r =
    text ("vpcSecurityGroups[" <> (format_ℕ i <> "].status")) r.status
    +++ text ("vpcSecurityGroups[" <> (format_ℕ i <> "].vpcSecurityGroupID"))
        r.vpc_security_group_id
