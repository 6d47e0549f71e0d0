-- ===== src/Tests/Engines.antt =====
-- The theorems on engines, passwords, names, phases and copied conditions at concrete values.
use rds_dbaas_operator.Prelude.{
  String, switch, ◌≡◌, ◌≢◌, ◌↔◌, refl, true, none, some, eq_iff, one_of, if◌then◌else◌, ◌<>◌, arith,
}
use rds_dbaas_operator.Ack.Shared.{AckCondition}
use rds_dbaas_operator.Crd.{Phase}
use rds_dbaas_operator.DbUtils.Names.{availability_zones}
use rds_dbaas_operator.DbUtils.Engine.{get_db_engine_abbreviation, get_default_availability_zone}
use rds_dbaas_operator.DbUtils.Engine.Families.{IsFamily, IsBound, engine-IsFamily}
use rds_dbaas_operator.DbUtils.Engine.Abbreviation.{abbreviation-injective}
use rds_dbaas_operator.DbUtils.Engine.Zones.{keys, default_zone}
use rds_dbaas_operator.DbUtils.Password.{generate_password}
use rds_dbaas_operator.DbUtils.Password.Strength.{Drawn, IsStrong, generate_password-IsStrong}
use rds_dbaas_operator.RdsUtils.Names.{parse_namespaced_name, parse_namespaced_name-append}
use rds_dbaas_operator.Instance.Phase.{phase_for}
use rds_dbaas_operator.Instance.Statuses.{is_observed, phase_for-IsReady}
use rds_dbaas_operator.Instance.Conditions.{condition_for}
use rds_dbaas_operator.Instance.Reasons.{IsReason, Copied, condition_for-IsReason}
use rds_dbaas_operator.Tests.Server.{zero_random, zero_random-laws}

engine-IsFamily_example : IsFamily "aurora-mysql" × IsBound "aurora-mysql"
engine-IsFamily_example = engine-IsFamily "aurora-mysql"

postgres_abbreviation : get_db_engine_abbreviation (some "postgres") ≢ ""
unfolding get_db_engine_abbreviation switch one_of
postgres_abbreviation h = ground (arith, eq_iff "postgres-" "")

abbreviation-injective_example : ◌≡◌ {A = String} "postgres" "postgres"
abbreviation-injective_example =
    abbreviation-injective "postgres" "postgres" postgres_abbreviation refl

default_zone_example :
    get_default_availability_zone "eu-west-1"
    ≡ (if one_of "eu-west-1" (keys availability_zones) then some ("eu-west-1" <> "a") else none)
default_zone_example = default_zone "eu-west-1"

generate_password-IsStrong_example : Drawn zero_random IsStrong (generate_password zero_random tt).0
generate_password-IsStrong_example = generate_password-IsStrong zero_random zero_random-laws tt

parse_namespaced_name-append_example :
    parse_namespaced_name ("apps" <> ("/" <> "db/1")) ≡ record { namespace = "apps"; name = "db/1" }
parse_namespaced_name-append_example =
    parse_namespaced_name-append "apps" "db/1" (refl, (refl, (refl, (refl, tt))))

phase_for-IsReady_example :
    ((phase_for "available" ≡ Phase.ready) ↔ (◌≡◌ {A = String} "available" "available"))
    × (is_observed (phase_for "available") ≡ true)
phase_for-IsReady_example = phase_for-IsReady "available"

abbrev odd_condition : AckCondition
odd_condition = record {
  type = "ACK.Recoverable";
  status = "True";
  last_transition_time = none;
  reason = some "not a reason!";
  message = some "retry";
}

condition_for-IsReason_example :
    IsReason (condition_for odd_condition).reason
    × Copied odd_condition.reason (condition_for odd_condition).reason
condition_for-IsReason_example = condition_for-IsReason odd_condition
