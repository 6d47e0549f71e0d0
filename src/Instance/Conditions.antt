-- ===== src/Instance/Conditions.antt =====
-- controllers/rdsinstance_controller.go: the loop of syncDBInstanceStatus, which copies the
-- conditions of the database into those of the instance.
use rds_dbaas_operator.Prelude.{
  String, ◌==◌, Option, none, some, List, [], ◌∷◌, ◌<>◌, if◌then◌else◌,
}
use rds_dbaas_operator.K8s.{Condition}
use rds_dbaas_operator.K8s.Meta.{Meta}
use rds_dbaas_operator.Ack.Shared.{AckCondition}
use rds_dbaas_operator.Instance.Patterns.{is_reason}

abbrev pub reason_db_instance : String
reason_db_instance = "DBInstance"

abbrev pub or_empty : Option String → String
or_empty none = ""
or_empty (some s) = s

-- A condition's reason and message, by the reason that is not empty.
unfoldable pub reason_and_message : String → Option String → String × String
unfolding is_reason
reason_and_message reason message = if is_reason reason then (reason, or_empty message) else (
  reason_db_instance,
  elim message [
    | none ↦ "Reason: " <> reason
    | some m ↦ "Reason: " <> (reason <> (", Message: " <> m))
  ],
)

-- An absent reason and an empty one are replaced.
unfoldable pub described : Option String → Option String → String × String
unfolding reason_and_message
described none message = (reason_db_instance, or_empty message)
described (some reason) message =
    if reason == ""
    then (reason_db_instance, or_empty message)
    else reason_and_message reason message

unfoldable pub condition_for : AckCondition → Condition
unfolding described
condition_for c = record {
  type = c.type;
  status = c.status;
  reason = (described c.reason c.message).0;
  message = (described c.reason c.message).1;
  last_transition_time = c.last_transition_time;
}

unfoldable pub copy_conditions : Meta → List AckCondition → List Condition → List Condition
unfolding condition_for
copy_conditions meta [] own = own
copy_conditions meta (c ∷ cs) own =
    copy_conditions meta cs (meta.set_status_condition own (condition_for c))
