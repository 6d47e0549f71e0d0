-- ===== src/Instance/Requests.antt =====
-- controllers/rdsinstance_controller.go: getOwnerInstanceRequests, the instance to reconcile when a
-- database has changed.
use rds_dbaas_operator.Prelude.{String, ◌==◌, Option, none, some, List, [], ◌∷◌, if◌then◌else◌}
use rds_dbaas_operator.K8s.{NamespacedName, ObjectMeta, lookup_nil}
use rds_dbaas_operator.Go.Strings.{is_blank}
use rds_dbaas_operator.RdsUtils.Names.{parse_namespaced_name}

abbrev pub rds_instance_type : String
rds_instance_type = "RDSInstance.dbaas.redhat.com"

-- ophandler.TypeAnnotation and NamespacedNameAnnotation
module _ (type_annotation namespaced_name_annotation : String) where
  unfoldable pub owner_request : Option String → List NamespacedName
  owner_request none = []
  owner_request (some s) = if is_blank s then [] else parse_namespaced_name s ∷ []

  unfoldable pub get_owner_instance_requests : ObjectMeta → List NamespacedName
  get_owner_instance_requests o = elim (lookup_nil type_annotation o.annotations) [
    | none ↦ []
    | some type ↦
        if type == rds_instance_type
        then owner_request (lookup_nil namespaced_name_annotation o.annotations)
        else []
  ]
