-- ===== src/Connection/Requests.antt =====
-- controllers/rdsconnection_controller.go: getInstanceConnectionRequests, the connections to
-- reconcile when a database service has changed.
use rds_dbaas_operator.Prelude.{
  String, Bool, ◌==◌, Option, none, some, List, [], ◌∷◌, if◌then◌else◌,
}
use rds_dbaas_operator.K8s.{Result, ok, err, NamespacedName}
use rds_dbaas_operator.Crd.{RdsConnection}

-- A connection fits a namespace by its inventory's namespace, or by its own where it names none.
unfoldable pub fits : String → RdsConnection → Bool
fits namespace c =
    if c.inventory_ref.namespace == ""
    then c.meta.namespace == namespace
    else c.inventory_ref.namespace == namespace

-- The loop over `connectionList.Items`.
unfoldable pub requests_for : String → List RdsConnection → List NamespacedName
unfolding fits
requests_for namespace [] = []
requests_for namespace (c ∷ cs) =
    let rest = requests_for namespace cs in
    if fits namespace c
    then record { namespace = c.meta.namespace; name = c.meta.name } ∷ rest
    else rest

-- The identifier and the namespace of the DBInstance or DBCluster; the connections that name the
-- identifier are listed by the client, and `none` is the panic at an absent identifier.
unfoldable pub get_instance_connection_requests :
    {S : Type 0}
    → (String → S → Result (List RdsConnection) × S)
    → Option String
    → String
    → S
    → Option (List NamespacedName) × S
get_instance_connection_requests list_connections none namespace s = (none, s)
get_instance_connection_requests list_connections (some identifier) namespace s =
    let (r, s') = list_connections identifier s in
    elim r [ err e ↦ (some [], s') | ok items ↦ (some (requests_for namespace items), s') ]
