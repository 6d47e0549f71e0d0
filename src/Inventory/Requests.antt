-- ===== src/Inventory/Requests.antt =====
-- controllers/rdsinventory_controller.go: the inventories to reconcile when an object of RDS or the
-- deployment of the RDS controller has changed.
use rds_dbaas_operator.Prelude.{String, ◌&&◌, ◌==◌, List, [], ◌∷◌, if◌then◌else◌}
use rds_dbaas_operator.K8s.{Result, ok, err, NamespacedName}
use rds_dbaas_operator.Crd.{RdsInventory}

-- The loop over `inventoryList.Items`.
unfoldable pub keys_of : List RdsInventory → List NamespacedName
keys_of [] = []
keys_of (i ∷ is) = record { namespace = i.meta.namespace; name = i.meta.name } ∷ keys_of is

-- A list of the client that failed gives no requests.
unfoldable pub requests_of : {S : Type 0} → Result (List RdsInventory) × S → List NamespacedName × S
unfolding keys_of
requests_of (err e, s) = ([], s)
requests_of (ok items, s) = (keys_of items, s)

-- `list` lists the inventories of a namespace.
unfoldable pub get_rds_object_inventory_requests :
    {S : Type 0}
    → (String → S → Result (List RdsInventory) × S)
    → String
    → S
    → List NamespacedName × S
unfolding requests_of
get_rds_object_inventory_requests list namespace s = requests_of (list namespace s)

-- `list` lists the inventories of the cluster.
unfoldable pub get_ack_deployment_inventory_requests :
    {S : Type 0}
    → (S → Result (List RdsInventory) × S)
    → NamespacedName
    → String
    → S
    → List NamespacedName × S
unfolding requests_of
get_ack_deployment_inventory_requests list deployment namespace s =
    if deployment.name == "ack-rds-controller" && deployment.namespace == namespace
    then requests_of (list s)
    else ([], s)
