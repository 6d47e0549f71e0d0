-- ===== src/Inventory/Webhook.antt =====
-- api/v1alpha1/rdsinventory_webhook.go: the admission of inventories.
pub mod Single
use rds_dbaas_operator.Prelude.{Option, none, some, List, [], ◌∷◌, ◌<>◌}
use rds_dbaas_operator.K8s.{Error, errorf, Result, ok, err}
use rds_dbaas_operator.Crd.{RdsInventory}

-- By the list of the inventories in the cluster.
unfoldable pub verify_inventory_created :
    {S : Type 0} → Result (List RdsInventory) × S → Option Error × S
verify_inventory_created (err e, s) = (some e, s)
verify_inventory_created (ok [], s) = (none, s)
verify_inventory_created (ok (i ∷ is), s) = (
  some (
      errorf (
        "only one Inventory for RDS can exist in a cluster, there is already an Inventory "
        <> (i.meta.name <> " created"))),
  s,
)

unfoldable pub validate_create :
    {S : Type 0} → (S → Result (List RdsInventory) × S) → S → Option Error × S
unfolding verify_inventory_created
validate_create list s = verify_inventory_created (list s)

-- ValidateUpdate and ValidateDelete admit everything.
unfoldable pub validate_update : RdsInventory → RdsInventory → Option Error
validate_update inventory old = none

unfoldable pub validate_delete : RdsInventory → Option Error
validate_delete inventory = none
