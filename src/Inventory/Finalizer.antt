-- ===== src/Inventory/Finalizer.antt =====
-- controllers/rdsinventory_controller.go: checkFinalizer. An inventory gets the finalizer before
-- anything else is done; one that is being deleted loses it when its adopted resources are gone and
-- the RDS controller is reset and stopped.
pub mod Released
use rds_dbaas_operator.Prelude.{
  String, ◌==◌, Bool, true, false, ◌&&◌, Option, none, some, List, [], ◌∷◌, if◌then◌else◌,
}
use rds_dbaas_operator.Go.Strings.{is_blank}
use rds_dbaas_operator.K8s.{
  Result, ok, err, is_conflict, NamespacedName, lookup_nil, Step, stop, go, Exec, continue, ◌>>=◌,
}
use rds_dbaas_operator.Crd.{RdsInventory}
use rds_dbaas_operator.RdsUtils.Names.{parse_namespaced_name}
use rds_dbaas_operator.Inventory.Run.{
  Run, return_error, return_sync_reset, return_requeue_sync_reset,
}
use rds_dbaas_operator.Inventory.Controller.{stop_rds_controller}
use rds_dbaas_operator.Inventory.Server.{Server, AdoptedResource}
use rds_dbaas_operator.Inventory.Install.{
  attempt, create_or_update_secret, create_or_update_config_map,
}

abbrev pub rds_inventory_type : String
rds_inventory_type = "RDSInventory.dbaas.redhat.com"

abbrev pub inventory_finalizer : String
inventory_finalizer = "rds.dbaas.redhat.com/inventory"

-- `nsn.Name == inventory.Name && nsn.Namespace == inventory.Namespace`
abbrev pub names_inventory : NamespacedName → RdsInventory → Bool
names_inventory nsn i = nsn.name == i.meta.name && nsn.namespace == i.meta.namespace

module _ {S : Type 0} (server : Server S) where
  -- The annotation of the namespaced name is there, is not blank, and is the inventory's.
  unfoldable pub named : RdsInventory → Option String → Bool
  named i none = false
  named i (some text) =
      if is_blank text then false else names_inventory (parse_namespaced_name text) i

  -- The guards of the loop over the adopted resources: the owner annotations are the inventory's.
  unfoldable pub belongs : RdsInventory → AdoptedResource → Bool
  unfolding named
  belongs i r = elim (lookup_nil server.type_annotation r.meta.annotations) [
    | none ↦ false
    | some t ↦
        if t == rds_inventory_type
        then named i (lookup_nil server.namespaced_name_annotation r.meta.annotations)
        else false
  ]

  -- A resource of the inventory is deleted unless it is being deleted.
  unfoldable pub delete_resource : AdoptedResource → Run → Exec S Run (Unit {0})
  delete_resource r run s = elim r.meta.deletion_timestamp [
    | some _ ↦ (go tt, s)
    | none ↦
        attempt server "Failed to delete AdoptedResource" run (server.delete_adopted_resource r s)
  ]

  -- The loop, which goes on with `deletingAdoptedResource`.
  unfoldable pub delete_resources : List AdoptedResource → Bool → Run → Exec S Run Bool
  delete_resources [] deleting run s = (go deleting, s)
  delete_resources (r ∷ rs) deleting run s =
      let skipped = delete_resources rs deleting run s in
      if belongs run.inventory r
      then continue (delete_resource r run s) (λ _. delete_resources rs true run)
      else skipped

  -- `r.Update(ctx, &inventory)`: where the handler stops, by what the server answered.
  unfoldable pub finalizer_updated : Run → Result RdsInventory × S → Step Run (Unit {0}) × S
  finalizer_updated run (ok i, s) = (stop (return_sync_reset (record run { inventory = i })), s)
  finalizer_updated run (err e, s) =
      if is_conflict e
      then (stop (return_requeue_sync_reset run), s)
      else (stop (return_error e "BackendError" "Failed to update Inventory" run), s)

  abbrev pub added : RdsInventory → RdsInventory
  added i = record i { meta = server.client.meta.add_finalizer i.meta inventory_finalizer }

  abbrev pub removed : RdsInventory → RdsInventory
  removed i = record i { meta = server.client.meta.remove_finalizer i.meta inventory_finalizer }

  unfoldable pub write_finalizer : RdsInventory → Run → Exec S Run (Unit {0})
  write_finalizer i run s =
      finalizer_updated (record run { inventory = i }) (server.update_inventory i s)

  -- Behind the loop: the RDS controller is reset and stopped, and the finalizer goes.
  unfoldable pub release : Run → Exec S Run (Unit {0})
  release run = do
    _ ← λ s. attempt server "Failed to reset Secret" run (create_or_update_secret server none s)
    _ ← λ s.
        attempt server "Failed to reset ConfigMap" run (create_or_update_config_map server none s)
    _ ← λ s.
        attempt server "Failed to uninstall RDS controller" run
          (stop_rds_controller server.deployments server.namespace false server.retries s)
    write_finalizer (removed run.inventory) run

  unfoldable pub deleted_or_release : Run → Bool → Exec S Run (Unit {0})
  deleted_or_release run true s = (stop (return_requeue_sync_reset run), s)
  deleted_or_release run false s = release run s

  -- Behind the list of the adopted resources.
  unfoldable pub finalize_by : Run → Result (List AdoptedResource) × S → Step Run (Unit {0}) × S
  finalize_by run (err e, s) =
      (stop (return_error e "BackendError" "Failed to delete AdoptedResource" run), s)
  finalize_by run (ok rs, s) = continue (delete_resources rs false run s) (deleted_or_release run)

  unfoldable pub finalize : Run → Exec S Run (Unit {0})
  finalize run s = finalize_by run (server.list_adopted_resources run.inventory.meta.namespace s)

  unfoldable pub check_finalizer : Run → Exec S Run (Unit {0})
  check_finalizer run s =
      let has = server.client.meta.contains_finalizer run.inventory.meta inventory_finalizer in
      elim run.inventory.meta.deletion_timestamp [
        | none ↦ if has then (go tt, s) else write_finalizer (added run.inventory) run s
        | some _ ↦ if has then finalize run s else (stop (return_sync_reset run), s)
      ]
