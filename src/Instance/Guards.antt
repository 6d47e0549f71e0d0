-- ===== src/Instance/Guards.antt =====
-- What a reconciliation that reaches its end has found on its way there.
use rds_dbaas_operator.Prelude.{String, ◌≡◌, refl, true, none, some, Option-cases, inl, inr, arith}
use rds_dbaas_operator.K8s.{Result, ok, err, go}
use rds_dbaas_operator.Ack.Instance.{DbInstance}
use rds_dbaas_operator.Crd.{RdsInventory, RdsInstance}
use rds_dbaas_operator.Instance.Run.{Client, Run, instance_finalizer}
use rds_dbaas_operator.Instance.Finalizer.{
  check_finalizer, ensure_finalizer, update_finalizer, finalize, finalize_by, delete_database,
}
use rds_dbaas_operator.Instance.Sync.{sync_db_instance_status, write_status, synced, with_instance}
use rds_dbaas_operator.Instance.Reconcile.{get_ready_inventory, inventory_ready}

module _ {S : Type 0} (client : Client S) where
  -- An instance goes on past the finalizer's check only if it is not being deleted and has the
  -- finalizer; nothing has been called or changed then.
  pub check_finalizer-go :
      (run : Run) (s : S) {run' : Run} {t : S}
      → check_finalizer client run s ≡ (go run', t)
      → (run.instance_.meta.deletion_timestamp ≡ none)
        × (client.meta.contains_finalizer run.instance_.meta instance_finalizer ≡ true)
        × (run ≡ run')
        × (s ≡ t)
  unfolding check_finalizer ensure_finalizer update_finalizer finalize finalize_by delete_database
  check_finalizer-go run s h = ground arith

  pub get_ready_inventory-go :
      (run : Run) (s : S) {inventory : RdsInventory} {t : S}
      → get_ready_inventory client run s ≡ (go inventory, t)
      → (client.get_inventory run.instance_.inventory_ref s ≡ (ok inventory, t))
        × (inventory_ready client inventory ≡ true)
  unfolding get_ready_inventory
  get_ready_inventory-go run s h = ground arith

  write_status-go_of :
      (r : Result RdsInstance) (run : Run) (s : S) {run' : Run} {t : S}
      → (client.update_status run.instance_ s).0 ≡ r
      → write_status client run s ≡ (go run', t)
      → (i : RdsInstance) × (client.update_status run.instance_ s ≡ (ok i, t))
        × (with_instance i run ≡ run')
  unfolding write_status
  write_status-go_of (err e) run s er h = ground arith
  write_status-go_of (ok i) run s er h = (i, ground arith, ground arith)

  -- The database whose status the instance has at the end.
  abbrev pub Observed : RdsInventory → Run → Run → S → S → Type 0
  Observed inventory run run' s t =
      (db : DbInstance) × (u : S) × (identifier : String) × (i : RdsInstance)
      × (client.get_db_instance
            (record { namespace = inventory.meta.namespace; name = run.instance_.meta.name }) s
          ≡ (ok db, u))
      × (db.spec.db_instance_identifier ≡ some identifier)
      × (client.update_status (synced client db identifier run.instance_) u ≡ (ok i, t))
      × (with_instance i run ≡ run')

  sync-go_of :
      (r : Result DbInstance) (inventory : RdsInventory) (run : Run) (s : S) {run' : Run} {t : S}
      → (client.get_db_instance
          (record { namespace = inventory.meta.namespace; name = run.instance_.meta.name })
          s).0
        ≡ r
      → sync_db_instance_status client inventory run s ≡ (go run', t)
      → Observed inventory run run' s t
  unfolding sync_db_instance_status
  sync-go_of (err e) inventory run s er h = ground arith
  sync-go_of (ok db) inventory run s {run' = run'} {t = t} er h =
      elim (Option-cases db.spec.db_instance_identifier) [
        | inl absent ↦ ground arith
        | inr (identifier, is) ↦
            let u =
              (client.get_db_instance
                (record { namespace = inventory.meta.namespace; name = run.instance_.meta.name })
                s).1 in
            let (i, e, same) =
              write_status-go_of _ (with_instance (synced client db identifier run.instance_) run) u
                {run' = run'} {t = t} refl (ground arith) in
            (db, u, identifier, i, ground arith, is, e, same)
      ]

  pub sync-go :
      (inventory : RdsInventory) (run : Run) (s : S) {run' : Run} {t : S}
      → sync_db_instance_status client inventory run s ≡ (go run', t)
      → Observed inventory run run' s t
  sync-go inventory run s h = sync-go_of _ inventory run s refl h
