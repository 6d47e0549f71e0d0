-- ===== src/Instance/Deletion.antt =====
-- When the finalizer of an instance goes.
use rds_dbaas_operator.Prelude.{Option-cases, ◌≡◌, refl, true, is_some, Bool-cases, inl, inr, arith}
use rds_dbaas_operator.K8s.{Error, Result, ok, err, stop, NamespacedName, is_not_found}
use rds_dbaas_operator.Ack.Instance.{DbInstance}
use rds_dbaas_operator.Crd.{RdsInstance, Phase}
use rds_dbaas_operator.Instance.Run.{
  Client, Run, instance_finalizer, return_error, return_not_ready, return_updating,
}
use rds_dbaas_operator.Instance.Finalizer.{
  check_finalizer, ensure_finalizer, update_finalizer, finalize, finalize_by, delete_database,
  removed, with_phase,
}

module _ {S : Type 0} (client : Client S) where
  abbrev pub database_key : Run → NamespacedName
  database_key run = record {
    namespace = run.instance_.inventory_ref.namespace;
    name = run.instance_.meta.name;
  }

  -- The database was looked for and is gone, and the instance was written without its finalizer.
  abbrev pub Removed : Run → S → S → Type 0
  Removed run s t =
      (e : Error) × (u : S) × (i : RdsInstance) × (client.get_db_instance (database_key run) s
        ≡ (err e, u))
      × (is_not_found e ≡ true)
      × (client.update_instance (removed client run.instance_) u ≡ (ok i, t))

  update-Deleted_of :
      (r : Result RdsInstance) (run : Run) (s : S) {run' : Run} {t : S}
      → (client.update_instance run.instance_ s).0 ≡ r
      → run.phase ≡ Phase.deleting
      → update_finalizer client Phase.deleted run s ≡ (stop run', t)
      → run'.phase ≡ Phase.deleted
      → (i : RdsInstance) × (client.update_instance run.instance_ s ≡ (ok i, t))
  unfolding update_finalizer return_updating return_error
  update-Deleted_of (ok i) run s er b h p = (i, ground arith)
  update-Deleted_of (err e) run s er b h p = ground arith

  finalize_by-Deleted :
      (run : Run) (x : Result DbInstance × S) {run' : Run} {t : S}
      → run.phase ≡ Phase.deleting
      → finalize_by client run x ≡ (stop run', t)
      → run'.phase ≡ Phase.deleted
      → (e : Error) × (u : S) × (i : RdsInstance) × (x ≡ (err e, u))
        × (is_not_found e ≡ true)
        × (client.update_instance (removed client run.instance_) u ≡ (ok i, t))
  unfolding finalize_by delete_database return_updating return_error
  finalize_by-Deleted run (ok db, s) b h p = ground arith
  finalize_by-Deleted run (err e, s) {run' = run'} {t = t} b h p =
      elim (Bool-cases (is_not_found e)) [
        | inl gone ↦
            let (i, wrote) =
              update-Deleted_of _ (record run { instance_ = removed client run.instance_ }) s
                {run' = run'} {t = t} refl b (ground arith) p in
            (e, s, i, refl, gone, wrote)
        | inr other ↦ ground arith
      ]

  ensure-not_Deleted :
      (run : Run) (s : S) {run' : Run} {t : S}
      → ensure_finalizer client run s ≡ (stop run', t)
      → run'.phase ≡ Phase.pending
  unfolding ensure_finalizer update_finalizer return_updating return_error return_not_ready
  ensure-not_Deleted run s h = ground arith

  -- The finalizer's check of a new reconciliation ends in phase Deleted only for an instance that
  -- is being deleted and has the finalizer, whose database the server did not find, and which was
  -- written without the finalizer then.
  pub check_finalizer-Deleted :
      (run : Run) (s : S) {run' : Run} {t : S}
      → run.phase ≡ Phase.unset
      → check_finalizer client run s ≡ (stop run', t)
      → run'.phase ≡ Phase.deleted
      → (is_some run.instance_.meta.deletion_timestamp ≡ true)
        × (client.meta.contains_finalizer run.instance_.meta instance_finalizer ≡ true)
        × Removed run s t
  unfolding check_finalizer finalize return_not_ready
  check_finalizer-Deleted run s {run' = run'} {t = t} n h p =
      elim (Option-cases run.instance_.meta.deletion_timestamp) [
        | inl alive ↦ ground (arith, ensure-not_Deleted run s {run' = run'} {t = t} (ground arith))
        | inr (time, deleted) ↦
            elim (Bool-cases
              (client.meta.contains_finalizer run.instance_.meta instance_finalizer)) [
                | inl has ↦ (
                  ground arith,
                  has,
                  finalize_by-Deleted (with_phase Phase.deleting run)
                      (client.get_db_instance (database_key run) s) {run' = run'} {t = t} refl
                      (ground arith) p,
                )
                | inr has_not ↦ ground arith
              ]
      ]
