-- ===== src/Instance/Finalizer.antt =====
-- controllers/rdsinstance_controller.go: checkFinalizer. An instance gets the finalizer before
-- anything else is done; one that is being deleted loses it when its database is gone.
use rds_dbaas_operator.Prelude.{none, some, if◌then◌else◌}
use rds_dbaas_operator.K8s.{Result, ok, err, is_not_found, is_conflict, Step, stop, go, Exec}
use rds_dbaas_operator.Ack.Instance.{DbInstance}
use rds_dbaas_operator.Crd.{RdsInstance, Phase}
use rds_dbaas_operator.Instance.Run.{
  Client, Run, instance_finalizer, return_updating, return_error, return_not_ready,
}

abbrev pub with_phase : Phase → Run → Run
with_phase p run = record run { phase = p }

-- The instance's finalizers changed by `f`, and the phase set.
abbrev pub with_meta : Phase → RdsInstance → Run → Run
with_meta p i run = record run { phase = p; instance_ = i }

module _ {S : Type 0} (client : Client S) where
  abbrev pub added : RdsInstance → RdsInstance
  added i = record i { meta = client.meta.add_finalizer i.meta instance_finalizer }

  abbrev pub removed : RdsInstance → RdsInstance
  removed i = record i { meta = client.meta.remove_finalizer i.meta instance_finalizer }

  -- `r.Update(ctx, &instance)`: where the handler stops, by what the server answered. A conflict is
  -- retried, and `done` is the phase behind a success.
  unfoldable pub update_finalizer : Phase → Run → S → Step Run Run × S
  unfolding return_updating return_error return_not_ready
  update_finalizer done run s =
      let (r, s') = client.update_instance run.instance_ s in
      elim r [
        | ok i ↦ (stop (return_not_ready "Updating" "Updating Instance" (with_meta done i run)), s')
        | err e ↦
            if is_conflict e
            then (stop (return_updating run), s')
            else (stop (return_error e "BackendError" "Failed to update Instance" run), s')
      ]

  -- The finalizer is added where it is missing.
  unfoldable pub ensure_finalizer : Run → Exec S Run Run
  ensure_finalizer run s =
      if client.meta.contains_finalizer run.instance_.meta instance_finalizer
      then (go run, s)
      else update_finalizer Phase.pending (with_meta Phase.pending (added run.instance_) run) s

  -- The database that was found is deleted.
  unfoldable pub delete_database : DbInstance → Run → Exec S Run Run
  unfolding return_updating return_error
  delete_database db run s =
      let (r, s') = client.delete_db_instance db s in
      elim r [
        | some e ↦ (stop (return_error e "BackendError" "Failed to delete DB Instance" run), s')
        | none ↦ (stop (return_updating run), s')
      ]

  -- By the answer to the read of the database: the finalizer goes where there is none.
  unfoldable pub finalize_by : Run → Result DbInstance × S → Step Run Run × S
  unfolding return_error
  finalize_by run (ok db, s) = delete_database db run s
  finalize_by run (err e, s) =
      if is_not_found e
      then update_finalizer Phase.deleted (record run { instance_ = removed run.instance_ }) s
      else (stop (return_error e "BackendError" "Failed to get DB Instance" run), s)

  -- The database is looked for in the inventory's namespace.
  unfoldable pub finalize : Run → Exec S Run Run
  finalize run s = finalize_by run (
      client.get_db_instance
        (record {
          namespace = run.instance_.inventory_ref.namespace;
          name = run.instance_.meta.name;
        })
        s)

  unfoldable pub check_finalizer : Run → Exec S Run Run
  unfolding return_not_ready
  check_finalizer run s = elim run.instance_.meta.deletion_timestamp [
    | none ↦ ensure_finalizer run s
    | some _ ↦
        if client.meta.contains_finalizer run.instance_.meta instance_finalizer
        then finalize (with_phase Phase.deleting run) s
        else (stop (return_not_ready "Deleting" "Deleting Instance" run), s)
  ]
