-- ===== src/Instance/Outcome.antt =====
-- How a reconciliation of an instance ends: what it stores in the condition agrees with what it
-- replies.
use rds_dbaas_operator.Prelude.{
  Option, Bool-cases, String, ◌≡◌, refl, sym, ◌∙◌, ap, ◌⊎◌, inl, inr, Bool, true, false, none, some,
  one_of, [], ◌∷◌, arith,
}
use rds_dbaas_operator.K8s.{
  is_not_found, Error, condition_true, condition_false, condition_unknown, Step, Result, ok, err,
  OperationResult, created, updated, unchanged,
}
use rds_dbaas_operator.K8s.Steps.{Ends, continue-Ends, Ends-go}
use rds_dbaas_operator.Ack.Instance.{DbInstance}
use rds_dbaas_operator.Crd.{RdsInstance, RdsInventory, Phase}
use rds_dbaas_operator.Instance.Run.{
  Client, Run, return_error, return_requeue, return_ready, return_not_ready, return_updating,
}
use rds_dbaas_operator.Instance.Phase.{status_of}
use rds_dbaas_operator.Instance.Statuses.{phase_for-IsReady, is_observed}
use rds_dbaas_operator.Instance.Finalizer.{
  with_phase, with_meta, added, removed, finalize_by, check_finalizer, ensure_finalizer,
  update_finalizer, finalize, delete_database,
}
use rds_dbaas_operator.Instance.Provision.{create_or_update_db_instance, provisioned}
use rds_dbaas_operator.Instance.Sync.{sync_db_instance_status, write_status}
use rds_dbaas_operator.Instance.Reconcile.{handlers, get_ready_inventory, report_phase}
use rds_dbaas_operator.Instance.Laws.{ClientLaws}
use rds_dbaas_operator.Instance.Guards.{sync-go}
use rds_dbaas_operator.Instance.Reached.{synced-phase}

-- The condition is true with reason "Ready", there is no error, and no request is queued again.
abbrev pub IsReady : Run → Type 0
IsReady run =
    (run.provision_status ≡ condition_true)
    × (run.provision_status_reason ≡ "Ready")
    × (run.error ≡ none)
    × (run.requeue ≡ false)

-- The condition is unknown, there is no error, and the request is queued again.
abbrev pub IsWaiting : Run → Type 0
IsWaiting run =
    (run.provision_status ≡ condition_unknown) × (run.error ≡ none) × (run.requeue ≡ true)

-- The reasons of a false condition behind which nothing is tried again.
abbrev pub is_final : String → Bool
is_final reason = one_of reason ("Updating" ∷ "Deleting" ∷ "Terminated" ∷ [])

-- The condition is false, with an error, a request that is queued again, or a final reason.
abbrev pub IsFailed : Run → Type 0
IsFailed run =
    (run.provision_status ≡ condition_false)
    × (((e : Error) × (run.error ≡ some e))
        ⊎ (run.requeue ≡ true)
        ⊎ (is_final run.provision_status_reason ≡ true))

abbrev pub IsReported : Run → Type 0
IsReported run = IsReady run ⊎ IsWaiting run ⊎ IsFailed run

abbrev Stops : {A : Type 0} → Step Run A → Type 0
Stops r = Ends IsReported (λ _. Unit) r

final_reasons :
    (is_final "Updating" ≡ true) × (is_final "Deleting" ≡ true) × (is_final "Terminated" ≡ true)
unfolding one_of
final_reasons = (refl, refl, refl)

module _ (run : Run) where
  error-IsReported :
      (e : Error) (reason message : String) → IsReported (return_error e reason message run)
  unfolding return_error
  error-IsReported e reason message = inr (inr (refl, inl (e, refl)))

  requeue-IsReported : (reason message : String) → IsReported (return_requeue reason message run)
  unfolding return_requeue
  requeue-IsReported reason message = inr (inr (refl, inr (inl refl)))

  not_ready-IsReported :
      (reason message : String)
      → is_final reason ≡ true
      → IsReported (return_not_ready reason message run)
  unfolding return_not_ready
  not_ready-IsReported reason message h = inr (inr (refl, inr (inr h)))

  updating-IsReported : IsReported (return_updating run)
  unfolding return_updating
  updating-IsReported = inr (inl (refl, refl, refl))

  ready-IsReported : IsReported (return_ready run)
  unfolding return_ready
  ready-IsReported = inl (refl, refl, refl, refl)

module _ {S : Type 0} (client : Client S) where
  update_finalizer-Stops_of :
      (r : Result RdsInstance) (p : Phase) (run : Run) (s : S)
      → (client.update_instance run.instance_ s).0 ≡ r
      → Stops (update_finalizer client p run s).0
  unfolding update_finalizer
  update_finalizer-Stops_of (ok i) p run s h = ground (
    arith,
    not_ready-IsReported (with_meta p i run) "Updating" "Updating Instance" final_reasons.0,
  )
  update_finalizer-Stops_of (err e) p run s h = ground (
    arith,
    updating-IsReported run,
    error-IsReported run e "BackendError" "Failed to update Instance",
  )

  update_finalizer-Stops :
      (p : Phase) (run : Run) (s : S) → Stops (update_finalizer client p run s).0
  update_finalizer-Stops p run s = update_finalizer-Stops_of _ p run s refl

  delete_database-Stops :
      (db : DbInstance) (run : Run) (s : S) → Stops (delete_database client db run s).0
  unfolding delete_database
  delete_database-Stops db run s = ground arith

  finalize_by-Stops : (run : Run) (x : Result DbInstance × S) → Stops (finalize_by client run x).0
  unfolding finalize_by
  finalize_by-Stops run (ok db, s) = delete_database-Stops db run s
  finalize_by-Stops run (err e, s) = elim (Bool-cases (is_not_found e)) [
    | inl gone ↦ ground (
      arith,
      update_finalizer-Stops Phase.deleted (record run { instance_ = removed client run.instance_ })
          s,
    )
    | inr other ↦ ground (arith, error-IsReported run e "BackendError" "Failed to get DB Instance")
  ]

  finalize-Stops : (run : Run) (s : S) → Stops (finalize client run s).0
  unfolding finalize
  finalize-Stops run s = finalize_by-Stops run _

  ensure_finalizer-Stops : (run : Run) (s : S) → Stops (ensure_finalizer client run s).0
  unfolding ensure_finalizer
  ensure_finalizer-Stops run s = ground (
    arith,
    update_finalizer-Stops Phase.pending (with_meta Phase.pending (added client run.instance_) run)
        s,
  )

  check_finalizer-Stops : (run : Run) (s : S) → Stops (check_finalizer client run s).0
  unfolding check_finalizer
  check_finalizer-Stops run s = ground (
    arith,
    ensure_finalizer-Stops run s,
    finalize-Stops (with_phase Phase.deleting run) s,
    not_ready-IsReported run "Deleting" "Deleting Instance" final_reasons.1,
  )

  get_ready_inventory-Stops : (run : Run) (s : S) → Stops (get_ready_inventory client run s).0
  unfolding get_ready_inventory
  get_ready_inventory-Stops run s = ground arith

  provisioned-Stops :
      (inventory : RdsInventory) (x : Option (Result (OperationResult × DbInstance)) × Run × S)
      → Stops (provisioned client inventory x).0
  unfolding provisioned
  provisioned-Stops inventory (none, run, s) = tt
  provisioned-Stops inventory (some (err e), run, s) =
      error-IsReported run e "" "Failed to create or update DB Instance"
  provisioned-Stops inventory (some (ok (created, _)), run, s) =
      requeue-IsReported (with_phase Phase.creating run) "Creating" "Creating Instance"
  provisioned-Stops inventory (some (ok (updated, _)), run, s) = tt
  provisioned-Stops inventory (some (ok (unchanged, _)), run, s) = tt

  create_or_update-Stops :
      (inventory : RdsInventory) (run : Run) (s : S)
      → Stops (create_or_update_db_instance client inventory run s).0
  unfolding create_or_update_db_instance
  create_or_update-Stops inventory run s = provisioned-Stops inventory _

  sync-Stops :
      (inventory : RdsInventory) (run : Run) (s : S)
      → Stops (sync_db_instance_status client inventory run s).0
  unfolding sync_db_instance_status write_status
  sync-Stops inventory run s = ground arith

  report-IsReported :
      (p : Phase) (run : Run) → is_observed p ≡ true → IsReported (report_phase client p run)
  unfolding report_phase
  report-IsReported Phase.unset run o = ground (arith, o)
  report-IsReported Phase.ready run o = ready-IsReported run
  report-IsReported Phase.failed run o =
      not_ready-IsReported run "Terminated" (client.phase_name Phase.failed) final_reasons.2
  report-IsReported Phase.deleted run o =
      not_ready-IsReported run "Terminated" (client.phase_name Phase.deleted) final_reasons.2
  report-IsReported Phase.pending run o = updating-IsReported run
  report-IsReported Phase.creating run o = updating-IsReported run
  report-IsReported Phase.updating run o = updating-IsReported run
  report-IsReported Phase.deleting run o = updating-IsReported run
  report-IsReported Phase.error run o = requeue-IsReported run "BackendError" "Instance with error"
  report-IsReported Phase.unknown run o =
      requeue-IsReported run "BackendError" "Instance with error"

module _ {S : Type 0} (client : Client S) (laws : ClientLaws client) where
  abbrev IsObserved : Run → Type 0
  IsObserved run = is_observed run.instance_.phase ≡ true

  sync-IsObserved :
      (inventory : RdsInventory) (run : Run) (s : S)
      → Ends IsReported IsObserved (sync_db_instance_status client inventory run s).0
  sync-IsObserved inventory run s =
      Ends-go IsReported IsObserved _ (sync-Stops client inventory run s) λ run' t h.
        let (db, u, identifier, i, found, is, wrote, same) = sync-go client inventory run s h in
        ap (λ (r : Run). is_observed r.instance_.phase) (sym same)
        ∙ ap is_observed
            (laws.update_status-phase _ _ wrote ∙ synced-phase client db identifier run.instance_)
        ∙ (phase_for-IsReady (status_of db)).1

  -- Every way through the handlers but a panic sets the condition and the reply.
  pub handlers_outcome : (run : Run) (s : S) → Ends IsReported IsReported (handlers client run s).0
  unfolding handlers
  handlers_outcome run s =
      continue-Ends IsReported (λ _. Unit) IsReported _ _ (check_finalizer-Stops client run s)
        λ run₁ t _.
          continue-Ends IsReported (λ _. Unit) IsReported _ _
            (get_ready_inventory-Stops client run₁ t)
            λ inventory t _.
              continue-Ends IsReported (λ _. Unit) IsReported _ _
                (create_or_update-Stops client inventory run₁ t)
                λ run₂ t _.
                  continue-Ends IsReported IsObserved IsReported _ _
                    (sync-IsObserved inventory run₂ t)
                    λ run₃ t o. report-IsReported client run₃.instance_.phase run₃ o
