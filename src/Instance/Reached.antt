-- ===== src/Instance/Reached.antt =====
-- A reconciliation of an instance that reaches its end: what it has found, and what it reports.
use mathlib.Core.Path.{subst}
use rds_dbaas_operator.Prelude.{
  ◌==◌, eq_iff, false, String, ◌≡◌, refl, sym, ◌∙◌, ap, ◌↔◌, true, none, some, Option-cases, inl,
  inr, arith,
}
use rds_dbaas_operator.K8s.{
  ok, new_meta, Condition, Step, go, Exec, ◌>>=◌, condition_true, OperationResult, unchanged,
  created, updated,
}
use rds_dbaas_operator.K8s.Steps.{continue-go}
use rds_dbaas_operator.Ack.Instance.{DbInstance, empty_db_instance}
use rds_dbaas_operator.Crd.{RdsInventory, RdsInstance, Phase}
use rds_dbaas_operator.Instance.Run.{
  Client, Run, instance_finalizer, return_ready, return_not_ready, return_updating, return_requeue,
}
use rds_dbaas_operator.Instance.Phase.{status_of, phase_for, set_db_instance_phase}
use rds_dbaas_operator.Instance.Statuses.{phase_for-IsReady, is_observed}
use rds_dbaas_operator.Instance.Provision.{create_or_update_db_instance, mutate_db_instance}
use rds_dbaas_operator.Instance.Sync.{sync_db_instance_status, synced, set_db_instance_status}
use rds_dbaas_operator.Instance.Reconcile.{
  handlers, get_ready_inventory, inventory_ready, report_phase, finish, with_condition,
  ready_condition, final_phase, update_instance_ready_condition,
}
use rds_dbaas_operator.Instance.Laws.{ClientLaws, PhaseLaws}
use rds_dbaas_operator.Instance.Provisioned.{Provided, create_or_update-Provisioned}
use rds_dbaas_operator.Instance.Guards.{check_finalizer-go, get_ready_inventory-go, sync-go}

module _ {S : Type 0} (client : Client S) where
  other_status : (t : String) {X : Type 0} → t ≡ condition_true → (t == condition_true) ≡ false → X
  other_status t e h = ground (arith, eq_iff t condition_true)

  report-IsReady :
      (p : Phase) (run : Run)
      → is_observed p ≡ true
      → (report_phase client p run).provision_status ≡ condition_true
      → p ≡ Phase.ready
  unfolding report_phase return_ready return_not_ready return_updating return_requeue
  report-IsReady Phase.ready run o h = refl
  report-IsReady Phase.unset run o h = ground (arith, o)
  report-IsReady Phase.unknown run o h = other_status _ h refl
  report-IsReady Phase.pending run o h = other_status _ h refl
  report-IsReady Phase.creating run o h = other_status _ h refl
  report-IsReady Phase.updating run o h = other_status _ h refl
  report-IsReady Phase.deleting run o h = other_status _ h refl
  report-IsReady Phase.deleted run o h = other_status _ h refl
  report-IsReady Phase.error run o h = other_status _ h refl
  report-IsReady Phase.failed run o h = other_status _ h refl

  ready-report :
      (p : Phase) (run : Run)
      → p ≡ Phase.ready
      → (report_phase client p run).provision_status ≡ condition_true
  unfolding report_phase return_ready
  ready-report p run h = ground arith

  report-instance : (p : Phase) (run : Run) → (report_phase client p run).instance_ ≡ run.instance_
  unfolding report_phase return_ready return_not_ready return_updating return_requeue
  report-instance p run = ground arith

  report-phase : (p : Phase) (run : Run) → (report_phase client p run).phase ≡ run.phase
  unfolding report_phase return_ready return_not_ready return_updating return_requeue
  report-phase p run = ground arith

  -- A phase of a status stays where the reconciliation has none of its own.
  observed_stays : (p : Phase) → is_observed p ≡ true → final_phase client Phase.unset p ≡ p
  unfolding final_phase
  observed_stays p h = ground (arith, h)

  ready_found :
      (inventory : RdsInventory)
      → inventory_ready client inventory ≡ true
      → (c : Condition) × (client.meta.find_status_condition inventory.conditions "SpecSynced"
          ≡ some c)
        × (c.status ≡ "True")
  unfolding inventory_ready
  ready_found inventory h =
      elim (Option-cases (client.meta.find_status_condition inventory.conditions "SpecSynced")) [
        | inl e ↦ ground arith
        | inr (c, e) ↦ (c, e, ground (arith, eq_iff c.status "True"))
      ]

  pub synced-phase :
      (db : DbInstance) (identifier : String) (i : RdsInstance)
      → (synced client db identifier i).phase ≡ phase_for (status_of db)
  unfolding synced set_db_instance_phase set_db_instance_status
  synced-phase db identifier i = refl

-- The phase that is stored behind CreateOrUpdate of the database: after an update it is "Updating",
-- and after no change that of the database's status; after a creation there is none.
abbrev pub PhaseBy : OperationResult → String → Phase → Type 0
PhaseBy created status p = ⊥
PhaseBy updated status p = p ≡ Phase.updating
PhaseBy unchanged status p = p ≡ phase_for status

module _ {S : Type 0} (client : Client S) (run : Run) where
  -- What stands behind a reconciliation that went from `run` in `s` to `run'` in `t`, and the
  -- instance that its deferred call writes.
  pub record Reached (run' : Run) (s t : S) : Type 0 where
    pub inventory : RdsInventory
    pub synced : Condition
    pub db : DbInstance
    pub operation : OperationResult
    pub answer : DbInstance
    pub run₁ : Run
    pub s₁ : S
    pub s₂ : S
    pub s₃ : S
    pub written : RdsInstance
    pub found : Condition
    pub alive : run.instance_.meta.deletion_timestamp ≡ none
    pub guarded : client.meta.contains_finalizer run.instance_.meta instance_finalizer ≡ true
    pub got_inventory : client.get_inventory run.instance_.inventory_ref s ≡ (ok inventory, s₁)
    pub has_condition :
        client.meta.find_status_condition inventory.conditions "SpecSynced" ≡ some synced
    pub is_ready : synced.status ≡ "True"
    pub provisioned :
        client.create_or_update_db_instance
          (empty_db_instance (new_meta run.instance_.meta.name inventory.meta.namespace))
          (mutate_db_instance client inventory)
          run
          s₁
        ≡ (some (ok (operation, answer)), run₁, s₂)
    pub got_database :
        client.get_db_instance
          (record { namespace = inventory.meta.namespace; name = run.instance_.meta.name })
          s₂
        ≡ (ok db, s₃)
    pub writes : (finish client (go run', t)).1 ≡ (client.update_status written t).1
    pub has_report :
        client.meta.find_status_condition written.conditions "ProvisionReady" ≡ some found
    pub ready_exactly : (found.status ≡ "True") ↔ (status_of db ≡ "available")
    pub phase : PhaseBy operation (status_of db) written.phase

module _ {S : Type 0} (client : Client S) (laws : ClientLaws client) where
  -- The report on the phase of a database's status.
  report_exact :
      (status : String) (p : Phase) (run : Run)
      → p ≡ phase_for status
      → ((report_phase client p run).provision_status ≡ condition_true) ↔ (status ≡ "available")
  report_exact status p run e =
      let ((there, back), observed) = phase_for-IsReady status in
      (
        λ h. there (sym e ∙ report-IsReady client p run (ap is_observed e ∙ observed) h),
        λ h. ready-report client p run (e ∙ back h),
      )

  -- The handlers behind the finalizer's check.
  abbrev rest : Run → Exec S Run Run
  rest run = do
    inventory ← get_ready_inventory client run
    run₂ ← create_or_update_db_instance client inventory run
    run₃ ← sync_db_instance_status client inventory run₂
    λ s. (go (report_phase client run₃.instance_.phase run₃), s)

  go-injective : {a b : Run} {s t : S} → ◌≡◌ {A = Step Run Run × S} (go a, s) (go b, t) → a ≡ b
  go-injective h = ground arith

  -- What the end of the chain reports and keeps.
  end_report :
      (db : DbInstance) (run run' : Run) {u t : S}
      → run.instance_.phase ≡ phase_for (status_of db)
      → ◌≡◌ {A = Step Run Run × S}
          (go (report_phase client run.instance_.phase run), u)
          (go run', t)
      → ((run'.provision_status ≡ condition_true) ↔ (status_of db ≡ "available"))
        × (run'.instance_.phase ≡ phase_for (status_of db))
        × (run'.phase ≡ run.phase)
  end_report db run run' e h =
      subst
        (λ r.
          ((r.provision_status ≡ condition_true) ↔ (status_of db ≡ "available"))
          × (r.instance_.phase ≡ phase_for (status_of db))
          × (r.phase ≡ run.phase))
        (go-injective h)
        (
          report_exact (status_of db) run.instance_.phase run e,
          ap (λ i. i.phase) (report-instance client run.instance_.phase run) ∙ e,
          report-phase client run.instance_.phase run,
        )

  -- The phase that the deferred call writes.
  phase_by :
      (operation : OperationResult) (status : String) (run : Run) (old : Phase)
      → old ≡ Phase.unset
      → run.instance_.phase ≡ phase_for status
      → Provided operation old run.phase
      → PhaseBy operation status (with_condition client run).phase
  unfolding with_condition final_phase
  phase_by created status run old start e p = p
  phase_by updated status run old start e p = ground (arith, p)
  phase_by unchanged status run old start e p =
      ap (λ p. final_phase client p run.instance_.phase) (p ∙ start)
      ∙ ap (final_phase client Phase.unset) e
      ∙ observed_stays client (phase_for status) (phase_for-IsReady status).1

  last_write :
      (run : Run) (t : S)
      → (finish client (go run, t)).1 ≡ (client.update_status (with_condition client run) t).1
  unfolding finish update_instance_ready_condition
  last_write run t = ground arith

  report_stored :
      (run : Run)
      → (found : Condition) × (client.meta.find_status_condition
            (with_condition client run).conditions
            "ProvisionReady"
          ≡ some found)
        × (found.status ≡ run.provision_status)
  unfolding with_condition ready_condition
  report_stored run =
      let (found, e, same) =
        laws.meta_laws.find-set run.instance_.conditions (ready_condition client run) in
      (found, e, same.status)

  rest-Reached :
      PhaseLaws client
      → (run : Run) (s : S) {run' : Run} {t : S} → run.phase ≡ Phase.unset
      → run.instance_.meta.deletion_timestamp ≡ none
      → client.meta.contains_finalizer run.instance_.meta instance_finalizer ≡ true
      → rest run s ≡ (go run', t)
      → Reached client run run' s t
  rest-Reached phases run s {run' = run'} {t = t} new alive guarded h =
      let (inventory, u₁, e₁, h₁) = continue-go _ _ h in
      let (got, is_ready) = get_ready_inventory-go client run s e₁ in
      let (synced, has, is_true) = ready_found client inventory is_ready in
      let (run₂, u₂, e₂, h₂) = continue-go _ _ h₁ in
      let (run₃, u₃, e₃, h₃) = continue-go _ _ h₂ in
      let p = create_or_update-Provisioned client laws phases inventory run u₁ e₂ in
      let (db, v, identifier, i, found, is, wrote, run_is) = sync-go client inventory run₂ u₂ e₃ in
      let (exactly, phase_is, kept) =
        end_report db run₃ run'
          (ap (λ (r : Run). r.instance_.phase) (sym run_is)
            ∙ laws.update_status-phase _ _ wrote
            ∙ synced-phase client db identifier run₂.instance_)
          h₃ in
      let (report, stored, status) = report_stored run' in
      record {
        inventory = inventory;
        synced = synced;
        db = db;
        operation = p.operation;
        answer = p.answer;
        run₁ = p.run₁;
        s₁ = u₁;
        s₂ = u₂;
        s₃ = v;
        written = with_condition client run';
        found = report;
        alive = alive;
        guarded = guarded;
        got_inventory = got;
        has_condition = has;
        is_ready = is_true;
        provisioned = p.call;
        got_database =
            ap
              (λ (j : RdsInstance).
                client.get_db_instance
                  (record { namespace = inventory.meta.namespace; name = j.meta.name }) u₂)
              (sym p.same_instance)
            ∙ found;
        writes = last_write run' t;
        has_report = stored;
        ready_exactly = (λ h. exactly.0 (sym status ∙ h), λ h. status ∙ exactly.1 h);
        phase = phase_by p.operation (status_of db) run' run.phase new phase_is (
            subst (Provided p.operation run.phase) (ap (λ (r : Run). r.phase) run_is ∙ sym kept)
              p.phase);
      }

  -- With a client of the laws of Instance.Laws, a reconciliation with no phase of its own yet whose
  -- chain of handlers reaches its end has found its instance alive and with the finalizer, the
  -- instance's inventory with a condition "SpecSynced" that is "True", and the database of the
  -- instance's name in the inventory's namespace. Its deferred call then writes the instance with a
  -- condition "ProvisionReady" that is "True" exactly where the database's status is "available".
  -- The phase that is written is "Updating" where CreateOrUpdate has updated the database, and
  -- otherwise, where CreateOrUpdate has changed nothing, that of the database's status.
  pub handlers-Reached :
      PhaseLaws client
      → (run : Run) (s : S) {run' : Run} {t : S} → run.phase ≡ Phase.unset
      → handlers client run s ≡ (go run', t)
      → Reached client run run' s t
  unfolding handlers
  handlers-Reached phases run s {run' = run'} {t = t} new h =
      let (run₁, u₁, e₁, h₁) = continue-go _ rest h in
      let (alive, guarded, same, still) = check_finalizer-go client run s e₁ in
      rest-Reached phases run s new alive guarded
        (ap (λ (r : Run). rest r s) same ∙ ap (rest run₁) still ∙ h₁)
