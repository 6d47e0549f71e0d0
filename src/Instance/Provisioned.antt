-- ===== src/Instance/Provisioned.antt =====
-- What CreateOrUpdate of an instance's database leaves of the reconciliation's variables.
use mathlib.Core.Path.{subst}
use rds_dbaas_operator.Prelude.{Option, none, some, ◌≡◌, refl, ◌∙◌, ap, sym, arith}
use rds_dbaas_operator.K8s.{
  Result, ok, err, go, new_meta, OperationResult, unchanged, created, updated,
}
use rds_dbaas_operator.Ack.Instance.{DbInstance, empty_db_instance}
use rds_dbaas_operator.Crd.{RdsInventory, Phase}
use rds_dbaas_operator.Instance.Run.{Client, Run, return_error}
use rds_dbaas_operator.Instance.Provision.{
  create_or_update_db_instance, provisioned, mutate_db_instance, write_spec, specified,
}
use rds_dbaas_operator.Instance.Laws.{ClientLaws, PhaseLaws}

-- A reconciliation's own phase, by the phase before: behind an update it is "Updating".
abbrev pub Provided : OperationResult → Phase → Phase → Type 0
Provided created old new = ⊥
Provided updated old new = new ≡ Phase.updating
Provided unchanged old new = new ≡ old

module _ {S : Type 0} (client : Client S) where
  write_spec-instance :
      (inventory : RdsInventory) (db : DbInstance) (run : Run) (s : S)
      → (write_spec client inventory db run s).1.instance_ ≡ run.instance_
  unfolding write_spec specified return_error
  write_spec-instance inventory db run s = ground arith

  mutate-instance_of :
      (r : Result DbInstance) (inventory : RdsInventory) (db : DbInstance) (run : Run) (s : S)
      → client.set_owner_annotations run.instance_ db ≡ r
      → (mutate_db_instance client inventory db run s).1.instance_ ≡ run.instance_
  unfolding mutate_db_instance return_error
  mutate-instance_of (err e) inventory db run s h = ground arith
  mutate-instance_of (ok db') inventory db run s h =
      ground (arith, write_spec-instance inventory db' run s)

  write_spec-phase :
      (inventory : RdsInventory) (db : DbInstance) (run : Run) (s : S)
      → (write_spec client inventory db run s).1.phase ≡ run.phase
  unfolding write_spec specified return_error
  write_spec-phase inventory db run s = ground arith

  mutate-phase_of :
      (r : Result DbInstance) (inventory : RdsInventory) (db : DbInstance) (run : Run) (s : S)
      → client.set_owner_annotations run.instance_ db ≡ r
      → (mutate_db_instance client inventory db run s).1.phase ≡ run.phase
  unfolding mutate_db_instance return_error
  mutate-phase_of (err e) inventory db run s h = ground arith
  mutate-phase_of (ok db') inventory db run s h =
      ground (arith, write_spec-phase inventory db' run s)

  provisioned-parts :
      (inventory : RdsInventory) (x : Option (Result (OperationResult × DbInstance)) × Run × S)
      {run' : Run} {t : S}
      → provisioned client inventory x ≡ (go run', t)
      → (operation : OperationResult) × (answer : DbInstance) × (run : Run) × (x
          ≡ (some (ok (operation, answer)), run, t))
        × (run'.instance_ ≡ run.instance_)
        × Provided operation run.phase run'.phase
  unfolding provisioned
  provisioned-parts inventory (none, run, s) h = ground arith
  provisioned-parts inventory (some (err e), run, s) h = ground arith
  provisioned-parts inventory (some (ok (created, _)), run, s) h = ground arith
  provisioned-parts inventory (some (ok (updated, d)), run, s) h =
      (updated, d, run, ground arith, ground arith, ground arith)
  provisioned-parts inventory (some (ok (unchanged, d)), run, s) h =
      (unchanged, d, run, ground arith, ground arith, ground arith)

  -- The call of CreateOrUpdate, and what stays.
  pub record Provisioned (inventory : RdsInventory) (run run' : Run) (s t : S) : Type 0 where
    pub operation : OperationResult
    pub answer : DbInstance
    pub run₁ : Run
    pub call :
        client.create_or_update_db_instance
          (empty_db_instance (new_meta run.instance_.meta.name inventory.meta.namespace))
          (mutate_db_instance client inventory)
          run
          s
        ≡ (some (ok (operation, answer)), run₁, t)
    pub same_instance : run'.instance_ ≡ run.instance_
    pub phase : Provided operation run.phase run'.phase

  pub create_or_update-Provisioned :
      ClientLaws client
      → PhaseLaws client
      → (inventory : RdsInventory) (run : Run) (s : S) {run' : Run} {t : S}
      → create_or_update_db_instance client inventory run s ≡ (go run', t)
      → Provisioned inventory run run' s t
  unfolding create_or_update_db_instance
  create_or_update-Provisioned laws phases inventory run s {run' = run'} h =
      let (operation, answer, run₁, call, same, phase) = provisioned-parts inventory _ h in
      record {
        operation = operation;
        answer = answer;
        run₁ = run₁;
        call = call;
        same_instance =
            same
            ∙ ap (λ x. x.1.instance_) (sym call)
            ∙ laws.create_or_update-instance _ (mutate_db_instance client inventory) run s
                (λ db run' t. mutate-instance_of _ inventory db run' t refl);
        phase =
            subst (λ p. Provided operation p run'.phase)
              (ap (λ x. x.1.phase) (sym call)
                ∙ phases.create_or_update-phase _ (mutate_db_instance client inventory) run s
                    (λ db run' t. mutate-phase_of _ inventory db run' t refl))
              phase;
      }
