-- ===== src/Inventory/Stored.antt =====
-- What the deferred call of an inventory's reconciliation stores and replies.
use rds_dbaas_operator.Prelude.{
  is_some, ◌≡◌, ◌⊎◌, refl, ◌∙◌, ap, Bool, true, false, Option, none, some, arith, if◌then◌else◌,
}
use rds_dbaas_operator.K8s.{Result, ok, err, Condition, Reply}
use rds_dbaas_operator.K8s.Meta.{MetaLaws, SameCondition}
use rds_dbaas_operator.Crd.{RdsInventory}
use rds_dbaas_operator.Inventory.Run.{inventory_condition_ready, Client, Run}
use rds_dbaas_operator.Inventory.Condition.{
  ready_condition, with_condition, update_inventory_ready_condition,
}

module _ {S : Type 0} (client : Client S) where
  -- The condition of an inventory by the variables of its reconciliation.
  abbrev pub Stores : Bool → Run → RdsInventory → Type 0
  Stores true run w =
      client.meta.find_status_condition w.conditions inventory_condition_ready ≡ none
  Stores false run w =
      (found : Condition) × (client.meta.find_status_condition w.conditions
          inventory_condition_ready
        ≡ some found)
      × SameCondition found (ready_condition client run)

  -- The reply, by what the write of the status returned: a failed write is reported.
  abbrev pub Replies : Result RdsInventory → Run → Reply → Type 0
  Replies (ok _) run reply = (reply.requeue ≡ run.requeue) × (reply.error ≡ run.error)
  Replies (err _) run reply = (reply.requeue ≡ true) ⊎ (is_some reply.error ≡ true)

  -- The condition that is found behind a reset, or behind a condition that was set.
  shown : Run → Bool → Option Condition
  shown run b =
      client.meta.find_status_condition
        (if b
          then client.meta.remove_status_condition run.inventory.conditions
              inventory_condition_ready
          else client.meta.set_status_condition run.inventory.conditions
              (ready_condition client run))
        inventory_condition_ready

  with_condition-Stores_of :
      (b : Bool) (run : Run)
      → MetaLaws client.meta
      → run.sync_reset ≡ b
      → Stores b run (with_condition client run)
  unfolding with_condition ready_condition shown
  with_condition-Stores_of true run laws h =
      ap (shown run) h ∙ laws.find-remove run.inventory.conditions inventory_condition_ready
  with_condition-Stores_of false run laws h =
      let (found, e, same) = laws.find-set run.inventory.conditions (ready_condition client run) in
      (found, ap (shown run) h ∙ e, same)

  reply_cases :
      (r : Result RdsInventory) (run : Run) (s : S)
      → (client.update_status (with_condition client run) s).0 ≡ r
      → Replies r run (update_inventory_ready_condition client run s).0
  unfolding update_inventory_ready_condition
  reply_cases (ok w) run s e = ground arith
  reply_cases (err x) run s e = ground arith

  -- With the laws of K8s.Meta, the deferred call writes the inventory once, without the condition
  -- "SpecSynced" where a reset was asked for, and otherwise with the condition that the
  -- reconciliation has set. The reply is the reconciliation's own if the write succeeds; if it
  -- fails, the reply has an error or asks for a new reconciliation.
  pub update_inventory_ready_condition-Stores :
      (run : Run) (s : S)
      → MetaLaws client.meta
      → (w : RdsInventory) × Stores run.sync_reset run w
        × ((update_inventory_ready_condition client run s).1 ≡ (client.update_status w s).1)
        × Replies (client.update_status w s).0 run (update_inventory_ready_condition client run s).0
  unfolding update_inventory_ready_condition
  update_inventory_ready_condition-Stores run s laws = (
    with_condition client run,
    with_condition-Stores_of run.sync_reset run laws refl,
    ground arith,
    reply_cases _ run s refl,
  )
