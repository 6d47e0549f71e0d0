-- ===== src/Inventory/Reports.antt =====
-- How Reconcile of an inventory ends, by its last call: the write of the inventory's status.
use mathlib.Core.Path.{subst}
use rds_dbaas_operator.Prelude.{
  is_some, ◌≡◌, refl, sym, ap, ◌∙◌, ◌⊎◌, inl, inr, Bool, true, false, distinct_bools, none, some,
  ◌++◌, if◌then◌else◌, arith,
}
use rds_dbaas_operator.K8s.{
  Result, ok, err, is_conflict, Reply, NamespacedName, Condition, condition_true, condition_false,
  Step, stop, crash, go, continue,
}
use rds_dbaas_operator.K8s.Meta.{MetaLaws}
use rds_dbaas_operator.K8s.Steps.{Ends, continue-Ends}
use rds_dbaas_operator.Crd.{RdsInventory}
use rds_dbaas_operator.Inventory.Run.{
  Credentials, Run, start, return_ready, return_ready_requeue, inventory_condition_ready,
}
use rds_dbaas_operator.Inventory.Condition.{ready_condition, update_inventory_ready_condition}
use rds_dbaas_operator.Inventory.Stored.{Stores, Replies, update_inventory_ready_condition-Stores}
use rds_dbaas_operator.Inventory.Server.{Server}
use rds_dbaas_operator.Inventory.Database.{instance_database, cluster_database}
use rds_dbaas_operator.Inventory.Reconcile.{
  adopt_db_instances, adopt_db_clusters, sync_db_instances_status, sync_db_clusters_status,
  both_stopped, both_done, adopt_instances_behind, adopt_both, stored, with_services,
  store_services, sync, adopt_and_sync, handlers, finish, reconcile,
}
use rds_dbaas_operator.Inventory.Outcome.{
  IsReported, Stops, error-IsReported, requeue-IsReported, check_finalizer-Stops,
}
use rds_dbaas_operator.Inventory.Outcome.Handlers.{validate-Stops, install-Stops}
use rds_dbaas_operator.Inventory.Outcome.Databases.{adopt_all-Stops, sync_status-Stops}

-- A handler that stops reports, and so does the last one where it goes on.
abbrev Reported : Step Run Run → Type 0
Reported x = Ends IsReported IsReported x

then-Reported :
    {S A : Type 0} (x : Step Run A × S) (f : A → S → Step Run Run × S)
    → Stops x.0
    → ((a : A) (t : S) → Reported (f a t).0)
    → Reported (continue x f).0
then-Reported x f h k = continue-Ends IsReported (λ _. Unit) IsReported x f h (λ a t _. k a t)

if-Reported :
    {S : Type 0} (b : Bool) (x y : Step Run Run × S)
    → Reported x.0
    → Reported y.0
    → Reported (if b then x else y).0
if-Reported true x y h k = h
if-Reported false x y h k = k

ready-IsReported :
    (b : Bool) (run : Run) → IsReported (if b then return_ready_requeue run else return_ready run)
unfolding return_ready_requeue return_ready
ready-IsReported true run = inr (inl (refl, refl, refl))
ready-IsReported false run = inr (inl (refl, refl, refl))

both_stopped-Stops :
    {S : Type 0} (server : Server S) (run : Run) (x : Step Run Bool × S)
    → IsReported run
    → Stops x.0
    → Stops (both_stopped server run x).0
unfolding both_stopped
both_stopped-Stops server run (stop run', t) h k = k
both_stopped-Stops server run (crash run', t) h k = tt
both_stopped-Stops server run (go b, t) h k = h

both_done-Stops :
    {S : Type 0} (server : Server S) (b : Bool) (x : Step Run Bool × S)
    → Stops x.0
    → Stops (both_done server b x).0
unfolding both_done
both_done-Stops server b (stop run', t) k = k
both_done-Stops server b (crash run', t) k = tt
both_done-Stops server b (go b', t) k = tt

module _ {S : Type 0} (server : Server S) where
  behind-Stops :
      (c : Credentials) (run : Run) (x : Step Run Bool × S)
      → Stops x.0
      → Stops (adopt_instances_behind server c run x).0
  unfolding adopt_instances_behind adopt_db_instances
  behind-Stops c run (stop run', s) h =
      both_stopped-Stops server run' _ h (adopt_all-Stops server instance_database _ c run' s)
  behind-Stops c run (crash run', s) h = tt
  behind-Stops c run (go b, s) h =
      both_done-Stops server b _ (adopt_all-Stops server instance_database _ c run s)

  adopt_both-Stops : (c : Credentials) (run : Run) (s : S) → Stops (adopt_both server c run s).0
  unfolding adopt_both adopt_db_clusters
  adopt_both-Stops c run s =
      behind-Stops c run _ (adopt_all-Stops server cluster_database _ c run s)

  stored-Reported :
      (b : Bool) (run : Run) (x : Result RdsInventory × S) → Reported (stored server b run x).0
  unfolding stored
  stored-Reported b run (ok i, s) = ready-IsReported b (record run { inventory = i })
  stored-Reported b run (err e, s) =
      if-Reported (is_conflict e) _ _ (requeue-IsReported run) (error-IsReported e _ _ run)

  sync-Reported :
      (c : Credentials) (b : Bool) (run : Run) (s : S) → Reported (sync server c b run s).0
  unfolding sync sync_db_clusters_status sync_db_instances_status store_services
  sync-Reported c b run s =
      then-Reported _ _ (sync_status-Stops server cluster_database _ c run s) (λ cs t.
        then-Reported _ _ (sync_status-Stops server instance_database _ c run t)
          (λ is t. stored-Reported b (with_services server (cs ++ is) run) _))

  handlers-Reported : (run : Run) (s : S) → Reported (handlers server run s).0
  unfolding handlers adopt_and_sync
  handlers-Reported run s = then-Reported _ _ (check_finalizer-Stops server run s) (λ _ t.
      then-Reported _ _ (validate-Stops server.client run t) (λ validated t.
        then-Reported _ _ (install-Stops server validated.0 run t) (λ _ t.
          then-Reported _ _ (adopt_both-Stops validated.1 run t)
            (λ b t. sync-Reported validated.1 b run t))))

  -- The condition that is stored with the inventory, and the reply, by what the write returned.
  abbrev pub Agrees : RdsInventory → Result RdsInventory → Reply → Type 0
  Agrees w (ok _) reply =
      (server.client.meta.find_status_condition w.conditions inventory_condition_ready ≡ none)
      ⊎ ((found : Condition) × (server.client.meta.find_status_condition w.conditions
              inventory_condition_ready
            ≡ some found)
          × (((found.status ≡ condition_true) × (found.reason ≡ "SyncOK") × (reply.error ≡ none))
              ⊎ ((found.status ≡ condition_false) × (is_some reply.error ≡ true))))
  Agrees w (err _) reply = (reply.requeue ≡ true) ⊎ (is_some reply.error ≡ true)

  stored_and_replied :
      (b : Bool) (r : Result RdsInventory) (run : Run) (w : RdsInventory) (reply : Reply)
      → run.sync_reset ≡ b
      → Stores server.client b run w
      → IsReported run
      → Replies server.client r run reply
      → Agrees w r reply
  unfolding ready_condition
  stored_and_replied b (err e) run w reply eb stores o replies = replies
  stored_and_replied true (ok i) run w reply eb stores o replies = inl stores
  stored_and_replied false (ok i) run w reply eb stores (inl reset) replies =
      absurd (distinct_bools (sym reset ∙ eb))
  stored_and_replied false (ok i) run w reply eb (found, e, same)
        (inr (inl (status, reason, error))) replies =
      inr (found, e, inl (same.status ∙ status, same.reason ∙ reason, replies.1 ∙ error))
  stored_and_replied false (ok i) run w reply eb (found, e, same) (inr (inr (status, error)))
        replies =
      inr (found, e, inr (same.status ∙ status, ap is_some replies.1 ∙ error))

  -- The last call of a reconciliation, its object and the reply.
  abbrev pub Reports : Reply → S → Type 0
  Reports reply s =
      (w : RdsInventory) × (t : S) × ((server.client.update_status w t).1 ≡ s)
      × Agrees w (server.client.update_status w t).0 reply

  run-Reports :
      (run : Run) (t : S) {reply : Reply} {s : S}
      → MetaLaws server.client.meta
      → IsReported run
      → update_inventory_ready_condition server.client run t ≡ (reply, s)
      → Reports reply s
  run-Reports run t laws o h =
      let (w, stores, es, replies) =
        update_inventory_ready_condition-Stores server.client run t laws in
      (
        w,
        t,
        sym es ∙ ap (λ x. x.1) h,
        subst (Agrees w (server.client.update_status w t).0) (ap (λ x. x.0) h)
            (stored_and_replied run.sync_reset _ run w _ refl stores o replies),
      )

  finish-Reports :
      (x : Step Run Run × S) {reply : Reply} {s : S}
      → MetaLaws server.client.meta
      → Reported x.0
      → finish server x ≡ (some reply, s)
      → Reports reply s
  unfolding finish
  finish-Reports (stop run, t) laws o h = run-Reports run t laws o (ground arith)
  finish-Reports (go run, t) laws o h = run-Reports run t laws o (ground arith)
  finish-Reports (crash run, t) laws o h = ground arith

  -- With the laws of K8s.Meta, a reconciliation that found its inventory and did not panic ends
  -- with a write of the inventory's status. If the write succeeds, the stored inventory has no
  -- condition "SpecSynced"; or the condition is true with reason "SyncOK", and the reply has no
  -- error; or it is false, and the reply has an error. If the write fails, the reply has an error
  -- or asks for a new reconciliation.
  pub reconcile-Stored :
      (get : NamespacedName → S → Result RdsInventory × S) (request : NamespacedName) (s₀ : S)
      {i : RdsInventory} {s₁ s : S} {reply : Reply}
      → MetaLaws server.client.meta
      → get request s₀ ≡ (ok i, s₁)
      → reconcile server get request s₀ ≡ (some reply, s)
      → Reports reply s
  unfolding reconcile
  reconcile-Stored get request s₀ {i = i} {s₁ = s₁} {s = s} {reply = reply} laws found h =
      finish-Reports (handlers server (start i) s₁) {reply = reply} {s = s} laws
        (handlers-Reported (start i) s₁) (ground arith)
