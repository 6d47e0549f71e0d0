-- ===== src/Connection/Outcome.antt =====
-- How a reconciliation of a connection ends: what it stores in the condition agrees with what it
-- replies.
use mathlib.Core.Path.{subst}
use rds_dbaas_operator.Prelude.{
  is_some, String, ◌≡◌, refl, sym, ◌∙◌, ◌⊎◌, inl, inr, true, false, none, some, arith,
}
use rds_dbaas_operator.K8s.{
  NamespacedName, Error, Reply, Condition, condition_true, condition_false, Step, stop, crash, go,
  Result, ok, err,
}
use rds_dbaas_operator.K8s.Steps.{Ends, continue-Ends}
use rds_dbaas_operator.K8s.Meta.{MetaLaws}
use rds_dbaas_operator.Crd.{RdsConnection, RdsInventory}
use rds_dbaas_operator.Connection.Run.{
  Client, Run, DbService, cluster, instance_, start, return_error, return_requeue, return_ready,
  connection_condition_ready,
}
use rds_dbaas_operator.Connection.Service.{
  check_db_service_status, open_service, opened, check_available, get_db_service,
}
use rds_dbaas_operator.Connection.Access.{
  Access, check_db_connection_status, check_secret, read_password, check_access,
}
use rds_dbaas_operator.Connection.Sync.{sync_connection_status, write_objects, update_refs}
use rds_dbaas_operator.Connection.Reconcile.{
  handlers, get_ready_inventory, with_condition, ready_condition, reconcile, finish,
  update_connection_ready_condition,
}

-- The condition is false, and there is an error or the request is queued again, not both.
abbrev pub IsFailure : Run → Type 0
IsFailure run =
    (run.binding_status ≡ condition_false)
    × (((run.error ≡ none) × (run.requeue ≡ true))
        ⊎ ((e : Error) × (run.error ≡ some e) × (run.requeue ≡ false)))

-- The condition is true with reason "Ready", with no error and no request queued again.
abbrev pub IsReady : Run → Type 0
IsReady run =
    (run.binding_status ≡ condition_true)
    × (run.binding_status_reason ≡ "Ready")
    × (run.error ≡ none)
    × (run.requeue ≡ false)

abbrev Stops : {A : Type 0} → Step Run A → Type 0
Stops r = Ends IsFailure (λ _. Unit) r

module _ (run : Run) where
  return_error-IsFailure :
      (e : Error) (reason message : String) → IsFailure (return_error e reason message run)
  unfolding return_error
  return_error-IsFailure e reason message = (refl, inr (e, refl, refl))

  return_requeue-IsFailure :
      (reason message : String) → IsFailure (return_requeue reason message run)
  unfolding return_requeue
  return_requeue-IsFailure reason message = (refl, inl (refl, refl))

module _ {S : Type 0} (client : Client S) where
  get_ready_inventory-Stops : (run : Run) (s : S) → Stops (get_ready_inventory client run s).0
  unfolding get_ready_inventory
  get_ready_inventory-Stops run s = ground arith

  check_available-Stops :
      (service : DbService) (run : Run) (s : S) → Stops (check_available client service run s).0
  unfolding check_available
  check_available-Stops (cluster c) run s = ground arith
  check_available-Stops (instance_ i) run s = ground arith

  check_db_service_status-Stops :
      (inventory : RdsInventory) (run : Run) (s : S)
      → Stops (check_db_service_status client inventory run s).0
  unfolding check_db_service_status open_service opened check_available get_db_service
  check_db_service_status-Stops inventory run s = ground arith

  check_db_connection_status-Stops :
      (service : DbService) (run : Run) (s : S)
      → Stops (check_db_connection_status client service run s).0
  unfolding check_db_connection_status check_secret read_password check_access
  check_db_connection_status-Stops (cluster c) run s = ground arith
  check_db_connection_status-Stops (instance_ i) run s = ground arith

  sync_connection_status-Stops :
      (access : Access) (password : String) (run : Run) (s : S)
      → Stops (sync_connection_status client access password run s).0
  unfolding sync_connection_status write_objects update_refs
  sync_connection_status-Stops access password run s = ground arith

  -- The chain of handlers stops with a failure, and goes on to its end with success.
  handlers_outcome : (run : Run) (s : S) → Ends IsFailure IsReady (handlers client run s).0
  unfolding handlers return_ready
  handlers_outcome run s =
      continue-Ends IsFailure (λ _. Unit) IsReady _ _ (get_ready_inventory-Stops run s)
        λ inventory t _.
          continue-Ends IsFailure (λ _. Unit) IsReady _ _
            (check_db_service_status-Stops inventory run t)
            λ service t _.
              continue-Ends IsFailure (λ _. Unit) IsReady _ _
                (check_db_connection_status-Stops service run t)
                λ found t _.
                  continue-Ends IsFailure (λ _. Unit) IsReady _ _
                    (sync_connection_status-Stops found.0 found.1 run t)
                    (λ run' t _. (refl, refl, refl, refl))

-- The condition that is stored and the reply, by what the write of the status returned.
abbrev pub Agrees : Condition → Result RdsConnection → Reply → Type 0
Agrees found (ok _) reply =
    ((found.status ≡ condition_true) × (reply.requeue ≡ false) × (reply.error ≡ none))
    ⊎ ((found.status ≡ condition_false) × ((reply.requeue ≡ true) ⊎ (is_some reply.error ≡ true)))
Agrees found (err _) reply = (reply.requeue ≡ true) ⊎ (is_some reply.error ≡ true)

module _ {S : Type 0} (client : Client S) (laws : MetaLaws client.meta) where
  -- The last call of a reconciliation, its object and the reply.
  abbrev pub Reports : Reply → S → Type 0
  Reports reply s =
      (w : RdsConnection) × (t : S) × (found : Condition) × ((client.update_status w t).1 ≡ s)
      × (client.meta.find_status_condition w.conditions connection_condition_ready ≡ some found)
      × Agrees found (client.update_status w t).0 reply

  update_Agrees :
      (run : Run) (t : S) (r : Result RdsConnection) (found : Condition)
      → (client.update_status (with_condition client run) t).0 ≡ r
      → IsFailure run ⊎ IsReady run
      → found.status ≡ run.binding_status
      → Agrees found r (update_connection_ready_condition client run t).0
  unfolding update_connection_ready_condition
  update_Agrees run t (ok w) found e (inl (f, inl q)) h = ground arith
  update_Agrees run t (ok w) found e (inl (f, inr q)) h = ground arith
  update_Agrees run t (ok w) found e (inr q) h = ground arith
  update_Agrees run t (err x) found e o h = ground arith

  state_after :
      (run : Run) (t : S)
      → (update_connection_ready_condition client run t).1
        ≡ (client.update_status (with_condition client run) t).1
  unfolding update_connection_ready_condition
  state_after run t = ground arith

  run-Reports :
      (run : Run) (t : S) {reply : Reply} {s : S}
      → IsFailure run ⊎ IsReady run
      → (update_connection_ready_condition client run t).0 ≡ reply
      → (update_connection_ready_condition client run t).1 ≡ s
      → Reports reply s
  unfolding with_condition ready_condition
  run-Reports run t o er es =
      let (found, e, same) = laws.find-set run.connection.conditions (ready_condition client run) in
      (
        with_condition client run,
        t,
        found,
        sym (state_after run t) ∙ es,
        e,
        subst (Agrees found _) er (update_Agrees run t _ found refl o same.status),
      )

  finish-Reports :
      (x : Step Run Run × S) {reply : Reply} {s : S}
      → Ends IsFailure IsReady x.0
      → finish client x ≡ (some reply, s)
      → Reports reply s
  unfolding finish
  finish-Reports (stop run, t) o h = run-Reports run t (inl o) (cc) (cc)
  finish-Reports (crash run, t) o h = ground arith
  finish-Reports (go run, t) o h = run-Reports run t (inr o) (cc) (cc)

  after_get :
      (request : NamespacedName) (s₀ : S) {c : RdsConnection} {s₁ : S}
      → client.get_connection request s₀ ≡ (ok c, s₁)
      → reconcile client request s₀ ≡ finish client (handlers client (start c) s₁)
  unfolding reconcile
  after_get request s₀ found = ground arith

  -- With the laws of K8s.Meta, a reconciliation that found its connection and did not panic ends
  -- with a write of the connection's status. If the write succeeds, the condition "ReadyForBinding"
  -- that it stores is true exactly where the reply has no error and asks for no new reconciliation,
  -- and false otherwise. If the write fails, the reply has an error or asks for a new
  -- reconciliation.
  pub reconcile-Reports :
      (request : NamespacedName) (s₀ : S) {c : RdsConnection} {s₁ s : S} {reply : Reply}
      → client.get_connection request s₀ ≡ (ok c, s₁)
      → reconcile client request s₀ ≡ (some reply, s)
      → Reports reply s
  unfolding reconcile
  reconcile-Reports request s₀ {c} {s₁} found h =
      finish-Reports (handlers client (start c) s₁) (handlers_outcome client (start c) s₁)
        (sym (after_get request s₀ found) ∙ h)
