-- ===== src/Instance/Reports.antt =====
-- How Reconcile of an instance ends, by its last call: the write of the instance's status.
use mathlib.Core.Path.{subst}
use rds_dbaas_operator.Prelude.{
  ap, is_some, ◌≡◌, refl, sym, ◌∙◌, ◌⊎◌, inl, inr, true, false, none, some, arith,
}
use rds_dbaas_operator.K8s.{
  NamespacedName, Reply, Condition, condition_true, condition_false, condition_unknown, Step, stop,
  crash, go, Result, ok, err,
}
use rds_dbaas_operator.K8s.Steps.{Ends}
use rds_dbaas_operator.Crd.{RdsInstance}
use rds_dbaas_operator.Instance.Run.{Client, Run, start, instance_condition_ready}
use rds_dbaas_operator.Instance.Reconcile.{
  handlers, with_condition, ready_condition, reconcile, finish, update_instance_ready_condition,
}
use rds_dbaas_operator.Instance.Laws.{ClientLaws}
use rds_dbaas_operator.Instance.Outcome.{handlers_outcome, IsReported, is_final}

-- The condition that is stored and the reply, by what the write of the status returned.
abbrev pub Agrees : Condition → Result RdsInstance → Reply → Type 0
Agrees found (ok _) reply =
    ((found.status ≡ condition_true)
      × (found.reason ≡ "Ready")
      × (reply.requeue ≡ false)
      × (reply.error ≡ none))
    ⊎ ((found.status ≡ condition_unknown) × (reply.requeue ≡ true) × (reply.error ≡ none))
    ⊎ ((found.status ≡ condition_false)
        × ((is_some reply.error ≡ true) ⊎ (reply.requeue ≡ true) ⊎ (is_final found.reason ≡ true)))
Agrees found (err _) reply = (reply.requeue ≡ true) ⊎ (is_some reply.error ≡ true)

module _ {S : Type 0} (client : Client S) (laws : ClientLaws client) where
  -- The last call of a reconciliation, its object and the reply.
  abbrev pub Reports : Reply → S → Type 0
  Reports reply s =
      (w : RdsInstance) × (t : S) × (found : Condition) × ((client.update_status w t).1 ≡ s)
      × (client.meta.find_status_condition w.conditions instance_condition_ready ≡ some found)
      × Agrees found (client.update_status w t).0 reply

  update_Agrees :
      (run : Run) (t : S) (r : Result RdsInstance) (found : Condition)
      → (client.update_status (with_condition client run) t).0 ≡ r
      → IsReported run
      → found.status ≡ run.provision_status
      → found.reason ≡ run.provision_status_reason
      → Agrees found r (update_instance_ready_condition client run t).0
  unfolding update_instance_ready_condition
  update_Agrees run t (ok w) found e (inl q) h k =
      inl (h ∙ q.0, k ∙ q.1, ground arith, ground arith)
  update_Agrees run t (ok w) found e (inr (inl q)) h k =
      inr (inl (h ∙ q.0, ground arith, ground arith))
  update_Agrees run t (ok w) found e (inr (inr (f, inl (x, q)))) h k =
      inr (inr (h ∙ f, inl (ground arith)))
  update_Agrees run t (ok w) found e (inr (inr (f, inr (inl q)))) h k =
      inr (inr (h ∙ f, inr (inl (ground arith))))
  update_Agrees run t (ok w) found e (inr (inr (f, inr (inr q)))) h k =
      inr (inr (h ∙ f, inr (inr (ap is_final k ∙ q))))
  update_Agrees run t (err x) found e o h k = ground arith

  state_after :
      (run : Run) (t : S)
      → (update_instance_ready_condition client run t).1
        ≡ (client.update_status (with_condition client run) t).1
  unfolding update_instance_ready_condition
  state_after run t = ground arith

  run-Reports :
      (run : Run) (t : S) {reply : Reply} {s : S}
      → IsReported run
      → (update_instance_ready_condition client run t).0 ≡ reply
      → (update_instance_ready_condition client run t).1 ≡ s
      → Reports reply s
  unfolding with_condition ready_condition
  run-Reports run t o er es =
      let (found, e, same) =
        laws.meta_laws.find-set run.instance_.conditions (ready_condition client run) in
      (
        with_condition client run,
        t,
        found,
        sym (state_after run t) ∙ es,
        e,
        subst (Agrees found _) er (update_Agrees run t _ found refl o same.status same.reason),
      )

  finish-Reports :
      (x : Step Run Run × S) {reply : Reply} {s : S}
      → Ends IsReported IsReported x.0
      → finish client x ≡ (some reply, s)
      → Reports reply s
  unfolding finish
  finish-Reports (stop run, t) o h = run-Reports run t o (cc) (cc)
  finish-Reports (crash run, t) o h = ground arith
  finish-Reports (go run, t) o h = run-Reports run t o (cc) (cc)

  after_get :
      (request : NamespacedName) (s₀ : S) {i : RdsInstance} {s₁ : S}
      → client.get_instance request s₀ ≡ (ok i, s₁)
      → reconcile client request s₀ ≡ finish client (handlers client (start i) s₁)
  unfolding reconcile
  after_get request s₀ found = ground arith

  -- With a client of the laws of Instance.Laws, a reconciliation that found its instance and did
  -- not panic ends with a write of the instance's status. If the write succeeds, the condition
  -- "ProvisionReady" that it stores is true with reason "Ready", unknown or false. If it is true,
  -- the reply has no error and asks for no new reconciliation; if it is unknown, the reply asks for
  -- one and has no error; if it is false, the reply has an error, asks for one, or the reason is
  -- "Updating", "Deleting" or "Terminated". If the write fails, the reply has an error or asks for
  -- a new reconciliation.
  pub reconcile-IsReported :
      (request : NamespacedName) (s₀ : S) {i : RdsInstance} {s₁ s : S} {reply : Reply}
      → client.get_instance request s₀ ≡ (ok i, s₁)
      → reconcile client request s₀ ≡ (some reply, s)
      → Reports reply s
  reconcile-IsReported request s₀ {i = i} {s₁ = s₁} found h =
      finish-Reports (handlers client (start i) s₁) (handlers_outcome client laws (start i) s₁)
        (sym (after_get request s₀ found) ∙ h)
