-- ===== src/Inventory/Outcome.antt =====
-- How the handlers of an inventory's reconciliation stop.
pub mod Handlers
pub mod Databases
use rds_dbaas_operator.Prelude.{
  is_some, String, ◌≡◌, refl, ◌⊎◌, inl, inr, Bool, true, false, if◌then◌else◌, Option, none, some,
  List, [], ◌∷◌, arith,
}
use rds_dbaas_operator.K8s.{
  Error, Result, ok, err, is_conflict, ObjectMeta, Secret, condition_true, condition_false, Step,
  stop, crash, go, Exec, continue,
}
use rds_dbaas_operator.K8s.Steps.{Ends, continue-Ends}
use rds_dbaas_operator.Crd.{RdsInventory, DatabaseService}
use rds_dbaas_operator.Inventory.Run.{
  Credentials, Run, return_error, return_sync_reset, return_requeue_sync_reset, return_ready,
  return_ready_requeue,
}
use rds_dbaas_operator.Inventory.Validate.{
  credentials_error, read_credentials, try_clusters, try_credentials, validate_secret,
  validate_aws_parameter,
}
use rds_dbaas_operator.Inventory.Server.{Server, DatabaseClient, AwsDatabase, AdoptedResource}
use rds_dbaas_operator.Inventory.Install.{attempt, await_ready, install_rds_controller}
use rds_dbaas_operator.Inventory.Finalizer.{
  inventory_finalizer, belongs, delete_resource, delete_resources, finalizer_updated,
  write_finalizer, release, deleted_or_release, finalize_by, finalize, check_finalizer,
}

-- What a reconciliation reports when it stops: the condition is to be removed; or it is true, and
-- there is no error; or it is false, and there is one.
abbrev pub IsReported : Run → Type 0
IsReported run =
    (run.sync_reset ≡ true)
    ⊎ ((run.sync_status ≡ condition_true)
        × (run.sync_status_reason ≡ "SyncOK")
        × (run.error ≡ none))
    ⊎ ((run.sync_status ≡ condition_false) × (is_some run.error ≡ true))

-- A handler that stops reports.
abbrev pub Stops : {A : Type 0} → Step Run A → Type 0
Stops x = Ends IsReported (λ _. Unit) x

pub error-IsReported :
    (e : Error) (reason message : String) (run : Run)
    → IsReported (return_error e reason message run)
unfolding return_error
error-IsReported e reason message run = inr (inr (refl, refl))

pub requeue-IsReported : (run : Run) → IsReported (return_requeue_sync_reset run)
unfolding return_requeue_sync_reset
requeue-IsReported run = inl refl

reset-IsReported : (run : Run) → IsReported (return_sync_reset run)
unfolding return_sync_reset
reset-IsReported run = inl refl

-- Two handlers one behind the other.
pub both-Stops :
    {S A B : Type 0} (x : Step Run A × S) (f : A → Exec S Run B)
    → Stops x.0
    → ((a : A) (t : S) → Stops (f a t).0)
    → Stops (continue x f).0
both-Stops x f h k = continue-Ends IsReported (λ _. Unit) (λ _. Unit) x f h (λ a t _. k a t)

-- Only a handler that stops has to report.
pub stop-Stops :
    {S A : Type 0} (x : Step Run A × S)
    → ((run : Run) (t : S) → x ≡ (stop run, t) → IsReported run)
    → Stops x.0
stop-Stops (stop run, t) h = h run t refl
stop-Stops (crash run, t) h = tt
stop-Stops (go a, t) h = tt

-- The tests between which a handler branches.
pub if-Stops :
    {S A : Type 0} (b : Bool) (x y : Step Run A × S)
    → Stops x.0
    → Stops y.0
    → Stops (if b then x else y).0
if-Stops true x y h k = h
if-Stops false x y h k = k

pub option-Stops :
    {S A B : Type 0} (o : Option B) (x : Step Run A × S) (f : B → Step Run A × S)
    → Stops x.0
    → ((b : B) → Stops (f b).0)
    → Stops (elim o as (λ _. Step Run A × S) [ none ↦ x | some b ↦ f b ]).0
option-Stops none x f h k = h
option-Stops (some b) x f h k = k b

module _ {S : Type 0} (server : Server S) where
  pub attempt-Stops :
      (message : String) (run : Run) (x : Option Error × S) → Stops (attempt server message run x).0
  unfolding attempt
  attempt-Stops message run (some e, s) = error-IsReported e "BackendError" message run
  attempt-Stops message run (none, s) = tt

  delete_resource-Stops :
      (r : AdoptedResource) (run : Run) (s : S) → Stops (delete_resource server r run s).0
  unfolding delete_resource
  delete_resource-Stops r run s =
      option-Stops r.meta.deletion_timestamp _ _ (attempt-Stops _ run _) (λ _. tt)

  delete_resources-Stops :
      (rs : List AdoptedResource) (b : Bool) (run : Run) (s : S)
      → Stops (delete_resources server rs b run s).0
  unfolding delete_resources
  delete_resources-Stops [] b run s = tt
  delete_resources-Stops (r ∷ rs) b run s =
      if-Stops (belongs server run.inventory r) _ _
        (both-Stops _ _ (delete_resource-Stops r run s)
          (λ _ t. delete_resources-Stops rs true run t))
        (delete_resources-Stops rs b run s)

  finalizer_updated-Stops :
      (run : Run) (x : Result RdsInventory × S) → Stops (finalizer_updated server run x).0
  unfolding finalizer_updated
  finalizer_updated-Stops run (ok i, s) = reset-IsReported (record run { inventory = i })
  finalizer_updated-Stops run (err e, s) =
      if-Stops (is_conflict e) _ _ (requeue-IsReported run) (error-IsReported e _ _ run)

  write_finalizer-Stops :
      (i : RdsInventory) (run : Run) (s : S) → Stops (write_finalizer server i run s).0
  unfolding write_finalizer
  write_finalizer-Stops i run s = finalizer_updated-Stops (record run { inventory = i }) _

  release-Stops : (run : Run) (s : S) → Stops (release server run s).0
  unfolding release
  release-Stops run s = both-Stops _ _ (attempt-Stops _ run _) (λ _ t.
      both-Stops _ _ (attempt-Stops _ run _)
        (λ _ t. both-Stops _ _ (attempt-Stops _ run _) (λ _ t. write_finalizer-Stops _ run t)))

  finalize_by-Stops :
      (run : Run) (x : Result (List AdoptedResource) × S) → Stops (finalize_by server run x).0
  unfolding finalize_by deleted_or_release
  finalize_by-Stops run (err e, s) = error-IsReported e _ _ run
  finalize_by-Stops run (ok rs, s) =
      both-Stops _ _ (delete_resources-Stops rs false run s) deleted-Stops
    where
      deleted-Stops : (b : Bool) (t : S) → Stops (deleted_or_release server run b t).0
      deleted-Stops true t = requeue-IsReported run
      deleted-Stops false t = release-Stops run t

  pub check_finalizer-Stops : (run : Run) (s : S) → Stops (check_finalizer server run s).0
  unfolding check_finalizer finalize
  check_finalizer-Stops run s =
      option-Stops run.inventory.meta.deletion_timestamp _ _
        (if-Stops (server.client.meta.contains_finalizer run.inventory.meta inventory_finalizer) _ _
          tt (write_finalizer-Stops _ run s))
        (λ _.
          if-Stops (server.client.meta.contains_finalizer run.inventory.meta inventory_finalizer) _
            _ (finalize_by-Stops run _) (reset-IsReported run))
