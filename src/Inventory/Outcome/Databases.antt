-- ===== src/Inventory/Outcome/Databases.antt =====
-- How the second half of adoptDBInstances and adoptDBClusters stops, and the synchronization.
use rds_dbaas_operator.Prelude.{String, Bool, false, Option, none, some, List, [], ◌∷◌, Dict}
use rds_dbaas_operator.K8s.{Step, stop, crash, go, Error, Result, ok, err, is_conflict, Secret}
use rds_dbaas_operator.Inventory.Run.{Credentials, Run}
use rds_dbaas_operator.Inventory.Server.{Server, DatabaseClient, AwsDatabase}
use rds_dbaas_operator.Inventory.Database.{Database}
use rds_dbaas_operator.Inventory.Reset.{
  updated, complete, modified, with_credentials, reset_credentials, wait_available,
  ensure_credentials, reset_one, reset_each, reset_databases, adopt_all, candidate, is_incomplete,
  is_available,
}
use rds_dbaas_operator.Inventory.Services.{sync_status}
use rds_dbaas_operator.Inventory.Halts.{
  IsHalt, errored, requeued, Halts, both-Halts, if-Halts, option-Halts,
}
use rds_dbaas_operator.Inventory.Outcome.{IsReported, Stops, error-IsReported, requeue-IsReported}
use rds_dbaas_operator.Inventory.Outcome.Handlers.{or_get_error-Halts, adopt_databases-Halts}

halt-IsReported : {run run' : Run} → IsHalt run run' → IsReported run'
halt-IsReported {run = run} (errored e reason message) = error-IsReported e reason message run
halt-IsReported {run = run} requeued = requeue-IsReported run

to_stops : {A : Type 0} (run : Run) (x : Step Run A) → Halts run x → Stops x
to_stops run (stop run') h = halt-IsReported h
to_stops run (crash run') h = tt
to_stops run (go a) h = tt

module _ {S D : Type 0} (server : Server S) (database : Database D)
    (client : DatabaseClient S D) where
  updated-Halts :
      (run : Run) (x : Result D × S) → Halts run (updated server database client run x).0
  unfolding updated
  updated-Halts run (ok d, s) = tt
  updated-Halts run (err e, s) = if-Halts run (is_conflict e) _ _ (requeued) (errored e _ _)

  complete-Halts :
      (a : AwsDatabase) (d : D) (run : Run) (s : S)
      → Halts run (complete server database client a d run s).0
  unfolding complete
  complete-Halts a d run s =
      if-Halts run (is_incomplete server database a d) _ _ (updated-Halts run _) tt

  with_credentials-Halts :
      (c : Credentials) (run : Run) (x : Option (Result (Secret × Option D)) × S)
      → Halts run (with_credentials server database client c run x).0
  unfolding with_credentials modified
  with_credentials-Halts c run (none, s) = tt
  with_credentials-Halts c run (some (err e), s) = errored e _ _
  with_credentials-Halts c run (some (ok (secret, none)), s) = tt
  with_credentials-Halts c run (some (ok (secret, some d)), s) = modified-Halts _
    where
      modified-Halts :
          (x : Option Error × S) → Halts run (modified server database client run d x).0
      modified-Halts (some e, s) = errored e _ _
      modified-Halts (none, s) = updated-Halts run _

  wait_available-Halts :
      (o : Option String) (waiting : Bool) (run : Run) (s : S)
      → Halts run (wait_available server database client o waiting run s).0
  unfolding wait_available
  wait_available-Halts none waiting run s = tt
  wait_available-Halts (some _) waiting run s = tt

  ensure_credentials-Halts :
      (c : Credentials) (waiting : Bool) (d : D) (run : Run) (s : S)
      → Halts run (ensure_credentials server database client c waiting d run s).0
  unfolding ensure_credentials reset_credentials
  ensure_credentials-Halts c waiting d run s =
      option-Halts run (database.master_user_password d) _ _
        (if-Halts run (is_available (database.status d)) _ _
          (both-Halts run _ _ (with_credentials-Halts c run _) (λ _ t. tt))
          (wait_available-Halts _ waiting run s))
        (λ _. tt)

  reset_one-Halts :
      (c : Credentials) (known : Dict AwsDatabase) (waiting : Bool) (d : D) (run : Run) (s : S)
      → Halts run (reset_one server database client c known waiting d run s).0
  unfolding reset_one
  reset_one-Halts c known waiting d run s =
      option-Halts run (candidate server database known d) _ _ tt (λ a.
        both-Halts run _ _ (complete-Halts a d run s)
          (λ d t. ensure_credentials-Halts c waiting d run t))

  reset_each-Halts :
      (c : Credentials) (known : Dict AwsDatabase) (ds : List D) (waiting : Bool) (run : Run)
      (s : S)
      → Halts run (reset_each server database client c known ds waiting run s).0
  unfolding reset_each
  reset_each-Halts c known [] waiting run s = tt
  reset_each-Halts c known (d ∷ ds) waiting run s =
      both-Halts run _ _ (reset_one-Halts c known waiting d run s)
        (λ waiting t. reset_each-Halts c known ds waiting run t)

  pub adopt_all-Halts :
      (c : Credentials) (run : Run) (s : S) → Halts run (adopt_all server database client c run s).0
  unfolding adopt_all reset_databases
  adopt_all-Halts c run s =
      both-Halts run _ _ (or_get_error-Halts server database run _) (λ listed t.
        both-Halts run _ _ (adopt_databases-Halts server database client listed run t) (λ _ t.
          both-Halts run _ _ (or_get_error-Halts server database run _)
            (λ ds t. reset_each-Halts c _ ds false run t)))

  pub sync_status-Halts :
      (c : Credentials) (run : Run) (s : S)
      → Halts run (sync_status database server client c run s).0
  unfolding sync_status
  sync_status-Halts c run s =
      both-Halts run _ _ (or_get_error-Halts server database run _)
        (λ listed t. both-Halts run _ _ (or_get_error-Halts server database run _) (λ ds t. tt))

  pub adopt_all-Stops :
      (c : Credentials) (run : Run) (s : S) → Stops (adopt_all server database client c run s).0
  adopt_all-Stops c run s = to_stops run _ (adopt_all-Halts c run s)

  pub sync_status-Stops :
      (c : Credentials) (run : Run) (s : S) → Stops (sync_status database server client c run s).0
  sync_status-Stops c run s = to_stops run _ (sync_status-Halts c run s)
