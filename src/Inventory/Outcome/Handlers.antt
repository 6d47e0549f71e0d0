-- ===== src/Inventory/Outcome/Handlers.antt =====
-- How validateAWSParameter, installRDSController and the first half of adoptDBInstances and
-- adoptDBClusters stop.
use rds_dbaas_operator.Prelude.{
  String, inr, Bool, true, false, Option, none, some, List, [], ◌∷◌, Dict,
}
use rds_dbaas_operator.K8s.{Error, Result, ok, err, ObjectMeta, Secret, Step}
use rds_dbaas_operator.Inventory.Run.{Client, Run}
use rds_dbaas_operator.Inventory.Validate.{validate_aws_parameter}
use rds_dbaas_operator.Inventory.Refused.{Refused, validate_aws_parameter-Refused}
use rds_dbaas_operator.Inventory.Server.{Server, DatabaseClient, AwsDatabase, AdoptedResource}
use rds_dbaas_operator.Inventory.Install.{attempt, await_ready, install_rds_controller}
use rds_dbaas_operator.Inventory.Database.{Database}
use rds_dbaas_operator.Inventory.Adopt.{
  Verdict, leave, wait, adopt, verdict, create_owned, create_adoption, adopt_each, requeue_adopting,
  or_get_error, adopt_databases,
}
use rds_dbaas_operator.Inventory.Halts.{errored, requeued, Halts, both-Halts}
use rds_dbaas_operator.Inventory.Outcome.{
  IsReported, Stops, error-IsReported, requeue-IsReported, both-Stops, stop-Stops, attempt-Stops,
}

module _ {S : Type 0} (client : Client S) where
  by_secret : (r : Result Secret) (run : Run) → Refused client r run → IsReported run
  by_secret (err e) run ((status, _, _, error), _) = inr (inr (status, error))
  by_secret (ok secret) run (status, _, _, error) = inr (inr (status, error))

  pub validate-Stops : (run : Run) (s : S) → Stops (validate_aws_parameter client run s).0
  validate-Stops run s =
      stop-Stops _ (λ run' t h. by_secret _ run' (validate_aws_parameter-Refused client run s h))

verdict-Halts :
    {S A : Type 0} (run : Run) (v : Verdict) (x y : Step Run A × S)
    (f : String → String → Step Run A × S)
    → Halts run x.0
    → Halts run y.0
    → ((arn engine : String) → Halts run (f arn engine).0)
    → Halts run
        (elim v as (λ _. Step Run A × S) [
          | leave ↦ x
          | wait ↦ y
          | adopt arn engine ↦ f arn engine
        ]).0
verdict-Halts run leave x y f h k l = h
verdict-Halts run wait x y f h k l = k
verdict-Halts run (adopt arn engine) x y f h k l = l arn engine

module _ {S : Type 0} (server : Server S) where
  pub install-Stops :
      (ref : Secret) (run : Run) (s : S) → Stops (install_rds_controller server ref run s).0
  unfolding install_rds_controller await_ready
  install-Stops ref run s = both-Stops _ _ (attempt-Stops server _ run _) (λ _ t.
      both-Stops _ _ (attempt-Stops server _ run _)
        (λ _ t. both-Stops _ _ (attempt-Stops server _ run _) (λ _ t. ready-Stops _)))
    where
      ready-Stops : (x : Result Bool × S) → Stops (await_ready server run x).0
      ready-Stops (err e, s) = error-IsReported e _ _ run
      ready-Stops (ok false, s) = requeue-IsReported run
      ready-Stops (ok true, s) = tt

  attempt-Halts :
      (message : String) (run : Run) (x : Option Error × S)
      → Halts run (attempt server message run x).0
  unfolding attempt
  attempt-Halts message run (some e, s) = errored e "BackendError" message
  attempt-Halts message run (none, s) = tt

  module _ {D : Type 0} (database : Database D) where
    pub or_get_error-Halts :
        {A : Type 0} (run : Run) (x : Result A × S)
        → Halts run (or_get_error server database run x).0
    unfolding or_get_error
    or_get_error-Halts run (err e, s) = errored e _ _
    or_get_error-Halts run (ok a, s) = tt

    create_owned-Halts :
        (r : AdoptedResource) (m : Result ObjectMeta) (run : Run) (t : S)
        → Halts run (create_owned server database r m run t).0
    unfolding create_owned
    create_owned-Halts r (err e) run t = errored e _ _
    create_owned-Halts r (ok meta) run t = attempt-Halts _ run _

    create_adoption-Halts :
        (o : Option String) (arn engine : String) (run : Run) (s : S)
        → Halts run (create_adoption server database o arn engine run s).0
    unfolding create_adoption
    create_adoption-Halts none arn engine run s = tt
    create_adoption-Halts (some identifier) arn engine run s = create_owned-Halts _ _ run _

    adopt_each-Halts :
        (known : Dict String) (adopted : Dict AdoptedResource) (listed : List AwsDatabase)
        (b : Bool) (run : Run) (s : S)
        → Halts run (adopt_each server database known adopted listed b run s).0
    unfolding adopt_each
    adopt_each-Halts known adopted [] b run s = tt
    adopt_each-Halts known adopted (a ∷ rest) b run s =
        verdict-Halts run (verdict server database known adopted a) _ _ _
          (adopt_each-Halts known adopted rest b run s)
          (adopt_each-Halts known adopted rest true run s)
          (λ arn engine.
            both-Halts run _ _ (create_adoption-Halts a.identifier arn engine run s)
              (λ _ t. adopt_each-Halts known adopted rest true run t))

    pub adopt_databases-Halts :
        (client : DatabaseClient S D) (listed : List AwsDatabase) (run : Run) (s : S)
        → Halts run (adopt_databases server database client listed run s).0
    unfolding adopt_databases requeue_adopting
    adopt_databases-Halts client [] run s = tt
    adopt_databases-Halts client (a ∷ rest) run s =
        both-Halts run _ _ (or_get_error-Halts run _) (λ _ t.
          both-Halts run _ _ (or_get_error-Halts run _)
            (λ _ t. both-Halts run _ _ (adopt_each-Halts _ _ (a ∷ rest) false run t) requeue-Halts))
      where
        requeue-Halts : (b : Bool) (t : S) → Halts run (requeue_adopting server database run b t).0
        requeue-Halts true t = requeued
        requeue-Halts false t = tt
