-- ===== src/Inventory/Reset.antt =====
-- controllers/rdsinventory_controller.go: the second half of adoptDBInstances and adoptDBClusters,
-- which completes the adopted databases and resets their credentials.
pub mod Secured
pub mod Rounds
use rds_dbaas_operator.Prelude.{
  String, ◌==◌, ◌||◌, Bool, true, false, Option, none, some, List, [], ◌∷◌, Dict, lookup, index,
  is_some, one_of, if◌then◌else◌,
}
use rds_dbaas_operator.K8s.{
  Error, Result, ok, err, is_conflict, lookup_nil, Secret, Step, stop, crash, go, Exec, continue,
  ◌>>=◌,
}
use rds_dbaas_operator.DbUtils.Engine.{generate_username}
use rds_dbaas_operator.RdsUtils.Credentials.{set_credentials, password_key}
use rds_dbaas_operator.Inventory.Run.{Credentials, Run, return_error, return_requeue_sync_reset}
use rds_dbaas_operator.Inventory.Server.{Server, DatabaseClient, AwsDatabase}
use rds_dbaas_operator.Inventory.Database.{Database, arn_of, read_pages}
use rds_dbaas_operator.Inventory.Adopt.{adopted_label, is_deleting, or_get_error, adopt_databases}

-- `status == nil || *status != "available"` does not hold.
abbrev pub is_available : Option String → Bool
is_available none = false
is_available (some status) = status == "available"

-- The entry of a database of AWS under its ARN.
unfoldable pub aws_entry : AwsDatabase → Option (String × AwsDatabase)
aws_entry a = elim a.arn [ none ↦ none | some arn ↦ some (arn, a) ]

-- What AWS has and the custom resource lacks.
abbrev pub missing : Option String → Option String → Option String
missing none there = there
missing (some _) there = none

abbrev pub set_if : {D : Type 0} → (String → D → D) → Option String → D → D
set_if set none d = d
set_if set (some v) d = set v d

module _ {S D : Type 0} (server : Server S) (database : Database D) where
  -- The guards of the loop over the adopted databases: the engine and the database of AWS.
  unfoldable pub candidate : Dict AwsDatabase → D → Option AwsDatabase
  candidate known d = elim (database.engine d) [
    | none ↦ none
    | some engine ↦
        if one_of engine database.skipped
          || database.in_cluster d
          || is_deleting (database.status d)
        then none
        else elim (arn_of database d) [ none ↦ none | some arn ↦ lookup arn known ]
  ]

  -- The user and the name of the database, where AWS has one and the custom resource has none.
  unfoldable pub completed : AwsDatabase → D → D
  completed a d = set_if database.set_db_name (missing (database.db_name d) a.db_name) (
      set_if database.set_master_username (missing (database.master_username d) a.master_username)
        d)

  -- `update`
  unfoldable pub is_incomplete : AwsDatabase → D → Bool
  is_incomplete a d =
      is_some (missing (database.master_username d) a.master_username)
      || is_some (missing (database.db_name d) a.db_name)

  module _ (client : DatabaseClient S D) where
    -- `r.Update(ctx, &adoptedDB…)`: a conflict is retried.
    unfoldable pub updated : Run → Result D × S → Step Run D × S
    updated run (ok d, s) = (go d, s)
    updated run (err e, s) =
        if is_conflict e
        then (stop (return_requeue_sync_reset run), s)
        else (stop (return_error e "BackendError" database.update_error run), s)

    unfoldable pub complete : AwsDatabase → D → Run → Exec S Run D
    unfolding is_incomplete completed
    complete a d run s =
        if is_incomplete a d then updated run (client.update (completed a d) s) else (go d, s)

    -- The user that the callback of setCredentials sees to; the engine is dereferenced.
    unfoldable pub with_user : D → Option D
    with_user d = elim (database.master_username d) [
      | some _ ↦ some d
      | none ↦ elim (database.engine d) [
        | none ↦ none
        | some engine ↦ some (database.set_master_username (generate_username engine) d)
      ]
    ]

    -- The callback, where none is a panic.
    unfoldable pub set_access : String → String → Option D → Option D
    unfolding with_user
    set_access namespace secret_name none = none
    set_access namespace secret_name (some d) = elim (with_user d) [
      | none ↦ none
      | some d ↦ some (
          database.set_master_user_password
            (record { name = secret_name; namespace = namespace; key = password_key }) d)
    ]

    -- `string(s.Data["password"])`
    abbrev pub password_of : Secret → String
    password_of secret = elim (lookup_nil password_key secret.entries) [ none ↦ "" | some p ↦ p ]

    -- AWS gets the password, and then the server the custom resource.
    unfoldable pub modified : Run → D → Option Error × S → Step Run D × S
    modified run d (some e, s) = (stop (return_error e "BackendError" database.update_error run), s)
    modified run d (none, s) = updated run (client.update d s)

    unfoldable pub with_credentials :
        Credentials → Run → Option (Result (Secret × Option D)) × S → Step Run D × S
    with_credentials c run (none, s) = (crash run, s)
    with_credentials c run (some (err e), s) =
        (stop (return_error e "BackendError" database.update_error run), s)
    with_credentials c run (some (ok (secret, none)), s) = (crash run, s)
    with_credentials c run (some (ok (secret, some d)), s) =
        modified run d (client.modify c (database.identifier d) (password_of secret) s)

    unfoldable pub reset_credentials : Credentials → D → Run → Exec S Run D
    reset_credentials c d run s = with_credentials c run (
        set_credentials server.secrets (database.meta d).name run.inventory.meta.namespace
          (some (record { name = (database.meta d).name; namespace = (database.meta d).namespace }))
          (database.kind d) (set_access run.inventory.meta.namespace) (some d) s)

    -- A database that is not available is waited for; its identifier is dereferenced for the log.
    unfoldable pub wait_available : Option String → Bool → Run → Exec S Run Bool
    wait_available none waiting run s = (crash run, s)
    wait_available (some _) waiting run s = (go true, s)

    -- `if adoptedDB….Spec.MasterUserPassword == nil { … }`; goes on with `waitForAdoptedResource`.
    unfoldable pub ensure_credentials : Credentials → Bool → D → Run → Exec S Run Bool
    ensure_credentials c waiting d run s = elim (database.master_user_password d) [
      | some _ ↦ (go waiting, s)
      | none ↦
          if is_available (database.status d)
          then continue (reset_credentials c d run s) (λ _ s. (go waiting, s))
          else wait_available (database.identifier d) waiting run s
    ]

    unfoldable pub reset_one : Credentials → Dict AwsDatabase → Bool → D → Run → Exec S Run Bool
    reset_one c known waiting d run s = elim (candidate known d) [
      | none ↦ (go waiting, s)
      | some a ↦ continue (complete a d run s) (λ d. ensure_credentials c waiting d run)
    ]

    -- The loop.
    unfoldable pub reset_each :
        Credentials → Dict AwsDatabase → List D → Bool → Run → Exec S Run Bool
    reset_each c known [] waiting run s = (go waiting, s)
    reset_each c known (d ∷ ds) waiting run s =
        continue (reset_one c known waiting d run s) (λ waiting. reset_each c known ds waiting run)

    unfoldable pub reset_databases : Credentials → List AwsDatabase → Run → Exec S Run Bool
    reset_databases c listed run = do
      ds ← λ s.
          or_get_error server database run
            (client.list_labelled run.inventory.meta.namespace adopted_label s)
      reset_each c (index aws_entry listed []) ds false run

    -- adoptDBInstances and adoptDBClusters: a result `true, false` stops, with the variables that
    -- are set then, and a result `false, w` goes on with `w`.
    unfoldable pub adopt_all : Credentials → Run → Exec S Run Bool
    adopt_all c run = do
      listed ← λ s. or_get_error server database run (read_pages (client.pages c) s)
      _ ← adopt_databases server database client listed run
      reset_databases c listed run
