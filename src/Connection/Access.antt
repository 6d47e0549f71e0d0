-- ===== src/Connection/Access.antt =====
-- controllers/rdsconnection_controller.go: checkDBConnectionStatus.
use rds_dbaas_operator.Prelude.{
  String, ◌||◌, ◌==◌, Option, none, some, ◌<>◌, not, is_some, if◌then◌else◌,
}
use rds_dbaas_operator.Go.Strconv.{ℤ}
use rds_dbaas_operator.K8s.{
  errorf, is_not_found, ok, err, Secret, SecretKeyReference, stop, go, Exec, ◌>>=◌, lookup_nil,
}
use rds_dbaas_operator.Connection.Run.{DbService, cluster, instance_, Client, Run, return_error}

-- What checkDBConnectionStatus reads from the database service.
pub record Access : Type 0 where
  pub engine : Option String
  pub password_secret : Option SecretKeyReference
  pub username : Option String
  pub host : Option String
  pub port : Option ℤ
  pub db_name : Option String

unfoldable pub access_of : DbService → Access
access_of (cluster s) = record {
  engine = s.spec.engine;
  password_secret = s.spec.master_user_password;
  username = s.spec.master_username;
  host = s.status.endpoint;
  port = s.spec.port;
  db_name = s.spec.database_name;
}
access_of (instance_ s) = record {
  engine = s.spec.engine;
  password_secret = s.spec.master_user_password;
  username = s.spec.master_username;
  host = elim s.status.endpoint [ none ↦ none | some e ↦ e.address ];
  port = elim s.status.endpoint [ none ↦ none | some e ↦ e.port ];
  db_name = s.spec.db_name;
}

-- `masterUserSecret.Data[key]`, where an absent key and an empty value are both refused.
unfoldable pub password_at : String → Secret → String
password_at key secret = elim (lookup_nil key secret.entries) [ none ↦ "" | some v ↦ v ]

module _ {S : Type 0} (client : Client S) where
  -- The secret of the master password, and what is read from it.
  unfoldable pub read_password : Access → SecretKeyReference → Run → Exec S Run String
  unfolding return_error
  read_password access ref run s =
      let id = run.connection.database_service_id in
      let (r, s') = client.get_secret (record { namespace = ref.namespace; name = ref.name }) s in
      elim r [
        | err e ↦ (
          stop (
              return_error e (if is_not_found e then "NotFound" else "BackendError")
                "Failed to get secret for password" run),
          s',
        )
        | ok secret ↦
            let password = password_at ref.key secret in
            if password == ""
            then (
              stop (
                  return_error (errorf ("service " <> (id <> " master password key not set")))
                    "InputError" "Password invalid" run),
              s',
            )
            else (go password, s')
      ]

  -- The tests on the user's name, the host and the port, which come behind the password's.
  unfoldable pub check_access : Access → Run → Exec S Run (Unit {0})
  unfolding return_error
  check_access access run s =
      let id = run.connection.database_service_id in
      if not (is_some access.username)
      then (
        stop (
            return_error (errorf ("service " <> (id <> " master username not set"))) "InputError"
              "Username not found" run),
        s,
      )
      else if not (is_some access.host) || not (is_some access.port)
      then (
        stop (
            return_error (errorf ("service " <> (id <> " endpoint not found"))) "Unreachable"
              "Endpoint not found" run),
        s,
      )
      else (go tt, s)

  -- Behind the reference to the secret: the password, and then the rest of the access.
  unfoldable pub check_secret : Access → SecretKeyReference → Run → Exec S Run (Access × String)
  check_secret access ref run = do
    password ← read_password access ref run
    _ ← check_access access run
    λ s. (go (access, password), s)

  -- The access to the service with its master password.
  unfoldable pub check_db_connection_status : DbService → Run → Exec S Run (Access × String)
  unfolding return_error
  check_db_connection_status service run s = elim (access_of service).password_secret [
    | none ↦ (
      stop (
          return_error
            (errorf
              ("service " <> (run.connection.database_service_id <> " master password not set")))
            "InputError" "Password not found" run),
      s,
    )
    | some ref ↦ check_secret (access_of service) ref run s
  ]
