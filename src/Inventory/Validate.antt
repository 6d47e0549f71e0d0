-- ===== src/Inventory/Validate.antt =====
-- controllers/rdsinventory_controller.go: validateAWSParameter, the check of an inventory's
-- credentials against AWS.
use rds_dbaas_operator.Prelude.{String, ◌==◌, none, some, ◌<>◌, if◌then◌else◌}
use rds_dbaas_operator.K8s.{
  Error, errorf, Result, ok, err, is_not_found, Step, stop, go, Exec, Secret, lookup_nil,
}
use rds_dbaas_operator.K8s.Results.{◌>>=◌}
use rds_dbaas_operator.Inventory.Run.{Client, Credentials, Run, return_error}

abbrev pub missing_credential : String → Error
missing_credential key = errorf ("required credential " <> (key <> " is missing"))

-- `!ok || len(v) == 0` is an error.
unfoldable pub required : String → Secret → Result String
required key secret = elim (lookup_nil key secret.entries) [
  | none ↦ err (missing_credential key)
  | some v ↦ if v == "" then err (missing_credential key) else ok v
]

unfoldable pub read_credentials : Secret → Result Credentials
unfolding required
read_credentials secret = do
  access ← required "AWS_ACCESS_KEY_ID" secret
  key ← required "AWS_SECRET_ACCESS_KEY" secret
  region' ← required "AWS_REGION" secret
  ok (record { access_key = access; secret_key = key; region = region' })

-- The branch of a failed read; the first call of returnError, for a secret that is not found, is
-- followed by the second.
unfoldable pub credentials_error : Error → Run → Run
unfolding return_error
credentials_error e run =
    return_error e "BackendError" "Failed to get Credential"
      (if is_not_found e then return_error e "NotFound" "Failed to get Credential" run else run)

module _ {S : Type 0} (client : Client S) where
  -- The two calls of AWS that try the credentials; `credentialsRef` goes on with them.
  unfoldable pub try_clusters : Secret → Credentials → Run → Exec S Run (Secret × Credentials)
  unfolding return_error
  try_clusters secret c run s =
      let (r, s') = client.describe_db_clusters c s in
      elim r [
        | some e ↦ (
          stop (
              return_error e "InputError"
                "The AWS service account is not valid for accessing RDS DB clusters" run),
          s',
        )
        | none ↦ (go (secret, c), s')
      ]

  unfoldable pub try_credentials : Secret → Credentials → Run → Exec S Run (Secret × Credentials)
  unfolding return_error
  try_credentials secret c run s =
      let (r, s') = client.describe_db_instances c s in
      elim r [
        | some e ↦ (
          stop (
              return_error e "InputError"
                "The AWS service account is not valid for accessing RDS DB instances" run),
          s',
        )
        | none ↦ try_clusters secret c run s'
      ]

  -- Behind the read of the secret.
  unfoldable pub validate_secret : Run → Result Secret × S → Step Run (Secret × Credentials) × S
  unfolding return_error credentials_error
  validate_secret run (err e, s) = (stop (credentials_error e run), s)
  validate_secret run (ok secret, s) = elim (read_credentials secret) [
    | err e ↦ (stop (return_error e "InputError" e.message run), s)
    | ok c ↦ try_credentials secret c run s
  ]

  unfoldable pub validate_aws_parameter : Run → Exec S Run (Secret × Credentials)
  validate_aws_parameter run s = validate_secret run (
      client.get_secret
        (record { namespace = run.inventory.meta.namespace; name = run.inventory.credentials_ref })
        s)
