-- ===== src/Inventory/Refused.antt =====
-- What validateAWSParameter reports when it stops a reconciliation.
use rds_dbaas_operator.Prelude.{is_some, String, ◌≡◌, refl, true, false, some, arith}
use rds_dbaas_operator.K8s.{Result, ok, err, stop, Secret, condition_false}
use rds_dbaas_operator.Inventory.Run.{Client, Credentials, Run, return_error}
use rds_dbaas_operator.Inventory.Validate.{
  read_credentials, credentials_error, try_clusters, try_credentials, validate_secret,
  validate_aws_parameter,
}

module _ {S : Type 0} (client : Client S) where
  -- An error with a reason, under a false condition, with no new reconciliation.
  abbrev pub IsError : String → Run → Type 0
  IsError reason run =
      (run.sync_status ≡ condition_false)
      × (run.sync_status_reason ≡ reason)
      × (run.requeue ≡ false)
      × (is_some run.error ≡ true)

  try_credentials-IsError :
      (secret : Secret) (c : Credentials) (run : Run) (s : S) {run' : Run} {t : S}
      → try_credentials client secret c run s ≡ (stop run', t)
      → IsError "InputError" run'
  unfolding try_credentials try_clusters return_error
  try_credentials-IsError secret c run s h = ground arith

  secret-IsError_of :
      (r : Result Credentials) (run : Run) (secret : Secret) (u : S) {run' : Run} {t : S}
      → read_credentials secret ≡ r
      → validate_secret client run (ok secret, u) ≡ (stop run', t)
      → IsError "InputError" run'
  unfolding validate_secret return_error
  secret-IsError_of (err e) run secret u er h = ground arith
  secret-IsError_of (ok c) run secret u {run' = run'} {t = t} er h =
      try_credentials-IsError secret c run u {run' = run'} {t = t} (ground arith)

  -- By the answer to the read of the secret.
  abbrev pub Refused : Result Secret → Run → Type 0
  Refused (err e) run = IsError "BackendError" run × (run.error ≡ some e)
  Refused (ok secret) run = IsError "InputError" run

  secret-Refused :
      (x : Result Secret × S) (run : Run) {run' : Run} {t : S}
      → validate_secret client run x ≡ (stop run', t)
      → Refused x.0 run'
  unfolding validate_secret credentials_error return_error
  secret-Refused (err e, u) run h = ground arith
  secret-Refused (ok secret, u) run h = secret-IsError_of _ run secret u refl h

  -- A reconciliation that the check of the credentials stops ends with an error, a false condition
  -- and no new reconciliation. The reason is "BackendError" with the error of the read wherever the
  -- secret was not read, also where it does not exist, and "InputError" wherever it was read.
  pub validate_aws_parameter-Refused :
      (run : Run) (s : S) {run' : Run} {t : S}
      → validate_aws_parameter client run s ≡ (stop run', t)
      → Refused
          (client.get_secret
            (record {
              namespace = run.inventory.meta.namespace;
              name = run.inventory.credentials_ref;
            })
            s).0
          run'
  unfolding validate_aws_parameter
  validate_aws_parameter-Refused run s h = secret-Refused _ run h
