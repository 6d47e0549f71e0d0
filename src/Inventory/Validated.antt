-- ===== src/Inventory/Validated.antt =====
-- What validateAWSParameter has found when it goes on, and what it reports when it stops.
use mathlib.Core.Path.{subst}
use rds_dbaas_operator.Prelude.{sym, ap, ◌∙◌, String, ◌≡◌, ◌≢◌, refl, eq_iff, none, some, arith}
use rds_dbaas_operator.K8s.{Result, ok, err, go, Secret, lookup_nil}
use rds_dbaas_operator.Inventory.Run.{Client, Credentials, Run}
use rds_dbaas_operator.Inventory.Validate.{
  required, read_credentials, try_clusters, try_credentials, validate_secret,
  validate_aws_parameter,
}

-- A secret has a value that is not empty under a key.
abbrev pub Holds : Secret → String → String → Type 0
Holds secret key v = (lookup_nil key secret.entries ≡ some v) × (v ≢ "")

required-Holds :
    (key : String) (secret : Secret) (v : String) → required key secret ≡ ok v → Holds secret key v
unfolding required
required-Holds key secret v h = ground (arith, eq_iff v "")

ok-injective : {c d : Credentials} → ok c ≡ ok d → c ≡ d
ok-injective h = ground arith

-- The credentials of a secret.
pub record Read (secret : Secret) (c : Credentials) : Type 0 where
  pub access : Holds secret "AWS_ACCESS_KEY_ID" c.access_key
  pub key : Holds secret "AWS_SECRET_ACCESS_KEY" c.secret_key
  pub region : Holds secret "AWS_REGION" c.region

same_credentials :
    (secret : Secret) (access key region : String) {c : Credentials}
    → ok (record { access_key = access; secret_key = key; region = region }) ≡ ok c
    → Holds secret "AWS_ACCESS_KEY_ID" access
    → Holds secret "AWS_SECRET_ACCESS_KEY" key
    → Holds secret "AWS_REGION" region
    → Read secret c
same_credentials secret access key region e h₁ h₂ h₃ =
    subst (Read secret) (ok-injective e) (record { access = h₁; key = h₂; region = h₃ })

three_parts :
    (a k r : Result String) (secret : Secret) {c : Credentials}
    → required "AWS_ACCESS_KEY_ID" secret ≡ a
    → required "AWS_SECRET_ACCESS_KEY" secret ≡ k
    → required "AWS_REGION" secret ≡ r
    → read_credentials secret ≡ ok c
    → Read secret c
unfolding read_credentials
three_parts (err _) k r secret ea ek er h = ground arith
three_parts (ok a) (err _) r secret ea ek er h = ground arith
three_parts (ok a) (ok k) (err _) secret ea ek er h = ground arith
three_parts (ok a) (ok k) (ok r) secret ea ek er h =
    same_credentials secret a k r (ground arith) (required-Holds _ secret a ea)
      (required-Holds _ secret k ek) (required-Holds _ secret r er)

module _ {S : Type 0} (client : Client S) where
  try_credentials-go :
      (secret : Secret) (c : Credentials) (run : Run) (s : S) {secret' : Secret} {c' : Credentials}
      {t : S}
      → try_credentials client secret c run s ≡ (go (secret', c'), t)
      → (secret' ≡ secret)
        × (c' ≡ c)
        × (u : S) × (client.describe_db_instances c s ≡ (none, u))
        × (client.describe_db_clusters c u ≡ (none, t))
  unfolding try_credentials try_clusters
  try_credentials-go secret c run s h =
      (ground arith, ground arith, (client.describe_db_instances c s).1, ground arith, ground arith)

  -- What stands behind a secret and credentials that were accepted from state `s`, with `t` left.
  pub record Accepted (run : Run) (secret : Secret) (c : Credentials) (s t : S) : Type 0 where
    pub u : S
    pub v : S
    pub got_secret :
        client.get_secret
          (record {
            namespace = run.inventory.meta.namespace;
            name = run.inventory.credentials_ref;
          })
          s
        ≡ (ok secret, u)
    pub reads : Read secret c
    pub instances_ok : client.describe_db_instances c u ≡ (none, v)
    pub clusters_ok : client.describe_db_clusters c v ≡ (none, t)

  secret-Accepted_of :
      (r : Result Credentials) (run : Run) (secret : Secret) (u : S) {secret' : Secret}
      {c : Credentials} {t : S}
      → read_credentials secret ≡ r
      → validate_secret client run (ok secret, u) ≡ (go (secret', c), t)
      → (secret' ≡ secret)
        × Read secret c
        × (v : S) × (client.describe_db_instances c u ≡ (none, v))
        × (client.describe_db_clusters c v ≡ (none, t))
  unfolding validate_secret
  secret-Accepted_of (err e) run secret u er h = ground arith
  secret-Accepted_of (ok c) run secret u {secret' = secret'} {c = c'} {t = t} er h =
      let (same_secret, same, v, e, e') =
        try_credentials-go secret c run u {secret' = secret'} {c' = c'} {t = t} (ground arith) in
      (
        same_secret,
        three_parts _ _ _ secret refl refl refl (er ∙ ap ok (sym same)),
        v,
        ap (λ d. client.describe_db_instances d u) same ∙ e,
        ap (λ d. client.describe_db_clusters d v) same ∙ e',
      )

  validate-Accepted_of :
      (x : Result Secret × S) (run : Run) (s : S) {secret' : Secret} {c : Credentials} {t : S}
      → client.get_secret
          (record {
            namespace = run.inventory.meta.namespace;
            name = run.inventory.credentials_ref;
          })
          s
        ≡ x
      → validate_secret client run x ≡ (go (secret', c), t)
      → Accepted run secret' c s t
  unfolding validate_secret
  validate-Accepted_of (err e, u) run s ex h = ground arith
  validate-Accepted_of (ok secret, u) run s {c = c} ex h =
      let (same, read, v, e, e') = secret-Accepted_of _ run secret u refl h in
      record {
        u = u;
        v = v;
        got_secret = ex ∙ ap (λ x. (ok x, u)) (sym same);
        reads = subst (λ x. Read x c) (sym same) read;
        instances_ok = e;
        clusters_ok = e';
      }

  -- The secret and the credentials with which the reconciliation goes on are the inventory's secret
  -- and its three values, none of them empty, and AWS has accepted them for instances and then for
  -- clusters.
  pub validate_aws_parameter-Accepted :
      (run : Run) (s : S) {secret : Secret} {c : Credentials} {t : S}
      → validate_aws_parameter client run s ≡ (go (secret, c), t)
      → Accepted run secret c s t
  unfolding validate_aws_parameter
  validate_aws_parameter-Accepted run s h = validate-Accepted_of _ run s refl h
