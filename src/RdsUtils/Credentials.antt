-- ===== src/RdsUtils/Credentials.antt =====
-- controllers/rds_utils.go: setCredentials, which sees to it that a secret with a master password
-- exists. The client's calls and the sources of randomness are parameters over the state `S`. No
-- result is a panic of the generator.
use rds_dbaas_operator.Prelude.{
  String, Option, none, some, [], ◌∷◌, Dict, lookup, insert, ◌<>◌, if◌then◌else◌,
}
use rds_dbaas_operator.DbUtils.Password.{Random, Draw, and_then, ◌>>=◌, pure, generate_password}
use rds_dbaas_operator.K8s.{Result, ok, err, is_not_found, NamespacedName, Secret, new_meta}
use rds_dbaas_operator.RdsUtils.Bytes.{text_of}

-- The name and the namespace of the object that owns the secret.
pub record Owner : Type 0 where
  pub name : String
  pub namespace : String

-- `client.Client` on secrets: Get, Create and Update write the server's object back.
-- `ctrl.SetControllerReference` writes the owner into the secret's metadata.
pub record SecretClient (S : Type 0) : Type 0 where
  pub get_secret : NamespacedName → S → Result Secret × S
  pub create_secret : Secret → S → Result Secret × S
  pub update_secret : Secret → S → Result Secret × S
  pub set_controller_reference : Owner → Secret → Result Secret
  pub random : Random S
  -- dbaasv1beta1.TypeLabelKey and TypeLabelValue
  pub type_label_key : String
  pub type_label_value : String

abbrev pub password_key : String
password_key = "password"

abbrev pub credentials_name : String → String
credentials_name name = name <> "-credentials"

unfoldable pub create_secret_annotations : Option Owner → String → Option (Dict String)
create_secret_annotations none kind = none
create_secret_annotations (some owner) kind = some (
    ("managed-by", "rds-dbaas-operator")
    ∷ ("owner", owner.name)
    ∷ ("owner.kind", kind)
    ∷ ("owner.namespace", owner.namespace)
    ∷ [])

-- `secret.Data`, where nil is replaced by an empty map.
abbrev pub data_of : Secret → Dict String
data_of secret = elim secret.entries [ none ↦ [] | some m ↦ m ]

module _ {S : Type 0} (client : SecretClient S) where
  -- `[]byte(generatePassword())`
  unfoldable pub new_password : Draw S String
  unfolding text_of generate_password
  new_password = do password ← generate_password client.random; pure (text_of password)

  unfoldable pub create_secret_labels : Dict String
  create_secret_labels = (client.type_label_key, client.type_label_value) ∷ []

  -- The owner reference, if there is an owner.
  unfoldable pub set_owner : Option Owner → Secret → Result Secret
  set_owner none secret = ok secret
  set_owner (some owner) secret = client.set_controller_reference owner secret

  -- The new secret, before its owner is set and its password is generated.
  unfoldable pub blank_secret : String → String → Option Owner → String → Secret
  unfolding create_secret_labels create_secret_annotations
  blank_secret secret_name namespace owner kind = record {
    meta = record (new_meta secret_name namespace) {
      labels = some create_secret_labels;
      annotations = create_secret_annotations owner kind;
    };
    entries = none;
  }

  -- The write of a secret, behind the password.
  abbrev pub answered : Result Secret × S → Option (Result Secret) × S
  answered (r, s) = (some r, s)

  -- The branch of errors.IsNotFound: a new secret with a generated password.
  unfoldable pub create_credentials :
      String → String → Option Owner → String → S → Option (Result Secret) × S
  create_credentials secret_name namespace owner kind s =
      elim (set_owner owner (blank_secret secret_name namespace owner kind)) [
        | err e ↦ (some (err e), s)
        | ok secret ↦ and_then (new_password s) (λ password s. answered (
            client.create_secret (record secret { entries = some ((password_key, password) ∷ []) })
              s))
      ]

  -- The secret that is there, or a new one.
  unfoldable pub get_or_create :
      String → String → Option Owner → String → S → Option (Result Secret) × S
  get_or_create secret_name namespace owner kind s =
      let (r, s') = client.get_secret (record { namespace = namespace; name = secret_name }) s in
      elim r [
        | ok secret ↦ (some (ok secret), s')
        | err e ↦
            if is_not_found e
            then create_credentials secret_name namespace owner kind s'
            else (some (err e), s')
      ]

  -- A password is generated where the secret has none.
  unfoldable pub ensure_password : Secret → S → Option (Result Secret) × S
  ensure_password secret s = elim (lookup password_key (data_of secret)) [
    | some _ ↦ (some (ok (record secret { entries = some (data_of secret) })), s)
    | none ↦ and_then (new_password s) (λ password s. answered (
        client.update_secret
          (record secret { entries = some (insert password_key password (data_of secret)) }) s))
  ]

  -- `if e := …; e != nil { return nil, e }`
  abbrev pub or_return :
      {A B : Type 0}
      → Option (Result A) × S
      → (A → S → Option (Result B) × S)
      → Option (Result B) × S
  or_return (none, s) f = (none, s)
  or_return (some (err e), s) f = (some (err e), s)
  or_return (some (ok a), s) f = f a s

  -- `set_spec` is the callback that writes the secret's name into the caller's object.
  unfoldable pub set_credentials :
      {X : Type 0}
      → String
      → String
      → Option Owner
      → String
      → (String → X → X)
      → X
      → S
      → Option (Result (Secret × X)) × S
  set_credentials name namespace owner kind set_spec x s =
      or_return (get_or_create (credentials_name name) namespace owner kind s) (λ secret s.
        or_return (ensure_password secret s)
          (λ secret s. (some (ok (secret, set_spec (credentials_name name) x)), s)))
