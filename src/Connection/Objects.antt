-- ===== src/Connection/Objects.antt =====
-- controllers/rdsconnection_controller.go: the secret and the configmap of a connection. `none`
-- stands for a panic, the dereference of a nil pointer.
pub mod Entries
use rds_dbaas_operator.Prelude.{String, Option, none, some, [], ◌∷◌, Dict, insert, ◌<>◌}
use rds_dbaas_operator.Go.Strconv.{ℤ, pos, format_int}
use rds_dbaas_operator.K8s.{Result, ok, err, ObjectMeta, new_meta, Secret, ConfigMap}
use rds_dbaas_operator.Crd.{RdsConnection}
use rds_dbaas_operator.DbUtils.Engine.{
  generate_binding_type, get_default_db_name, get_default_db_port,
}

-- The callback of controllerutil.CreateOrUpdate.
abbrev pub Mutate : Type 0 → Type 0
Mutate A = A → Option (Result A)

-- `controllerutil.CreateOrUpdate` on secrets and configmaps, which applies the callback to the
-- object that is there, or to the given one, and writes it; `ctrl.SetControllerReference`; and the
-- label of dbaasv1beta1.
pub record ObjectClient (S : Type 0) : Type 0 where
  pub create_or_update_secret : Secret → Mutate Secret → S → Option (Result Secret) × S
  pub create_or_update_config_map : ConfigMap → Mutate ConfigMap → S → Option (Result ConfigMap) × S
  pub set_controller_reference : RdsConnection → ObjectMeta → Result ObjectMeta
  pub type_label_key : String
  pub type_label_value : String

abbrev pub database_provider : String
database_provider = "Red Hat DBaaS / Amazon Relational Database Service (RDS)"

unfoldable pub set_secret : Option String → String → Secret → Option Secret
set_secret none password secret = none
set_secret (some username) password secret =
    some (record secret { entries = some (("username", username) ∷ ("password", password) ∷ []) })

-- `if v != nil { m[key] = *v }`
unfoldable pub insert_some : String → Option String → Dict String → Dict String
insert_some key none m = m
insert_some key (some v) m = insert key v m

-- The name of the database: the service's, or the engine's default.
unfoldable pub database_entry : Option String → Option String → Option String
database_entry engine (some db_name) = some db_name
database_entry (some engine) none = get_default_db_name engine
database_entry none none = none

-- The port: the service's, or the engine's default.
unfoldable pub port_entry : Option String → Option ℤ → Option String
port_entry engine (some port) = some (format_int port)
port_entry (some engine) none = elim (get_default_db_port engine) [
  | none ↦ none
  | some p ↦ some (format_int (pos p))
]
port_entry none none = none

-- `*engine` and `*host` are dereferenced.
unfoldable pub set_config_map :
    Option String → Option String → Option String → Option ℤ → ConfigMap → Option ConfigMap
set_config_map none db_name host port cm = none
set_config_map (some engine) db_name none port cm = none
set_config_map (some engine) db_name (some host) port cm = some (record cm {
  entries = some (
      insert_some "port" (port_entry (some engine) port) (
        insert_some "database" (database_entry (some engine) db_name) (
          ("type", generate_binding_type engine)
          ∷ ("provider", database_provider)
          ∷ ("host", host)
          ∷ [])));
})

-- A copy of the annotations with the four of the operator.
unfoldable pub build_connection_annotations : RdsConnection → ObjectMeta → Dict String
build_connection_annotations connection obj = insert "owner.namespace" connection.meta.namespace (
    insert "owner.kind" connection.kind (
      insert "owner" connection.meta.name (
        insert "managed-by" "rds-dbaas-operator"
          (elim obj.annotations [ none ↦ [] | some m ↦ m ]))))

module _ {S : Type 0} (client : ObjectClient S) where
  unfoldable pub build_connection_labels : Dict String
  build_connection_labels = (client.type_label_key, client.type_label_value) ∷ []

  -- The metadata that both callbacks write.
  unfoldable pub connection_meta : RdsConnection → ObjectMeta → Result ObjectMeta
  unfolding build_connection_labels
  connection_meta connection obj = client.set_controller_reference connection (record obj {
    labels = some build_connection_labels;
    annotations = some (build_connection_annotations connection obj);
  })

  unfoldable pub mutate_secret : RdsConnection → Option String → String → Mutate Secret
  mutate_secret connection username password secret =
      elim (connection_meta connection secret.meta) [
        | err e ↦ some (err e)
        | ok meta ↦ elim (set_secret username password (record secret { meta = meta })) [
          | none ↦ none
          | some secret' ↦ some (ok secret')
        ]
      ]

  unfoldable pub create_or_update_secret :
      RdsConnection → Option String → String → S → Option (Result Secret) × S
  create_or_update_secret connection username password s =
      client.create_or_update_secret
        (record {
          meta = new_meta (connection.meta.name <> "-credentials") connection.meta.namespace;
          entries = none;
        })
        (mutate_secret connection username password) s

  unfoldable pub mutate_config_map :
      RdsConnection → Option String → Option String → Option String → Option ℤ → Mutate ConfigMap
  mutate_config_map connection engine db_name host port cm =
      elim (connection_meta connection cm.meta) [
        | err e ↦ some (err e)
        | ok meta ↦ elim (set_config_map engine db_name host port (record cm { meta = meta })) [
          | none ↦ none
          | some cm' ↦ some (ok cm')
        ]
      ]

  unfoldable pub create_or_update_config_map :
      RdsConnection
      → Option String
      → Option String
      → Option String
      → Option ℤ
      → S
      → Option (Result ConfigMap) × S
  create_or_update_config_map connection engine db_name host port s =
      client.create_or_update_config_map
        (record {
          meta = new_meta (connection.meta.name <> "-configs") connection.meta.namespace;
          entries = none;
        })
        (mutate_config_map connection engine db_name host port) s
