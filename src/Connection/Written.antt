-- ===== src/Connection/Written.antt =====
-- What syncConnectionStatus has written when it goes on.
use rds_dbaas_operator.Prelude.{String, ◌≡◌, refl, Option, none, some, [], ◌∷◌, Dict, lookup, arith}
use rds_dbaas_operator.Go.Strconv.{ℤ}
use rds_dbaas_operator.K8s.{Result, ok, err, ObjectMeta, Secret, ConfigMap, go}
use rds_dbaas_operator.Crd.{RdsConnection}
use rds_dbaas_operator.DbUtils.Engine.{generate_binding_type}
use rds_dbaas_operator.Connection.Objects.{
  ObjectClient, Mutate, mutate_secret, mutate_config_map, set_secret, set_config_map,
  create_or_update_secret, create_or_update_config_map, connection_meta,
}
use rds_dbaas_operator.Connection.Objects.Entries.{set_config_map-entries}
use rds_dbaas_operator.Connection.Run.{Client, Run}
use rds_dbaas_operator.Connection.Access.{Access}
use rds_dbaas_operator.Connection.Sync.{write_objects}

-- CreateOrUpdate succeeds with an object that its callback has made: the object's desired state is
-- reconciled with the existing one inside the callback, whose errors it returns.
pub record ObjectLaws {S : Type 0} (client : ObjectClient S) : Type 0 where
  pub secret-mutated :
      (secret : Secret) (mutate : Mutate Secret) (s : S) {secret' : Secret}
      → (client.create_or_update_secret secret mutate s).0 ≡ some (ok secret')
      → (found : Secret) × (mutate found ≡ some (ok secret'))
  pub config_map-mutated :
      (cm : ConfigMap) (mutate : Mutate ConfigMap) (s : S) {cm' : ConfigMap}
      → (client.create_or_update_config_map cm mutate s).0 ≡ some (ok cm')
      → (found : ConfigMap) × (mutate found ≡ some (ok cm'))

mutate_secret-ok :
    {S : Type 0} (client : ObjectClient S) (c : RdsConnection) (username : Option String)
    (password : String) (found : Secret) {secret : Secret}
    → mutate_secret client c username password found ≡ some (ok secret)
    → (u : String) × (username ≡ some u)
      × (secret.entries ≡ some (("username", u) ∷ ("password", password) ∷ []))
unfolding mutate_secret set_secret
mutate_secret-ok client c none password found h = ground arith
mutate_secret-ok client c (some u) password found h = (u, refl, ground arith)

mutate_config_map-ok_of :
    {S : Type 0} (client : ObjectClient S) (c : RdsConnection) (engine db_name host : Option String)
    (port : Option ℤ) (found : ConfigMap) {cm : ConfigMap} (r : Result ObjectMeta)
    → connection_meta client c found.meta ≡ r
    → mutate_config_map client c engine db_name host port found ≡ some (ok cm)
    → (meta : ObjectMeta) × (set_config_map engine db_name host port (record found { meta = meta })
        ≡ some cm)
unfolding mutate_config_map
mutate_config_map-ok_of client c engine db_name host port found (err e) er h = ground (arith, er)
mutate_config_map-ok_of client c engine db_name host port found (ok meta) er h =
    (meta, ground (arith, er))

-- What the configmap of a connection says.
pub record Describes (cm : ConfigMap) (access : Access) : Type 0 where
  pub engine : String
  pub host : String
  pub m : Dict String
  pub has_engine : access.engine ≡ some engine
  pub has_host : access.host ≡ some host
  pub has_entries : cm.entries ≡ some m
  pub type : lookup "type" m ≡ some (generate_binding_type engine)
  pub at_host : lookup "host" m ≡ some host

set_config_map-some :
    (engine db_name host : Option String) (port : Option ℤ) (found : ConfigMap) {cm : ConfigMap}
    → set_config_map engine db_name host port found ≡ some cm
    → (e : String) × (h : String) × (m : Dict String) × (engine ≡ some e)
      × (host ≡ some h)
      × (cm.entries ≡ some m)
      × (lookup "type" m ≡ some (generate_binding_type e))
      × (lookup "host" m ≡ some h)
unfolding set_config_map
set_config_map-some none db_name host port found h = ground arith
set_config_map-some (some e) db_name none port found h = ground arith
set_config_map-some (some e) db_name (some a) port found h =
    let (m, same, type, _, host, _, _) = set_config_map-entries e a db_name port found in
    (e, a, m, refl, refl, ground (arith, same, h), type, host)

set_config_map-Describes :
    (access : Access) (found : ConfigMap) {cm : ConfigMap}
    → set_config_map access.engine access.db_name access.host access.port found ≡ some cm
    → Describes cm access
set_config_map-Describes access found h =
    let (e, a, m, has_engine, has_host, has_entries, type, at_host) =
      set_config_map-some access.engine access.db_name access.host access.port found h in
    record {
      engine = e;
      host = a;
      m = m;
      has_engine = has_engine;
      has_host = has_host;
      has_entries = has_entries;
      type = type;
      at_host = at_host;
    }

module _ {S : Type 0} (client : Client S) (laws : ObjectLaws client.objects) where
  write_objects-calls :
      (access : Access) (password : String) (run : Run) (s : S) {secret : Secret} {cm : ConfigMap}
      {t : S}
      → write_objects client access password run s ≡ (go (secret, cm), t)
      → ((create_or_update_secret client.objects run.connection access.username password s).0
          ≡ some (ok secret))
        × ((create_or_update_config_map client.objects run.connection access.engine access.db_name
              access.host access.port
              (create_or_update_secret client.objects run.connection access.username password
                s).1).0
            ≡ some (ok cm))
  unfolding write_objects
  write_objects-calls access password run s h = ground arith

  -- The objects that are written, if the handler goes on and CreateOrUpdate
  -- succeeds only with an object that its callback has made: the secret holds exactly the service's
  -- user name and the password, and the configmap the binding type of the service's engine and its
  -- host. A service without an engine, a user name or a host never gets that far.
  pub write_objects-Describes :
      (access : Access) (password : String) (run : Run) (s : S) {secret : Secret} {cm : ConfigMap}
      {t : S}
      → write_objects client access password run s ≡ (go (secret, cm), t)
      → (username : String) × (access.username ≡ some username)
        × (secret.entries ≡ some (("username", username) ∷ ("password", password) ∷ []))
        × Describes cm access
  unfolding create_or_update_secret create_or_update_config_map
  write_objects-Describes access password run s h =
      let (e, e') = write_objects-calls access password run s h in
      let (found, mutated) =
        laws.secret-mutated _ (mutate_secret client.objects run.connection access.username password)
          s e in
      let (found', mutated') =
        laws.config_map-mutated _
          (mutate_config_map client.objects run.connection access.engine access.db_name access.host
            access.port)
          _ e' in
      let (username, has_username, holds) =
        mutate_secret-ok client.objects run.connection access.username password found mutated in
      let (meta, set) =
        mutate_config_map-ok_of client.objects run.connection access.engine access.db_name
          access.host access.port found' _ refl mutated' in
      (
        username,
        has_username,
        holds,
        set_config_map-Describes access (record found' { meta = meta }) set,
      )
