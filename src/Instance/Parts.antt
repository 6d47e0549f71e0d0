-- ===== src/Instance/Parts.antt =====
-- What each part of setDBInstanceSpec sets and what it leaves as it is.
use rds_dbaas_operator.Prelude.{
  refl, String, ◌≡◌, true, Option, none, some, is_some, Dict, lookup, arith,
}
use rds_dbaas_operator.K8s.{err, Result, SecretKeyReference, ok, Secret}
use rds_dbaas_operator.Ack.Instance.{DbInstanceSpec}
use rds_dbaas_operator.Instance.Patterns.{valid_identifier}
use rds_dbaas_operator.Instance.Run.{Client, ProvisioningKeys}
use rds_dbaas_operator.RdsUtils.Credentials.{Owner, set_credentials, credentials_name}
use rds_dbaas_operator.K8s.Results.{split_chain}
use rds_dbaas_operator.DbUtils.Engine.{generate_db_name}
use rds_dbaas_operator.Ack.Instance.{DbInstance}
use rds_dbaas_operator.Crd.{RdsInstance}
use rds_dbaas_operator.Prelude.{◌∙◌}
use rds_dbaas_operator.Instance.Spec.{
  set_availability_zone, set_engine, set_engine_version, set_front, set_identifier, set_storage,
  set_network, set_rest, set_access, named, set_master_user, engine_of, zone_for,
}

-- The identifier before and after: one that is there stays, a given one is valid and is taken, and
-- otherwise there is one.
abbrev pub Identified : Option String → Option String → Option String → Type 0
Identified (some old) given new = new ≡ some old
Identified none (some id) new = (valid_identifier id ≡ true) × (new ≡ some id)
Identified none none new = is_some new ≡ true

-- Both specs are of the same database.
pub record SameDatabase (a b : DbInstanceSpec) : Type 0 where
  pub engine : b.engine ≡ a.engine
  pub availability_zone : b.availability_zone ≡ a.availability_zone
  pub identifier : b.db_instance_identifier ≡ a.db_instance_identifier

module _ (keys : ProvisioningKeys) (params : Dict String) where
  zone-ok :
      (secret : Secret) (spec : DbInstanceSpec) {spec' : DbInstanceSpec}
      → set_availability_zone keys params secret spec ≡ ok spec'
      → (is_some spec'.availability_zone ≡ true)
        × (spec'.db_instance_identifier ≡ spec.db_instance_identifier)
  unfolding set_availability_zone zone_for
  zone-ok secret spec h = ground arith

  engine-ok :
      (spec : DbInstanceSpec) {spec' : DbInstanceSpec}
      → set_engine keys params spec ≡ ok spec'
      → (is_some spec'.engine ≡ true)
        × (spec'.engine ≡ lookup keys.database_type params)
        × (spec'.availability_zone ≡ spec.availability_zone)
        × (spec'.db_instance_identifier ≡ spec.db_instance_identifier)
  unfolding set_engine
  engine-ok spec h = ground arith

  storage-ok :
      (spec : DbInstanceSpec) {spec' : DbInstanceSpec}
      → set_storage keys params spec ≡ ok spec'
      → SameDatabase spec spec'
  unfolding set_storage
  storage-ok spec h = ground arith

  network-ok :
      (spec : DbInstanceSpec) {spec' : DbInstanceSpec}
      → set_network keys params spec ≡ ok spec'
      → SameDatabase spec spec'
  unfolding set_network
  network-ok spec h = ground arith

module _ {S : Type 0} (client : Client S) where
  pub identifier-ok :
      (params : Dict String) (spec : DbInstanceSpec) (s : S) {spec' : DbInstanceSpec}
      → (set_identifier client params spec s).0 ≡ ok spec'
      → Identified spec.db_instance_identifier
          (lookup client.keys.name params)
          spec'.db_instance_identifier
        × (spec'.engine ≡ spec.engine)
        × (spec'.availability_zone ≡ spec.availability_zone)
  unfolding set_identifier
  identifier-ok params spec s h = ground arith

  credentials-ok :
      {X : Type 0} (name namespace : String) (owner : Option Owner) (kind : String)
      (set_spec : String → X → X) (x : X) (s : S) {secret : Secret} {x' : X} {t : S}
      → set_credentials client.secrets name namespace owner kind set_spec x s
        ≡ (some (ok (secret, x')), t)
      → x' ≡ set_spec (credentials_name name) x
  unfolding set_credentials
  credentials-ok name namespace owner kind set_spec x s h = ground arith

  pub front-ok :
      (secret : Secret) (params : Dict String) (spec : DbInstanceSpec) {spec' : DbInstanceSpec}
      → set_front client secret params spec ≡ ok spec'
      → (is_some spec'.engine ≡ true)
        × (spec'.engine ≡ lookup client.keys.database_type params)
        × (is_some spec'.availability_zone ≡ true)
        × (spec'.db_instance_identifier ≡ spec.db_instance_identifier)
  unfolding set_front set_engine_version
  front-ok secret params spec h =
      let zoned = split_chain (set_availability_zone client.keys params secret spec) _ h in
      let named =
        split_chain (set_engine client.keys params zoned.between)
          (λ a. ok (set_engine_version client.keys params a)) zoned.next_ok in
      ground (
        arith,
        named.next_ok,
        zone-ok client.keys params secret spec zoned.first_ok,
        engine-ok client.keys params zoned.between named.first_ok,
      )

  pub rest-ok :
      (params : Dict String) (spec : DbInstanceSpec) {spec' : DbInstanceSpec}
      → set_rest client params spec ≡ ok spec'
      → SameDatabase spec spec'
  unfolding set_rest
  rest-ok params spec h =
      let stored = split_chain _ _ h in
      let a = storage-ok client.keys params spec stored.first_ok in
      let b = network-ok client.keys params stored.between stored.next_ok in
      record {
        engine = b.engine ∙ a.engine;
        availability_zone = b.availability_zone ∙ a.availability_zone;
        identifier = b.identifier ∙ a.identifier;
      }

  -- The call of setCredentials in setDBInstanceSpec.
  abbrev credentials :
      RdsInstance → DbInstance → DbInstanceSpec → S → Option (Result (Secret × DbInstanceSpec)) × S
  credentials i db spec s =
      set_credentials client.secrets db.meta.name i.meta.namespace
        (some (record { name = i.meta.name; namespace = i.meta.namespace })) i.kind
        (set_master_user (engine_of spec) i.meta.namespace) spec s

  -- The reference to the secret with the password of a database.
  abbrev pub password_ref : RdsInstance → DbInstance → SecretKeyReference
  password_ref i db = record {
    name = credentials_name db.meta.name;
    namespace = i.meta.namespace;
    key = "password";
  }

  abbrev pub Accessed : RdsInstance → DbInstance → DbInstanceSpec → DbInstanceSpec → Type 0
  Accessed i db spec spec' =
      SameDatabase spec spec'
      × (spec'.db_name ≡ generate_db_name (engine_of spec))
      × (spec'.master_user_password ≡ some (password_ref i db))

  access-ok_of :
      (r : Option (Result (Secret × DbInstanceSpec)) × S) (i : RdsInstance) (db : DbInstance)
      (spec : DbInstanceSpec) (s : S) {db' : DbInstance} {t : S}
      → credentials i db spec s ≡ r
      → set_access client i db spec s ≡ (some (ok db'), t)
      → Accessed i db spec db'.spec
  unfolding set_access named set_master_user
  access-ok_of (none, u) i db spec s er h = ground arith
  access-ok_of (some (err e), u) i db spec s er h = ground arith
  access-ok_of (some (ok (secret, spec')), u) i db spec s er h = ground (
    arith,
    credentials-ok db.meta.name i.meta.namespace
        (some (record { name = i.meta.name; namespace = i.meta.namespace })) i.kind
        (set_master_user (engine_of spec) i.meta.namespace) spec s er,
  )

  pub access-ok :
      (i : RdsInstance) (db : DbInstance) (spec : DbInstanceSpec) (s : S) {db' : DbInstance} {t : S}
      → set_access client i db spec s ≡ (some (ok db'), t)
      → Accessed i db spec db'.spec
  access-ok i db spec s h = access-ok_of _ i db spec s refl h
