-- ===== src/Instance/Specified.antt =====
-- What the spec of a database says once setDBInstanceSpec has succeeded.
use mathlib.Core.Path.{subst}
use rds_dbaas_operator.Prelude.{
  String, ◌≡◌, refl, sym, ◌∙◌, ap, true, Option, none, some, is_some, lookup, arith,
}
use rds_dbaas_operator.K8s.{Result, ok, err, Secret}
use rds_dbaas_operator.Ack.Instance.{DbInstance, DbInstanceSpec}
use rds_dbaas_operator.Crd.{RdsInstance}
use rds_dbaas_operator.DbUtils.Engine.{generate_db_name}
use rds_dbaas_operator.Instance.Run.{Client}
use rds_dbaas_operator.Instance.Spec.{
  set_front, set_identifier, set_rest, set_behind, set_db_instance_spec, engine_of,
}
use rds_dbaas_operator.Instance.Parts.{
  SameDatabase, Identified, password_ref, Accessed, identifier-ok, front-ok, rest-ok, access-ok,
}

module _ {S : Type 0} (client : Client S) where
  rest-Accessed_of :
      (r : Result DbInstanceSpec) (db : DbInstance) (i : RdsInstance) (spec : DbInstanceSpec)
      (s : S) {db' : DbInstance} {t : S}
      → set_rest client i.provisioning_parameters spec ≡ r
      → set_behind client db i (ok spec, s) ≡ (some (ok db'), t)
      → (spec' : DbInstanceSpec) × (SameDatabase spec spec') × Accessed client i db spec' db'.spec
  unfolding set_behind
  rest-Accessed_of (err e) db i spec s er h = ground arith
  rest-Accessed_of (ok spec') db i spec s {db' = db'} {t = t} er h = (
    spec',
    rest-ok client i.provisioning_parameters spec er,
    access-ok client i db spec' s {db' = db'} {t = t} (ground arith),
  )

  -- What the steps behind the identifier leave as it is, and what they set.
  Kept : RdsInstance → DbInstance → DbInstanceSpec → DbInstanceSpec → Type 0
  Kept i db spec spec' =
      (spec'.engine ≡ spec.engine)
      × (spec'.availability_zone ≡ spec.availability_zone)
      × (spec'.db_instance_identifier ≡ spec.db_instance_identifier)
      × (spec'.db_name ≡ generate_db_name (engine_of spec))
      × (spec'.master_user_password ≡ some (password_ref client i db))

  behind-Kept :
      (db : DbInstance) (i : RdsInstance) (x : Result DbInstanceSpec × S) {db' : DbInstance} {t : S}
      → set_behind client db i x ≡ (some (ok db'), t)
      → (spec : DbInstanceSpec) × (x.0 ≡ ok spec) × Kept i db spec db'.spec
  unfolding set_behind Kept
  behind-Kept db i (err e, s) h = ground arith
  behind-Kept db i (ok spec, s) h =
      let (spec', a, (b, name, password)) = rest-Accessed_of _ db i spec s refl h in
      (
        spec,
        refl,
        (
          b.engine ∙ a.engine,
          b.availability_zone ∙ a.availability_zone,
          b.identifier ∙ a.identifier,
          name ∙ ap (λ e. generate_db_name (elim e [ none ↦ "" | some n ↦ n ])) a.engine,
          password,
        ),
      )

  -- A spec that is complete for an instance's parameters and for what stood there before.
  pub record Specified (db : DbInstance) (i : RdsInstance) (spec : DbInstanceSpec) : Type 0 where
    pub has_engine : is_some spec.engine ≡ true
    pub given_engine : spec.engine ≡ lookup client.keys.database_type i.provisioning_parameters
    pub has_zone : is_some spec.availability_zone ≡ true
    pub identified :
        Identified db.spec.db_instance_identifier
          (lookup client.keys.name i.provisioning_parameters)
          spec.db_instance_identifier
    pub named : spec.db_name ≡ generate_db_name (engine_of spec)
    pub has_password : spec.master_user_password ≡ some (password_ref client i db)

  complete_spec :
      (r : Result DbInstanceSpec) (db : DbInstance) (i : RdsInstance) (secret : Secret) (s : S)
      {db' : DbInstance} {t : S}
      → set_front client secret i.provisioning_parameters db.spec ≡ r
      → set_db_instance_spec client db i secret s ≡ (some (ok db'), t)
      → Specified db i db'.spec
  unfolding set_db_instance_spec Kept
  complete_spec (err e) db i secret s er h = ground arith
  complete_spec (ok front) db i secret s {db' = db'} {t = t} er h =
      let (engine, given, zone, kept) =
        front-ok client secret i.provisioning_parameters db.spec er in
      let (spec, e, (k₁, k₂, k₃, k₄, k₅)) =
        behind-Kept db i (set_identifier client i.provisioning_parameters front s) {db' = db'}
          {t = t} (ground arith) in
      let (identified, same_engine, same_zone) =
        identifier-ok client i.provisioning_parameters front s e in
      record {
        has_engine = ap is_some (k₁ ∙ same_engine) ∙ engine;
        given_engine = k₁ ∙ same_engine ∙ given;
        has_zone = ap is_some (k₂ ∙ same_zone) ∙ zone;
        identified =
            subst
              (λ (o : Option String).
                Identified o (lookup client.keys.name i.provisioning_parameters)
                  db'.spec.db_instance_identifier)
              kept
              (subst
                (Identified front.db_instance_identifier
                  (lookup client.keys.name i.provisioning_parameters))
                (sym k₃) identified);
        named =
            k₄
            ∙ ap (λ (o : Option String). generate_db_name (elim o [ none ↦ "" | some n ↦ n ]))
                (sym k₁);
        has_password = k₅;
      }

  -- A spec that setDBInstanceSpec has written without an error has the engine that the parameters
  -- give, an availability zone, an identifier, the engine's database name, and the reference to the
  -- password in the credentials of the database. An identifier that was there stays; otherwise a
  -- given one is taken and is valid.
  pub set_db_instance_spec-Specified :
      (db : DbInstance) (i : RdsInstance) (secret : Secret) (s : S) {db' : DbInstance} {t : S}
      → set_db_instance_spec client db i secret s ≡ (some (ok db'), t)
      → Specified db i db'.spec
  set_db_instance_spec-Specified db i secret s h = complete_spec _ db i secret s refl h
