-- ===== src/Instance/Spec.antt =====
-- controllers/rdsinstance_controller.go: setDBInstanceSpec, step by step. Each step writes one part
-- of the spec from the provisioning parameters, or returns the error of a bad parameter.
use rds_dbaas_operator.Prelude.{
  String, Bool, true, Option, none, some, [], ◌∷◌, Dict, lookup, ◌<>◌, one_of, if◌then◌else◌,
}
use rds_dbaas_operator.Go.Strconv.{ℤ, pos, parse_int, parse_bool}
use rds_dbaas_operator.Go.Strings.{split}
use rds_dbaas_operator.K8s.{Error, errorf, Result, ok, err, Secret, lookup_nil}
use rds_dbaas_operator.K8s.Results.{◌>>=◌}
use rds_dbaas_operator.Ack.Instance.{DbInstance, DbInstanceSpec}
use rds_dbaas_operator.Crd.{RdsInstance}
use rds_dbaas_operator.DbUtils.Names.{
  sqlserver_ee, sqlserver_se, sqlserver_ex, sqlserver_web, oracle_se2, oracle_se2_cdb,
}
use rds_dbaas_operator.DbUtils.Engine.{
  generate_username, generate_db_name, get_default_engine_version, get_default_availability_zone,
  get_db_engine_abbreviation,
}
use rds_dbaas_operator.RdsUtils.Credentials.{set_credentials}
use rds_dbaas_operator.Instance.Patterns.{valid_identifier}
use rds_dbaas_operator.Instance.Run.{Client, ProvisioningKeys}

abbrev pub Params : Type 0
Params = Dict String

abbrev pub missing : String → Error
missing parameter = errorf ("required parameter " <> (parameter <> " is missing"))

abbrev pub invalid : String → Error
invalid parameter = errorf ("value of parameter " <> (parameter <> " is invalid"))

-- `value, ok := params[key]`, or a default.
abbrev pub param_or : String → String → Params → String
param_or key default params = elim (lookup key params) [ none ↦ default | some v ↦ v ]

-- The zone of a region that is given as a secret's value, or of none.
unfoldable pub zone_for : Option String → Result String
zone_for none = ok "us-east-1a"
zone_for (some region) = elim (get_default_availability_zone region) [
  | none ↦ err (missing "AvailabilityZone")
  | some az ↦ ok az
]

-- `strconv.ParseInt` of an optional parameter: the old value stays where there is none.
unfoldable pub int_param : String → String → Option ℤ → Params → Result (Option ℤ)
int_param key parameter old params = elim (lookup key params) [
  | none ↦ ok old
  | some v ↦ elim (parse_int v) [ none ↦ err (invalid parameter) | some i ↦ ok (some i) ]
]

module _ (keys : ProvisioningKeys) (params : Params) where
  unfoldable pub set_availability_zone : Secret → DbInstanceSpec → Result DbInstanceSpec
  unfolding zone_for
  set_availability_zone secret spec = elim (lookup keys.availability_zones params) [
    | some az ↦ ok (record spec { availability_zone = some az })
    | none ↦ do
      az ← zone_for (lookup_nil "AWS_REGION" secret.entries)
      ok (record spec { availability_zone = some az })
  ]

  unfoldable pub set_engine : DbInstanceSpec → Result DbInstanceSpec
  set_engine spec = elim (lookup keys.database_type params) [
    | none ↦ err (missing "Engine")
    | some engine ↦ ok (record spec { engine = some engine })
  ]

  unfoldable pub set_engine_version : DbInstanceSpec → DbInstanceSpec
  set_engine_version spec = record spec {
    engine_version = elim (lookup "EngineVersion" params) [
      | none ↦ get_default_engine_version spec.engine
      | some v ↦ some v
    ];
  }

  -- Class, storage type and the three numbers of the storage.
  unfoldable pub set_storage : DbInstanceSpec → Result DbInstanceSpec
  unfolding int_param
  set_storage spec = do
    allocated ← int_param keys.storage_gib "AllocatedStorage" (some (pos 20)) params
    iops' ← int_param "IOPS" "IOPS" spec.iops params
    max ← int_param "MaxAllocatedStorage" "MaxAllocatedStorage" spec.max_allocated_storage params
    ok (record spec {
      db_instance_class = some (param_or keys.machine_type "db.t3.micro" params);
      storage_type = elim (lookup "StorageType" params) [
        | none ↦ spec.storage_type
        | some t ↦ some t
      ];
      allocated_storage = allocated;
      iops = iops';
      max_allocated_storage = max;
    })

  unfoldable pub default_license : Option String → Option String → Option String
  default_license none old = old
  default_license (some engine) old =
      if one_of engine (
        sqlserver_ee ∷ sqlserver_se ∷ sqlserver_ex ∷ sqlserver_web ∷ oracle_se2 ∷ oracle_se2_cdb
        ∷ [])
      then some "license-included"
      else old

  unfoldable pub public_access : Result Bool
  public_access = elim (lookup "PubliclyAccessible" params) [
    | none ↦ ok true
    | some v ↦ elim (parse_bool v) [ none ↦ err (invalid "PubliclyAccessible") | some b ↦ ok b ]
  ]

  -- Subnet group, public access, security groups and licence.
  unfoldable pub set_network : DbInstanceSpec → Result DbInstanceSpec
  unfolding public_access default_license
  set_network spec = do
    public ← public_access
    ok (record spec {
      db_subnet_group_name = elim (lookup "DBSubnetGroupName" params) [
        | none ↦ spec.db_subnet_group_name
        | some n ↦ some n
      ];
      publicly_accessible = some public;
      vpc_security_group_ids = elim (lookup "VPCSecurityGroupIDs" params) [
        | none ↦ spec.vpc_security_group_ids
        | some ids ↦ split b',' ids
      ];
      license_model = elim (lookup "LicenseModel" params) [
        | none ↦ default_license spec.engine spec.license_model
        | some l ↦ some l
      ];
    })

-- The callback of setCredentials: the user's name, if it has none, and the secret's reference.
unfoldable pub set_master_user : String → String → String → DbInstanceSpec → DbInstanceSpec
set_master_user engine namespace secret_name spec = record spec {
  master_username = elim spec.master_username [
    | none ↦ some (generate_username engine)
    | some u ↦ some u
  ];
  master_user_password =
      some (record { name = secret_name; namespace = namespace; key = "password" });
}

-- `*dbInstance.Spec.Engine`, which is set where it is read.
abbrev pub engine_of : DbInstanceSpec → String
engine_of spec = elim spec.engine [ none ↦ "" | some e ↦ e ]

module _ {S : Type 0} (client : Client S) where
  -- The identifier that is there stays; a given one is checked, and otherwise one is generated.
  unfoldable pub set_identifier : Params → DbInstanceSpec → S → Result DbInstanceSpec × S
  set_identifier params spec s = elim spec.db_instance_identifier [
    | some _ ↦ (ok spec, s)
    | none ↦ elim (lookup client.keys.name params) [
      | some id ↦
          if valid_identifier id
          then (ok (record spec { db_instance_identifier = some id }), s)
          else (err (invalid "DBInstanceIdentifier"), s)
      | none ↦
          let (uuid, s') = client.new_uuid s in
          (
            ok (record spec {
              db_instance_identifier =
                  some ("rhoda-" <> (get_db_engine_abbreviation spec.engine <> uuid));
            }),
            s',
          )
    ]
  ]

  -- The parts in front of the identifier.
  unfoldable pub set_front : Secret → Params → DbInstanceSpec → Result DbInstanceSpec
  set_front secret params spec = do
    spec₁ ← set_availability_zone client.keys params secret spec
    spec₂ ← set_engine client.keys params spec₁
    ok (set_engine_version client.keys params spec₂)

  -- The parts between the identifier and the credentials.
  unfoldable pub set_rest : Params → DbInstanceSpec → Result DbInstanceSpec
  set_rest params spec = do
    spec₁ ← set_storage client.keys params spec
    set_network client.keys params spec₁

  -- Behind `setCredentials`, which panics, or of which an error is replaced.
  unfoldable pub named :
      DbInstance → Option (Result (Secret × DbInstanceSpec)) × S → Option (Result DbInstance) × S
  named db (none, s) = (none, s)
  named db (some (err _), s) = (some (err (errorf "failed to set credentials for DB instance")), s)
  named db (some (ok (_, spec)), s) = (
    some (ok (record db { spec = record spec { db_name = generate_db_name (engine_of spec) } })),
    s,
  )

  -- The credentials, and the name of the database behind them.
  unfoldable pub set_access :
      RdsInstance → DbInstance → DbInstanceSpec → S → Option (Result DbInstance) × S
  set_access i db spec s = named db (
      set_credentials client.secrets db.meta.name i.meta.namespace
        (some (record { name = i.meta.name; namespace = i.meta.namespace })) i.kind
        (set_master_user (engine_of spec) i.meta.namespace) spec s)

  -- Behind the identifier.
  unfoldable pub set_behind :
      DbInstance → RdsInstance → Result DbInstanceSpec × S → Option (Result DbInstance) × S
  set_behind db i (err e, s) = (some (err e), s)
  set_behind db i (ok spec, s) = elim (set_rest i.provisioning_parameters spec) [
    | err e ↦ (some (err e), s)
    | ok spec' ↦ set_access i db spec' s
  ]

  unfoldable pub set_db_instance_spec :
      DbInstance → RdsInstance → Secret → S → Option (Result DbInstance) × S
  set_db_instance_spec db i secret s = elim (set_front secret i.provisioning_parameters db.spec) [
    | err e ↦ (some (err e), s)
    | ok spec ↦ set_behind db i (set_identifier i.provisioning_parameters spec s)
  ]
