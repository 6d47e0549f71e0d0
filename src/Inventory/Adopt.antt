-- ===== src/Inventory/Adopt.antt =====
-- controllers/rdsinventory_controller.go: the first half of adoptDBInstances and adoptDBClusters,
-- which asks the RDS controller to adopt the databases of AWS that it does not know, and
-- createAdoptedResource.
pub mod Wanted
pub mod Adoptions
pub mod Adopting
pub mod Progress
use rds_dbaas_operator.Prelude.{
  String, ◌==◌, ◌&&◌, ◌||◌, Bool, true, false, Option, none, some, List, [], ◌∷◌, Dict, lookup,
  index, is_some, one_of, ◌<>◌, if◌then◌else◌,
}
use rds_dbaas_operator.Go.Strings.{to_lower}
use rds_dbaas_operator.K8s.{
  Result, ok, err, condition_true, ObjectMeta, new_meta, Step, stop, crash, go, Exec, continue,
  ◌>>=◌,
}
use rds_dbaas_operator.Ack.Shared.{AckCondition}
use rds_dbaas_operator.Crd.{RdsInventory}
use rds_dbaas_operator.DbUtils.Engine.{get_db_engine_abbreviation}
use rds_dbaas_operator.Inventory.Run.{Run, return_error, return_requeue_sync_reset}
use rds_dbaas_operator.Inventory.Server.{Server, DatabaseClient, AwsDatabase, AdoptedResource}
use rds_dbaas_operator.Inventory.Install.{attempt}
use rds_dbaas_operator.Inventory.Database.{Database, arn_entry}

abbrev pub adopted_label : Dict String
adopted_label = ("rds.dbaas.redhat.com/adopted", "true") ∷ []

-- What is done about a database of AWS: nothing, wait until it is adopted, or adopt the database of
-- an ARN and an engine.
pub data Verdict : Type 0 where
  leave : Verdict
  wait : Verdict
  adopt : String → String → Verdict

-- The entry of an adopted resource under its ARN.
unfoldable pub resource_entry : AdoptedResource → Option (String × AdoptedResource)
resource_entry r = elim r.aws [
  | none ↦ none
  | some ids ↦ elim ids.arn [ none ↦ none | some a ↦ some (a, r) ]
]

-- `status != nil && *status == "deleting"`
abbrev pub is_deleting : Option String → Bool
is_deleting none = false
is_deleting (some status) = status == "deleting"

-- createAdoptedResource, without its metadata's name
unfoldable pub adopted_annotations : RdsInventory → Dict String
adopted_annotations i =
    ("managed-by", "rds-dbaas-operator")
    ∷ ("owner", i.meta.name)
    ∷ ("owner.kind", i.kind)
    ∷ ("owner.namespace", i.meta.namespace)
    ∷ []

unfoldable pub create_adopted_resource :
    String → String → String → String → String → String → RdsInventory → AdoptedResource
create_adopted_resource group uuid identifier arn engine kind i = record {
  meta =
      record (new_meta
        ("rhoda-adopted-"
          <> (get_db_engine_abbreviation (some engine) <> (to_lower identifier <> ("-" <> uuid))))
        i.meta.namespace) { annotations = some (adopted_annotations i) };
  kubernetes = some (record {
    group = group;
    kind = kind;
    namespace = i.meta.namespace;
    labels = some adopted_label;
  });
  aws = some (record { name_or_id = identifier; arn = some arn });
  conditions = none;
}

module _ {S : Type 0} (server : Server S) where
  -- The loop over the conditions of an adopted resource, where none are nil.
  unfoldable pub has_adopted : List (Option AckCondition) → Bool
  has_adopted [] = false
  has_adopted (none ∷ cs) = has_adopted cs
  has_adopted (some c ∷ cs) =
      (c.type == server.condition_type_adopted && c.status == condition_true) || has_adopted cs

  unfoldable pub is_adopted : AdoptedResource → Bool
  unfolding has_adopted
  is_adopted r = elim r.conditions [ none ↦ false | some cs ↦ has_adopted cs ]

  module _ {D : Type 0} (database : Database D) where
    -- The database is left out for its engine, its cluster or its status.
    unfoldable pub is_left_out : String → AwsDatabase → Bool
    is_left_out engine a =
        one_of engine database.skipped || database.aws_in_cluster a || is_deleting a.status

    -- By the entries of the databases and of the adopted resources of the namespace.
    unfoldable pub verdict_of :
        Dict String → Dict AdoptedResource → String → String → AwsDatabase → Verdict
    unfolding is_left_out
    verdict_of known adopted arn engine a =
        if is_left_out engine a || is_some (lookup arn known)
        then leave
        else elim (lookup arn adopted) [
          | none ↦ adopt arn engine
          | some r ↦ if is_adopted r then leave else wait
        ]

    -- The guards of the loop over the databases of AWS.
    unfoldable pub verdict : Dict String → Dict AdoptedResource → AwsDatabase → Verdict
    verdict known adopted a = elim a.arn [
      | none ↦ leave
      | some arn ↦ elim a.engine [
        | none ↦ leave
        | some engine ↦ verdict_of known adopted arn engine a
      ]
    ]

    -- Behind `SetOwnerAnnotations`.
    unfoldable pub create_owned : AdoptedResource → Result ObjectMeta → Run → Exec S Run (Unit {0})
    create_owned r (err e) run s =
        (stop (return_error e "BackendError" database.adopt_error run), s)
    create_owned r (ok meta) run s =
        attempt server database.adopt_error run
          (server.create_adopted_resource (record r { meta = meta }) s)

    -- One adoption; an identifier that is nil is dereferenced.
    unfoldable pub create_adoption : Option String → String → String → Run → Exec S Run (Unit {0})
    create_adoption none arn engine run s = (crash run, s)
    create_adoption (some identifier) arn engine run s =
        let (uuid, s') = server.new_uuid s in
        let r =
          create_adopted_resource server.rds_group uuid identifier arn engine database.resource_kind
            run.inventory in
        create_owned r (server.set_owner_annotations run.inventory.kind run.inventory.meta r.meta)
          run s'

    -- The loop, which goes on with `adoptingResource`.
    unfoldable pub adopt_each :
        Dict String → Dict AdoptedResource → List AwsDatabase → Bool → Run → Exec S Run Bool
    adopt_each known adopted [] adopting run s = (go adopting, s)
    adopt_each known adopted (a ∷ rest) adopting run s = elim (verdict known adopted a) [
      | leave ↦ adopt_each known adopted rest adopting run s
      | wait ↦ adopt_each known adopted rest true run s
      | adopt arn engine ↦
          continue (create_adoption a.identifier arn engine run s)
            (λ _. adopt_each known adopted rest true run)
    ]

    -- `if adoptingResource { returnRequeueSyncReset(); return true, false }`
    unfoldable pub requeue_adopting : Run → Bool → Exec S Run (Unit {0})
    requeue_adopting run true s = (stop (return_requeue_sync_reset run), s)
    requeue_adopting run false s = (go tt, s)

    -- A list of the client, of which an error stops.
    unfoldable pub or_get_error : {A : Type 0} → Run → Result A × S → Step Run A × S
    or_get_error run (err e, s) = (stop (return_error e "BackendError" database.get_error run), s)
    or_get_error run (ok a, s) = (go a, s)

    -- `if len(awsDBInstances) > 0 { … }`
    unfoldable pub adopt_databases :
        DatabaseClient S D → List AwsDatabase → Run → Exec S Run (Unit {0})
    adopt_databases client [] run = λ s. (go tt, s)
    adopt_databases client (a ∷ rest) run = do
      known ← λ s. or_get_error run (client.list run.inventory.meta.namespace s)
      adopted ← λ s. or_get_error run (server.list_adopted_resources run.inventory.meta.namespace s)
      adopting ←
          adopt_each (index (arn_entry database) known []) (index resource_entry adopted [])
            (a ∷ rest) false run
      requeue_adopting run adopting
