-- ===== src/Tests/Progress.antt =====
-- The theorem on the progress of an adoption, at a server where the RDS controller does its work at
-- once: an adopted resource that is created is listed as adopted.
use mathlib.Core.List.{Memᴰ}
use rds_dbaas_operator.Prelude.{
  some, String, ◌≡◌, refl, sym, ap, ◌∙◌, ◌↔◌, true, false, none, List, [], ◌∷◌, one_of,
}
use rds_dbaas_operator.K8s.{ok, go}
use rds_dbaas_operator.Inventory.Run.{start}
use rds_dbaas_operator.Inventory.Server.{Server, DatabaseClient, AwsDatabase, AdoptedResource, last}
use rds_dbaas_operator.Inventory.Database.{instance_database}
use rds_dbaas_operator.Inventory.Adopt.{
  adopt_databases, create_adopted_resource, is_adopted, has_adopted, is_deleting,
}
use rds_dbaas_operator.Inventory.Adopt.Wanted.{Wanted}
use rds_dbaas_operator.Inventory.Adopt.Adoptions.{idle, call}
use rds_dbaas_operator.Inventory.Adopt.Adopting.{Made}
use rds_dbaas_operator.Inventory.Adopt.Progress.{Worked, adopt_databases-Worked}
use rds_dbaas_operator.Tests.Server.{test_meta}
use rds_dbaas_operator.Tests.Connections.{test_inventory}
use rds_dbaas_operator.Tests.Inventories.{aws_secret, running}
use rds_dbaas_operator.Tests.Adoptions.{aws_orders, resource}

abbrev State : Type 0
State = List AdoptedResource

-- The resource as the RDS controller leaves it.
abbrev worked_on : AdoptedResource → AdoptedResource
worked_on r = record r { conditions = resource.conditions }

abbrev databases : {D : Type 0} → DatabaseClient State D
databases = record {
  pages = λ c. last;
  modify = λ c i p s. (none, s);
  list = λ n s. (ok [], s);
  list_labelled = λ n l s. (ok [], s);
  update = λ d s. (ok d, s);
}

abbrev server : Server State
server = record {
  client = record {
    meta = test_meta;
    get_secret = λ key s. (ok aws_secret, s);
    describe_db_instances = λ c s. (none, s);
    describe_db_clusters = λ c s. (none, s);
    update_status = λ i s. (ok i, s);
  };
  deployments = record {
    get_deployment = λ key s. (ok running, s);
    update_deployment = λ d s. (ok d, s);
    sleep = λ s. s;
  };
  secrets = record {
    get_secret = λ key s. (ok aws_secret, s);
    create_secret = λ x s. (ok x, s);
    update_secret = λ x s. (ok x, s);
    set_controller_reference = λ o x. ok x;
    random = record { crypto_int = λ n s. (some 0, s); int31n = λ n s. (0, s) };
    type_label_key = "type";
    type_label_value = "rds";
  };
  instances = databases;
  clusters = databases;
  update_inventory = λ i s. (ok i, s);
  list_adopted_resources = λ n s. (ok s, s);
  create_adopted_resource = λ r s. (none, worked_on r ∷ s);
  delete_adopted_resource = λ r s. (none, s);
  new_uuid = λ s. ("0", s);
  create_or_update_secret = λ o mutate s. (mutate o, s);
  create_or_update_config_map = λ o mutate s. (mutate o, s);
  set_owner_annotations = λ kind owner o. ok o;
  type_annotation = "type";
  namespaced_name_annotation = "name";
  type_label_key = "type";
  type_label_value = "rds";
  rds_group = "rds.services.k8s.aws";
  condition_type_adopted = "ACK.Adopted";
  namespace = "operators";
  retries = 2;
}

abbrev orders_resource : AdoptedResource
orders_resource =
    create_adopted_resource "rds.services.k8s.aws" "0" "DB-1" "arn:orders" "postgres" "DBInstance"
      test_inventory

not_skipped : one_of "postgres" instance_database.skipped ≡ false
unfolding one_of
not_skipped = refl

orders_made :
    (x : AwsDatabase)
    → Memᴰ x (aws_orders ∷ []) ↔ (
        Memᴰ x (aws_orders ∷ [])
        × (arn : String) × (engine : String) × Wanted server instance_database [] [] x arn engine)
orders_made x = (wanted, λ (m, _, _, _). m)
  where
    wanted :
        Memᴰ x (aws_orders ∷ [])
        → Memᴰ x (aws_orders ∷ [])
          × (arn : String) × (engine : String) × Wanted server instance_database [] [] x arn engine
    wanted (Memᴰ.tail m) = elim m [ ]
    wanted (Memᴰ.head e) = (
      Memᴰ.head e,
      "arn:orders",
      "postgres",
      (
        record {
          arn_set = ap (λ x. x.arn) e;
          engine_set = ap (λ x. x.engine) e;
          engine_kept = not_skipped;
          alone = ap instance_database.aws_in_cluster e;
          alive = ap (λ x. is_deleting x.status) e;
          unknown = λ (d, v, m, e). elim m [ ];
        },
        λ (r, v, m, e). elim m [ ],
      ),
    )

abbrev round :
    Made server instance_database
      (start test_inventory)
      databases
      (aws_orders ∷ [])
      []
      (worked_on orders_resource ∷ [])
round = record {
  ds = [];
  rs = [];
  v = [];
  read = record { u = []; databases = refl; resources = refl };
  made = aws_orders ∷ [];
  calls =
      call
        (record {
          identifier = "DB-1";
          arn = "arn:orders";
          engine = "postgres";
          uuid = "0";
          u = [];
          meta = orders_resource.meta;
          identified = refl;
          named = refl;
          of_engine = refl;
          suffixed = refl;
          owned = refl;
          created = refl;
        })
        (idle refl);
  exact = orders_made;
}

adopted_now : is_adopted server (worked_on orders_resource) ≡ true
unfolding is_adopted has_adopted
adopted_now = refl

worked : Worked server instance_database round [] (worked_on orders_resource ∷ [])
worked = record {
  databases = λ arn g. g;
  found = λ r m. elim m [ ];
  created = created;
  adopted = adopted;
}
  where
    created :
        (r : AdoptedResource)
        → Memᴰ r (orders_resource ∷ [])
        → (r' : AdoptedResource) × Memᴰ r' (worked_on orders_resource ∷ []) × (r'.aws ≡ r.aws)
    created r (Memᴰ.head e) = (worked_on orders_resource, Memᴰ.head refl, ap (λ r. r.aws) (sym e))
    created r (Memᴰ.tail m) = elim m [ ]

    adopted :
        (r : AdoptedResource) → Memᴰ r (worked_on orders_resource ∷ []) → is_adopted server r ≡ true
    adopted r (Memᴰ.head e) = ap (is_adopted server) e ∙ adopted_now
    adopted r (Memᴰ.tail m) = elim m [ ]

adopt_databases-Worked_example :
    adopt_databases server instance_database databases
      (aws_orders ∷ [])
      (start test_inventory)
      (worked_on orders_resource ∷ [])
    ≡ (go tt, worked_on orders_resource ∷ [])
adopt_databases-Worked_example =
    adopt_databases-Worked server instance_database (start test_inventory) (start test_inventory)
      databases aws_orders [] [] (worked_on orders_resource ∷ []) (worked_on orders_resource ∷ [])
      round worked refl refl
