-- ===== src/Inventory/Services/Listed.antt =====
-- The services that an inventory lists.
use mathlib.Core.Path.{subst}
use mathlib.Core.List.{Memᴰ}
use rds_dbaas_operator.Prelude.{
  String, ◌≡◌, refl, sym, ap, ◌∙◌, ◌↔◌, ◌⊎◌, inl, inr, true, none, some, Option, Option-cases,
  is_some, List, [], ◌∷◌, lookup, index, index-found, index-finds, arith,
}
use rds_dbaas_operator.K8s.{ok, go}
use rds_dbaas_operator.K8s.Steps.{continue-go, go_parts}
use rds_dbaas_operator.Crd.{DatabaseService}
use rds_dbaas_operator.Inventory.Run.{Credentials, Run}
use rds_dbaas_operator.Inventory.Server.{Server, DatabaseClient, AwsDatabase}
use rds_dbaas_operator.Inventory.Database.{Database, arn_of, arn_entry, read_pages}
use rds_dbaas_operator.Inventory.Adopt.{or_get_error}
use rds_dbaas_operator.Inventory.Attempts.{or_get_error-go}
use rds_dbaas_operator.Inventory.Services.{
  aws_identifier, cons_some, service_of, known_service, services_of, sync_status,
}

-- The list has a database with this ARN and with an identifier.
abbrev pub Known : List AwsDatabase → String → Type 0
Known listed arn =
    (a : AwsDatabase) × Memᴰ a listed × (a.arn ≡ some arn) × (is_some a.identifier ≡ true)

entry_parts :
    (a : AwsDatabase) {arn identifier : String}
    → aws_identifier a ≡ some (arn, identifier)
    → (a.arn ≡ some arn) × (is_some a.identifier ≡ true)
unfolding aws_identifier
entry_parts a h = ground arith

index_parts :
    (listed : List AwsDatabase) (arn : String) {i : String}
    → lookup arn (index aws_identifier listed []) ≡ some i
    → Known listed arn
unfolding lookup
index_parts listed arn h = elim (index-found aws_identifier listed arn [] h) [
  | inl e ↦ ground arith
  | inr (a, at, e) ↦ (a, at, (entry_parts a e).0, (entry_parts a e).1)
]

index-Known :
    (listed : List AwsDatabase) (arn : String)
    → is_some (lookup arn (index aws_identifier listed [])) ≡ true
    → Known listed arn
index-Known listed arn h = elim (Option-cases (lookup arn (index aws_identifier listed []))) [
  | inl e ↦ ground arith
  | inr (i, e) ↦ index_parts listed arn e
]

whole_entry :
    (a : AwsDatabase) (arn : String)
    → a.arn ≡ some arn
    → is_some a.identifier ≡ true
    → (i : String) × (aws_identifier a ≡ some (arn, i))
unfolding aws_identifier
whole_entry a arn e h = elim (Option-cases a.identifier) [
  | inl e' ↦ ground arith
  | inr (i, e') ↦ (i, ground arith)
]

Known-index :
    (listed : List AwsDatabase) (arn : String)
    → Known listed arn
    → is_some (lookup arn (index aws_identifier listed [])) ≡ true
Known-index listed arn (a, at, e, h) =
    let (i, e') = whole_entry a arn e h in index-finds aws_identifier listed a arn [] at e'

in_cons_some :
    {A : Type 0} (o : Option A) (xs : List A) {x : A}
    → Memᴰ x (cons_some o xs)
    → (o ≡ some x) ⊎ Memᴰ x xs
in_cons_some none xs m = inr m
in_cons_some (some y) xs (Memᴰ.head e) = inl (ap some (sym e))
in_cons_some (some y) xs (Memᴰ.tail m) = inr m

cons_some_head :
    {A : Type 0} (o : Option A) (xs : List A) {x : A} → o ≡ some x → Memᴰ x (cons_some o xs)
cons_some_head none xs e = ground arith
cons_some_head (some y) xs e = Memᴰ.head (ground arith)

cons_some_tail :
    {A : Type 0} (o : Option A) (xs : List A) {x : A} → Memᴰ x xs → Memᴰ x (cons_some o xs)
cons_some_tail none xs m = m
cons_some_tail (some y) xs m = Memᴰ.tail m

module _ {D : Type 0} (database : Database D) where
  -- A database of the namespace that has an identifier and the ARN of a database of AWS, and its
  -- service.
  pub record Offers (listed : List AwsDatabase) (d : D) (service : DatabaseService) : Type 0 where
    pub identifier : String
    pub arn : String
    pub identified : database.identifier d ≡ some identifier
    pub named : arn_of database d ≡ some arn
    pub known : Known listed arn
    pub is_service : service_of database identifier d ≡ service

  known_service-Offers :
      (listed : List AwsDatabase) (d : D) (service : DatabaseService) {arn identifier : String}
      → database.identifier d ≡ some identifier
      → arn_of database d ≡ some arn
      → known_service database (index aws_identifier listed []) d ≡ some service
      → Offers listed d service
  unfolding known_service arn_entry
  known_service-Offers listed d service {arn = arn} {identifier = identifier} e e' h = record {
    identifier = identifier;
    arn = arn;
    identified = e;
    named = e';
    known = index-Known listed arn (ground arith);
    is_service = ground arith;
  }

  known_service_sound :
      (listed : List AwsDatabase) (d : D) (service : DatabaseService)
      → known_service database (index aws_identifier listed []) d ≡ some service
      → Offers listed d service
  unfolding known_service arn_entry
  known_service_sound listed d service h = elim (Option-cases (database.identifier d)) [
    | inl e ↦ ground arith
    | inr (i, e) ↦ elim (Option-cases (arn_of database d)) [
      | inl e' ↦ ground arith
      | inr (a, e') ↦ known_service-Offers listed d service e e' h
    ]
  ]

  known_service_complete :
      (listed : List AwsDatabase) (d : D) (service : DatabaseService)
      → Offers listed d service
      → known_service database (index aws_identifier listed []) d ≡ some service
  unfolding known_service arn_entry
  known_service_complete listed d service o =
      ground (arith, o.identified, o.named, o.is_service, Known-index listed o.arn o.known)

  services_of_sound :
      (listed : List AwsDatabase) (ds : List D) (service : DatabaseService)
      → Memᴰ service (services_of database (index aws_identifier listed []) ds)
      → (d : D) × Memᴰ d ds × Offers listed d service
  unfolding services_of
  services_of_sound listed [] service m = elim m [ ]
  services_of_sound listed (d ∷ ds) service m =
      elim (in_cons_some (known_service database (index aws_identifier listed []) d) _ m) [
        | inl e ↦ (d, Memᴰ.head refl, known_service_sound listed d service e)
        | inr m ↦ let (e, at, o) = services_of_sound listed ds service m in (e, Memᴰ.tail at, o)
      ]

  services_of_complete :
      (listed : List AwsDatabase) (ds : List D) (service : DatabaseService) (d : D)
      → Memᴰ d ds
      → Offers listed d service
      → Memᴰ service (services_of database (index aws_identifier listed []) ds)
  unfolding services_of
  services_of_complete listed [] service d m o = elim m [ ]
  services_of_complete listed (d ∷ ds) service e (Memᴰ.head same) o = cons_some_head _ _ (
      ap (known_service database (index aws_identifier listed [])) (sym same)
      ∙ known_service_complete listed e service o)
  services_of_complete listed (d ∷ ds) service e (Memᴰ.tail at) o =
      cons_some_tail (known_service database (index aws_identifier listed []) d) _
        (services_of_complete listed ds service e at o)

  module _ {S : Type 0} (server : Server S) (client : DatabaseClient S D) where
    -- What a synchronization that goes on has read from AWS and from the server, and its services.
    pub record Listed (c : Credentials) (run : Run) (services : List DatabaseService) (s t : S)
        : Type 0 where
      pub listed : List AwsDatabase
      pub u : S
      pub ds : List D
      pub pages_read : read_pages (client.pages c) s ≡ (ok listed, u)
      pub databases_read : client.list run.inventory.meta.namespace u ≡ (ok ds, t)
      pub exact :
          (service : DatabaseService)
          → Memᴰ service services ↔ ((d : D) × Memᴰ d ds × Offers listed d service)

    -- syncDBInstancesStatus and syncDBClustersStatus go on only when all the pages of AWS and the
    -- databases of the namespace are read. The services are then exactly those of the databases of
    -- the namespace that have an identifier and the ARN of a database of AWS with an identifier.
    pub sync_status-Listed :
        (c : Credentials) (run : Run) (s : S) {services : List DatabaseService} {t : S}
        → sync_status database server client c run s ≡ (go services, t)
        → Listed c run services s t
    unfolding sync_status
    sync_status-Listed c run s h =
        let (listed, u, e, h) = continue-go (or_get_error server database run _) _ h in
        let (ds, v, e', h) = continue-go (or_get_error server database run _) _ h in
        let (same, same_state) = go_parts _ v h in
        record {
          listed = listed;
          u = u;
          ds = ds;
          pages_read = or_get_error-go server run database _ e;
          databases_read =
              or_get_error-go server run database _ e' ∙ ap (λ v. (ok ds, v)) same_state;
          exact = λ service. (
            λ m. services_of_sound listed ds service (subst (Memᴰ service) (sym same) m),
            λ (d, at, o). subst (Memᴰ service) same (services_of_complete listed ds service d at o),
          );
        }
