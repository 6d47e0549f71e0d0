-- ===== src/Inventory/Bindable.antt =====
-- An inventory's services as a connection looks them up.
use mathlib.Core.List.{Memᴰ}
use rds_dbaas_operator.Prelude.{
  String, ◌≡◌, ◌≢◌, distinct_bools, refl, sym, ap, ◌∙◌, ◌⊎◌, inl, inr, true, ◌&&◌, ◌==◌, eq_iff,
  Bool-cases, some, List, [], ◌∷◌, ◌++◌, arith,
}
use rds_dbaas_operator.K8s.{go}
use rds_dbaas_operator.Crd.{DatabaseService}
use rds_dbaas_operator.Inventory.Run.{Credentials, Run}
use rds_dbaas_operator.Inventory.Server.{Server, DatabaseClient}
use rds_dbaas_operator.Inventory.Database.{Database, instance_database, cluster_database}
use rds_dbaas_operator.Inventory.Services.{service_of}
use rds_dbaas_operator.Inventory.Services.Listed.{Listed, sync_status-Listed}
use rds_dbaas_operator.Inventory.Reconcile.{sync_db_clusters_status, sync_db_instances_status}
use rds_dbaas_operator.Connection.Service.{type_or_instance, find_service}

-- A service with an identifier and a type.
abbrev pub Fits : String → String → DatabaseService → Type 0
Fits id c_type service =
    (service.service_id ≡ id) × (type_or_instance service.service_type ≡ c_type)

-- The search finds the name of a service that fits.
find_sound :
    (id c_type : String) (services : List DatabaseService) {name : String}
    → find_service id c_type services ≡ some name
    → (service : DatabaseService) × Memᴰ service services
      × Fits id c_type service
      × (service.service_name ≡ name)
unfolding find_service
find_sound id c_type [] h = ground arith
find_sound id c_type (x ∷ rest) h =
    elim (Bool-cases (x.service_id == id && c_type == type_or_instance x.service_type)) [
      | inl fits ↦ (
        x,
        Memᴰ.head refl,
        (
          ground (arith, eq_iff x.service_id id),
          ground (arith, eq_iff c_type (type_or_instance x.service_type)),
        ),
        ground arith,
      )
      | inr other ↦
          let (service, at, fits, named) = find_sound id c_type rest (ground arith) in
          (service, Memᴰ.tail at, fits, named)
    ]

test_of_match :
    (id c_type : String) (x : DatabaseService)
    → Fits id c_type x
    → (x.service_id == id && c_type == type_or_instance x.service_type) ≡ true
test_of_match id c_type x (same, of_type) = ground (
  arith,
  eq_iff x.service_id id,
  same,
  eq_iff c_type (type_or_instance x.service_type),
  sym of_type,
)

-- Where a service fits, the search finds one.
find_complete :
    (id c_type : String) (services : List DatabaseService) (service : DatabaseService)
    → Memᴰ service services
    → Fits id c_type service
    → (name : String) × (find_service id c_type services ≡ some name)
unfolding find_service
find_complete id c_type [] service m fits = elim m [ ]
find_complete id c_type (x ∷ rest) service (Memᴰ.head e) (same, of_type) =
    let test = test_of_match id c_type x (
      ap (λ x. x.service_id) (sym e) ∙ same,
      ap (λ x. type_or_instance x.service_type) (sym e) ∙ of_type,
    ) in
    (x.service_name, ground (arith, test))
find_complete id c_type (x ∷ rest) service (Memᴰ.tail at) fits =
    let (name, e) = find_complete id c_type rest service at fits in
    elim (Bool-cases (x.service_id == id && c_type == type_or_instance x.service_type)) [
      | inl first ↦ (x.service_name, ground arith)
      | inr other ↦ (name, ground arith)
    ]

in_append :
    (xs ys : List DatabaseService) {x : DatabaseService} → Memᴰ x (xs ++ ys) → Memᴰ x xs ⊎ Memᴰ x ys
in_append [] ys m = inr m
in_append (y ∷ xs) ys (Memᴰ.head e) = inl (Memᴰ.head e)
in_append (y ∷ xs) ys (Memᴰ.tail at) = elim (in_append xs ys at) [
  | inl m ↦ inl (Memᴰ.tail m)
  | inr m ↦ inr m
]

append_left : (xs ys : List DatabaseService) {x : DatabaseService} → Memᴰ x xs → Memᴰ x (xs ++ ys)
append_left [] ys m = elim m [ ]
append_left (y ∷ xs) ys (Memᴰ.head e) = Memᴰ.head e
append_left (y ∷ xs) ys (Memᴰ.tail at) = Memᴰ.tail (append_left xs ys at)

append_right : (xs ys : List DatabaseService) {x : DatabaseService} → Memᴰ x ys → Memᴰ x (xs ++ ys)
append_right [] ys m = m
append_right (y ∷ xs) ys m = Memᴰ.tail (append_right xs ys m)

other_type :
    {A : Type 0} (x : DatabaseService) {c_type c_type' : String}
    → x.service_type ≡ some c_type
    → type_or_instance x.service_type ≡ c_type'
    → c_type ≢ c_type'
    → A
other_type x e e' other = absurd (other (ap type_or_instance (sym e) ∙ e'))

types_differ : instance_database.service_type ≢ cluster_database.service_type
types_differ e = distinct_bools (sym (ap (λ t. t == "cluster") e))

module _ {S : Type 0} (server : Server S) (c : Credentials) (run : Run) where
  -- The search for a service finds the name of a database of the namespace with its identifier.
  pub record Bound {D : Type 0} (database : Database D) (ds : List D) (id : String)
      (all : List DatabaseService) : Type 0 where
    pub d : D
    pub there : Memᴰ d ds
    pub identified : database.identifier d ≡ some id
    pub found : find_service id database.service_type all ≡ some (database.meta d).name

  type_stays :
      {D : Type 0} (database : Database D) (client : DatabaseClient S D)
      {services : List DatabaseService} {s t : S}
      → Listed database server client c run services s t
      → (service : DatabaseService) → Memᴰ service services
      → service.service_type ≡ some database.service_type
  unfolding service_of
  type_stays database client l service m =
      let (d, at, o) = (l.exact service).0 m in ap (λ x. x.service_type) (sym o.is_service)

  search_finds :
      {D : Type 0} (database : Database D) (client : DatabaseClient S D)
      {services : List DatabaseService} {s t : S} (all : List DatabaseService)
      (l : Listed database server client c run services s t)
      → ((x : DatabaseService)
          → Memᴰ x all
          → type_or_instance x.service_type ≡ database.service_type
          → Memᴰ x services)
      → (service : DatabaseService) → Memᴰ service services
      → Memᴰ service all
      → Bound database l.ds service.service_id all
  unfolding service_of
  search_finds database client all l only service m here =
      let (name, e) =
        find_complete service.service_id database.service_type all service here
          (refl, ap type_or_instance (type_stays database client l service m)) in
      let (x, at, (same, of_type), named) =
        find_sound service.service_id database.service_type all e in
      let (d, there, o) = (l.exact x).0 (only x at of_type) in
      record {
        d = d;
        there = there;
        identified = o.identified ∙ ap some (ap (λ x. x.service_id) o.is_service ∙ same);
        found = e ∙ ap some (sym named ∙ ap (λ x. x.service_name) (sym o.is_service));
      }

  -- The services that an inventory lists, and what a connection's search finds in them.
  pub record Bindable (clusters instances : List DatabaseService) (s u t : S) : Type 0 where
    pub clusters_listed : Listed cluster_database server server.clusters c run clusters s u
    pub instances_listed : Listed instance_database server server.instances c run instances u t
    pub clusters_bound :
        (service : DatabaseService)
        → Memᴰ service clusters
        → Bound cluster_database clusters_listed.ds service.service_id (clusters ++ instances)
    pub instances_bound :
        (service : DatabaseService)
        → Memᴰ service instances
        → Bound instance_database instances_listed.ds service.service_id (clusters ++ instances)

  -- Where the services of the clusters and then those of the instances are listed, a connection
  -- that asks for the identifier and the type of a listed service is given the name of a custom
  -- resource of this kind that the inventory read in its namespace and that has this identifier:
  -- a cluster and an instance with the same identifier are not confused.
  pub sync-Bindable :
      (s : S) {clusters instances : List DatabaseService} {u t : S}
      → sync_db_clusters_status server c run s ≡ (go clusters, u)
      → sync_db_instances_status server c run u ≡ (go instances, t)
      → Bindable clusters instances s u t
  unfolding sync_db_clusters_status sync_db_instances_status
  sync-Bindable s {clusters = clusters} {instances = instances} {u = u} e e' =
      let cl = sync_status-Listed cluster_database server server.clusters c run s e in
      let il = sync_status-Listed instance_database server server.instances c run u e' in
      record {
        clusters_listed = cl;
        instances_listed = il;
        clusters_bound = λ service m.
            search_finds cluster_database server.clusters (clusters ++ instances) cl
              (λ x at of_type. elim (in_append clusters instances at) [
                | inl here ↦ here
                | inr there ↦
                    other_type x (type_stays instance_database server.instances il x there) of_type
                      types_differ
              ])
              service m (append_left clusters instances m);
        instances_bound = λ service m.
            search_finds instance_database server.instances (clusters ++ instances) il
              (λ x at of_type. elim (in_append clusters instances at) [
                | inl there ↦
                    other_type x (type_stays cluster_database server.clusters cl x there) of_type
                      (λ e. types_differ (sym e))
                | inr here ↦ here
              ])
              service m (append_right clusters instances m);
      }
