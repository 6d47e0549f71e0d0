-- ===== src/Provider.antt =====
-- controllers/dbaasprovider_controller.go: the registration of the operator as a provider of
-- databases, for the operator's own deployment.
pub mod Registered
pub mod Filter
use rds_dbaas_operator.Prelude.{
  String, ◌==◌, ◌||◌, Bool, true, false, Option, none, some, List, [], ◌∷◌, Dict, if◌then◌else◌,
}
use rds_dbaas_operator.K8s.{
  Error, not_found, errorf, is_not_found, Result, ok, err, NamespacedName, ObjectMeta, lookup_nil,
  Reply,
}

-- metav1.OwnerReference
pub record OwnerReference : Type 0 where
  pub api_version : String
  pub kind : String
  pub uid : String
  pub name : String
  pub controller : Option Bool
  pub block_owner_deletion : Option Bool

pub record ClusterRole : Type 0 where
  pub uid : String
  pub name : String

-- dbaasoperator.DBaaSProvider; its spec is a type of the dbaas-operator.
pub record DbaasProvider (Spec : Type 0) : Type 0 where
  pub name : String
  pub owner_references : List OwnerReference
  pub labels : Option (Dict String)
  pub spec : Spec

-- The two variables of the environment.
pub record Environment : Type 0 where
  pub operator_install_namespace : String
  pub operator_name_version : String

-- The API server: a read of a deployment, of which the error alone counts; the kinds of a group
-- and version; the cluster roles with labels; CreateOrUpdate on providers. The file of the
-- registration is read, turned into JSON and decoded; `empty` is the spec of a new object.
pub record Client (S Spec : Type 0) : Type 0 where
  pub get_deployment : NamespacedName → S → Option Error × S
  pub group_version : String
  pub server_kinds : String → S → Result (List String) × S
  pub list_cluster_roles : Dict String → S → Result (List ClusterRole) × S
  pub create_or_update :
      DbaasProvider Spec
      → (DbaasProvider Spec → S → Result (DbaasProvider Spec) × S)
      → S
      → Result (DbaasProvider Spec) × S
  pub file : String
  pub read_file : String → S → Result String × S
  pub to_json : String → Result String
  pub unmarshal : String → Result (DbaasProvider Spec)
  pub empty : Spec

abbrev pub provider_kind : String
provider_kind = "DBaaSProvider"

abbrev pub provider_cr_name : String
provider_cr_name = "rds-registration"

abbrev pub provider_labels : Dict String
provider_labels = ("related-to", "dbaas-operator") ∷ ("type", "dbaas-provider-registration") ∷ []

-- The environment that SetupWithManager looks up.
unfoldable pub setup : (String → Option String) → Result Environment
setup lookup_env = elim (lookup_env "INSTALL_NAMESPACE") [
  | none ↦ err (errorf "INSTALL_NAMESPACE must be set")
  | some namespace ↦ elim (lookup_env "OPERATOR_CONDITION_NAME") [
    | none ↦ err (errorf "OPERATOR_CONDITION_NAME must be set")
    | some name ↦
        ok (record { operator_install_namespace = namespace; operator_name_version = name })
  ]
]

-- An object in the operator's namespace with the labels of the operator's own version.
unfoldable pub evaluate_predicate_object : Environment → ObjectMeta → Bool
evaluate_predicate_object env obj =
    if obj.namespace == env.operator_install_namespace
    then elim (lookup_nil "olm.owner.kind" obj.labels) [
      | none ↦ false
      | some kind ↦
          if kind == "ClusterServiceVersion"
          then elim (lookup_nil "olm.owner" obj.labels) [
            | none ↦ false
            | some owner ↦ owner == env.operator_name_version
          ]
          else false
    ]
    else false

-- The events of a watch, with their object.
pub data Event : Type 0 where
  create delete update generic : ObjectMeta → Event

unfoldable pub ignore_other_deployments : Environment → Event → Bool
ignore_other_deployments env (create obj) = evaluate_predicate_object env obj
ignore_other_deployments env (delete obj) = false
ignore_other_deployments env (update obj) = false
ignore_other_deployments env (generic obj) = false

unfoldable pub owner_of : ClusterRole → OwnerReference
owner_of role = record {
  api_version = "rbac.authorization.k8s.io/v1";
  kind = "ClusterRole";
  uid = role.uid;
  name = role.name;
  controller = some true;
  block_owner_deletion = some false;
}

-- The loop of checkCrdInstalled.
unfoldable pub has_kind : String → List String → Bool
has_kind kind [] = false
has_kind kind (k ∷ ks) = k == kind || has_kind kind ks

-- The index 0 of the list is that of `role`.
unfoldable pub bridge_provider_cr :
    {Spec : Type 0} → DbaasProvider Spec → DbaasProvider Spec → ClusterRole → DbaasProvider Spec
bridge_provider_cr instance_ provider role = record instance_ {
  owner_references = owner_of role ∷ [];
  labels = some provider_labels;
  spec = provider.spec;
}

module _ {S Spec : Type 0} (client : Client S Spec) where
  unfoldable pub decode : Result String × S → Result (DbaasProvider Spec) × S
  decode (err e, s) = (err e, s)
  decode (ok text, s) = elim (client.to_json text) [
    | err e ↦ (err e, s)
    | ok json ↦ (client.unmarshal json, s)
  ]

  unfoldable pub read_provider_cr_file : String → S → Result (DbaasProvider Spec) × S
  read_provider_cr_file file s = decode (client.read_file file s)

  unfoldable pub crd_found : String → Result (List String) × S → Result Bool × S
  crd_found kind (err e, s) = if is_not_found e then (ok false, s) else (err e, s)
  crd_found kind (ok kinds, s) = (ok (has_kind kind kinds), s)

  unfoldable pub check_crd_installed : String → String → S → Result Bool × S
  check_crd_installed group_version kind s = crd_found kind (client.server_kinds group_version s)

  -- The callback of CreateOrUpdate.
  unfoldable pub bridged :
      DbaasProvider Spec
      → ClusterRole
      → Result (DbaasProvider Spec) × S
      → Result (DbaasProvider Spec) × S
  bridged instance_ role (err e, s) = (err e, s)
  bridged instance_ role (ok provider, s) = (ok (bridge_provider_cr instance_ provider role), s)

  unfoldable pub mutate : ClusterRole → DbaasProvider Spec → S → Result (DbaasProvider Spec) × S
  mutate role instance_ s = bridged instance_ role (read_provider_cr_file client.file s)

  abbrev pub done : Reply
  done = record { requeue = false; error = none }

  abbrev pub failed : Error → Reply
  failed e = record { requeue = false; error = some e }

  abbrev pub new_provider : DbaasProvider Spec
  new_provider = record {
    name = provider_cr_name;
    owner_references = [];
    labels = none;
    spec = client.empty;
  }

  unfoldable pub registered : Result (DbaasProvider Spec) × S → Reply × S
  registered (err e, s) = (failed e, s)
  registered (ok _, s) = (done, s)

  -- Behind the list of the cluster roles.
  unfoldable pub register : Result (List ClusterRole) × S → Reply × S
  register (err e, s) = (failed e, s)
  register (ok [], s) = (
    failed (record {
      kind = not_found;
      message = "ClusterRole.rbac.authorization.k8s.io \"potentialOwner\" not found";
    }),
    s,
  )
  register (ok (role ∷ _), s) = registered (client.create_or_update new_provider (mutate role) s)

  unfoldable pub owner_labels : Environment → Dict String
  owner_labels env =
      ("olm.owner", env.operator_name_version) ∷ ("olm.owner.kind", "ClusterServiceVersion") ∷ []

  -- Behind the check of the CRD.
  unfoldable pub with_crd : Environment → Result Bool × S → Reply × S
  with_crd env (err e, s) = (failed e, s)
  with_crd env (ok false, s) = (record { requeue = true; error = none }, s)
  with_crd env (ok true, s) = register (client.list_cluster_roles (owner_labels env) s)

  -- Behind the read of the deployment.
  unfoldable pub with_deployment : Environment → Option Error × S → Reply × S
  with_deployment env (some e, s) = if is_not_found e then (done, s) else (failed e, s)
  with_deployment env (none, s) =
      with_crd env (check_crd_installed client.group_version provider_kind s)

  unfoldable pub reconcile : Environment → NamespacedName → S → Reply × S
  reconcile env request s = with_deployment env (client.get_deployment request s)
