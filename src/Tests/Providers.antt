-- ===== src/Tests/Providers.antt =====
-- The theorems on the registration of the operator, at a server with one cluster role.
use rds_dbaas_operator.Prelude.{String, ◌≡◌, refl, ◌⊎◌, ◌↔◌, true, none, some, [], ◌∷◌, arith}
use rds_dbaas_operator.K8s.{Error, ObjectMeta, ok, new_meta, is_not_found, NamespacedName}
use rds_dbaas_operator.Provider.{
  Environment, create, Client, done, ignore_other_deployments, reconcile, with_deployment, with_crd,
  check_crd_installed, crd_found, has_kind, register, registered, mutate, bridged,
  read_provider_cr_file, decode,
}
use rds_dbaas_operator.Provider.Filter.{IsOwn, ignore_other_deployments-IsOwn}
use rds_dbaas_operator.Provider.Registered.{Applies, Registered, reconcile-Registered}

abbrev env : Environment
env = record { operator_install_namespace = "operators"; operator_name_version = "rds.v1" }

abbrev request : NamespacedName
request = record { namespace = "operators"; name = "manager" }

-- The spec of a provider is a text, which the file has.
abbrev test_client : Client (Unit {0}) String
test_client = record {
  get_deployment = λ key s. (none, s);
  group_version = "dbaas.redhat.com/v1beta1";
  server_kinds = λ v s. (ok ("DBaaSInventory" ∷ "DBaaSProvider" ∷ []), s);
  list_cluster_roles = λ labels s. (ok (record { uid = "1"; name = "manager" } ∷ []), s);
  create_or_update = λ p f s. f p s;
  file = "rds_registration.yaml";
  read_file = λ file s. (ok "spec", s);
  to_json = λ text. ok text;
  unmarshal = λ text. ok (record { name = ""; owner_references = []; labels = none; spec = text });
  empty = "";
}

test_client-Applies : Applies test_client
test_client-Applies = record {
  create_or_update-applies = λ p f s {q = q} {t = t} h. (p, s, ground arith);
}

is_done : reconcile test_client env request tt ≡ (done test_client, tt)
unfolding reconcile with_deployment with_crd check_crd_installed crd_found has_kind register
    registered mutate bridged read_provider_cr_file decode
is_done = refl

reconcile-Registered_example :
    ((e : Error) × (test_client.get_deployment request tt ≡ (some e, tt)) × (is_not_found e ≡ true))
    ⊎ (((test_client.get_deployment request tt).0 ≡ none) × Registered test_client env tt)
reconcile-Registered_example =
    reconcile-Registered test_client env request tt test_client-Applies is_done (refl, refl)

abbrev own : ObjectMeta
own = record (new_meta "manager" "operators") {
  labels = some (("olm.owner.kind", "ClusterServiceVersion") ∷ ("olm.owner", "rds.v1") ∷ []);
}

ignore_other_deployments-IsOwn_example :
    (ignore_other_deployments env (create own) ≡ true) ↔ IsOwn env (create own)
ignore_other_deployments-IsOwn_example = ignore_other_deployments-IsOwn env (create own)
