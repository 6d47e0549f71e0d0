-- ===== src/Provider/Filter.antt =====
-- Which events start the registration.
use rds_dbaas_operator.Prelude.{
  String, ◌≡◌, refl, ap, ◌∙◌, ◌↔◌, true, Option, none, some, eq_iff, eq_refl, arith,
}
use rds_dbaas_operator.K8s.{ObjectMeta, lookup_nil}
use rds_dbaas_operator.Provider.{
  Environment, Event, create, delete, update, generic, evaluate_predicate_object,
  ignore_other_deployments,
}

-- The creation of an object in the operator's namespace, which the operator's version owns.
pub record IsOwn (env : Environment) (event : Event) : Type 0 where
  pub obj : ObjectMeta
  pub created : event ≡ create obj
  pub here : obj.namespace ≡ env.operator_install_namespace
  pub kind : lookup_nil "olm.owner.kind" obj.labels ≡ some "ClusterServiceVersion"
  pub owner : lookup_nil "olm.owner" obj.labels ≡ some env.operator_name_version

sound_of :
    (k o : Option String) (env : Environment) (obj : ObjectMeta)
    → lookup_nil "olm.owner.kind" obj.labels ≡ k
    → lookup_nil "olm.owner" obj.labels ≡ o
    → evaluate_predicate_object env obj ≡ true
    → IsOwn env (create obj)
unfolding evaluate_predicate_object
sound_of none o env obj ek eo h = ground arith
sound_of (some k) none env obj ek eo h = ground arith
sound_of (some k) (some o) env obj ek eo h = record {
  obj = obj;
  created = refl;
  here = ground (arith, eq_iff obj.namespace env.operator_install_namespace);
  kind = ek ∙ ap some (ground (arith, eq_iff k "ClusterServiceVersion"));
  owner = eo ∙ ap some (ground (arith, eq_iff o env.operator_name_version));
}

sound :
    (env : Environment) (event : Event)
    → ignore_other_deployments env event ≡ true
    → IsOwn env event
unfolding ignore_other_deployments
sound env (create obj) h = sound_of _ _ env obj refl refl h
sound env (delete obj) h = ground arith
sound env (update obj) h = ground arith
sound env (generic obj) h = ground arith

complete :
    (env : Environment) (event : Event)
    → IsOwn env event
    → ignore_other_deployments env event ≡ true
unfolding ignore_other_deployments evaluate_predicate_object
complete env event o =
    ap (ignore_other_deployments env) o.created
    ∙ ground (
      arith,
      o.kind,
      o.owner,
      eq_iff o.obj.namespace env.operator_install_namespace,
      o.here,
      eq_refl env.operator_name_version,
    )

-- The filter lets exactly the creation of the operator's own deployment through: of an object in
-- the namespace that the environment names, which is owned by the operator's version.
pub ignore_other_deployments-IsOwn :
    (env : Environment) (event : Event)
    → (ignore_other_deployments env event ≡ true) ↔ IsOwn env event
ignore_other_deployments-IsOwn env event = (sound env event, complete env event)
