-- ===== src/Main/Serving.antt =====
-- What has been set up when main ends without an error.
use mathlib.Core.Path.{subst}
use rds_dbaas_operator.Prelude.{
  Bool-cases, eq_iff, String, ◌==◌, ◌≡◌, not, Option, Option-cases, ◌⊎◌, inl, inr, none, some,
  arith, if◌then◌else◌,
}
use rds_dbaas_operator.Inventory.Server.{Server}
use rds_dbaas_operator.Inventory.Startup.{CrdClient, set_up}
use rds_dbaas_operator.Inventory.Startup.Started.{and_then-none, Started, set_up-Started}
use rds_dbaas_operator.Provider.{Environment, setup}
use rds_dbaas_operator.Main.{
  Flags, Manager, install_namespace_env_var, get_install_namespace, install_namespace, getenv,
  set_up_inventory, set_up_provider, set_up_webhooks, main,
}

module _ {S Spec : Type 0} (manager : Manager S) (crds : CrdClient S Spec) (server : Server S)
    (lookup_env : String → Option String) where
  -- The provider's controller is registered with both variables of the environment.
  pub record Registers (s t : S) : Type 0 where
    pub env : Environment
    pub namespace_set : lookup_env install_namespace_env_var ≡ some env.operator_install_namespace
    pub name_set : lookup_env "OPERATOR_CONDITION_NAME" ≡ some env.operator_name_version
    pub registers : manager.complete_provider env s ≡ (none, t)

  provider-Registers :
      (s : S) {t : S} → set_up_provider manager crds server lookup_env s ≡ (none, t) → Registers s t
  unfolding set_up_provider setup
  provider-Registers s h = elim (Option-cases (lookup_env "INSTALL_NAMESPACE")) [
    | inl e ↦ ground arith
    | inr (ns, e) ↦ elim (Option-cases (lookup_env "OPERATOR_CONDITION_NAME")) [
      | inl e' ↦ ground arith
      | inr (name, e') ↦ record {
        env = record { operator_install_namespace = ns; operator_name_version = name };
        namespace_set = e;
        name_set = e';
        registers = ground arith;
      }
    ]
  ]

  -- The webhook is set up unless the environment says "false".
  abbrev pub Admits : S → S → Type 0
  Admits s t =
      ((lookup_env "ENABLE_WEBHOOKS" ≡ some "false") × (s ≡ t))
      ⊎ (¬ (lookup_env "ENABLE_WEBHOOKS" ≡ some "false") × (manager.set_up_webhook s ≡ (none, t)))

  admits_by :
      (o : Option String) (s : S) {t : S}
      → (if not (getenv o == "false") then manager.set_up_webhook s else (none, s)) ≡ (none, t)
      → ((o ≡ some "false") × (s ≡ t))
        ⊎ (¬ (o ≡ some "false") × (manager.set_up_webhook s ≡ (none, t)))
  admits_by none s h = inr (λ e. ground (arith, e), h)
  admits_by (some value) s h = elim (Bool-cases (value == "false")) [
    | inl is_false ↦ inl (ground (arith, eq_iff value "false"), ground arith)
    | inr other ↦ inr (λ e. ground (arith, e, other, eq_iff value "false"), ground arith)
  ]

  webhooks-Admits :
      (s : S) {t : S} → set_up_webhooks manager crds server lookup_env s ≡ (none, t) → Admits s t
  unfolding set_up_webhooks
  webhooks-Admits s h = admits_by _ s h

  namespace_of :
      {ns : String}
      → lookup_env install_namespace_env_var ≡ some ns
      → install_namespace (get_install_namespace lookup_env) ≡ ns
  unfolding install_namespace get_install_namespace
  namespace_of e = ground arith

  -- What main has done, from state `s` to `t`.
  pub record Serving (flags : Flags) (s t : S) : Type 0 where
    pub created : S
    pub connected : S
    pub prepared : S
    pub inventories : S
    pub connections : S
    pub instances : S
    pub providers : S
    pub webhooks : S
    pub healthz : S
    pub readyz : S
    pub creates : manager.new_manager flags s ≡ (none, created)
    pub connects : manager.new_client_set created ≡ (none, connected)
    pub provider : Registers instances providers
    pub started :
        Started crds
          (record server {
            namespace = provider.env.operator_install_namespace;
            retries = flags.rds_controller_retries;
          })
          connected
          prepared
    pub inventory : manager.complete_inventory prepared ≡ (none, inventories)
    pub connection : manager.complete_connection inventories ≡ (none, connections)
    pub instance_registered : manager.complete_instance connections ≡ (none, instances)
    pub admits : Admits providers webhooks
    pub is_healthy : manager.add_healthz_check webhooks ≡ (none, healthz)
    pub is_ready : manager.add_readyz_check healthz ≡ (none, readyz)
    pub starts : manager.start readyz ≡ (none, t)

  -- Where main ends without an exit, every call of it has returned no error, in the order of the
  -- code. A missing INSTALL_NAMESPACE, which main itself only logs, has not been let through: the
  -- variable is set, the deployment of the RDS controller was stopped in the namespace that it
  -- names (SetupWithManager of the inventories), and the provider's controller has the same
  -- namespace. The webhook is set up unless ENABLE_WEBHOOKS is "false".
  pub main-Serving :
      (flags : Flags) (s : S) {t : S}
      → main manager crds server lookup_env flags s ≡ (none, t)
      → Serving flags s t
  unfolding main set_up_inventory
  main-Serving flags s h =
      let (a, e₁, h) = and_then-none (manager.new_manager flags s) _ h in
      let (b, e₂, h) = and_then-none (manager.new_client_set a) _ h in
      let (d, e₃, h) =
        and_then-none (set_up_inventory manager crds server lookup_env flags b) _ h in
      let (c, e₄, e₅) = and_then-none (set_up crds _ b) _ e₃ in
      let (e, e₆, h) = and_then-none (manager.complete_connection d) _ h in
      let (f, e₇, h) = and_then-none (manager.complete_instance e) _ h in
      let (g, e₈, h) = and_then-none (set_up_provider manager crds server lookup_env f) _ h in
      let (i, e₉, h) = and_then-none (set_up_webhooks manager crds server lookup_env g) _ h in
      let (j, e₁₀, h) = and_then-none (manager.add_healthz_check i) _ h in
      let (k, e₁₁, h) = and_then-none (manager.add_readyz_check j) _ h in
      let provider = provider-Registers f e₈ in
      record {
        created = a;
        connected = b;
        prepared = c;
        inventories = d;
        connections = e;
        instances = f;
        providers = g;
        webhooks = i;
        healthz = j;
        readyz = k;
        creates = e₁;
        connects = e₂;
        provider = provider;
        started = set_up-Started crds _ b (
            subst
              (λ ns.
                set_up crds
                  (record server { namespace = ns; retries = flags.rds_controller_retries }) b
                ≡ (none, c))
              (namespace_of provider.namespace_set) e₄);
        inventory = e₅;
        connection = e₆;
        instance_registered = e₇;
        admits = webhooks-Admits g e₉;
        is_healthy = e₁₀;
        is_ready = e₁₁;
        starts = h;
      }
