-- ===== src/Main.antt =====
-- main.go: the start of the operator, by the calls that its controllers make when they are set up.
pub mod Serving
use rds_dbaas_operator.Prelude.{
  ℕ, String, Bool, true, false, not, ◌==◌, Option, none, some, if◌then◌else◌,
}
use rds_dbaas_operator.K8s.{Error, errorf, Result, ok, err}
use rds_dbaas_operator.Inventory.Server.{Server}
use rds_dbaas_operator.Inventory.Startup.{CrdClient, and_then, set_up}
use rds_dbaas_operator.Provider.{Environment, setup}

-- The flags, where the retries are not negative. The interval of the retries is part of the
-- server's `sleep`.
pub record Flags : Type 0 where
  pub metrics_addr : String
  pub probe_addr : String
  pub enable_leader_election : Bool
  pub sync_period : String
  pub rds_controller_retries : ℕ

abbrev pub install_namespace_env_var : String
install_namespace_env_var = "INSTALL_NAMESPACE"

-- The calls of controller-runtime: the manager, which is part of the state, and its set-up. A
-- call `complete_…` registers a controller with its watches, the last call of its SetupWithManager.
pub record Manager (S : Type 0) : Type 0 where
  pub new_manager : Flags → S → Option Error × S
  pub new_client_set : S → Option Error × S
  pub complete_inventory : S → Option Error × S
  pub complete_connection : S → Option Error × S
  pub complete_instance : S → Option Error × S
  pub complete_provider : Environment → S → Option Error × S
  pub set_up_webhook : S → Option Error × S
  pub add_healthz_check : S → Option Error × S
  pub add_readyz_check : S → Option Error × S
  pub start : S → Option Error × S

unfoldable pub get_install_namespace : (String → Option String) → Result String
get_install_namespace lookup_env = elim (lookup_env install_namespace_env_var) [
  | none ↦ err (errorf "INSTALL_NAMESPACE must be set")
  | some ns ↦ ok ns
]

-- `installNamespace, err := getInstallNamespace()`, of which an error is only logged
unfoldable pub install_namespace : Result String → String
install_namespace (ok ns) = ns
install_namespace (err e) = ""

-- `os.Getenv`
abbrev pub getenv : Option String → String
getenv none = ""
getenv (some value) = value

module _ {S Spec : Type 0} (manager : Manager S) (crds : CrdClient S Spec) (server : Server S)
    (lookup_env : String → Option String) where
  -- The reconciler of inventories, and its SetupWithManager.
  abbrev pub inventory_server : Flags → Server S
  inventory_server flags = record server {
    namespace = install_namespace (get_install_namespace lookup_env);
    retries = flags.rds_controller_retries;
  }

  unfoldable pub set_up_inventory : Flags → S → Option Error × S
  set_up_inventory flags s =
      and_then (set_up crds (inventory_server flags) s) manager.complete_inventory

  -- SetupWithManager of the provider's reconciler.
  unfoldable pub set_up_provider : S → Option Error × S
  set_up_provider s = elim (setup lookup_env) [
    | err e ↦ (some e, s)
    | ok env ↦ manager.complete_provider env s
  ]

  unfoldable pub set_up_webhooks : S → Option Error × S
  set_up_webhooks s =
      if not (getenv (lookup_env "ENABLE_WEBHOOKS") == "false")
      then manager.set_up_webhook s
      else (none, s)

  -- main behind the flags: an error is an exit with code 1, and none the end of main.
  unfoldable pub main : Flags → S → Option Error × S
  main flags s = and_then (manager.new_manager flags s) (λ s.
      and_then (manager.new_client_set s) (λ s. and_then (set_up_inventory flags s) (λ s.
        and_then (manager.complete_connection s) (λ s. and_then (manager.complete_instance s) (λ s.
          and_then (set_up_provider s) (λ s. and_then (set_up_webhooks s) (λ s.
            and_then (manager.add_healthz_check s)
              (λ s. and_then (manager.add_readyz_check s) manager.start))))))))
