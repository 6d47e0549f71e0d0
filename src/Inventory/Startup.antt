-- ===== src/Inventory/Startup.antt =====
-- controllers/rdsinventory_controller.go: installCRD, readCRDFile, and what SetupWithManager does
-- before it registers the controller.
pub mod Started
use rds_dbaas_operator.Prelude.{String, true, Option, none, some}
use rds_dbaas_operator.K8s.{Error, Result, ok, err}
use rds_dbaas_operator.Inventory.Controller.{stop_rds_controller}
use rds_dbaas_operator.Inventory.Server.{Server, Mutate}
use rds_dbaas_operator.Inventory.Install.{create_or_update_secret, create_or_update_config_map}

-- apiextensionsv1.CustomResourceDefinition
pub record Crd (Spec : Type 0) : Type 0 where
  pub name : String
  pub spec : Spec

-- A new client, and CreateOrUpdate on definitions; the files are read, turned into JSON and
-- decoded; `path` is that of a file in RDSCRDFilePath, and `empty` the spec of a new object.
pub record CrdClient (S Spec : Type 0) : Type 0 where
  pub connect : S → Option Error × S
  pub create_or_update_crd : Crd Spec → Mutate (Crd Spec) → S → Result (Crd Spec) × S
  pub path : String → String
  pub read_file : String → S → Result String × S
  pub to_json : String → Result String
  pub unmarshal : String → Result (Crd Spec)
  pub empty : Spec

abbrev pub adopted_resource_crd_file : String
adopted_resource_crd_file = "services.k8s.aws_adoptedresources.yaml"

abbrev pub field_export_crd_file : String
field_export_crd_file = "services.k8s.aws_fieldexports.yaml"

-- `if err := …; err != nil { return err }`
abbrev pub and_then : {S : Type 0} → Option Error × S → (S → Option Error × S) → Option Error × S
and_then (some e, s) f = (some e, s)
and_then (none, s) f = f s

module _ {S Spec : Type 0} (client : CrdClient S Spec) where
  unfoldable pub decode : Result String × S → Result (Crd Spec) × S
  decode (err e, s) = (err e, s)
  decode (ok text, s) = elim (client.to_json text) [
    | err e ↦ (err e, s)
    | ok json ↦ (client.unmarshal json, s)
  ]

  unfoldable pub read_crd_file : String → S → Result (Crd Spec) × S
  read_crd_file file s = decode (client.read_file file s)

  -- `c.Spec = crd.Spec`
  unfoldable pub set_spec : Crd Spec → Mutate (Crd Spec)
  set_spec crd c = ok (record c { spec = crd.spec })

  unfoldable pub write_crd : Result (Crd Spec) × S → Option Error × S
  write_crd (err e, s) = (some e, s)
  write_crd (ok crd, s) =
      let (r, s') =
        client.create_or_update_crd (record { name = crd.name; spec = client.empty }) (set_spec crd)
          s in
      elim r [ ok _ ↦ (none, s') | err e ↦ (some e, s') ]

  unfoldable pub install_crd : String → S → Option Error × S
  install_crd file s = write_crd (read_crd_file file s)

  unfoldable pub set_up : Server S → S → Option Error × S
  set_up server s = and_then (client.connect s) (λ s.
      and_then (stop_rds_controller server.deployments server.namespace true server.retries s) (λ s.
        and_then (install_crd (client.path adopted_resource_crd_file) s) (λ s.
          and_then (install_crd (client.path field_export_crd_file) s) (λ s.
            and_then (create_or_update_secret server none s)
              (λ s. create_or_update_config_map server none s)))))
