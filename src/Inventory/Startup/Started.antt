-- ===== src/Inventory/Startup/Started.antt =====
-- What is in place when the controller of inventories starts.
use rds_dbaas_operator.Prelude.{String, ◌≡◌, refl, Option, none, some, arith}
use rds_dbaas_operator.K8s.{Error, Result, ok, err}
use rds_dbaas_operator.Inventory.Controller.{Deployment, stop_rds_controller}
use rds_dbaas_operator.Inventory.Stopped.{Scaled, stop_rds_controller-Scaled}
use rds_dbaas_operator.Inventory.Server.{Server}
use rds_dbaas_operator.Inventory.Install.{create_or_update_secret, create_or_update_config_map}
use rds_dbaas_operator.Inventory.Startup.{
  Crd, CrdClient, adopted_resource_crd_file, field_export_crd_file, and_then, read_crd_file,
  set_spec, write_crd, install_crd, set_up,
}

pub and_then-none :
    {S : Type 0} (x : Option Error × S) (f : S → Option Error × S) {t : S}
    → and_then x f ≡ (none, t)
    → (u : S) × (x ≡ (none, u)) × (f u ≡ (none, t))
and_then-none (some e, s) f h = ground arith
and_then-none (none, s) f h = (s, refl, h)

module _ {S Spec : Type 0} (client : CrdClient S Spec) (server : Server S) where
  -- The definition of a file was read from state `s` and written, with `t` left.
  pub record Installed (file : String) (s t : S) : Type 0 where
    pub crd : Crd Spec
    pub written : Crd Spec
    pub u : S
    pub read : read_crd_file client file s ≡ (ok crd, u)
    pub wrote :
        client.create_or_update_crd
          (record { name = crd.name; spec = client.empty })
          (set_spec client crd)
          u
        ≡ (ok written, t)

  crd-Installed_of :
      (r : Result (Crd Spec)) (crd : Crd Spec) (file : String) (s u : S) {t : S}
      → (client.create_or_update_crd
          (record { name = crd.name; spec = client.empty })
          (set_spec client crd)
          u).0
        ≡ r
      → read_crd_file client file s ≡ (ok crd, u)
      → write_crd client (ok crd, u) ≡ (none, t)
      → Installed file s t
  unfolding write_crd
  crd-Installed_of (err x) crd file s u er e h = ground arith
  crd-Installed_of (ok c) crd file s u er e h = record {
    crd = crd;
    written = c;
    u = u;
    read = e;
    wrote = ground arith;
  }

  install-Installed_of :
      (x : Result (Crd Spec) × S) (file : String) (s : S) {t : S}
      → read_crd_file client file s ≡ x
      → write_crd client x ≡ (none, t)
      → Installed file s t
  unfolding write_crd
  install-Installed_of (err e, u) file s ex h = ground arith
  install-Installed_of (ok crd, u) file s {t = t} ex h = crd-Installed_of _ crd file s u refl ex h

  install-Installed :
      (file : String) (s : S) {t : S} → install_crd client file s ≡ (none, t) → Installed file s t
  unfolding install_crd
  install-Installed file s h = install-Installed_of _ file s refl h

  -- The RDS controller is stopped, the two definitions are installed, and the secret of the
  -- controller is written without a user's keys, one behind the other.
  pub record Started (s t : S) : Type 0 where
    pub connected : S
    pub scaled : S
    pub one_installed : S
    pub both_installed : S
    pub secret_written : S
    pub deployment : Deployment
    pub before : S
    pub connects : client.connect s ≡ (none, connected)
    pub stopped : Scaled server.deployments server.namespace deployment before scaled
    pub adopted_resources : Installed (client.path adopted_resource_crd_file) scaled one_installed
    pub field_exports : Installed (client.path field_export_crd_file) one_installed both_installed
    pub secret : create_or_update_secret server none both_installed ≡ (none, secret_written)
    pub settings : create_or_update_config_map server none secret_written ≡ (none, t)

  -- SetupWithManager registers the controller only where all of its calls have returned no error:
  -- the deployment of the RDS controller was found (and waited for) and has a number of replicas that is not positive, or
  -- was written with none; the definitions of adopted resources and of field exports were read
  -- from their files and written; and the secret and the configmap of the RDS controller were
  -- written without a user's credentials.
  pub set_up-Started : (s : S) {t : S} → set_up client server s ≡ (none, t) → Started s t
  unfolding set_up
  set_up-Started s h =
      let (a, e₁, h) = and_then-none (client.connect s) _ h in
      let (b, e₂, h) = and_then-none (stop_rds_controller _ _ _ _ a) _ h in
      let (c, e₃, h) = and_then-none (install_crd client _ b) _ h in
      let (d, e₄, h) = and_then-none (install_crd client _ c) _ h in
      let (e, e₅, h) = and_then-none (create_or_update_secret server none d) _ h in
      let (dep, u, scaled) =
        stop_rds_controller-Scaled server.deployments server.namespace _ _ a e₂ in
      record {
        connected = a;
        scaled = b;
        one_installed = c;
        both_installed = d;
        secret_written = e;
        deployment = dep;
        before = u;
        connects = e₁;
        stopped = scaled;
        adopted_resources = install-Installed _ b e₃;
        field_exports = install-Installed _ c e₄;
        secret = e₅;
        settings = h;
      }
