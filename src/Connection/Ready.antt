-- ===== src/Connection/Ready.antt =====
-- What a connection that became ready rests on: the calls that were made, in their order, and what
-- they answered.
use mathlib.Core.Path.{subst}
use rds_dbaas_operator.Prelude.{
  String, ◌≡◌, ◌≢◌, refl, ◌∙◌, ap, true, false, ◌==◌, Option, none, some, is_some, Bool-cases, inl,
  inr, arith, eq_iff,
}
use rds_dbaas_operator.K8s.{Secret, SecretKeyReference, Step, go, Result, ok, err}
use rds_dbaas_operator.K8s.Steps.{continue-go}
use rds_dbaas_operator.Crd.{RdsConnection, RdsInventory}
use rds_dbaas_operator.Connection.Run.{Client, Run, DbService, cluster, instance_, return_ready}
use rds_dbaas_operator.Connection.Service.{
  check_db_service_status, open_service, opened, check_available, find_service, type_or_instance,
  is_available, wants_cluster, get_db_service,
}
use rds_dbaas_operator.Connection.Access.{
  Access, access_of, check_db_connection_status, check_secret, read_password, check_access,
  password_at,
}
use rds_dbaas_operator.Connection.Sync.{sync_connection_status}
use rds_dbaas_operator.Connection.Reconcile.{handlers, get_ready_inventory, inventory_ready}

-- The status that the database service reports.
abbrev pub status_of : DbService → Option String
status_of (cluster c) = c.status.status
status_of (instance_ i) = i.status.db_instance_status

module _ {S : Type 0} (client : Client S) (c : RdsConnection) where
  -- The reads behind a ready connection, from the state `s` to the state `t` in which its secret
  -- and its configmap are written.
  pub record Reads (s t : S) : Type 0 where
    pub inventory : RdsInventory
    pub s₁ : S
    pub s₂ : S
    pub service_name : String
    pub service : DbService
    pub ref : SecretKeyReference
    pub secret : Secret
    pub got_inventory : client.get_inventory c.inventory_ref s ≡ (ok inventory, s₁)
    pub is_ready : inventory_ready client inventory ≡ true
    pub listed :
        find_service c.database_service_id
          (type_or_instance c.database_service_type)
          inventory.database_services
        ≡ some service_name
    pub got_service :
        get_db_service client
          (wants_cluster c.database_service_type)
          (record { namespace = c.inventory_ref.namespace; name = service_name })
          s₁
        ≡ (ok service, s₂)
    pub available : status_of service ≡ some "available"
    pub has_ref : (access_of service).password_secret ≡ some ref
    pub got_secret :
        client.get_secret (record { namespace = ref.namespace; name = ref.name }) s₂
        ≡ (ok secret, t)
    pub has_password : password_at ref.key secret ≢ ""
    pub has_username : is_some (access_of service).username ≡ true
    pub has_host : is_some (access_of service).host ≡ true
    pub has_port : is_some (access_of service).port ≡ true

available_lem : (o : Option String) → is_available o ≡ true → o ≡ some "available"
available_lem none h = ground arith
available_lem (some t) h = ap some ((eq_iff t "available").0 h)

not_blank : (t : String) → (t == "") ≡ false → t ≢ ""
not_blank t h e = ground (arith, eq_iff t "")

module _ {S : Type 0} (client : Client S) where
  get_ready_inventory-go :
      (run : Run) (s : S) {inventory : RdsInventory} {t : S}
      → get_ready_inventory client run s ≡ (go inventory, t)
      → (client.get_inventory run.connection.inventory_ref s ≡ (ok inventory, t))
        × (inventory_ready client inventory ≡ true)
  unfolding get_ready_inventory
  get_ready_inventory-go run s h = ground arith

  check_available-go :
      (service : DbService) (run : Run) (s : S) {service' : DbService} {t : S}
      → check_available client service run s ≡ (go service', t)
      → (service ≡ service') × (s ≡ t) × (status_of service ≡ some "available")
  unfolding check_available
  check_available-go (cluster c) run s h = ground (arith, available_lem c.status.status)
  check_available-go (instance_ i) run s h =
      ground (arith, available_lem i.status.db_instance_status)

  check_access-go :
      (access : Access) (run : Run) (s : S) {t : S}
      → check_access client access run s ≡ (go tt, t)
      → (s ≡ t)
        × (is_some access.username ≡ true)
        × (is_some access.host ≡ true)
        × (is_some access.port ≡ true)
  unfolding check_access
  check_access-go access run s h = ground arith

  read_password-go_of :
      (r : Result Secret) (access : Access) (ref : SecretKeyReference) (run : Run) (s : S)
      {password : String} {t : S}
      → (client.get_secret (record { namespace = ref.namespace; name = ref.name }) s).0 ≡ r
      → read_password client access ref run s ≡ (go password, t)
      → (secret : Secret) × (client.get_secret
            (record { namespace = ref.namespace; name = ref.name })
            s
          ≡ (ok secret, t))
        × (password ≡ password_at ref.key secret)
        × (password_at ref.key secret ≢ "")
  unfolding read_password
  read_password-go_of (err e) access ref run s er h = ground arith
  read_password-go_of (ok secret) access ref run s er h =
      elim (Bool-cases (password_at ref.key secret == "")) [
        | inl blank ↦ ground arith
        | inr filled ↦ (secret, ground arith, ground arith, not_blank _ filled)
      ]

  check_secret-go :
      (access : Access) (ref : SecretKeyReference) (run : Run) (s : S) {found : Access × String}
      {t : S}
      → check_secret client access ref run s ≡ (go found, t)
      → (secret : Secret) × (client.get_secret
            (record { namespace = ref.namespace; name = ref.name })
            s
          ≡ (ok secret, t))
        × (password_at ref.key secret ≢ "")
        × (is_some access.username ≡ true)
        × (is_some access.host ≡ true)
        × (is_some access.port ≡ true)
        × (found ≡ (access, password_at ref.key secret))
  unfolding check_secret
  check_secret-go access ref run s {found} {t} h =
      let (password, u, e, h') = continue-go _ _ h in
      let (_, v, e', h'') = continue-go _ _ h' in
      let (secret, got, same, filled) = read_password-go_of _ access ref run s refl e in
      let (stays, user, host, port) = check_access-go access run u e' in
      (
        secret,
        got
            ∙ ap (λ (w : S). (ok secret, w))
                (stays ∙ ap (λ (x : Step Run (Access × String) × S). x.1) h''),
        filled,
        user,
        host,
        port,
        ground (arith, same, h''),
      )

  -- The password is read behind the reference, and the rest is checked behind the password.
  check_db_connection_status-go :
      (service : DbService) (run : Run) (s : S) {found : Access × String} {t : S}
      → check_db_connection_status client service run s ≡ (go found, t)
      → (ref : SecretKeyReference) × ((access_of service).password_secret ≡ some ref)
        × (check_secret client (access_of service) ref run s ≡ (go found, t))
  unfolding check_db_connection_status
  check_db_connection_status-go service run s h = ground arith

  opened-go :
      (x : Result DbService × S) (run : Run) {service : DbService} {t : S}
      → opened client x run ≡ (go service, t)
      → (x ≡ (ok service, t)) × (status_of service ≡ some "available")
  unfolding opened
  opened-go (err e, s) run h = ground arith
  opened-go (ok service', s) run {service} {t} h =
      let (same, stays, available) = check_available-go service' run s h in
      (ground (arith, same, stays), subst (λ x. status_of x ≡ some "available") same available)

  check_db_service_status-go :
      (inventory : RdsInventory) (run : Run) (s : S) {service : DbService} {t : S}
      → check_db_service_status client inventory run s ≡ (go service, t)
      → (service_name : String) × (find_service run.connection.database_service_id
            (type_or_instance run.connection.database_service_type)
            inventory.database_services
          ≡ some service_name)
        × (open_service client service_name run s ≡ (go service, t))
  unfolding check_db_service_status
  check_db_service_status-go inventory run s h = ground arith

  -- A reconciliation that reaches its end, where the connection becomes ready, has read a ready
  -- inventory that lists a service of the connection's identifier and type, that service with the
  -- status "available", a secret that holds a non-empty master password under the service's
  -- reference, and the service's user name, host and port; these calls were made in this order,
  -- and the secret and the configmap are written from the state that they left.
  pub handlers-Reads :
      (run : Run) (s : S) {run' : Run} {u : S}
      → handlers client run s ≡ (go run', u)
      → (t : S) × Reads client run.connection s t
        × ((password : String) × (access : Access) × (run'' : Run) × (sync_connection_status client
                access password run t
              ≡ (go run'', u))
            × (run' ≡ return_ready run''))
  unfolding handlers open_service
  handlers-Reads run s h =
      let (inventory, s₁, e₁, h₁) = continue-go _ _ h in
      let (service, s₂, e₂, h₂) = continue-go _ _ h₁ in
      let (found, t, e₃, h₃) = continue-go _ _ h₂ in
      let (run'', u', e₄, h₄) = continue-go _ (λ x x'. (go (return_ready x), x')) h₃ in
      let (got_inventory, is_ready) = get_ready_inventory-go run s e₁ in
      let (service_name, listed, opened_) = check_db_service_status-go inventory run s₁ e₂ in
      let (got_service, available) = opened-go _ run opened_ in
      let (ref, has_ref, checked) = check_db_connection_status-go service run s₂ e₃ in
      let (secret, got_secret, filled, user, host, port, _) =
        check_secret-go (access_of service) ref run s₂ checked in
      (
        t,
        record {
          inventory = inventory;
          s₁ = s₁;
          s₂ = s₂;
          service_name = service_name;
          service = service;
          ref = ref;
          secret = secret;
          got_inventory = got_inventory;
          is_ready = is_ready;
          listed = listed;
          got_service = got_service;
          available = available;
          has_ref = has_ref;
          got_secret = got_secret;
          has_password = filled;
          has_username = user;
          has_host = host;
          has_port = port;
        },
        (found.1, found.0, run'', ground (arith, e₄, h₄), ground (arith, h₄)),
      )
