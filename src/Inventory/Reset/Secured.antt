-- ===== src/Inventory/Reset/Secured.antt =====
-- What the second half of adoptDBInstances and adoptDBClusters does for a database.
use rds_dbaas_operator.Prelude.{
  String, ◌≡◌, refl, sym, ap, ◌∙◌, ◌⊎◌, inl, inr, true, false, Bool-cases, Option-cases, Option,
  none, some, is_some, [], Dict, lookup, arith,
}
use rds_dbaas_operator.K8s.{Error, Result, ok, err, lookup_nil, Secret, go}
use rds_dbaas_operator.RdsUtils.Credentials.{password_key, set_credentials}
use rds_dbaas_operator.RdsUtils.Passwords.{SecretLaws, set_credentials-present}
use rds_dbaas_operator.Inventory.Run.{Credentials, Run}
use rds_dbaas_operator.Inventory.Server.{Server, DatabaseClient, AwsDatabase}
use rds_dbaas_operator.Inventory.Database.{Database}
use rds_dbaas_operator.Inventory.Reset.{
  is_available, completed, is_incomplete, updated, complete, set_access, modified, with_credentials,
}

some_password :
    (m : Option (Dict String))
    → is_some (lookup password_key (elim m as (λ _. Dict String) [ none ↦ [] | some m ↦ m ])) ≡ true
    → (p : String) × (lookup_nil password_key m ≡ some p)
unfolding lookup
some_password none h = ground arith
some_password (some m) h = elim (Option-cases (lookup password_key m)) [
  | inl e ↦ ground arith
  | inr (p, e) ↦ (p, e)
]

module _ {S D : Type 0} (server : Server S) (database : Database D) (client : DatabaseClient S D)
    (c : Credentials) (run : Run) where
  -- What AWS knows of a database and its custom resource lacks is written, where there is any.
  pub record Completed (a : AwsDatabase) (d d' : D) (s t : S) : Type 0 where
    pub write :
        ((is_incomplete server database a d ≡ false) × (d ≡ d') × (s ≡ t))
        ⊎ ((is_incomplete server database a d ≡ true)
            × (client.update (completed server database a d) s ≡ (ok d', t)))

  -- The credentials are reset: a secret with a password is there, AWS has accepted the password
  -- for the database, and the custom resource with the reference to the secret is written.
  pub record Renewed (d : D) (s t : S) : Type 0 where
    pub secret : Secret
    pub password : String
    pub changed : D
    pub stored : D
    pub u : S
    pub v : S
    pub credentials :
        set_credentials server.secrets
          (database.meta d).name
          run.inventory.meta.namespace
          (some (record { name = (database.meta d).name; namespace = (database.meta d).namespace }))
          (database.kind d)
          (set_access server database client run.inventory.meta.namespace)
          (some d)
          s
        ≡ (some (ok (secret, some changed)), u)
    pub has_password : lookup_nil password_key secret.entries ≡ some password
    pub modified_aws : client.modify c (database.identifier changed) password u ≡ (none, v)
    pub written : client.update changed v ≡ (ok stored, t)

  -- A database that AWS lists, with its custom resource: completed, and then it has a password, or
  -- it is available and gets one.
  pub record Secured (a : AwsDatabase) (d : D) (s t : S) : Type 0 where
    pub d' : D
    pub u : S
    pub is_completed : Completed a d d' s u
    pub has_access :
        ((is_some (database.master_user_password d') ≡ true) × (u ≡ t))
        ⊎ ((database.master_user_password d' ≡ none)
            × (is_available (database.status d') ≡ true)
            × Renewed d' u t)

  updated-go :
      (x : Result D × S) {d : D} {t : S}
      → updated server database client run x ≡ (go d, t)
      → x ≡ (ok d, t)
  unfolding updated
  updated-go (ok d, s) h = ground arith
  updated-go (err e, s) h = ground arith

  pub complete-Completed :
      (a : AwsDatabase) (d : D) (s : S) {d' : D} {t : S}
      → complete server database client a d run s ≡ (go d', t)
      → Completed a d d' s t
  unfolding complete
  complete-Completed a d s {d' = d'} {t = t} h =
      elim (Bool-cases (is_incomplete server database a d)) [
        | inl lacks ↦ record { write = inr (lacks, updated-go _ {d = d'} {t = t} (ground arith)) }
        | inr whole ↦ record { write = inl (whole, ground arith, ground arith) }
      ]

  modified-go :
      (d : D) (x : Option Error × S) {d' : D} {t : S}
      → modified server database client run d x ≡ (go d', t)
      → (v : S) × (x ≡ (none, v)) × (client.update d v ≡ (ok d', t))
  unfolding modified
  modified-go d (some e, s) h = ground arith
  modified-go d (none, s) h = (s, refl, updated-go _ h)

  pub renew-Renewed :
      (laws : SecretLaws server.secrets) (d : D) (s : S)
      (x : Option (Result (Secret × Option D)) × S) {d' : D} {t : S}
      → set_credentials server.secrets
          (database.meta d).name
          run.inventory.meta.namespace
          (some (record { name = (database.meta d).name; namespace = (database.meta d).namespace }))
          (database.kind d)
          (set_access server database client run.inventory.meta.namespace)
          (some d)
          s
        ≡ x
      → with_credentials server database client c run x ≡ (go d', t)
      → Renewed d s t
  unfolding with_credentials
  renew-Renewed laws d s (none, u) ex h = ground arith
  renew-Renewed laws d s (some (err e), u) ex h = ground arith
  renew-Renewed laws d s (some (ok (secret, none)), u) ex h = ground arith
  renew-Renewed laws d s (some (ok (secret, some changed)), u) {d' = d'} ex h =
      let (v, e, e') = modified-go changed _ h in
      let (_, here) = set_credentials-present server.secrets laws _ _ _ _ _ (some d) s ex in
      let (p, has) = some_password secret.entries (ap is_some here) in
      record {
        secret = secret;
        password = p;
        changed = changed;
        stored = d';
        u = u;
        v = v;
        credentials = ex;
        has_password = has;
        modified_aws =
            ap
              (λ o.
                client.modify c (database.identifier changed) (elim o [ none ↦ "" | some p ↦ p ]) u)
              (sym has)
            ∙ e;
        written = e';
      }
